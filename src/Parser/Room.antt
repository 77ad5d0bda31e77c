-- ===== src/Parser/Room.antt =====
-- DCCEXParser.cpp: how many values the scan can write to the array of parameters.
use command_station_ex_la_bo.Parser.{
  Move, Split, again, found, onward, malformed, ended, out_of_fuel, broken,
}
use command_station_ex_la_bo.Prelude.{ℕ, ◌≤◌, ◌≡◌, List, length, ◌⊎◌, ◌++◌, ◌∷◌, []}

-- At most ten values, or nine and the two of a text.
abbrev pub Stored : List ℕ → Type 0
Stored vs =
    (length vs ≤ 10)
    ⊎ ((nine : List ℕ) × (place : ℕ) × (length nine ≡ 9) × (vs ≡ nine ++ 0x7777 ∷ place ∷ []))

-- What a scan that ends, with a number or with -1, has stored.
abbrev pub Fits : Split → Type 0
Fits (found params buffer) = Stored params
Fits (malformed params) = Stored params
Fits out_of_fuel = ⊥

abbrev HandsOn : Move → Type 0
HandsOn (again s) = Stored s.params
HandsOn (onward s) = Stored s.params
HandsOn (broken s) = Stored s.params
HandsOn (ended s) = Stored s.params
