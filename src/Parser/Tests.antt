-- ===== src/Parser/Tests.antt =====
-- Concrete commands, and the values that KeywordHasher.h asserts.
use command_station_ex_la_bo.Parser.Printed.{printed, parameters_from, overwritten}
use command_station_ex_la_bo.Parser.Fuel.{split_values_ends}
use command_station_ex_la_bo.Parser.Commands.{parse_one-printed}
use command_station_ex_la_bo.Parser.Values.{Value, Writable, word}
use command_station_ex_la_bo.Parser.{
  compiletime_keyword_hasher, parse_one, split_values, scan, out_of_fuel, turn, command, built,
  behind_byte, malformed, found,
}
use command_station_ex_la_bo.Prelude.{
  ℕ, ◌-◌, ◌≡◌, refl, ◌≢◌, inl, inr, true, false, List, [], ◌∷◌, arith, inr, All, ◌++◌,
}

main_hash : compiletime_keyword_hasher (77 ∷ 65 ∷ 73 ∷ 78 ∷ []) 0 ≡ 11339
unfolding compiletime_keyword_hasher
main_hash = refl

slow_hash : compiletime_keyword_hasher (83 ∷ 76 ∷ 79 ∷ 87 ∷ []) 0 ≡ 65536 - 17209
unfolding compiletime_keyword_hasher
slow_hash = refl

speed28_hash : compiletime_keyword_hasher (83 ∷ 80 ∷ 69 ∷ 69 ∷ 68 ∷ 50 ∷ 56 ∷ []) 0 ≡ 65536 - 17064
unfolding compiletime_keyword_hasher
speed28_hash = refl

speed128_hash : compiletime_keyword_hasher (83 ∷ 80 ∷ 69 ∷ 69 ∷ 68 ∷ 49 ∷ 50 ∷ 56 ∷ []) 0 ≡ 25816
unfolding compiletime_keyword_hasher
speed128_hash = refl

-- <t 3 -12 main>
abbrev throttle : List Value
throttle =
    word false (51 ∷ []) ∷ word true (49 ∷ 50 ∷ []) ∷ word false (109 ∷ 97 ∷ 105 ∷ 110 ∷ []) ∷ []

throttle_command :
    parse_one (60 ∷ 116 ∷ 32 ∷ 51 ∷ 32 ∷ 45 ∷ 49 ∷ 50 ∷ 32 ∷ 109 ∷ 97 ∷ 105 ∷ 110 ∷ 62 ∷ [])
    ≡ command 116 (3 ∷ 65524 ∷ 11339 ∷ []) (
        behind_byte (
          behind_byte
            (60 ∷ 116 ∷ 32 ∷ 51 ∷ 32 ∷ 45 ∷ 49 ∷ 50 ∷ 32 ∷ 109 ∷ 97 ∷ 105 ∷ 110 ∷ 0 ∷ [])))
unfolding parse_one split_values scan turn built
throttle_command = refl

-- Nine numbers and a text store eleven values, also where the text has no end and the answer is -1.
abbrev nine_numbers : List ℕ
nine_numbers =
    32 ∷ 49 ∷ 32 ∷ 50 ∷ 32 ∷ 51 ∷ 32 ∷ 52 ∷ 32 ∷ 53 ∷ 32 ∷ 54 ∷ 32 ∷ 55 ∷ 32 ∷ 56 ∷ 32 ∷ 57 ∷ []

eleven_stored :
    split_values false (nine_numbers ++ 32 ∷ 34 ∷ 34 ∷ [])
    ≡ found
        (1 ∷ 2 ∷ 3 ∷ 4 ∷ 5 ∷ 6 ∷ 7 ∷ 8 ∷ 9 ∷ 0x7777 ∷ 21 ∷ [])
        (nine_numbers ++ 32 ∷ 34 ∷ 34 ∷ [])
unfolding split_values scan turn built
eleven_stored = refl

refused_text : split_values false (32 ∷ 53 ∷ 32 ∷ 34 ∷ 65 ∷ []) ≡ malformed (5 ∷ 0x7777 ∷ 5 ∷ [])
unfolding split_values scan turn built
refused_text = refl

throttle-Writable : All (Writable false) throttle
throttle-Writable = ((refl, tt), ((refl, (refl, tt)), ((refl, (refl, (refl, (refl, tt)))), tt)))

parse_one-printed_example :
    parse_one (60 ∷ 116 ∷ printed throttle [])
    ≡ command 116 (parameters_from false 1 throttle) (overwritten throttle [])
parse_one-printed_example =
    parse_one-printed (60 ∷ []) 116 throttle [] (inl refl, tt)
      (λ b. elim b as (λ b. ⊥) [
        | inl e ↦ absurd (omega (arith, e))
        | inr e ↦ absurd (omega (arith, e))
      ])
      (omega arith) throttle-Writable

split_values_ends_example : split_values false (32 ∷ 34 ∷ 65 ∷ []) ≢ out_of_fuel
split_values_ends_example = split_values_ends false (32 ∷ 34 ∷ 65 ∷ [])
