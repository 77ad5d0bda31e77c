-- ===== src/Parser/Printed.antt =====
-- DCCEXParser.cpp: the scan of all the parameters of a command that is written out.
use command_station_ex_la_bo.Parser.Fuel.{Gives, turn-Gives, Gives-split}
use command_station_ex_la_bo.Parser.Words.{Stops, building-Gives, quoted-Gives}
use command_station_ex_la_bo.Parser.Values.{
  spells, Value, kept, parameters, places, Writable, spelled, word, at, quoted, meant,
}
use command_station_ex_la_bo.Parser.{
  space, turn, closing, Split, quote, max_params, minus, byte_at, split_values, signing, skipping,
  found, again, onward, ended, building, text,
}
use command_station_ex_la_bo.Prelude.{
  ℕ, suc, ◌+◌, ◌<◌, ◌≡◌, refl, sym, ap, ap₂, ◌∙◌, subst, ◌≢◌, inl, inr, Bool, true, false, List, [],
  ◌∷◌, ◌++◌, append-nil, append_assoc, arith, length, length-append, inr, All,
}

-- What a byte must not be, for a parameter to begin with it.
abbrev pub Begins : ℕ → Type 0
Begins c = (c ≢ space) × (c ≢ 0) × (c ≢ closing)

begun-Gives :
    (usehex : Bool) (c : ℕ) (rest ps : List ℕ) (r place : ℕ) (negative : Bool) (b : List ℕ)
    (result : Split)
    → length ps < max_params
    → Begins c
    → Gives usehex (c ∷ rest) (at signing ps r negative (place + 1) (b ++ (space ∷ []))) result
    → Gives usehex (space ∷ c ∷ rest) (at skipping ps r negative place b) result
unfolding turn
begun-Gives usehex c rest ps r place negative b result room (s, z, g) k =
    turn-Gives usehex (space ∷ c ∷ rest) (at skipping ps r negative place b)
      (onward (at skipping ps r negative (place + 1) (b ++ (space ∷ [])))) result room refl
      (turn-Gives usehex (c ∷ rest) (at skipping ps r negative (place + 1) (b ++ (space ∷ [])))
        (again (at signing ps r negative (place + 1) (b ++ (space ∷ [])))) result room step k)
  where
    step :
        turn usehex c (at skipping ps r negative (place + 1) (b ++ (space ∷ []))) skipping
        ≡ again (at signing ps r negative (place + 1) (b ++ (space ∷ [])))
    step = ground (arith, s, z, g)

unsigned_spelled :
    (usehex : Bool) (c : ℕ) → spells usehex c ≡ true → Begins c × (c ≢ quote) × (c ≢ minus)
unsigned_spelled true c h = ground (arith, h)
unsigned_spelled false c h = ground (arith, h)

-- One parameter with the space before it.
pub value-Gives :
    (usehex : Bool) (v : Value) (rest ps : List ℕ) (r place : ℕ) (negative : Bool) (b : List ℕ)
    (result : Split)
    → length ps + places v < max_params
    → Writable usehex v
    → Stops (byte_at rest)
    → ((r : ℕ) (negative : Bool)
        → Gives usehex rest
            (at skipping
              (ps ++ parameters usehex place v)
              r
              negative
              (place + 1 + length (spelled v))
              (b ++ (space ∷ kept v)))
            result)
    → Gives usehex (space ∷ (spelled v ++ rest)) (at skipping ps r negative place b) result
unfolding turn
value-Gives usehex (word true []) rest ps r place negative b result room h stop g = absurd h
value-Gives usehex (word false []) rest ps r place negative b result room h stop g = absurd h
value-Gives usehex (word true (c ∷ w)) rest ps r place negative b result room h stop g =
    begun-Gives usehex minus ((c ∷ w) ++ rest) ps r place negative b result (omega (arith, room))
      (
        (λ e. absurd (omega (arith, e))),
        (λ e. absurd (omega (arith, e))),
        (λ e. absurd (omega (arith, e))),
      )
      (turn-Gives usehex (minus ∷ ((c ∷ w) ++ rest))
        (at signing ps r negative (place + 1) (b ++ (space ∷ [])))
        (onward (at building ps 0 true (place + 1 + 1) ((b ++ (space ∷ [])) ++ (minus ∷ []))))
        result (omega (arith, room)) refl
        (building-Gives usehex (c ∷ w) rest ps (place + 1 + 1) true
          ((b ++ (space ∷ [])) ++ (minus ∷ [])) result (omega (arith, room)) h stop
          (subst (λ s. Gives usehex rest s result)
            (ap₂
              (at skipping (ps ++ parameters usehex place (word true (c ∷ w)))
                (meant usehex (c ∷ w)) true)
              {x = place + 1 + suc (length (c ∷ w))} {y = place + 1 + 1 + length (c ∷ w)}
              (omega arith)
              (sym (
                append_assoc (b ++ (space ∷ [])) (minus ∷ []) (c ∷ w)
                ∙ append_assoc b (space ∷ []) (minus ∷ c ∷ w))))
            (g (meant usehex (c ∷ w)) true))))
value-Gives usehex (word false (c ∷ w)) rest ps r place negative b result room h stop g =
    let first = unsigned_spelled usehex c (h.0) in
    begun-Gives usehex c (w ++ rest) ps r place negative b result (omega (arith, room)) (first.0) (
      turn-Gives usehex ((c ∷ w) ++ rest) (at signing ps r negative (place + 1) (b ++ (space ∷ [])))
        (again (at building ps 0 false (place + 1) (b ++ (space ∷ [])))) result
        (omega (arith, room)) (ground (arith, first))
        (building-Gives usehex (c ∷ w) rest ps (place + 1) false (b ++ (space ∷ [])) result
          (omega (arith, room)) h stop
          (subst (λ s. Gives usehex rest s result)
            (ap
              (at skipping (ps ++ parameters usehex place (word false (c ∷ w)))
                (meant usehex (c ∷ w)) false (place + 1 + length (c ∷ w)))
              (sym (append_assoc b (space ∷ []) (c ∷ w))))
            (g (meant usehex (c ∷ w)) false))))
value-Gives usehex (quoted t) rest ps r place negative b result room h stop g =
    begun-Gives usehex quote ((t ++ (quote ∷ [])) ++ rest) ps r place negative b result
      (omega (arith, room))
      (
        (λ e. absurd (omega (arith, e))),
        (λ e. absurd (omega (arith, e))),
        (λ e. absurd (omega (arith, e))),
      )
      (turn-Gives usehex (quote ∷ ((t ++ (quote ∷ [])) ++ rest))
        (at signing ps r negative (place + 1) (b ++ (space ∷ [])))
        (onward (at text ps' r negative (place + 1 + 1) ((b ++ (space ∷ [])) ++ (quote ∷ []))))
        result (omega (arith, room)) refl
        (quoted-Gives usehex t rest ps' r (place + 1 + 1) negative
          ((b ++ (space ∷ [])) ++ (quote ∷ [])) result
          (omega (arith, room, length-append ps (parameters usehex place (quoted t)))) h
          (subst (λ s. Gives usehex rest s result)
            (ap₂ (at skipping ps' r negative) {x = place + 1 + suc (length (t ++ (quote ∷ [])))}
              {y = place + 1 + 1 + length (t ++ (quote ∷ []))} (omega arith)
              (sym (
                append_assoc (b ++ (space ∷ [])) (quote ∷ []) (t ++ (0 ∷ []))
                ∙ append_assoc b (space ∷ []) (quote ∷ (t ++ (0 ∷ []))))))
            (g r negative))))
  where
    ps' : List ℕ
    ps' = ps ++ parameters usehex place (quoted t)

-- A command's parameters, each behind a space, up to the end of the command.
abbrev pub printed : List Value → List ℕ → List ℕ
printed [] rest = closing ∷ rest
printed (v ∷ vs) rest = space ∷ (spelled v ++ printed vs rest)

-- The buffer that the scan leaves.
abbrev pub overwritten : List Value → List ℕ → List ℕ
overwritten [] rest = 0 ∷ rest
overwritten (v ∷ vs) rest = space ∷ (kept v ++ overwritten vs rest)

abbrev pub parameters_from : Bool → ℕ → List Value → List ℕ
parameters_from usehex place [] = []
parameters_from usehex place (v ∷ vs) =
    parameters usehex place v ++ parameters_from usehex (place + 1 + length (spelled v)) vs

abbrev pub all_places : List Value → ℕ
all_places [] = 0
all_places (v ∷ vs) = places v + all_places vs

printed-Stops : (vs : List Value) (rest : List ℕ) → Stops (byte_at (printed vs rest))
printed-Stops [] rest = inr refl
printed-Stops (v ∷ vs) rest = inl refl

pub length-parameters :
    (usehex : Bool) (place : ℕ) (v : Value) → length (parameters usehex place v) ≡ places v
length-parameters usehex place (word negative w) = refl
length-parameters usehex place (quoted t) = refl

values-Gives :
    (usehex : Bool) (vs : List Value) (rest ps : List ℕ) (r place : ℕ) (negative : Bool)
    (b : List ℕ)
    → length ps + all_places vs < max_params
    → All (Writable usehex) vs
    → Gives usehex
        (printed vs rest)
        (at skipping ps r negative place b)
        (found (ps ++ parameters_from usehex place vs) (b ++ overwritten vs rest))
unfolding turn
values-Gives usehex [] rest ps r place negative b room h =
    turn-Gives usehex (closing ∷ rest) (at skipping ps r negative place b)
      (ended (at skipping ps r negative (place + 1) (b ++ (0 ∷ []))))
      (found (ps ++ []) (b ++ (0 ∷ rest))) (omega (arith, room)) refl
      (0, ap₂ found (sym (append-nil ps)) (append_assoc b (0 ∷ []) rest))
values-Gives usehex (v ∷ vs) rest ps r place negative b room (h, hs) =
    value-Gives usehex v (printed vs rest) ps r place negative b
      (found (ps ++ parameters_from usehex place (v ∷ vs)) (b ++ overwritten (v ∷ vs) rest))
      (omega (arith, room)) h (printed-Stops vs rest)
      (λ r negative.
        let ps' = ps ++ parameters usehex place v in
        let size = length-append ps (parameters usehex place v) in
        subst
          (Gives usehex (printed vs rest)
            (at skipping ps' r negative (place + 1 + length (spelled v)) (b ++ (space ∷ kept v))))
          (ap₂ found
            (append_assoc ps (parameters usehex place v)
              (parameters_from usehex (place + 1 + length (spelled v)) vs))
            (append_assoc b (space ∷ kept v) (overwritten vs rest)))
          (values-Gives usehex vs rest ps' r (place + 1 + length (spelled v)) negative
            (b ++ (space ∷ kept v)) (omega (arith, room, size, length-parameters usehex place v))
            hs))

-- The parameters that a command writes out, each behind a space, are the ones that are read, as long as they need no more than
-- nine places: a number in base 16, or with the numbers in base 10 the hash that the compiler gives
-- for the word in capitals, each with its sign, and for a text the mark 0x7777 with the place of its
-- first byte. In the buffer, only the closing quotes and the end of the command are overwritten, with 0.
pub split_values-printed :
    (usehex : Bool) (vs : List Value) (rest : List ℕ)
    → all_places vs < max_params
    → All (Writable usehex) vs
    → split_values usehex (printed vs rest)
      ≡ found (parameters_from usehex 1 vs) (overwritten vs rest)
split_values-printed usehex vs rest room h =
    Gives-split usehex (printed vs rest) (found (parameters_from usehex 1 vs) (overwritten vs rest))
      (λ e. cc) (values-Gives usehex vs rest [] 0 1 false [] (omega (arith, room)) h)
