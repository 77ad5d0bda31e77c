-- ===== src/Parser/Words.antt =====
-- DCCEXParser.cpp: the scan goes along the bytes of one word or text.
use command_station_ex_la_bo.Parser.Fuel.{Gives, turn-Gives}
use command_station_ex_la_bo.Parser.{
  turn, space, built, Split, closing, max_params, quote, byte_at, building, text, skipping, onward,
  signed, build, again, push,
}
use command_station_ex_la_bo.Parser.Values.{
  value, spells, at, next, meant, built_spelled, value-meant,
}
use command_station_ex_la_bo.Prelude.{
  ℕ, suc, ◌+◌, ◌<◌, ◌≡◌, refl, sym, ap, ap₂, subst, ◌≢◌, ◌⊎◌, inl, inr, Bool, true, false, none,
  List, [], ◌∷◌, ◌++◌, append-nil, append_assoc, arith, length, length-append, inr, All,
}

-- The bytes of a word are left behind.
pub word-Gives :
    (usehex : Bool) (w rest ps : List ℕ) (r place : ℕ) (negative : Bool) (b : List ℕ)
    (result : Split)
    → length ps < max_params
    → All (λ c. spells usehex c ≡ true) w
    → Gives usehex rest
        (at building ps (value usehex w r) negative (place + length w) (b ++ w))
        result
    → Gives usehex (w ++ rest) (at building ps r negative place b) result
unfolding value turn
word-Gives usehex [] rest ps r place negative b result room h g =
    subst (λ s. Gives usehex rest s result)
      (ap₂ (at building ps r negative) {x = place + 0} {y = place} (omega arith) (append-nil b)) g
word-Gives usehex (c ∷ w) rest ps r place negative b result room (h, hs) g =
    turn-Gives usehex (c ∷ (w ++ rest)) (at building ps r negative place b)
      (onward (at building ps (next usehex r c) negative (place + 1) (b ++ (c ∷ [])))) result room
      step
      (word-Gives usehex w rest ps (next usehex r c) (place + 1) negative (b ++ (c ∷ [])) result
        room hs
        (subst (λ s. Gives usehex rest s result)
          (ap₂ (at building ps (value usehex w (next usehex r c)) negative)
            {x = place + suc (length w)} {y = place + 1 + length w} (omega arith)
            (sym (append_assoc b (c ∷ []) w)))
          g))
  where
    step :
        turn usehex c (at building ps r negative place b) building
        ≡ onward (at building ps (next usehex r c) negative (place + 1) (b ++ (c ∷ [])))
    step = ap (build c (at building ps r negative place b)) (built_spelled usehex c r h)

pub text_bytes-Gives :
    (usehex : Bool) (t rest ps : List ℕ) (r place : ℕ) (negative : Bool) (b : List ℕ)
    (result : Split)
    → length ps < max_params
    → All (λ c. (c ≢ quote) × (c ≢ 0)) t
    → Gives usehex rest (at text ps r negative (place + length t) (b ++ t)) result
    → Gives usehex (t ++ rest) (at text ps r negative place b) result
unfolding turn
text_bytes-Gives usehex [] rest ps r place negative b result room h g =
    subst (λ s. Gives usehex rest s result)
      (ap₂ (at text ps r negative) {x = place + 0} {y = place} (omega arith) (append-nil b)) g
text_bytes-Gives usehex (c ∷ t) rest ps r place negative b result room ((no_quote, no_end), hs) g =
    turn-Gives usehex (c ∷ (t ++ rest)) (at text ps r negative place b)
      (onward (at text ps r negative (place + 1) (b ++ (c ∷ [])))) result room step
      (text_bytes-Gives usehex t rest ps r (place + 1) negative (b ++ (c ∷ [])) result room hs (
        subst (λ s. Gives usehex rest s result)
          (ap₂ (at text ps r negative) {x = place + suc (length t)} {y = place + 1 + length t}
            (omega arith) (sym (append_assoc b (c ∷ []) t)))
          g))
  where
    step :
        turn usehex c (at text ps r negative place b) text
        ≡ onward (at text ps r negative (place + 1) (b ++ (c ∷ [])))
    step = ground (arith, no_quote, no_end)

-- A byte that ends a word.
abbrev pub Stops : ℕ → Type 0
Stops c = (c ≡ space) ⊎ (c ≡ closing)

pub built_stopped : (usehex : Bool) (c r : ℕ) → Stops c → built usehex c r ≡ none
unfolding built
built_stopped true c r (inl e) = rw e refl
built_stopped true c r (inr e) = rw e refl
built_stopped false c r (inl e) = rw e refl
built_stopped false c r (inr e) = rw e refl

-- A whole word: it is built and pushed.
pub building-Gives :
    (usehex : Bool) (w rest ps : List ℕ) (place : ℕ) (negative : Bool) (b : List ℕ) (result : Split)
    → length ps < max_params
    → All (λ c. spells usehex c ≡ true) w
    → Stops (byte_at rest)
    → Gives usehex rest
        (at skipping
          (ps ++ (signed negative (meant usehex w) ∷ []))
          (meant usehex w)
          negative
          (place + length w)
          (b ++ w))
        result
    → Gives usehex (w ++ rest) (at building ps 0 negative place b) result
unfolding turn
building-Gives usehex w rest ps place negative b result room h stop g =
    word-Gives usehex w rest ps 0 place negative b result room h (
      turn-Gives usehex rest
        (at building ps (value usehex w 0) negative (place + length w) (b ++ w))
        (again (push (at building ps (value usehex w 0) negative (place + length w) (b ++ w))))
        result room
        (ap
          (build (byte_at rest)
            (at building ps (value usehex w 0) negative (place + length w) (b ++ w)))
          (built_stopped usehex (byte_at rest) (value usehex w 0) stop))
        (rw (value-meant usehex w h) g))

-- A whole text, from behind its first quote.
pub quoted-Gives :
    (usehex : Bool) (t rest ps : List ℕ) (r place : ℕ) (negative : Bool) (b : List ℕ)
    (result : Split)
    → length ps < max_params
    → All (λ c. (c ≢ quote) × (c ≢ 0)) t
    → Gives usehex rest
        (at skipping ps r negative (place + length (t ++ (quote ∷ []))) (b ++ (t ++ (0 ∷ []))))
        result
    → Gives usehex ((t ++ (quote ∷ [])) ++ rest) (at text ps r negative place b) result
unfolding turn
quoted-Gives usehex t rest ps r place negative b result room h g =
    subst (λ cs. Gives usehex cs (at text ps r negative place b) result)
      (sym (append_assoc t (quote ∷ []) rest))
      (text_bytes-Gives usehex t (quote ∷ rest) ps r place negative b result room h (
        turn-Gives usehex (quote ∷ rest) (at text ps r negative (place + length t) (b ++ t))
          (onward (at skipping ps r negative (place + length t + 1) ((b ++ t) ++ (0 ∷ [])))) result
          room refl
          (subst (λ s. Gives usehex rest s result)
            (ap₂ (at skipping ps r negative) {x = place + length (t ++ (quote ∷ []))}
              {y = place + length t + 1} (omega (arith, length-append t (quote ∷ [])))
              (sym (append_assoc b t (0 ∷ []))))
            g)))
