-- ===== src/Parser/Values.antt =====
-- DCCEXParser.cpp: the scan of parameters that are written out, words and texts.
use command_station_ex_la_bo.Parser.{
  minus, is_digit, compiletime_keyword_hasher, quote, signed, Phase, built, upper, Scan, between,
  underscore, is_upper, hashed,
}
use command_station_ex_la_bo.Prelude.{
  ℕ, ◌+◌, ◌-◌, ◌*◌, ◌%◌, ◌≡◌, ◌≢◌, Bool, true, false, ◌||◌, some, List, [], ◌∷◌, ◌++◌, map, ◌==◌,
  if◌then◌else◌, All, arith, bit_xor, refl, ◌∙◌, ap,
}

-- A number or a keyword, with a minus sign or without; or a text.
pub data Value : Type 0 where
  word : (negative : Bool) → (bytes : List ℕ) → Value
  quoted : (bytes : List ℕ) → Value

abbrev pub spelled : Value → List ℕ
spelled (word true w) = minus ∷ w
spelled (word false w) = w
spelled (quoted t) = quote ∷ (t ++ (quote ∷ []))

-- The buffer that the scan leaves: a text ends with 0.
abbrev pub kept : Value → List ℕ
kept (word true w) = minus ∷ w
kept (word false w) = w
kept (quoted t) = quote ∷ (t ++ (0 ∷ []))

abbrev pub places : Value → ℕ
places (word negative w) = 1
places (quoted t) = 2

-- The number that the bytes of a word write in base 16.
abbrev hex_digit : ℕ → ℕ
hex_digit c = if is_digit c then c - 48 else upper c - 55

unfoldable pub hex : List ℕ → ℕ → ℕ
hex [] n = n
hex (c ∷ cs) n = hex cs (16 * n + hex_digit c)

-- What a word means: the number in base 16, or what the hash of the compiler gives for its capitals.
abbrev pub meant : Bool → List ℕ → ℕ
meant true w = hex w 0 % 65536
meant false w = compiletime_keyword_hasher (map upper w) 0

abbrev pub spells : Bool → ℕ → Bool
spells true c = is_digit c || between 65 70 (upper c)
spells false c = is_digit c || (upper c == underscore || is_upper (upper c))

abbrev pub Writable : Bool → Value → Type 0
Writable usehex (word negative []) = ⊥
Writable usehex (word negative (c ∷ w)) = All (λ c. spells usehex c ≡ true) (c ∷ w)
Writable usehex (quoted t) = All (λ c. (c ≢ quote) × (c ≢ 0)) t

-- The parameters of a value whose space is at a place.
abbrev pub parameters : Bool → ℕ → Value → List ℕ
parameters usehex place (word negative w) = signed negative (meant usehex w) ∷ []
parameters usehex place (quoted t) = 0x7777 ∷ (place + 1 + 1) ∷ []

abbrev pub at : Phase → List ℕ → ℕ → Bool → ℕ → List ℕ → Scan
at phase params running negative place behind = record {
  phase = phase;
  params = params;
  running = running;
  negative = negative;
  place = place;
  behind = behind;
}

-- One more byte of a word, and all the bytes.
abbrev pub next : Bool → ℕ → ℕ → ℕ
next true r c = (16 * r + hex_digit c) % 65536
next false r c = if is_digit c then (10 * r + c - 48) % 65536 else hashed r (upper c)

unfoldable pub value : Bool → List ℕ → ℕ → ℕ
value usehex [] r = r
value usehex (c ∷ cs) r = value usehex cs (next usehex r c)

pub built_spelled :
    (usehex : Bool) (c r : ℕ) → spells usehex c ≡ true → built usehex c r ≡ some (next usehex r c)
unfolding built
built_spelled true c r h = ground (arith, h)
built_spelled false c r h = ground (arith, h)

value-hex : (w : List ℕ) (r n : ℕ) → r ≡ n % 65536 → value true w r ≡ hex w n % 65536
unfolding value hex
value-hex [] r n e = e
value-hex (c ∷ w) r n e =
    value-hex w ((16 * r + hex_digit c) % 65536) (16 * n + hex_digit c) (omega (arith, e))

value_hash :
    (w : List ℕ) (r : ℕ)
    → All (λ c. spells false c ≡ true) w
    → value false w r ≡ compiletime_keyword_hasher (map upper w) r
unfolding value compiletime_keyword_hasher
value_hash [] r h = refl
value_hash (c ∷ w) r (h, hs) =
    value_hash w (next false r c) hs ∙ ap (compiletime_keyword_hasher (map upper w)) step
  where
    step : next false r c ≡ (
        if is_digit (upper c)
        then (10 * r + upper c - 48) % 65536
        else bit_xor (r * 33) (upper c) % 65536)
    step = ground (arith, h)

pub value-meant :
    (usehex : Bool) (w : List ℕ)
    → All (λ c. spells usehex c ≡ true) w
    → value usehex w 0 ≡ meant usehex w
value-meant true w h = value-hex w 0 0 refl
value-meant false w h = value_hash w 0 h
