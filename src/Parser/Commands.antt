-- ===== src/Parser/Commands.antt =====
-- DCCEXParser.cpp: a command that is written out, with its numbers.
use command_station_ex_la_bo.Parser.Printed.{
  parameters_from, all_places, length-parameters, printed, overwritten, split_values-printed,
}
use command_station_ex_la_bo.Parser.{
  bracket, strip, parse_one, compiletime_keyword_hasher, space, is_digit, max_params, command,
  accepted, byte_at, split_values, behind_byte,
}
use command_station_ex_la_bo.Parser.Values.{Value, parameters, spelled, Writable}
use command_station_ex_la_bo.Prelude.{
  ℕ, ◌+◌, ◌-◌, ◌*◌, ◌%◌, ◌<◌, ◌≡◌, refl, sym, ap, ◌∙◌, subst, ◌≢◌, ◌⊎◌, inl, inr, Bool, true, ◌||◌,
  List, [], ◌∷◌, ◌++◌, arith, length, length-append, ◌==◌, if◌then◌else◌, inr, bit_xor, All,
}

pub length-parameters_from :
    (usehex : Bool) (place : ℕ) (vs : List Value)
    → length (parameters_from usehex place vs) ≡ all_places vs
length-parameters_from usehex place [] = refl
length-parameters_from usehex place (v ∷ vs) = omega (
  arith,
  length-append (parameters usehex place v)
      (parameters_from usehex (place + 1 + length (spelled v)) vs),
  length-parameters usehex place v,
  length-parameters_from usehex (place + 1 + length (spelled v)) vs,
)

abbrev pub Blank : ℕ → Type 0
Blank c = (c ≡ bracket) ⊎ (c ≡ space)

strip_blanks : (blanks cs : List ℕ) → All Blank blanks → strip (blanks ++ cs) ≡ strip cs
strip_blanks [] cs h = refl
strip_blanks (c ∷ blanks) cs (h, hs) = first c h (strip_blanks blanks cs hs)
  where
    first :
        (c : ℕ) → Blank c → strip (blanks ++ cs) ≡ strip cs → strip (c ∷ (blanks ++ cs)) ≡ strip cs
    first c (inl e) ih = rw e ih
    first c (inr e) ih = rw e ih

strip_opcode : (c : ℕ) (cs : List ℕ) → ¬ Blank c → strip (c ∷ cs) ≡ c ∷ cs
strip_opcode c cs h =
    let no_opening : c ≢ bracket = λ e. h (inl e) in
    let no_space : c ≢ space = λ e. h (inr e) in ground (arith, no_opening, no_space)

-- Behind any blanks and <, an opcode other than these with parameters that are written out is read
-- as the opcode with the values of its parameters, as long as these need no more than nine places.
-- Numbers are in base 16 after M and P, and in base 10 after every other opcode; every other word
-- is what the hash of the compiler gives for its capitals; a text is the mark 0x7777 with the
-- place of its first byte. In the buffer, only the closing quotes and the end of the command are
-- overwritten, with 0.
pub parse_one-printed :
    (blanks : List ℕ) (opcode : ℕ) (vs : List Value) (rest : List ℕ)
    → All Blank blanks
    → ¬ Blank opcode
    → all_places vs < max_params
    → All (Writable (opcode == 77 || opcode == 80)) vs
    → parse_one (blanks ++ (opcode ∷ printed vs rest))
      ≡ command opcode (parameters_from (opcode == 77 || opcode == 80) 1 vs) (overwritten vs rest)
unfolding parse_one
parse_one-printed blanks opcode vs rest hb ho room h =
    let usehex = opcode == 77 || opcode == 80 in
    let stripped : strip (blanks ++ (opcode ∷ printed vs rest)) ≡ opcode ∷ printed vs rest =
      strip_blanks blanks (opcode ∷ printed vs rest) hb
      ∙ strip_opcode opcode (printed vs rest) ho in
    let size = length-parameters_from usehex 1 vs in
    ap
      (λ cs.
        accepted (byte_at cs)
          (split_values (byte_at cs == 77 || byte_at cs == 80) (behind_byte cs)))
      stripped
    ∙ ap (accepted opcode) (split_values-printed usehex vs rest room h)
    ∙ ground (arith, room, size)

-- The number that digits write in base 10.
unfoldable pub decimal : List ℕ → ℕ → ℕ
decimal [] n = n
decimal (c ∷ cs) n = decimal cs (10 * n + (c - 48))

-- The hash of a word of digits is the number that they write in base 10, in 16 bits: a number is a keyword to the compiler and to
-- the parser alike.
pub compiletime_keyword_hasher-decimal :
    (w : List ℕ) (r n : ℕ)
    → r ≡ n % 65536
    → All (λ c. is_digit c ≡ true) w
    → compiletime_keyword_hasher w r ≡ decimal w n % 65536
unfolding compiletime_keyword_hasher decimal
compiletime_keyword_hasher-decimal [] r n e h = e
compiletime_keyword_hasher-decimal (c ∷ w) r n e (h, hs) =
    subst (λ r. compiletime_keyword_hasher w r ≡ decimal w (10 * n + (c - 48)) % 65536) (sym step)
      (compiletime_keyword_hasher-decimal w ((10 * r + c - 48) % 65536) (10 * n + (c - 48)) same hs)
  where
    step :
        (if is_digit c then (10 * r + c - 48) % 65536 else bit_xor (r * 33) c % 65536)
        ≡ (10 * r + c - 48) % 65536
    step = rw h refl

    same : (10 * r + c - 48) % 65536 ≡ (10 * n + (c - 48)) % 65536
    same = ground (arith, e, h)
