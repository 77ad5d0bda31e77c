-- ===== src/Parser.antt =====
-- DCCEXParser.cpp: `splitValues`, which reads the parameters of a command, and the start of `parseOne`;
-- KeywordHasher.h: the hash that a keyword is compared by. A byte is a number, the end of a list is
-- the 0 at the end of the text, and an `int16_t` is its pattern of 16 bits. The features of a target
-- with enough memory are in.
pub mod Fuel
pub mod Values
pub mod Words
pub mod Printed
pub mod Room
pub mod Commands
mod Tests
use command_station_ex_la_bo.Prelude.{
  ℕ, zero, suc, ◌+◌, ◌-◌, ◌*◌, ◌/◌, ◌%◌, ◌^◌, ◌≤◌, ◌<◌, ◌≡◌, refl, sym, ap, ap₂, ◌∙◌, subst, ◌≢◌,
  ◌↔◌, ◌⊎◌, inl, inr, Bool, true, false, not, ◌&&◌, ◌||◌, Option, none, some, List, [], ◌∷◌, ◌++◌,
  map, append-nil, append_assoc, arith, length, length-append, get_or, get_elem?, set, take, drop,
  replicate, ltb, leb, ◌==◌, ltb→lt, lt→ltb, leb→le, ==_iff, if◌then◌else◌, Bool-cases,
  Option-cases, inr, bit_and, bit_or, bit_xor, length-set, dec_lt, dec_le, ℕ_discrete, all_below,
  digit, digit-or, digit-and, digit-lt, and_power, length-replicate, length-take, length-drop, All,
  take_all, take-append, find,
}

abbrev pub max_params : ℕ
max_params = 10

abbrev pub space : ℕ
space = 32

abbrev pub quote : ℕ
quote = 34

abbrev pub minus : ℕ
minus = 45

abbrev pub closing : ℕ
closing = 62

abbrev pub bracket : ℕ
bracket = 60

abbrev pub underscore : ℕ
underscore = 95

abbrev between : ℕ → ℕ → ℕ → Bool
between low high c = leb low c && leb c high

abbrev pub is_digit : ℕ → Bool
is_digit c = between 48 57 c

abbrev pub is_upper : ℕ → Bool
is_upper c = between 65 90 c

abbrev pub upper : ℕ → ℕ
upper c = if between 97 122 c then c - 32 else c

-- The states 1 to 4 of the scan.
pub data Phase : Type 0 where
  skipping signing building text : Phase

-- The parameters found so far are the array, of which `parameterCount` are set. `place` is
-- `remainingCmd - cmd`, and `behind` holds the bytes of the buffer up to there as they are left.
pub record Scan : Type 0 where
  pub phase : Phase
  pub params : List ℕ
  pub running : ℕ
  pub negative : Bool
  pub place : ℕ
  pub behind : List ℕ

-- One turn of the loop: `continue` at the same byte, `break` to the next, or `return`.
pub data Move : Type 0 where
  again : Scan → Move
  onward : Scan → Move
  broken : Scan → Move
  ended : Scan → Move

abbrev pub pass : ℕ → Scan → Scan
pass c s = record s { place = s.place + 1; behind = s.behind ++ (c ∷ []) }

abbrev pub hashed : ℕ → ℕ → ℕ
hashed running c = bit_xor (running * 33) c % 65536

abbrev pub signed : Bool → ℕ → ℕ
signed negative running = if negative then (65536 - running) % 65536 else running

abbrev pub push : Scan → Scan
push s = record s { params = s.params ++ (signed s.negative s.running ∷ []); phase = skipping }

-- The value with one more byte of a number or a keyword; none at any other byte.
unfoldable pub built : Bool → ℕ → ℕ → Option ℕ
built usehex hot running =
    if is_digit hot
    then some (((if usehex then 16 else 10) * running + (hot - 48)) % 65536)
    else if usehex && between 65 70 (upper hot)
    then some ((16 * running + (upper hot - 65 + 10)) % 65536)
    else if upper hot == underscore || is_upper (upper hot)
    then some (hashed running (upper hot))
    else none

abbrev pub build : ℕ → Scan → Option ℕ → Move
build hot s none = again (push s)
build hot s (some running) = onward (pass hot (record s { running = running }))

unfoldable pub turn : Bool → ℕ → Scan → Phase → Move
turn usehex hot s skipping =
    if hot == space
    then onward (pass hot s)
    else if hot == 0
    then broken s
    else if hot == closing
    then ended (pass 0 s)
    else again (record s { phase = signing })
turn usehex hot s signing =
    if hot == quote
    then onward
        (pass hot (record s { params = s.params ++ (0x7777 ∷ (s.place + 1) ∷ []); phase = text }))
    else if hot == minus
    then onward (pass hot (record s { negative = true; running = 0; phase = building }))
    else again (record s { negative = false; running = 0; phase = building })
turn usehex hot s building = build hot s (built usehex hot s.running)
turn usehex hot s text =
    if hot == 0
    then broken s
    else if hot == quote
    then onward (pass 0 (record s { phase = skipping }))
    else onward (pass hot s)

-- What the call returns: the parameters, of which it returns the number, with the buffer as it is left;
-- or -1, with the parameters that it had stored by then.
pub data Split : Type 0 where
  found : List ℕ → List ℕ → Split
  malformed : List ℕ → Split
  out_of_fuel : Split

abbrev pub byte_at : List ℕ → ℕ
byte_at [] = 0
byte_at (c ∷ cs) = c

abbrev pub behind_byte : List ℕ → List ℕ
behind_byte [] = []
behind_byte (c ∷ cs) = cs

unfoldable pub scan : ℕ → Bool → List ℕ → Scan → Split
scan zero usehex cs s = out_of_fuel
scan (suc fuel) usehex cs s =
    let taken : Split = elim (turn usehex (byte_at cs) s s.phase) [
      | again s' ↦ scan fuel usehex cs s'
      | onward s' ↦ scan fuel usehex (behind_byte cs) s'
      | broken s' ↦ malformed s'.params
      | ended s' ↦ found s'.params (s'.behind ++ behind_byte cs)
    ] in
    if ltb (length s.params) max_params then taken else found s.params (s.behind ++ cs)

-- `remainingCmd` begins behind the opcode.
abbrev pub first_scan : Scan
first_scan = record {
  phase = skipping;
  params = [];
  running = 0;
  negative = false;
  place = 1;
  behind = [];
}

-- Each byte is left by one turn, and each parameter costs at most three more.
abbrev pub fuel_for : List ℕ → ℕ
fuel_for cs = length cs + 3 * max_params + 3

unfoldable pub split_values : Bool → List ℕ → Split
split_values usehex cs = scan (fuel_for cs) usehex cs first_scan

-- `parseOne` up to the switch: the opcode with its parameters, or the reply <X>.
pub data Command : Type 0 where
  command : (opcode : ℕ) → (params : List ℕ) → (buffer : List ℕ) → Command
  refused : Command

abbrev pub strip : List ℕ → List ℕ
strip [] = []
strip (c ∷ cs) = let rest = strip cs in if c == bracket || c == space then rest else c ∷ cs

abbrev pub accepted : ℕ → Split → Command
accepted opcode (found params buffer) =
    if leb max_params (length params) then refused else command opcode params buffer
accepted opcode (malformed params) = refused
accepted opcode out_of_fuel = refused

unfoldable pub parse_one : List ℕ → Command
parse_one bytes =
    let stripped = strip bytes in
    let opcode = byte_at stripped in
    accepted opcode (split_values (opcode == 77 || opcode == 80) (behind_byte stripped))

-- `CompiletimeKeywordHasher`.
unfoldable pub compiletime_keyword_hasher : List ℕ → ℕ → ℕ
compiletime_keyword_hasher [] running = running
compiletime_keyword_hasher (c ∷ cs) running =
    compiletime_keyword_hasher cs
      (if is_digit c then (10 * running + c - 48) % 65536 else bit_xor (running * 33) c % 65536)
