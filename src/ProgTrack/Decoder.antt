-- ===== src/ProgTrack/Decoder.antt =====
-- A decoder in service mode, from the NMRA's format for direct mode: 0111KKAA AAAAAAAA DDDDDDDD, with
-- the CV number less one in the ten bits A. The instruction of a bit is 111KDBBB.
use command_station_ex_la_bo.Prelude.{
  ℕ, ◌+◌, ◌-◌, ◌*◌, ◌/◌, ◌%◌, ◌^◌, Bool, true, false, not, ◌&&◌, Option, none, some, List, [], ◌∷◌,
  ◌==◌, if◌then◌else◌,
}

-- The CVs that it holds.
abbrev pub Cvs : Type 0
Cvs = ℕ → ℕ

abbrev pub update : Cvs → ℕ → ℕ → Cvs
update cvs cv v k = if k == cv then v else cvs k

pub data Order : Type 0 where
  verify_value write_value : (cv value : ℕ) → Order
  verify_one write_one : (cv bit : ℕ) → (value : Bool) → Order

abbrev cv_number : ℕ → ℕ → ℕ
cv_number a b = a % 4 * 256 + b + 1

unfoldable pub read_service : List ℕ → Option Order
read_service (a ∷ b ∷ d ∷ []) =
    if a / 4 == 29
    then some (verify_value (cv_number a b) d)
    else if a / 4 == 31
    then some (write_value (cv_number a b) d)
    else if a / 4 == 30 && d / 16 == 14
    then some (verify_one (cv_number a b) (d % 8) (d / 8 % 2 == 1))
    else if a / 4 == 30 && d / 16 == 15
    then some (write_one (cv_number a b) (d % 8) (d / 8 % 2 == 1))
    else none
read_service _ = none

abbrev pub has_bit : ℕ → ℕ → Bool
has_bit x b = x / 2 ^ b % 2 == 1

abbrev pub same : Bool → Bool → Bool
same true b = b
same false b = not b

abbrev pub with_bit : ℕ → ℕ → Bool → ℕ
with_bit x b value = x - x / 2 ^ b % 2 * 2 ^ b + (if value then 2 ^ b else 0)

-- It acknowledges what is so, and what it has written.
unfoldable pub obey : Cvs → Order → Cvs × Bool
obey cvs (verify_value cv v) = (cvs, cvs cv == v)
obey cvs (write_value cv v) = (update cvs cv v, true)
obey cvs (verify_one cv b value) = (cvs, same value (has_bit (cvs cv) b))
obey cvs (write_one cv b value) = (update cvs cv (with_bit (cvs cv) b value), true)

unfoldable pub respond : Cvs → List ℕ → Cvs × Bool
respond cvs packet = elim (read_service packet) [ none ↦ (cvs, false) | some o ↦ obey cvs o ]
