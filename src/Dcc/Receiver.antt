-- ===== src/Dcc/Receiver.antt =====
-- What a decoder on the track reads, from the packet formats of the NMRA and RCN standards that the
-- comments in DCC.cpp quote. It is written from those formats alone.
use command_station_ex_la_bo.Prelude.{
  ℕ, ◌+◌, ◌-◌, ◌*◌, ◌/◌, ◌%◌, Bool, ◌&&◌, Option, none, some, List, [], ◌∷◌, ltb, leb, ◌==◌,
  if◌then◌else◌,
}

-- The number of a loco decoder, and the instruction behind it. 0 is the broadcast.
unfoldable pub read_address : List ℕ → Option (ℕ × List ℕ)
read_address [] = none
read_address (b ∷ []) = none
read_address (b ∷ c ∷ rest) =
    if ltb b 128
    then some (b, c ∷ rest)
    else if leb 192 b && ltb b 232
    then some ((b - 192) * 256 + c, rest)
    else none

-- What a loco decoder is told. Speeds run from 0, a stop, and 1, an emergency stop.
pub data Order : Type 0 where
  speed128 speed28 : (forward : Bool) → (speed : ℕ) → Order
  functions : (first : ℕ) → (bits : ℕ) → Order
  binary_state : (number : ℕ) → (on : Bool) → Order
  write_byte : (cv value : ℕ) → Order
  verify_byte : (cv value : ℕ) → Order
  write_bit : (cv bit : ℕ) → (value : Bool) → Order

-- 01DCSSSS: the number has C below the four bits S. Step n is sent as n + 3 and is the speed n + 1.
abbrev pub step28 : ℕ → ℕ
step28 b = if ltb (b % 16) 2 then b % 16 else b % 16 * 2 + b / 16 % 2 - 2

-- The CV number stands in ten bits, less one.
abbrev cv_number : ℕ → ℕ → ℕ
cv_number b c = b % 4 * 256 + c + 1

-- The bits of a group stand in the order of the function numbers, `first` in the lowest.
unfoldable pub read_order : List ℕ → Option Order
read_order (b ∷ []) =
    if b / 64 == 1
    then some (speed28 (b / 32 % 2 == 1) (step28 b))
    else if b / 32 == 4
    then some (functions 0 (b % 16 * 2 + b / 16 % 2))
    else if b / 16 == 11
    then some (functions 5 (b % 16))
    else if b / 16 == 10
    then some (functions 9 (b % 16))
    else none
read_order (b ∷ c ∷ []) =
    if b == 0x3F
    then some (speed128 (leb 128 c) (c % 128))
    else if b == 0xDE
    then some (functions 13 c)
    else if b == 0xDF
    then some (functions 21 c)
    else if b == 0xDD
    then some (binary_state (c % 128) (leb 128 c))
    else none
read_order (b ∷ c ∷ d ∷ []) =
    if b == 0xC0
    then some (binary_state (d * 128 + c % 128) (leb 128 c))
    else if b / 4 == 59
    then some (write_byte (cv_number b c) d)
    else if b / 4 == 57
    then some (verify_byte (cv_number b c) d)
    else if b / 4 == 58 && d / 16 == 15
    then some (write_bit (cv_number b c) (d % 8) (d / 8 % 2 == 1))
    else none
read_order _ = none

unfoldable pub read_loco : List ℕ → Option (ℕ × Order)
read_loco packet = elim (read_address packet) [
  | none ↦ none
  | some (cab, rest) ↦ elim (read_order rest) [ none ↦ none | some order ↦ some (cab, order) ]
]

-- A basic accessory packet, 10AAAAAA 1aaaCDDG with the bits a inverted: address, port, gate, on.
unfoldable pub read_accessory : List ℕ → Option (ℕ × ℕ × Bool × Bool)
read_accessory (b ∷ c ∷ []) =
    if b / 64 == 2 && c / 128 == 1
    then some (b % 64 + (7 - c / 16 % 8) * 64, c / 2 % 4, c % 2 == 1, c / 8 % 2 == 1)
    else none
read_accessory _ = none

-- An extended accessory packet, 10AAAAAA 0aaa0DD1 000XXXXX: the address of eleven bits, the aspect.
unfoldable pub read_extended_accessory : List ℕ → Option (ℕ × ℕ)
read_extended_accessory (b ∷ c ∷ d ∷ []) =
    if b / 64 == 2 && c / 128 == 0 && c / 8 % 2 == 0 && c % 2 == 1 && ltb d 32
    then some ((7 - c / 16 % 8) * 256 + b % 64 * 4 + c / 2 % 4, d)
    else none
read_extended_accessory _ = none

-- The model time of RCN-211: minutes of the day, the factor, and whether it jumped.
unfoldable pub read_time : List ℕ → Option (ℕ × ℕ × Bool)
read_time (a ∷ b ∷ c ∷ d ∷ e ∷ []) =
    if a == 0 && b == 0xC1 && c / 64 == 0
    then some (d % 32 * 60 + c, e % 64, e / 128 == 1)
    else none
read_time _ = none
