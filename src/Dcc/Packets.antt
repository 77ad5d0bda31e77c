-- ===== src/Dcc/Packets.antt =====
-- DCC.cpp: the bytes of each kind of packet. A mask by 2^k - 1 is written as a remainder and a shift
-- as a division or a product; the other bit operations stand as they are. An `int` that may be
-- negative is an integer.
use command_station_ex_la_bo.Prelude.{
  ℕ, ◌+◌, ◌-◌, ◌*◌, ◌/◌, ◌%◌, ◌^◌, Bool, ◌||◌, Option, none, some, List, [], ◌∷◌, ◌++◌, ltb, leb,
  ◌==◌, if◌then◌else◌, bit_and, bit_or, bit_xor,
}

abbrev pub highest_short_addr : ℕ
highest_short_addr = 127

abbrev pub set_speed : ℕ
set_speed = 0x3f

abbrev pub write_byte_main : ℕ
write_byte_main = 0xEC

abbrev pub read_byte_main : ℕ
read_byte_main = 0xE4

abbrev pub write_bit_main : ℕ
write_bit_main = 0xE8

abbrev pub high_byte : ℕ → ℕ
high_byte w = w / 256 % 256

abbrev pub low_byte : ℕ → ℕ
low_byte w = w % 256

-- The loco number that each packet for a loco begins with.
unfoldable pub address : ℕ → List ℕ
address cab =
    if ltb highest_short_addr cab
    then bit_or (high_byte cab) 0xC0 ∷ low_byte cab ∷ []
    else low_byte cab ∷ []

-- `cv--` on an `int` of 32 bits.
abbrev pub before : ℕ → ℕ
before cv = (cv + 2 ^ 32 - 1) % 2 ^ 32

unfoldable pub cv1 : ℕ → ℕ → ℕ
cv1 opcode cv = bit_or (high_byte (before cv) % 4) opcode

unfoldable pub cv2 : ℕ → ℕ
cv2 cv = low_byte (before cv)

-- The 28-step code of a speed from 0 to 127.
unfoldable pub code28 : ℕ → ℕ
code28 speed128 =
    let speed28 = (speed128 * 10 + 36) / 46 in
    if speed128 == 0 || speed128 == 1
    then speed128
    else bit_or ((speed28 + 3) / 2) (if speed28 % 2 == 1 then 0 else 0x10)

-- The speed code that goes to the track: reversed in a consist, replaced under a locked stop.
unfoldable pub track_code : Bool → Bool → ℕ → ℕ
track_code reversed locked code =
    let turned = if reversed then bit_xor code 0x80 else code in
    if locked then bit_or (bit_and turned 0x80) 0x01 else turned

-- The speed part of `setThrottleDCC`, for the speed steps in use.
unfoldable pub speed_bytes : ℕ → ℕ → List ℕ
speed_bytes steps code =
    if leb steps 28
    then bit_or (bit_or 0x40 (code28 (code % 128))) (if bit_and code 0x80 == 0 then 0 else 0x20)
      ∷ []
    else set_speed ∷ code ∷ []

unfoldable pub throttle_packet : ℕ → ℕ → ℕ → List ℕ
throttle_packet steps cab code = address cab ++ speed_bytes steps code

-- `setFunctionInternal`: a first byte of 0 is left out.
unfoldable pub function_packet : ℕ → ℕ → ℕ → List ℕ
function_packet cab byte1 byte2 =
    address cab ++ (if byte1 == 0 then byte2 ∷ [] else byte1 ∷ byte2 ∷ [])

-- The function groups of `issueReminder`, from the 32 bits of the functions of a loco: the two bytes
-- that are handed to `setFunctionInternal`.
unfoldable pub group_bytes : ℕ → ℕ → ℕ × ℕ
group_bytes group functions =
    if group == 1
    then (0, bit_or (bit_or 128 (functions / 2 % 16)) (functions % 2 * 16))
    else if group == 2
    then (0, bit_or 176 (functions / 2 ^ 5 % 16))
    else if group == 3
    then (0, bit_or 160 (functions / 2 ^ 9 % 16))
    else if group == 4
    then (222, functions / 2 ^ 13 % 256)
    else (223, functions / 2 ^ 21 % 256)

-- A function above 28, as a binary state.
unfoldable pub binary_state_packet : ℕ → ℕ → Bool → List ℕ
binary_state_packet cab number on =
    address cab
    ++ (if leb number 127
        then 0xDD ∷ bit_or number (if on then 0x80 else 0) ∷ []
        else 0xC0 ∷ bit_or (number % 128) (if on then 0x80 else 0) ∷ (number / 128) ∷ [])

unfoldable pub accessory_packet : ℕ → ℕ → Bool → Bool → List ℕ
accessory_packet addr port gate on =
    let b1 = bit_xor (addr / 64 % 8 * 16 + port % 4 * 2 + (if gate then 1 else 0)) 0xF8 in
    (addr % 64 + 128) ∷ (if on then b1 else bit_and b1 0xF7) ∷ []

-- `address` counts from 0 here: three more than the number that the call is given.
unfoldable pub extended_accessory_packet : ℕ → ℕ → List ℕ
extended_accessory_packet addr value =
    bit_or 0x80 (addr / 4 % 64)
    ∷ bit_or (bit_or 0x01 ((7 - addr / 256 % 8) * 16)) (addr % 4 * 2)
    ∷ value
    ∷ []

unfoldable pub write_cv_byte_packet : ℕ → ℕ → ℕ → List ℕ
write_cv_byte_packet cab cv value = address cab ++ cv1 write_byte_main cv ∷ cv2 cv ∷ value ∷ []

unfoldable pub read_cv_byte_packet : ℕ → ℕ → List ℕ
read_cv_byte_packet cab cv = address cab ++ cv1 read_byte_main cv ∷ cv2 cv ∷ 0 ∷ []

unfoldable pub write_cv_bit_packet : ℕ → ℕ → ℕ → Bool → List ℕ
write_cv_bit_packet cab cv bit value =
    address cab
    ++ cv1 write_bit_main cv
      ∷ cv2 cv
      ∷ bit_or (bit_or 0xF0 (if value then 0x08 else 0x00)) (bit % 8)
      ∷ []

-- `none` is the result false.
unfoldable pub time_packet : ℕ → ℕ → Bool → Option (List ℕ)
time_packet minutes speed sudden =
    if leb 1440 minutes || ltb 63 speed
    then none
    else some (
        0
        ∷ 0xC1
        ∷ (minutes % 60)
        ∷ bit_or 0xE0 (minutes / 60)
        ∷ bit_or (if sudden then 0x80 else 0) speed
        ∷ [])
