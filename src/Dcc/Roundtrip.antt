-- ===== src/Dcc/Roundtrip.antt =====
-- DCC.cpp: a decoder that reads a packet gets what the call was given.
use command_station_ex_la_bo.Dcc.Receiver.{
  read_address, read_loco, Order, read_order, write_byte, verify_byte, write_bit, binary_state,
}
use command_station_ex_la_bo.Prelude.{
  ℕ, ◌+◌, ◌*◌, ◌%◌, ◌≤◌, ◌<◌, ◌≡◌, refl, Bool, true, false, ◌&&◌, some, List, [], ◌∷◌, ◌++◌, arith,
  ◌==◌, ==_iff, if◌then◌else◌, bit_or, all_below, all_below_at, ◌/◌, Bool-cases, leb, inl, leb→le,
  inr,
}
use command_station_ex_la_bo.Dcc.Packets.{
  address, write_cv_byte_packet, high_byte, cv1, read_cv_byte_packet, before, cv2,
  write_cv_bit_packet, low_byte, write_byte_main, read_byte_main, write_bit_main,
  binary_state_packet,
}

-- Facts about the bit operations, on each value that can stand there.
or_c0_table : all_below 64 (λ x. bit_or x 0xC0 == x + 192) ≡ true
unfolding all_below
or_c0_table = refl

or_c0 : (x : ℕ) → x < 64 → bit_or x 0xC0 ≡ x + 192
or_c0 x h = (==_iff _ _).0 (all_below_at 64 _ x or_c0_table h)

read_address_lem :
    (cab x : ℕ) (xs : List ℕ)
    → cab ≤ 10239
    → read_address (address cab ++ x ∷ xs) ≡ some (cab, x ∷ xs)
unfolding read_address address
read_address_lem cab x xs h = ground (arith, or_c0 (high_byte cab))

-- The number of a loco is read back, and what is behind it is read for itself.
pub read_loco-address :
    (cab x : ℕ) (xs : List ℕ) {o : Order}
    → cab ≤ 10239
    → read_order (x ∷ xs) ≡ some o
    → read_loco (address cab ++ x ∷ xs) ≡ some (cab, o)
unfolding read_loco
read_loco-address cab x xs h e = ground (arith, read_address_lem cab x xs h)

abbrev cv1_ok : ℕ → ℕ → Bool
cv1_ok opcode x = bit_or x opcode == opcode + x

cv1_table : all_below 4 (λ x. cv1_ok 0xEC x && (cv1_ok 0xE4 x && cv1_ok 0xE8 x)) ≡ true
unfolding all_below
cv1_table = refl

cv1_sum :
    (x : ℕ)
    → x < 4
    → (bit_or x 0xEC ≡ 0xEC + x) × (bit_or x 0xE4 ≡ 0xE4 + x) × (bit_or x 0xE8 ≡ 0xE8 + x)
cv1_sum x h =
    ground
      (arith, all_below_at 4 (λ x. cv1_ok 0xEC x && (cv1_ok 0xE4 x && cv1_ok 0xE8 x)) x cv1_table h)

-- The ten bits of a CV number.
cv_halves :
    (cv : ℕ) → 0 < cv → cv ≤ 1024 → high_byte (before cv) % 4 * 256 + low_byte (before cv) + 1 ≡ cv
cv_halves cv l u = omega arith

write_byte_order :
    (cv value : ℕ)
    → 0 < cv
    → cv ≤ 1024
    → read_order (cv1 write_byte_main cv ∷ cv2 cv ∷ value ∷ []) ≡ some (write_byte cv value)
unfolding read_order cv1 cv2
write_byte_order cv value l u =
    let h = high_byte (before cv) % 4 in
    rw ((cv1_sum h (omega arith)).0) (ground (arith, cv_halves cv l u))

verify_byte_order :
    (cv : ℕ)
    → 0 < cv
    → cv ≤ 1024
    → read_order (cv1 read_byte_main cv ∷ cv2 cv ∷ 0 ∷ []) ≡ some (verify_byte cv 0)
unfolding read_order cv1 cv2
verify_byte_order cv l u =
    let h = high_byte (before cv) % 4 in
    rw ((cv1_sum h (omega arith)).1) (ground (arith, cv_halves cv l u))

bit_table :
    all_below 8
      (λ k. (bit_or (bit_or 0xF0 0x08) k == 248 + k) && (bit_or (bit_or 0xF0 0x00) k == 240 + k))
    ≡ true
unfolding all_below
bit_table = refl

bit_sum :
    (k : ℕ)
    → k < 8
    → (bit_or (bit_or 0xF0 0x08) k ≡ 248 + k) × (bit_or (bit_or 0xF0 0x00) k ≡ 240 + k)
bit_sum k h = ground (
  arith,
  all_below_at 8
      (λ k. (bit_or (bit_or 0xF0 0x08) k == 248 + k) && (bit_or (bit_or 0xF0 0x00) k == 240 + k)) k
      bit_table h,
)

write_bit_order :
    (cv bit : ℕ) (value : Bool)
    → 0 < cv
    → cv ≤ 1024
    → read_order (
        cv1 write_bit_main cv
        ∷ cv2 cv
        ∷ bit_or (bit_or 0xF0 (if value then 0x08 else 0x00)) (bit % 8)
        ∷ [])
      ≡ some (write_bit cv (bit % 8) value)
unfolding read_order cv1 cv2
write_bit_order cv bit true l u =
    let h = high_byte (before cv) % 4 in
    rw ((cv1_sum h (omega arith)).2, (bit_sum (bit % 8) (omega arith)).0)
      (ground (arith, cv_halves cv l u))
write_bit_order cv bit false l u =
    let h = high_byte (before cv) % 4 in
    rw ((cv1_sum h (omega arith)).2, (bit_sum (bit % 8) (omega arith)).1)
      (ground (arith, cv_halves cv l u))

-- The three CV packets for the main track, for a loco up to 10239 and a CV from 1 to 1024, reach
-- the loco that they name, with the CV, and the value or the bit that is written.
pub cv_main_lem :
    (cab cv value bit : ℕ) (on : Bool)
    → cab ≤ 10239
    → 0 < cv
    → cv ≤ 1024
    → (read_loco (write_cv_byte_packet cab cv value) ≡ some (cab, write_byte cv value))
      × (read_loco (read_cv_byte_packet cab cv) ≡ some (cab, verify_byte cv 0))
      × (read_loco (write_cv_bit_packet cab cv bit on) ≡ some (cab, write_bit cv (bit % 8) on))
unfolding write_cv_byte_packet read_cv_byte_packet write_cv_bit_packet
cv_main_lem cab cv value bit on h l u = (
  read_loco-address cab _ _ h (write_byte_order cv value l u),
  read_loco-address cab _ _ h (verify_byte_order cv l u),
  read_loco-address cab _ _ h (write_bit_order cv bit on l u),
)

-- The two forms of a function above 28.
flag_table : all_below 128 (λ x. (bit_or x 0x80 == x + 128) && (bit_or x 0 == x)) ≡ true
unfolding all_below
flag_table = refl

flag : (x : ℕ) → x < 128 → (bit_or x 0x80 ≡ x + 128) × (bit_or x 0 ≡ x)
flag x h =
    ground (
      arith,
      all_below_at 128 (λ x. (bit_or x 0x80 == x + 128) && (bit_or x 0 == x)) x flag_table h,
    )

-- A binary state below 32768 is switched on or off in the loco that is named, up to 10239, in the
-- short form up to 127 and in the long form above.
pub binary_state_lem :
    (cab number : ℕ) (on : Bool)
    → cab ≤ 10239
    → number < 32768
    → read_loco (binary_state_packet cab number on) ≡ some (cab, binary_state number on)
unfolding binary_state_packet read_order
binary_state_lem cab number on h k = elim (Bool-cases (leb number 127)) [
  | inl s ↦ rw s (read_loco-address cab _ _ h (short number on (leb→le _ _ s)))
  | inr l ↦ rw l (read_loco-address cab _ _ h (long number on k))
]
  where
    short :
        (n : ℕ) (on : Bool)
        → n ≤ 127
        → read_order (0xDD ∷ bit_or n (if on then 0x80 else 0) ∷ []) ≡ some (binary_state n on)
    short n true p = rw ((flag n (omega arith)).0) (ground arith)
    short n false p = rw ((flag n (omega arith)).1) (ground arith)

    long :
        (n : ℕ) (on : Bool)
        → n < 32768
        → read_order (0xC0 ∷ bit_or (n % 128) (if on then 0x80 else 0) ∷ (n / 128) ∷ [])
          ≡ some (binary_state n on)
    long n true p = rw ((flag (n % 128) (omega arith)).0) (ground arith)
    long n false p = rw ((flag (n % 128) (omega arith)).1) (ground arith)
