-- ===== src/ProgTrack/Messages.antt =====
-- DCCACK.cpp: a decoder in service mode reads of each message what the entry means.
use command_station_ex_la_bo.ProgTrack.Decoder.{
  read_service, verify_value, verify_one, write_one, write_value,
}
use command_station_ex_la_bo.ProgTrack.{Manager, byte_message, bit_message}
use command_station_ex_la_bo.Prelude.{
  ℕ, ◌+◌, ◌%◌, ◌≤◌, ◌<◌, ◌≡◌, refl, Bool, true, ◌&&◌, some, arith, ◌==◌, bit_or, all_below,
  all_below_at,
}
use command_station_ex_la_bo.Dcc.Packets.{high_byte, before, cv1, cv2}

-- The sums that stand for the masks, on each value that can stand there.
cv1_table :
    all_below 4 (λ x.
      (bit_or x 0x74 == 0x74 + x) && ((bit_or x 0x7C == 0x7C + x) && (bit_or x 0x78 == 0x78 + x)))
    ≡ true
unfolding all_below
cv1_table = refl

cv1_sums :
    (x : ℕ)
    → x < 4
    → (bit_or x 0x74 ≡ 0x74 + x) × (bit_or x 0x7C ≡ 0x7C + x) × (bit_or x 0x78 ≡ 0x78 + x)
cv1_sums x h = ground (
  arith,
  all_below_at 4
      (λ x.
        (bit_or x 0x74 == 0x74 + x) && ((bit_or x 0x7C == 0x7C + x) && (bit_or x 0x78 == 0x78 + x)))
      x cv1_table h,
)

-- The four kinds of bit instruction.
instruction_table :
    all_below 8 (λ b.
      (bit_or (bit_or 0xE0 0x08) b == 0xE8 + b)
      && ((bit_or (bit_or 0xE0 0x00) b == 0xE0 + b)
          && ((bit_or (bit_or 0xF0 0x08) b == 0xF8 + b)
              && (bit_or (bit_or 0xF0 0x00) b == 0xF0 + b))))
    ≡ true
unfolding all_below
instruction_table = refl

record Instruction (b : ℕ) : Type 0 where
  verify_on : bit_or (bit_or 0xE0 0x08) b ≡ 0xE8 + b
  verify_off : bit_or (bit_or 0xE0 0x00) b ≡ 0xE0 + b
  write_on : bit_or (bit_or 0xF0 0x08) b ≡ 0xF8 + b
  write_off : bit_or (bit_or 0xF0 0x00) b ≡ 0xF0 + b

instruction : (b : ℕ) → b < 8 → Instruction b
instruction b h = let t = all_below_at 8 _ b instruction_table h in ground (arith, t)

module _ (m : Manager) (l : 0 < m.cv) (u : m.cv ≤ 1024) where
  pub byte_message_read :
      (read_service (byte_message 0x74 m) ≡ some (verify_value m.cv m.byte))
      × (read_service (byte_message 0x7C m) ≡ some (write_value m.cv m.byte))
  unfolding byte_message read_service cv1 cv2
  byte_message_read = ground (arith, cv1_sums (high_byte (before m.cv) % 4) (omega arith))

  pub verify_message_read :
      (on : Bool)
      → m.bit_num < 8
      → read_service (bit_message 0xE0 on m) ≡ some (verify_one m.cv m.bit_num on)
  unfolding bit_message read_service cv1 cv2
  verify_message_read on h =
      ground (arith, cv1_sums (high_byte (before m.cv) % 4) (omega arith), instruction m.bit_num h)

  pub write_message_read :
      (on : Bool)
      → m.bit_num < 8
      → read_service (bit_message 0xF0 on m) ≡ some (write_one m.cv m.bit_num on)
  unfolding bit_message read_service cv1 cv2
  write_message_read on h =
      ground (arith, cv1_sums (high_byte (before m.cv) % 4) (omega arith), instruction m.bit_num h)
