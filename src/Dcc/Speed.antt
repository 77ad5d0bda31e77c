-- ===== src/Dcc/Speed.antt =====
-- DCC.cpp: speeds. What a loco is told, and how the momentum moves a speed towards its target.
use command_station_ex_la_bo.Dcc.Roundtrip.{read_loco-address}
use command_station_ex_la_bo.Dcc.Receiver.{step28, read_loco, speed28, speed128, read_order}
use command_station_ex_la_bo.Prelude.{
  ℕ, ◌+◌, ◌-◌, ◌*◌, ◌/◌, ◌%◌, ◌≤◌, ◌<◌, ◌≡◌, refl, inl, inr, Bool, true, false, not, ◌&&◌, some, [],
  ◌∷◌, arith, ltb, leb, ◌==◌, if◌then◌else◌, Bool-cases, inr, bit_and, bit_or, bit_xor, all_below,
  all_below_at,
}
use command_station_ex_la_bo.Dcc.Packets.{track_code, code28, throttle_packet, speed_bytes}

-- The two bits that the code sets and reads in a speed code, on each byte.
turn_table :
    all_below 256 (λ x.
      (bit_xor x 0x80 == (if ltb x 128 then x + 128 else x - 128))
      && ((bit_or (bit_and x 0x80) 0x01 == (if ltb x 128 then 1 else 129))
          && (bit_and x 0x80 == (if ltb x 128 then 0 else 128))))
    ≡ true
unfolding all_below
turn_table = refl

record Turns (x : ℕ) : Type 0 where
  turned : bit_xor x 0x80 ≡ (if ltb x 128 then x + 128 else x - 128)
  stopped : bit_or (bit_and x 0x80) 0x01 ≡ (if ltb x 128 then 1 else 129)
  direction : bit_and x 0x80 ≡ (if ltb x 128 then 0 else 128)

turns : (x : ℕ) → x < 256 → Turns x
turns x h = let t = all_below_at 256 _ x turn_table h in ground (arith, t)

-- What a follower that runs backwards in its consist, under a locked stop or not, is told of a code.
abbrev pub told : Bool → Bool → ℕ → ℕ
told reversed locked code =
    let forward = if reversed then not (leb 128 code) else leb 128 code in
    (if forward then 128 else 0) + (if locked then 1 else code % 128)

-- A speed code of one byte keeps its speed on the way to the track, or becomes the emergency stop
-- 1 under a locked stop; its direction turns round exactly for a loco that is reversed in its
-- consist.
pub track_code-told :
    (reversed locked : Bool) (code : ℕ)
    → code < 256
    → track_code reversed locked code ≡ told reversed locked code
unfolding track_code
track_code-told true true code h =
    ground
      (arith, turns code h, turns (if ltb code 128 then code + 128 else code - 128) (ground arith))
track_code-told true false code h = ground (arith, turns code h)
track_code-told false locked code h = ground (arith, turns code h)

code28_table :
    all_below 256 (λ x.
      (bit_or (bit_or 0x40 (code28 (x % 128))) (if bit_and x 0x80 == 0 then 0 else 0x20) / 64 == 1)
      && ((bit_or (bit_or 0x40 (code28 (x % 128))) (if bit_and x 0x80 == 0 then 0 else 0x20)
              / 32
              % 2
            == x / 128)
          && (step28
                (bit_or (bit_or 0x40 (code28 (x % 128))) (if bit_and x 0x80 == 0 then 0 else 0x20))
              == (if ltb (x % 128) 2 then x % 128 else (x % 128 * 10 + 36) / 46 + 1))))
    ≡ true
unfolding all_below code28
code28_table = refl

speed28_order :
    (code : ℕ)
    → code < 256
    → read_order (
        bit_or (bit_or 0x40 (code28 (code % 128))) (if bit_and code 0x80 == 0 then 0 else 0x20)
        ∷ [])
      ≡ some (
          speed28
            (leb 128 code)
            (if ltb (code % 128) 2 then code % 128 else (code % 128 * 10 + 36) / 46 + 1))
unfolding read_order
speed28_order code h = let t = all_below_at 256 _ code code28_table h in ground (arith, t)

-- A loco of a number up to 10239 is told the speed and the direction of a code of one byte: with
-- 128 steps exactly, with 28 steps or less the stops exactly and any other speed as the step that
-- stands for it.
pub throttle_lem :
    (steps cab code : ℕ)
    → cab ≤ 10239
    → code < 256
    → read_loco (throttle_packet steps cab code)
      ≡ some (
        cab,
        if leb steps 28
            then speed28
                (leb 128 code)
                (if ltb (code % 128) 2 then code % 128 else (code % 128 * 10 + 36) / 46 + 1)
            else speed128 (leb 128 code) (code % 128),
      )
unfolding throttle_packet speed_bytes read_order
throttle_lem steps cab code h k = elim (Bool-cases (leb steps 28)) [
  | inl s ↦ rw s (read_loco-address cab _ _ h (speed28_order code k))
  | inr s ↦ rw s (read_loco-address cab _ _ h refl)
]
