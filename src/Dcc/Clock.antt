-- ===== src/Dcc/Clock.antt =====
-- DCC::setTime: the packet for the model clock.
use command_station_ex_la_bo.Dcc.Packets.{time_packet}
use command_station_ex_la_bo.Dcc.Receiver.{read_time}
use command_station_ex_la_bo.Prelude.{
  ℕ, ◌+◌, ◌/◌, ◌%◌, ◌≤◌, ◌<◌, ◌≡◌, refl, ◌⊎◌, inl, inr, Bool, true, false, ◌&&◌, ◌||◌, none, some,
  List, [], ◌∷◌, arith, ltb, leb, ◌==◌, ==_iff, if◌then◌else◌, Bool-cases, inr, bit_or, all_below,
  all_below_at,
}

hour_table : all_below 24 (λ x. bit_or 0xE0 x == 224 + x) ≡ true
unfolding all_below
hour_table = refl

factor_table : all_below 64 (λ x. (bit_or 0x80 x == 128 + x) && (bit_or 0 x == x)) ≡ true
unfolding all_below
factor_table = refl

factor : (x : ℕ) → x < 64 → (bit_or 0x80 x ≡ 128 + x) × (bit_or 0 x ≡ x)
factor x h =
    ground (
      arith,
      all_below_at 64 (λ x. (bit_or 0x80 x == 128 + x) && (bit_or 0 x == x)) x factor_table h,
    )

time_accepted :
    (minutes speed : ℕ) (sudden : Bool)
    → minutes < 1440
    → speed < 64
    → read_time (
        0
        ∷ 0xC1
        ∷ (minutes % 60)
        ∷ bit_or 0xE0 (minutes / 60)
        ∷ bit_or (if sudden then 0x80 else 0) speed
        ∷ [])
      ≡ some (minutes, speed, sudden)
unfolding read_time
time_accepted minutes speed true h k =
    rw
      (
        (==_iff _ _).0 (all_below_at 24 _ (minutes / 60) hour_table (omega arith)),
        (factor speed k).0,
      )
      (ground arith)
time_accepted minutes speed false h k =
    rw
      (
        (==_iff _ _).0 (all_below_at 24 _ (minutes / 60) hour_table (omega arith)),
        (factor speed k).1,
      )
      (ground arith)

-- A model time is either accepted and read back, and then is below 1440 minutes with a factor
-- below 64; or it is refused, and then one of the two is out of range.
pub time_lem :
    (minutes speed : ℕ) (sudden : Bool)
    → ((p : List ℕ) × (time_packet minutes speed sudden ≡ some p)
        × (read_time p ≡ some (minutes, speed, sudden))
        × (minutes < 1440)
        × (speed < 64))
      ⊎ ((time_packet minutes speed sudden ≡ none) × ((1440 ≤ minutes) ⊎ (64 ≤ speed)))
unfolding read_time time_packet
time_lem minutes speed sudden = elim (Bool-cases (leb 1440 minutes || ltb 63 speed)) [
  | inl out ↦ inr (rw (time_packet, out), ground arith)
  | inr fits ↦
      let m : minutes < 1440 = ground arith in
      let s : speed < 64 = ground arith in
      inl (
        0
            ∷ 0xC1
            ∷ (minutes % 60)
            ∷ bit_or 0xE0 (minutes / 60)
            ∷ bit_or (if sudden then 0x80 else 0) speed
            ∷ [],
        rw (time_packet, fits),
        time_accepted minutes speed sudden m s,
        m,
        s,
      )
]
