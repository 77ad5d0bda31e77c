-- ===== src/Waveform/Bytes.antt =====
-- DCCWaveform.cpp: the nine bits of a byte.
use command_station_ex_la_bo.Waveform.Bits.{bits, chosen}
use command_station_ex_la_bo.Waveform.{WaveState, Wave, wave_mid_1, interrupt2, wave_high_0}
use command_station_ex_la_bo.Prelude.{
  ℕ, zero, suc, ◌+◌, ◌*◌, ◌/◌, ◌%◌, ◌^◌, ◌<◌, ◌≡◌, refl, ap, ap₂, ◌∙◌, Bool, true, false, not, List,
  [], ◌∷◌, map, arith, get_or, leb, ◌==◌, if◌then◌else◌, bit_and, digit, digit-lt, and_power,
  and_zero, Bool-cases, inl, inr,
}

-- The eight digits of a byte, the highest first.
abbrev pub byte_bits : ℕ → List Bool
byte_bits b =
    (b / 128 % 2 == 1)
    ∷ (b / 64 % 2 == 1)
    ∷ (b / 32 % 2 == 1)
    ∷ (b / 16 % 2 == 1)
    ∷ (b / 8 % 2 == 1)
    ∷ (b / 4 % 2 == 1)
    ∷ (b / 2 % 2 == 1)
    ∷ (b % 2 == 1)
    ∷ []

abbrev pub masked : ℕ → ℕ → Bool
masked b mask = not (bit_and b mask == 0)

masked_power : (k b x : ℕ) → 0 < 2 ^ k → digit k b ≡ x → masked b (2 ^ k) ≡ (x == 1)
masked_power k b x h e = rw (and_power k b, e) (at x (2 ^ k) (omega (arith, digit-lt k b, e)) h)
  where
    at : (d p : ℕ) → d < 2 → 0 < p → not (d * p == 0) ≡ (d == 1)
    at zero p h k = ground (arith, h, k)
    at (suc zero) p h k = ground (arith, h, k)
    at (suc (suc d)) p h k = absurd (omega (arith, h))

-- The masks take the digits of the byte.
pub masked_bits :
    (b : ℕ)
    → masked b 0x80
        ∷ masked b 0x40
        ∷ masked b 0x20
        ∷ masked b 0x10
        ∷ masked b 8
        ∷ masked b 4
        ∷ masked b 2
        ∷ masked b 1
        ∷ []
      ≡ byte_bits b
unfolding digit
masked_bits b = ap₂ ◌∷◌ (masked_power 7 b (b / 128 % 2) (omega arith) (omega arith)) (
    ap₂ ◌∷◌ (masked_power 6 b (b / 64 % 2) (omega arith) (omega arith)) (
      ap₂ ◌∷◌ (masked_power 5 b (b / 32 % 2) (omega arith) (omega arith)) (
        ap₂ ◌∷◌ (masked_power 4 b (b / 16 % 2) (omega arith) (omega arith)) (
          ap₂ ◌∷◌ (masked_power 3 b (b / 8 % 2) (omega arith) (omega arith)) (
            ap₂ ◌∷◌ (masked_power 2 b (b / 4 % 2) (omega arith) (omega arith)) (
              ap₂ ◌∷◌ (masked_power 1 b (b / 2 % 2) (omega arith) (omega arith))
                (ap₂ ◌∷◌ (masked_power 0 b (b % 2) (omega arith) (omega arith)) refl)))))))

-- The track is about to send a byte of the packet.
abbrev pub sending : ℕ → WaveState → Wave → Wave
sending i s w = record w { state = s; remaining_preambles = 0; bits_sent = 0; bytes_sent = i }

-- The track has sent a packet.
abbrev pub finished : WaveState → Wave → Wave
finished s w = record w {
  state = s;
  remaining_preambles = w.required_preambles;
  bits_sent = 0;
  bytes_sent = 0;
}

abbrev pub last_state : ℕ → WaveState
last_state b = if masked b 1 then wave_mid_1 else wave_high_0

abbrev choice : Bool → Bool
choice b = chosen (if b then wave_mid_1 else wave_high_0)

map-choice : (bs : List Bool) → map choice bs ≡ bs
map-choice [] = refl
map-choice (true ∷ bs) = ap (◌∷◌ true) (map-choice bs)
map-choice (false ∷ bs) = ap (◌∷◌ false) (map-choice bs)

-- The nine bits of a byte, a 0 and its digits.
abbrev pub framed : ℕ → List Bool
framed b = false ∷ byte_bits b

abbrev pub sent_byte : ℕ → ℕ → Wave → Wave
sent_byte i b w =
    if leb w.transmit_length (i + 1)
    then finished (last_state b) w
    else sending (i + 1) (last_state b) w

nine_masked :
    (i : ℕ) (s : WaveState) (w : Wave)
    → let b = get_or w.transmit_packet i 0 in
      bits 9 (sending i s w) ≡ (
        map choice (
            masked b 0
            ∷ masked b 0x80
            ∷ masked b 0x40
            ∷ masked b 0x20
            ∷ masked b 0x10
            ∷ masked b 8
            ∷ masked b 4
            ∷ masked b 2
            ∷ masked b 1
            ∷ []),
        sent_byte i b w,
      )
unfolding bits interrupt2
nine_masked i s w = elim (Bool-cases (leb w.transmit_length (i + 1))) [
  | inl e ↦ rw e refl
  | inr e ↦ rw e refl
]

no_mask : (b : ℕ) → masked b 0 ≡ false
no_mask b = ap (λ x. not (x == 0)) (and_zero b b (omega arith))

pub bits-sending :
    (i : ℕ) (s : WaveState) (w : Wave)
    → let b = get_or w.transmit_packet i 0 in bits 9 (sending i s w) ≡ (framed b, sent_byte i b w)
bits-sending i s w =
    let b = get_or w.transmit_packet i 0 in
    nine_masked i s w
    ∙ ap (λ l. (l, sent_byte i b w))
        (map-choice (
            masked b 0
            ∷ masked b 0x80
            ∷ masked b 0x40
            ∷ masked b 0x20
            ∷ masked b 0x10
            ∷ masked b 8
            ∷ masked b 4
            ∷ masked b 2
            ∷ masked b 1
            ∷ [])
          ∙ ap₂ ◌∷◌ (no_mask b) (masked_bits b))
