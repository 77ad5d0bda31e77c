-- ===== src/Waveform/Bounds.antt =====
-- DCCWaveform.cpp: the arrays are read and written inside their bounds.
use command_station_ex_la_bo.DccQueue.{max_packet_size}
use command_station_ex_la_bo.Waveform.{
  Wave, interrupt2, tick, schedule_packet, dcc_waveform, promote_pending_packet, WaveState,
  bit_mask, idle_packet, resumed_state, checksum, reset_packet, state_transform, wave_pending,
  wave_start, wave_mid_1, wave_high_0, wave_mid_0, wave_low_0, end_of_byte, data_bit, preamble_bit,
  current_bit,
}
use command_station_ex_la_bo.Prelude.{
  ℕ, ◌+◌, ◌-◌, ◌≤◌, ◌<◌, ◌≡◌, refl, inl, inr, Bool, true, false, ◌&&◌, List, [], ◌∷◌, ◌++◌, arith,
  length, length-append, drop, ltb, leb, ◌==◌, if◌then◌else◌, Bool-cases, inr, length-drop,
}

-- The packets have six bytes, and what is counted stays inside them and inside the masks.
abbrev pub Bounded : Wave → Type 0
Bounded w =
    (length w.transmit_packet ≡ max_packet_size + 1)
    × (length w.pending_packet ≡ max_packet_size + 1)
    × (w.transmit_length ≤ max_packet_size + 1)
    × (w.pending_length ≤ max_packet_size + 1)
    × (w.bits_sent < length bit_mask)
    × (w.bytes_sent < max_packet_size + 1)

promote-Bounded : (w : Wave) → Bounded w → Bounded (promote_pending_packet w)
promote-Bounded w (a, b, c, d, e, f) = elim (Bool-cases (ltb 0 w.transmit_repeats)) [
  | inl q ↦ rw q (a, b, c, d, e, f)
  | inr q ↦ rw q (elim (Bool-cases w.packet_pending) [
    | inl r ↦ rw r (b, b, d, d, e, f)
    | inr r ↦ rw r (idle_bound w.is_main_track, b, omega arith, d, e, f)
  ])
]
  where
    idle_bound :
        (m : Bool)
        → length ((if m then idle_packet else reset_packet) ++ drop 3 w.transmit_packet)
          ≡ max_packet_size + 1
    idle_bound true = omega (
      arith,
      length-append idle_packet (drop 3 w.transmit_packet),
      length-drop 3 w.transmit_packet,
      a,
    )
    idle_bound false = omega (
      arith,
      length-append reset_packet (drop 3 w.transmit_packet),
      length-drop 3 w.transmit_packet,
      a,
    )

end_of_byte-Bounded :
    (w : Wave)
    → (length w.transmit_packet ≡ max_packet_size + 1)
      × (length w.pending_packet ≡ max_packet_size + 1)
      × (w.transmit_length ≤ max_packet_size + 1)
      × (w.pending_length ≤ max_packet_size + 1)
    → Bounded (end_of_byte w)
end_of_byte-Bounded w (a, b, c, d) = elim (Bool-cases (leb w.transmit_length (w.bytes_sent + 1))) [
  | inl q ↦ rw q (a, b, c, d, omega arith, omega arith)
  | inr q ↦ rw q (a, b, c, d, omega arith, ground (arith, q, c))
]

data_bit-Bounded : (w : Wave) → Bounded w → Bounded (data_bit w)
data_bit-Bounded w (a, b, c, d, e, f) = elim (Bool-cases (w.bits_sent + 1 == 9)) [
  | inl q ↦ rw q (
      end_of_byte-Bounded
        (record w {
          bits_sent = w.bits_sent + 1;
          state = if current_bit w then wave_mid_1 else wave_high_0;
        })
        (a, b, c, d))
  | inr q ↦ rw q (a, b, c, d, ground (arith, q, e), f)
]

preamble_bit-Bounded : (w : Wave) → Bounded w → Bounded (preamble_bit w)
preamble_bit-Bounded w v = elim (Bool-cases (w.remaining_preambles - 1 == 1)) [
  | inl q ↦ rw q (
      promote-Bounded
        (record w {
          state = wave_mid_1;
          remaining_preambles = w.remaining_preambles - 1;
          reminder_window_open =
              w.transmit_repeats == 0
              && ltb (w.remaining_preambles - 1) 12
              && ltb 1 (w.remaining_preambles - 1);
        })
        v)
  | inr q ↦ rw q v
]

interrupt2-Bounded : (w : Wave) → Bounded w → Bounded (interrupt2 w)
unfolding interrupt2
interrupt2-Bounded w v = elim (Bool-cases (ltb 0 w.remaining_preambles)) [
  | inl q ↦ rw q (preamble_bit-Bounded w v)
  | inr q ↦ rw q (data_bit-Bounded w v)
]

tick-Bounded : (w : Wave) → Bounded w → Bounded (tick w).1
unfolding tick
tick-Bounded w v = at (state_transform w.state)
  where
    at : (s : WaveState) → Bounded (resumed_state s w)
    at wave_pending = interrupt2-Bounded (record w { state = wave_pending }) v
    at wave_start = v
    at wave_mid_1 = v
    at wave_high_0 = v
    at wave_mid_0 = v
    at wave_low_0 = v

schedule_packet-Bounded :
    (buffer : List ℕ) (repeats : ℕ) (w : Wave)
    → Bounded w
    → Bounded (schedule_packet buffer repeats w)
unfolding schedule_packet
schedule_packet-Bounded buffer repeats w (a, b, c, d, e, f) =
    elim (Bool-cases (ltb max_packet_size (length buffer))) [
      | inl q ↦ rw q (a, b, c, d, e, f)
      | inr q ↦
          let sum = checksum buffer 0 ∷ [] in
          rw q (
            a,
            ground (
              arith,
              q,
              b,
              length-append (buffer ++ sum) (drop (length buffer + 1) w.pending_packet),
              length-append buffer sum,
              length-drop (length buffer + 1) w.pending_packet,
            ),
            c,
            ground (arith, q),
            e,
            f,
          )
    ]

-- What happens to a track: the interrupt, or a packet for it.
pub data Event : Type 0 where
  interrupted : Event
  scheduled : (buffer : List ℕ) → (repeats : ℕ) → Event

abbrev happens : Wave → Event → Wave
happens w interrupted = (tick w).1
happens w (scheduled buffer repeats) = schedule_packet buffer repeats w

unfoldable pub after_events : Wave → List Event → Wave
after_events w [] = w
after_events w (e ∷ es) = after_events (happens w e) es

kept : (w : Wave) (es : List Event) → Bounded w → Bounded (after_events w es)
unfolding after_events
kept w [] v = v
kept w (interrupted ∷ es) v = kept (tick w).1 es (tick-Bounded w v)
kept w (scheduled buffer repeats ∷ es) v =
    kept (schedule_packet buffer repeats w) es (schedule_packet-Bounded buffer repeats w v)

-- Whatever packets are scheduled, of whatever length, and however the interrupts come between them: a track reads its packet and the
-- masks inside their bounds, and writes its pending packet inside it.
pub after_events-Bounded :
    (preamble_bits : ℕ) (is_main : Bool) (es : List Event)
    → Bounded (after_events (dcc_waveform preamble_bits is_main) es)
after_events-Bounded preamble_bits is_main es =
    kept (dcc_waveform preamble_bits is_main) es
      (refl, refl, omega arith, omega arith, omega arith, omega arith)
