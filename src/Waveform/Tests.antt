-- ===== src/Waveform/Tests.antt =====
-- DCCWaveform.cpp and DCCRMT.cpp: concrete packets.
use command_station_ex_la_bo.Waveform.Bounds.{
  Bounded, after_events, scheduled, interrupted, after_events-Bounded,
}
use command_station_ex_la_bo.Waveform.Channel.{busy}
use command_station_ex_la_bo.Waveform.Channel.Queue.{interrupts, rmt_fill_data-interrupts}
use command_station_ex_la_bo.Waveform.Bytes.{finished}
use command_station_ex_la_bo.Waveform.Channel.Items.{in_memory, converted_packet-packet_bits}
use command_station_ex_la_bo.Waveform.Channel.{
  dcc_bit_1, rmt_fill_data, rmt_channel, preamble, filled, converted_packet, bit_item, idle, eot,
}
use command_station_ex_la_bo.Waveform.Repeats.{
  with_checksum, copies, packet_bits, holding, taken, schedule_packet-ticks,
}
use command_station_ex_la_bo.Waveform.Bits.{ticks, ticks_for, waves_of}
use command_station_ex_la_bo.Waveform.{
  Wave, interrupt_handler, is_reminder_window_open, dcc_waveform, tick, schedule_packet,
  preamble_bits_main, interrupt2, preamble_bits_prog, wave_start,
}
use command_station_ex_la_bo.Prelude.{
  ℕ, ◌≡◌, refl, true, false, none, some, List, [], ◌∷◌, ◌++◌, map, arith, replicate,
}

abbrev main_track : Wave
main_track = dcc_waveform preamble_bits_main true

abbrev speed_packet : List ℕ
speed_packet = 3 ∷ 0x3F ∷ 0x85 ∷ []

-- The first bits of the wave, from the very start: the byte FF without a preamble.
first_levels :
    (ticks 8 main_track).0 ≡ true ∷ true ∷ false ∷ false ∷ true ∷ false ∷ true ∷ false ∷ []
unfolding ticks tick interrupt2
first_levels = refl

both_tracks :
    (interrupt_handler true main_track (dcc_waveform preamble_bits_prog false)).0 ≡ (true, true)
unfolding interrupt_handler tick
both_tracks = refl

checksum_of_speed : with_checksum speed_packet ≡ 3 ∷ 0x3F ∷ 0x85 ∷ 0xB9 ∷ []
checksum_of_speed = refl

window_closed : is_reminder_window_open (schedule_packet speed_packet 0 main_track) ≡ false
unfolding is_reminder_window_open schedule_packet
window_closed = refl

schedule_packet-ticks_example :
    let all = copies 2 (packet_bits 17 (with_checksum speed_packet)) in
    ticks (ticks_for all) (finished wave_start (schedule_packet speed_packet 1 main_track))
    ≡ (waves_of all, finished wave_start (holding 0 (taken speed_packet 1 main_track)))
schedule_packet-ticks_example =
    schedule_packet-ticks speed_packet 1 15 main_track (omega arith) refl refl

converted_packet-packet_bits_example :
    dcc_bit_1 ∷ in_memory (preamble 16) (converted_packet speed_packet)
    ≡ map bit_item (packet_bits 17 speed_packet) ++ (dcc_bit_1 ∷ eot ∷ [])
converted_packet-packet_bits_example = converted_packet-packet_bits 16 3 (0x3F ∷ 0x85 ∷ [])

rmt_fill_data-interrupts_example :
    let after = rmt_fill_data speed_packet 2 (rmt_channel true) in
    (after.0 ≡ filled)
    × ((interrupts 4 after.1).1
        ≡ some (converted_packet speed_packet, 17)
          ∷ (replicate 2 none ++ (some (idle true, 17) ∷ [])))
unfolding busy
rmt_fill_data-interrupts_example =
    rmt_fill_data-interrupts speed_packet 2 (rmt_channel true) refl (omega arith) (omega arith)

after_events-Bounded_example :
    Bounded (after_events (dcc_waveform 16 true) (scheduled speed_packet 1 ∷ interrupted ∷ []))
after_events-Bounded_example =
    after_events-Bounded 16 true (scheduled speed_packet 1 ∷ interrupted ∷ [])
