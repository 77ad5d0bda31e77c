-- ===== src/Waveform.antt =====
-- DCCWaveform.cpp and DCCWaveform.h, without ARDUINO_ARCH_ESP32: the two tracks' signals, made one half bit
-- at a time by the timer's interrupt, and the packet that waits for the one that is sent. A level is
-- true where the pin is HIGH. The cutout for RailCom, the scan of the current and
-- the acknowledgements are not part of the signal and are left out; a byte behind the packet reads 0.
pub mod Bits
pub mod Bytes
pub mod Packets
pub mod Repeats
pub mod Channel
pub mod Bounds
mod Tests
use command_station_ex_la_bo.DccQueue.{max_packet_size}
use command_station_ex_la_bo.Prelude.{
  ℕ, zero, suc, ◌+◌, ◌-◌, ◌*◌, ◌/◌, ◌%◌, ◌^◌, ◌≤◌, ◌<◌, ◌≡◌, refl, sym, ap, ap₂, ◌∙◌, subst, ◌≢◌,
  ◌↔◌, ◌⊎◌, inl, inr, Bool, true, false, not, ◌&&◌, ◌||◌, Option, none, some, List, [], ◌∷◌, ◌++◌,
  map, append-nil, append_assoc, arith, length, length-append, get_or, get_elem?, set, take, drop,
  replicate, ltb, leb, ◌==◌, ltb→lt, lt→ltb, leb→le, ==_iff, if◌then◌else◌, Bool-cases,
  Option-cases, inr, bit_and, bit_or, bit_xor, length-set, dec_lt, dec_le, ℕ_discrete, all_below,
  digit, digit-or, digit-and, digit-lt, and_power, length-replicate, length-take, length-drop, All,
  take_all, take-append, find,
}

abbrev pub preamble_bits_main : ℕ
preamble_bits_main = 16

abbrev pub preamble_bits_prog : ℕ
preamble_bits_prog = 22

pub data WaveState : Type 0 where
  wave_start wave_mid_1 wave_high_0 wave_mid_0 wave_low_0 wave_pending : WaveState

pub record Wave : Type 0 where
  pub is_main_track : Bool
  pub packet_pending : Bool
  pub reminder_window_open : Bool
  pub sent_resets : ℕ
  pub transmit_packet : List ℕ
  pub transmit_length : ℕ
  pub transmit_repeats : ℕ
  pub remaining_preambles : ℕ
  pub required_preambles : ℕ
  pub bits_sent : ℕ
  pub bytes_sent : ℕ
  pub state : WaveState
  pub pending_packet : List ℕ
  pub pending_length : ℕ
  pub pending_repeats : ℕ

abbrev pub bit_mask : List ℕ
bit_mask = 0 ∷ 0x80 ∷ 0x40 ∷ 0x20 ∷ 0x10 ∷ 0x08 ∷ 0x04 ∷ 0x02 ∷ 0x01 ∷ []

abbrev pub idle_packet : List ℕ
idle_packet = 0xFF ∷ 0 ∷ 0xFF ∷ []

abbrev pub reset_packet : List ℕ
reset_packet = 0 ∷ 0 ∷ 0 ∷ []

abbrev pub state_transform : WaveState → WaveState
state_transform wave_start = wave_pending
state_transform wave_mid_1 = wave_start
state_transform wave_high_0 = wave_mid_0
state_transform wave_mid_0 = wave_low_0
state_transform wave_low_0 = wave_start
state_transform wave_pending = wave_pending

abbrev pub signal_transform : WaveState → Bool
signal_transform wave_start = true
signal_transform wave_mid_1 = false
signal_transform wave_high_0 = true
signal_transform wave_mid_0 = false
signal_transform wave_low_0 = false
signal_transform wave_pending = false

-- A track that has sent nothing; the fields that the constructor leaves are 0.
abbrev pub dcc_waveform : ℕ → Bool → Wave
dcc_waveform preamble_bits is_main = record {
  is_main_track = is_main;
  packet_pending = false;
  reminder_window_open = false;
  sent_resets = 0;
  transmit_packet = idle_packet ++ replicate 3 0;
  transmit_length = 0;
  transmit_repeats = 0;
  remaining_preambles = 0;
  required_preambles = preamble_bits + 1;
  bits_sent = 0;
  bytes_sent = 0;
  state = wave_start;
  pending_packet = replicate 6 0;
  pending_length = 0;
  pending_repeats = 0;
}

abbrev pub promote_pending_packet : Wave → Wave
promote_pending_packet w =
    if ltb 0 w.transmit_repeats
    then record w { transmit_repeats = w.transmit_repeats - 1 }
    else if w.packet_pending
    then record w {
      transmit_packet = w.pending_packet;
      transmit_length = w.pending_length;
      transmit_repeats = w.pending_repeats;
      packet_pending = false;
      sent_resets = 0;
    }
    else record w {
      transmit_packet =
          (if w.is_main_track then idle_packet else reset_packet) ++ drop 3 w.transmit_packet;
      transmit_length = 3;
      transmit_repeats = 0;
      sent_resets = if ltb w.sent_resets 250 then w.sent_resets + 1 else w.sent_resets;
    }

abbrev preamble_bit : Wave → Wave
preamble_bit w =
    let left = w.remaining_preambles - 1 in
    let w = record w {
      state = wave_mid_1;
      remaining_preambles = left;
      reminder_window_open = w.transmit_repeats == 0 && ltb left 12 && ltb 1 left;
    } in
    if left == 1 then promote_pending_packet w else w

abbrev pub current_bit : Wave → Bool
current_bit w =
    not (bit_and (get_or w.transmit_packet w.bytes_sent 0) (get_or bit_mask w.bits_sent 0) == 0)

abbrev end_of_byte : Wave → Wave
end_of_byte w =
    let sent = w.bytes_sent + 1 in
    if leb w.transmit_length sent
    then record w { bits_sent = 0; bytes_sent = 0; remaining_preambles = w.required_preambles }
    else record w { bits_sent = 0; bytes_sent = sent }

abbrev data_bit : Wave → Wave
data_bit w =
    let sent = record w {
      state = if current_bit w then wave_mid_1 else wave_high_0;
      bits_sent = w.bits_sent + 1;
    } in
    if sent.bits_sent == 9 then end_of_byte sent else sent

unfoldable pub interrupt2 : Wave → Wave
interrupt2 w = if ltb 0 w.remaining_preambles then preamble_bit w else data_bit w

abbrev pub resumed_state : WaveState → Wave → Wave
resumed_state wave_pending w = interrupt2 (record w { state = wave_pending })
resumed_state s w = record w { state = s }

-- One track's part of the interrupt: the level that it sets, and the state machine.
unfoldable pub tick : Wave → Bool × Wave
tick w = (signal_transform w.state, resumed_state (state_transform w.state) w)

-- `interruptHandler`: the two levels, and the two tracks.
unfoldable pub interrupt_handler : Bool → Wave → Wave → (Bool × Bool) × (Wave × Wave)
interrupt_handler prog_track_sync_main main prog =
    let sig_main = (tick main).0 in
    let sig_prog = if prog_track_sync_main then sig_main else (tick prog).0 in
    ((sig_main, sig_prog), ((tick main).1, (tick prog).1))

abbrev pub checksum : List ℕ → ℕ → ℕ
checksum [] sum = sum
checksum (b ∷ bs) sum = checksum bs (bit_xor sum b)

-- `schedulePacket`, once no packet is pending: `buffer` holds the bytes that are given.
unfoldable pub schedule_packet : List ℕ → ℕ → Wave → Wave
schedule_packet buffer repeats w = if ltb max_packet_size (length buffer) then w else record w {
  pending_packet =
      (buffer ++ (checksum buffer 0 ∷ [])) ++ drop (length buffer + 1) w.pending_packet;
  pending_length = length buffer + 1;
  pending_repeats = repeats;
  packet_pending = true;
  sent_resets = 0;
}

unfoldable pub is_reminder_window_open : Wave → Bool
is_reminder_window_open w = w.reminder_window_open && not w.packet_pending
