-- ===== src/ProgTrack/Tests.antt =====
-- The programs and the ack check at concrete states.
use command_station_ex_la_bo.ProgTrack.Bits.{bit_programs}
use command_station_ex_la_bo.ProgTrack.ConsistId.{consist_id_round_trip}
use command_station_ex_la_bo.ProgTrack.LocoTrip.{loco_id_round_trip}
use command_station_ex_la_bo.ProgTrack.Detection.{pulse_answer}
use command_station_ex_la_bo.ProgTrack.Programs.{
  read_cv_prog, programs, read_bit_prog, verify_byte_prog, verify_bit0_prog, write_byte_prog,
  verify_bit1_prog, write_bit0_prog,
}
use command_station_ex_la_bo.ProgTrack.Session.{session, answered}
use command_station_ex_la_bo.ProgTrack.Pulse.{Check, Sample, get_ack, check_all, set_ack_pending}
use command_station_ex_la_bo.ProgTrack.Settling.{Given, callback_completes, power_held_after_write}
use command_station_ex_la_bo.ProgTrack.Return.{driven, postponed}
use command_station_ex_la_bo.ProgTrack.Retries.{EndsTries, tries, retries_end}
use command_station_ex_la_bo.Prelude.Int.{pos}
use command_station_ex_la_bo.ProgTrack.Bytes.{Comes, byte_programs}
use command_station_ex_la_bo.ProgTrack.Total.{CallsBack, programs_call_back, all_closed}
use command_station_ex_la_bo.ProgTrack.Polling.{Follows, loop-Follows}
use command_station_ex_la_bo.ProgTrack.Requests.{
  Track, Ends, set_loco_id, set_consist_id, get_loco_id, get_consist_id,
}
use command_station_ex_la_bo.ProgTrack.{Manager, after_write, waiting_100, loop}
use command_station_ex_la_bo.ProgTrack.Decoder.{Cvs, respond, update}
use command_station_ex_la_bo.Prelude.{
  ℕ, ◌+◌, ◌/◌, ◌≡◌, refl, inr, Bool, true, false, List, [], ◌∷◌, arith, ◌==◌, if◌then◌else◌, inr,
  All, ◌≤◌, ◌⊎◌, ◌<◌, ◌≢◌,
}

abbrev factory : Cvs
factory k = if k == 3 then 0xA5 else if k == 29 then 6 else if k == 1 then 3 else 0

abbrev resting : Manager
resting = record {
  start = [];
  byte = 0x5A;
  byte_verify = 0x5A;
  stash = 0;
  word = 0;
  retry = 2;
  retry_sum = 0;
  cv = 3;
  bit_num = 5;
  received = false;
  rejoin = true;
  auto_power_off = false;
  callback_state = after_write;
  callback_start = 0;
  power = true;
  joined = false;
}

abbrev prog_track : Track
prog_track = record { has_driver = true; can_measure = true; ack_retry = 2 }

polling_example :
    Follows respond
      (session respond false factory false resting read_cv_prog)
      factory
      false
      (loop false (answered false) resting read_cv_prog)
polling_example =
    loop-Follows respond false (answered false) factory false resting read_cv_prog (λ e. refl)

call_back_example :
    All (λ prog. CallsBack respond (session respond false factory false resting prog)) programs
call_back_example = programs_call_back respond factory false resting

byte_programs_example :
    Comes (session respond false factory false resting read_cv_prog) factory (pos 0xA5)
    × Comes (session respond false factory false resting verify_byte_prog) factory (pos 0xA5)
    × Comes
        (session respond false factory false resting write_byte_prog)
        (update factory 3 0x5A)
        (pos 1)
byte_programs_example =
    byte_programs factory false resting (omega arith) (omega arith) (omega arith)

bit_programs_example :
    (let bit = pos 1 in
      Comes (session respond false factory false resting read_bit_prog) factory bit
      × Comes (session respond false factory false resting verify_bit0_prog) factory bit
      × Comes (session respond false factory false resting verify_bit1_prog) factory bit)
    × Comes
        (session respond false factory false resting write_bit0_prog)
        (update factory 3 0x85)
        (pos 1)
bit_programs_example =
    bit_programs factory false resting (omega arith) (omega arith) (omega arith) false

loco_id_example :
    (cvs' : Cvs) × Ends false (set_loco_id prog_track resting (pos 1234)) factory cvs' (pos 1)
    × Ends false (get_loco_id prog_track resting) cvs' cvs' (pos 17618)
loco_id_example =
    loco_id_round_trip prog_track factory false resting resting 1234 refl refl (omega arith)
      (omega arith)

consist_id_example :
    (cvs' : Cvs) × Ends false
      (set_consist_id prog_track resting (pos 4567) true)
      factory
      cvs'
      (pos 1)
    × Ends false (get_consist_id prog_track resting) cvs' cvs' (pos 4567)
consist_id_example =
    consist_id_round_trip prog_track factory false resting resting 4567 true refl refl (omega arith)

-- A decoder that never answers, and the packets that it was sent.
abbrev deaf : ℕ → List ℕ → ℕ × Bool
deaf n packet = (n + 1, false)

retries_example : EndsTries deaf (tries deaf 0 3 0 false (record resting { start = read_cv_prog }))
retries_example =
    retries_end deaf 0 3 0 false (record resting { start = read_cv_prog })
      all_closed.1.1.1.1.1.1.1.0 (omega arith)

held_example :
    driven (4294967290 ∷ 4294967295 ∷ 50 ∷ []) resting (pos 1)
    ≡ postponed (record resting { callback_start = 4294967290; callback_state = waiting_100 })
held_example =
    power_held_after_write 4294967290 (4294967295 ∷ 50 ∷ []) resting (pos 1) refl refl refl
      (omega arith, (omega arith, tt))

completes_example : Given (driven (0 ∷ 100 ∷ 200 ∷ 200 ∷ []) resting (pos 1)) resting (pos 1)
completes_example =
    callback_completes 0 100 200 200 resting (pos 1) refl refl (inr refl) (omega arith)
      (omega arith)

abbrev checking : Check
checking = record {
  pending = false;
  detected = false;
  threshold = pos 60;
  max_current = pos 0;
  check_start = 0;
  check_duration = 0;
  pulse_start = 0;
  pulse_duration = 0;
  samples = 0;
  gaps = 0;
  trailing_edges = 2;
  min_duration = 2000;
  max_duration = 20000;
}

abbrev sample : ℕ → ℕ → Sample
sample current micros = record {
  resets = 3;
  current = pos current;
  micros = micros;
  millis = micros / 1000;
}

pulse_example :
    let answer = get_ack (
      check_all
        (sample 10 500
          ∷ sample 90 1000
          ∷ sample 95 4000
          ∷ sample 20 7000
          ∷ sample 20 7100
          ∷ sample 20 7200
          ∷ [])
        (set_ack_pending 0 checking)) in
    (2000 ≤ 6000 → (6000 ≤ 20000) ⊎ (◌≡◌ {A = ℕ} 20000 0) → answer ≡ 1)
    × ((6000 < 2000) ⊎ ((20000 < 6000) × (◌≢◌ {A = ℕ} 20000 0)) → answer ≡ 2)
pulse_example =
    pulse_answer checking 0 (sample 10 500 ∷ []) (sample 95 4000 ∷ []) (sample 90 1000)
      (sample 20 7000) (sample 20 7100) (sample 20 7200) ((omega arith, refl), tt)
      (omega arith, refl) (omega arith) ((omega arith, refl), tt) (omega arith, refl)
      (omega arith, refl) (omega arith, refl)

abbrev one_pulse : List Sample
one_pulse = sample 90 1000 ∷ sample 20 7000 ∷ sample 20 7100 ∷ sample 20 7200 ∷ []
