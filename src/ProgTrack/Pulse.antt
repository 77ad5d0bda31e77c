-- ===== src/ProgTrack/Pulse.antt =====
-- DCCACK.cpp: `setAckPending`, `getAck` and `checkAck`, which looks for the pulse of current that is an
-- acknowledgement. Clocks count modulo 2^32.
use command_station_ex_la_bo.Prelude.Int.{ℤ, pos, ltb_ℤ}
use command_station_ex_la_bo.Prelude.{
  ℕ, ◌+◌, ◌-◌, ◌%◌, ◌^◌, Bool, true, false, not, ◌&&◌, ◌||◌, List, [], ◌∷◌, ltb, leb, ◌==◌,
  if◌then◌else◌,
}

-- The statics of DCCACK that the check uses.
pub record Check : Type 0 where
  pub pending : Bool
  pub detected : Bool
  pub threshold : ℤ
  pub max_current : ℤ
  pub check_start : ℕ
  pub check_duration : ℕ
  pub pulse_start : ℕ
  pub pulse_duration : ℕ
  pub samples : ℕ
  pub gaps : ℕ
  pub trailing_edges : ℕ
  pub min_duration : ℕ
  pub max_duration : ℕ

-- What one call of `checkAck` finds: the resets since the packet, the current, micros() and millis().
pub record Sample : Type 0 where
  pub resets : ℕ
  pub current : ℤ
  pub micros : ℕ
  pub millis : ℕ

unfoldable pub set_ack_pending : ℕ → Check → Check
set_ack_pending millis c = record c {
  max_current = pos 0;
  pulse_start = 0;
  pulse_duration = 0;
  detected = false;
  check_start = millis;
  samples = 0;
  gaps = 0;
  pending = true;
}

-- 2 keeps polling, 1 is an acknowledgement.
unfoldable pub get_ack : Check → ℕ
get_ack c = if c.pending then 2 else if c.detected then 1 else 0

abbrev pub since : ℕ → ℕ → ℕ
since now start = (now + 2 ^ 32 - start) % 2 ^ 32

abbrev pub sampled : Sample → Check → Check
sampled x c = record c {
  samples = (c.samples + 1) % 256;
  max_current = if ltb_ℤ c.max_current x.current then x.current else c.max_current;
}

-- The current is above the threshold.
abbrev pub in_pulse : Sample → Check → Check
in_pulse x c = record c {
  gaps = if ltb 0 c.trailing_edges then (c.gaps + 1) % 256 else c.gaps;
  trailing_edges = 0;
  pulse_start = if c.pulse_start == 0 then x.micros else c.pulse_start;
}

abbrev measured : Sample → Check → Check
measured x c =
    if c.trailing_edges == 0 then record c { pulse_duration = since x.micros c.pulse_start } else c

abbrev pub fits_pulse : Check → Bool
fits_pulse c =
    leb c.min_duration c.pulse_duration
    && (leb c.pulse_duration c.max_duration || c.max_duration == 0)

-- The third time with low current decides.
abbrev judged : Sample → Check → Check
judged x c =
    if fits_pulse c
    then record c {
      trailing_edges = 0;
      check_duration = since x.millis c.check_start;
      detected = true;
      pending = false;
    }
    else record c { trailing_edges = 0; pulse_start = 0 }

abbrev pub after_pulse : Sample → Check → Check
after_pulse x c =
    if ltb c.trailing_edges 2
    then record c { trailing_edges = c.trailing_edges + 1 }
    else judged x c

unfoldable pub check_ack : Sample → Check → Check
check_ack x c =
    if not c.pending
    then c
    else if ltb 6 x.resets
    then record c { check_duration = since x.millis c.check_start; pending = false }
    else if ltb_ℤ c.threshold x.current
    then in_pulse x (sampled x c)
    else if c.pulse_start == 0
    then sampled x c
    else after_pulse x (measured x (sampled x c))

unfoldable pub check_all : List Sample → Check → Check
check_all [] c = c
check_all (x ∷ xs) c = check_all xs (check_ack x c)
