-- ===== src/Sensors/Debounce.antt =====
-- Sensors.cpp: the changes of one sensor that are reported.
use command_station_ex_la_bo.Sensors.{
  Report, Sensor, debounce, check_one, equal_bits, vpin_none, poll, min_read_count, set_state,
}
use command_station_ex_la_bo.Prelude.{
  ℕ, ◌≡◌, refl, sym, ap, ◌∙◌, subst, ◌≢◌, Bool, true, false, not, ◌||◌, Option, none, some, List,
  [], ◌∷◌, ◌++◌, arith, ◌==◌, if◌then◌else◌,
}

abbrev bit : Bool → ℕ
bit true = 1
bit false = 0

abbrev reported : Option Report → List Report
reported none = []
reported (some r) = r ∷ []

-- One scan after the other, with what the pin reads in each.
unfoldable pub watch : List Bool → Sensor → List Report
watch [] s = []
watch (b ∷ bs) s =
    let checked = check_one (λ pin. bit b) s in reported checked.1 ++ watch bs checked.0

-- A change is reported where two readings in a row differ from the state that was reported last, which is then the new reading.
unfoldable pub settled : ℕ → Bool → Bool → List Bool → List Report
settled snum state before [] = []
settled snum state before (b ∷ bs) =
    let changed = settled snum b b bs in
    let kept = settled snum state b bs in
    if equal_bits before state || equal_bits b state then kept else (snum, b) ∷ changed

abbrev pub Polled : Sensor → Type 0
Polled s = (s.polling_required ≡ true) × (s.pin ≢ vpin_none)

-- The counter stands where the reading before has left it.
abbrev pub Counts : Bool → Sensor → Type 0
Counts before s = s.latch_delay ≡ bit (equal_bits before s.active)

poll_reads :
    (b : Bool) (s : Sensor) → Polled s → poll (λ pin. bit b) s ≡ record s { input_state = b }
poll_reads true s (h, k) = ground (arith, h, k)
poll_reads false s (h, k) = ground (arith, h, k)

abbrev sensor : ℕ → ℕ → ℕ → Bool → Bool → ℕ → Bool → Sensor
sensor snum pin pull_up active input latch polling = record {
  snum = snum;
  pin = pin;
  pull_up = pull_up;
  active = active;
  input_state = input;
  latch_delay = latch;
  polling_required = polling;
}

-- One debounce with a reading, for every state of the sensor.
debounced_step :
    (bs : List Bool) (b before active : Bool) (snum pin pull_up : ℕ) (polling : Bool)
    → ((before active input : Bool)
        → watch bs (sensor snum pin pull_up active input (bit (equal_bits before active)) polling)
          ≡ settled snum active before bs)
    → let s = sensor snum pin pull_up active b (bit (equal_bits before active)) polling in
      reported (debounce s).1 ++ watch bs (debounce s).0 ≡ settled snum active before (b ∷ bs)
unfolding settled debounce
debounced_step bs true true true snum pin pull_up polling ih = ih true true true
debounced_step bs true true false snum pin pull_up polling ih =
    ap (λ l. (snum, true) ∷ l) (ih true true true)
debounced_step bs true false true snum pin pull_up polling ih = ih true true true
debounced_step bs true false false snum pin pull_up polling ih = ih true false true
debounced_step bs false true true snum pin pull_up polling ih = ih false true false
debounced_step bs false true false snum pin pull_up polling ih = ih false false false
debounced_step bs false false true snum pin pull_up polling ih =
    ap (λ l. (snum, false) ∷ l) (ih false false false)
debounced_step bs false false false snum pin pull_up polling ih = ih false false false

watch_from :
    (bs : List Bool) (before : Bool) (s : Sensor)
    → Polled s
    → Counts before s
    → watch bs s ≡ settled s.snum s.active before bs
unfolding watch settled
watch_from [] before s h c = refl
watch_from (b ∷ bs) before s h c =
    subst
      (λ s'.
        reported (debounce s').1 ++ watch bs (debounce s').0
        ≡ settled s.snum s.active before (b ∷ bs))
      (ap (λ l. record s { input_state = b; latch_delay = l }) (sym c) ∙ sym (poll_reads b s h))
      (debounced_step bs b before s.active s.snum s.pin s.pull_up s.polling_required
        (λ before active input.
          watch_from bs before
            (sensor s.snum s.pin s.pull_up active input (bit (equal_bits before active))
              s.polling_required)
            h refl))

-- The changes that the scans report of a sensor that is polled at a pin, and whose counter is at
-- its start, are the readings that differ, as the reading before them, from the state that was
-- reported last: a reading that differs alone is not reported.
pub check_one-settled :
    (bs : List Bool) (s : Sensor)
    → Polled s
    → s.latch_delay ≡ min_read_count
    → watch bs s ≡ settled s.snum s.active s.active bs
check_one-settled bs s h c = watch_from bs s.active s h (c ∙ own s.active)
  where
    own : (b : Bool) → 1 ≡ bit (equal_bits b b)
    own true = refl
    own false = refl

-- After `setState`, a change is reported in the next scan.
pub set_state-debounce :
    (value : ℕ) (s : Sensor)
    → (debounce (set_state value s)).1
      ≡ (if equal_bits (not (value == 0)) s.active then none else some (s.snum, not (value == 0)))
unfolding debounce set_state
set_state-debounce value s = ground arith
