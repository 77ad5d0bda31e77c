-- ===== src/Sensors.antt =====
-- Sensors.cpp: the list of sensors and the scan that reports their changes. The list is in two parts: the
-- sensors before `readingSensor`, and those from it on, of which there are none where it is null. An
-- input of a pin, as `IODevice::read` gives it, the time in microseconds, and whether the driver of a
-- pin has a callback are arguments. `SensorGroup::checkAll`, `firstPollSensor` and `lastSensor`, which
-- no code sets, are left out; the memory for a new sensor is taken to be given.
pub mod Debounce
pub mod Lookup
pub mod Cycle
pub mod Scan
mod Tests
use command_station_ex_la_bo.Prelude.{
  ℕ, zero, suc, ◌+◌, ◌-◌, ◌*◌, ◌/◌, ◌%◌, ◌^◌, ◌≤◌, ◌<◌, ◌≡◌, refl, sym, ap, ap₂, ◌∙◌, subst, ◌≢◌,
  ◌↔◌, ◌⊎◌, inl, inr, Bool, true, false, not, ◌&&◌, ◌||◌, Option, none, some, List, [], ◌∷◌, ◌++◌,
  map, append-nil, append_assoc, arith, length, length-append, get_or, get_elem?, set, take, drop,
  replicate, ltb, leb, ◌==◌, ltb→lt, lt→ltb, leb→le, ==_iff, if◌then◌else◌, Bool-cases,
  Option-cases, inr, bit_and, bit_or, bit_xor, length-set, dec_lt, dec_le, ℕ_discrete, all_below,
  digit, digit-or, digit-and, digit-lt, and_power, length-replicate, length-take, length-drop, All,
  take_all, take-append, find,
}

abbrev pub vpin_none : ℕ
vpin_none = 65535

abbrev pub vpin_max : ℕ
vpin_max = 32767

abbrev pub min_read_count : ℕ
min_read_count = 1

abbrev pub cycle_interval : ℕ
cycle_interval = 10000

abbrev pub max_checked : ℕ
max_checked = 16

-- `snum` is the pattern of an `int`, and `input_state` and `active` are the bits.
pub record Sensor : Type 0 where
  pub snum : ℕ
  pub pin : ℕ
  pub pull_up : ℕ
  pub active : Bool
  pub input_state : Bool
  pub latch_delay : ℕ
  pub polling_required : Bool

pub record Sensors : Type 0 where
  pub passed : List Sensor
  pub ahead : List Sensor
  pub last_read_cycle : ℕ

-- `broadcastSensor`: the sensor's number and its state.
abbrev pub Report : Type 0
Report = ℕ × Bool

abbrev odd : ℕ → Bool
odd n = n % 2 == 1

abbrev pub poll : (ℕ → ℕ) → Sensor → Sensor
poll read s =
    if s.polling_required && not (s.pin == vpin_none)
    then record s { input_state = odd (read s.pin) }
    else s

abbrev pub equal_bits : Bool → Bool → Bool
equal_bits true b = b
equal_bits false b = not b

-- The debounce of one sensor.
unfoldable pub debounce : Sensor → Sensor × Option Report
debounce s =
    if equal_bits s.input_state s.active
    then (record s { latch_delay = min_read_count }, none)
    else if ltb 0 s.latch_delay
    then (record s { latch_delay = s.latch_delay - 1 }, none)
    else (
      record s { active = s.input_state; latch_delay = min_read_count },
      some (s.snum, s.input_state),
    )

abbrev pub check_one : (ℕ → ℕ) → Sensor → Sensor × Option Report
check_one read s = debounce (poll read s)

-- One sensor less ahead, and one more passed.
abbrev pub after :
    Sensor → List Sensor × List Sensor × List Report → List Sensor × List Sensor × List Report
after s (passed, ahead, reports) = (s ∷ passed, ahead, reports)

-- How the loop goes on behind a sensor: after a report it pauses.
abbrev pub advance :
    Sensor
    → Option Report
    → List Sensor
    → List Sensor × List Sensor × List Report
    → List Sensor × List Sensor × List Report
advance s none ahead rest = after s rest
advance s (some report) ahead rest = (s ∷ [], ahead, report ∷ [])

-- The loop, with the number of sensors that it may still check: what it passes, what stays ahead, and the reports.
unfoldable pub check_loop : (ℕ → ℕ) → ℕ → List Sensor → List Sensor × List Sensor × List Report
check_loop read zero ahead = ([], ahead, [])
check_loop read (suc more) [] = ([], [], [])
check_loop read (suc more) (s ∷ ahead) =
    let checked = check_one read s in
    let rest = check_loop read more ahead in advance checked.0 checked.1 ahead rest

abbrev pub since_cycle : ℕ → ℕ → ℕ
since_cycle now last = (now + 4294967296 - last) % 4294967296

-- Whether a new scan of the list begins, where none is going on.
abbrev pub cycle_begun : ℕ → Sensors → Sensors
cycle_begun now m = elim m.ahead as (λ l. Sensors) [
  | [] ↦
      if leb cycle_interval (since_cycle now m.last_read_cycle)
      then record { passed = []; ahead = m.passed; last_read_cycle = now }
      else m
  | s ∷ ahead ↦ m
]

abbrev pub looped : Sensors → List Sensor × List Sensor × List Report → Sensors × List Report
looped m (passed, ahead, reports) =
    (record m { passed = m.passed ++ passed; ahead = ahead }, reports)

abbrev pub sensors_of : Sensors → List Sensor
sensors_of m = m.passed ++ m.ahead

abbrev pub scanned : ℕ → (ℕ → ℕ) → Sensors → List Sensor → Sensors × List Report
scanned now read m [] = (m, [])
scanned now read m (first ∷ rest) =
    let going = cycle_begun now m in looped going (check_loop read max_checked going.ahead)

unfoldable pub check_all : ℕ → (ℕ → ℕ) → Sensors → Sensors × List Report
check_all now read m = scanned now read m (sensors_of m)

-- The first sensor that a test picks is changed, or taken out.
abbrev pub change_first : (Sensor → Bool) → (Sensor → Sensor) → List Sensor → List Sensor
change_first p f [] = []
change_first p f (s ∷ ss) = let rest = change_first p f ss in if p s then f s ∷ ss else s ∷ rest

abbrev pub remove_first : (Sensor → Bool) → List Sensor → List Sensor
remove_first p [] = []
remove_first p (s ∷ ss) = let rest = remove_first p ss in if p s then ss else s ∷ rest

abbrev pub has : (Sensor → Bool) → List Sensor → Bool
has p [] = false
has p (s ∷ ss) = p s || has p ss

abbrev pub numbered : ℕ → Sensor → Bool
numbered n s = s.snum == n

unfoldable pub get : ℕ → Sensors → Option Sensor
get n m = find (numbered n) (sensors_of m)

abbrev in_part : (Sensor → Bool) → (List Sensor → List Sensor) → Sensors → Sensors
in_part p f m =
    if has p m.passed then record m { passed = f m.passed } else record m { ahead = f m.ahead }

unfoldable pub remove : ℕ → Sensors → Sensors × Bool
remove n m = (in_part (numbered n) (remove_first (numbered n)) m, has (numbered n) (sensors_of m))

-- What `setState` leaves of the sensor on which it is called.
unfoldable pub set_state : ℕ → Sensor → Sensor
set_state value s = record s { input_state = not (value == 0); latch_delay = 0 }

unfoldable pub input_change_callback : ℕ → ℕ → Sensors → Sensors
input_change_callback vpin state m =
    in_part (λ s. s.pin == vpin)
      (change_first (λ s. s.pin == vpin) (λ s. record s { input_state = not (state == 0) })) m

abbrev pub new_sensor : (ℕ → Bool) → ℕ → ℕ → ℕ → Sensor
new_sensor has_callback snum pin pull_up = record {
  snum = snum;
  pin = pin;
  pull_up = pull_up % 256;
  active = false;
  input_state = false;
  latch_delay = min_read_count;
  polling_required = not (pin == vpin_none || has_callback pin);
}

-- Whether a sensor is made, with the list.
unfoldable pub create : (ℕ → Bool) → ℕ → ℕ → ℕ → Sensors → Sensors × Bool
create has_callback snum pin pull_up m =
    if ltb vpin_max pin && not (pin == vpin_none)
    then (m, false)
    else let kept = (remove snum m).0 in
      (record kept { passed = new_sensor has_callback snum pin pull_up ∷ kept.passed }, true)

-- `createMultiple`: pins are numbers of 16 bits, and a sensor is numbered as its pin.
unfoldable pub create_multiple : (ℕ → Bool) → ℕ → ℕ → Sensors → Sensors
create_multiple has_callback first_pin zero m = m
create_multiple has_callback first_pin (suc count) m =
    let pin = first_pin + count in
    (create has_callback pin (pin % 65536) 1 (create_multiple has_callback first_pin count m)).0
