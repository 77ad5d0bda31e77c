-- ===== src/Sensors/Scan.antt =====
-- Sensors.cpp: `checkAll` on the whole list, and one call after the other.
use command_station_ex_la_bo.Sensors.{since_cycle}
use command_station_ex_la_bo.Sensors.Lookup.{Distinct, IsValid}
use command_station_ex_la_bo.Sensors.Cycle.{
  told, tell, view, tell-check_loop, tell_behind, loop_sizes, loop_left,
}
use command_station_ex_la_bo.Sensors.{
  Report, Sensor, Sensors, has, sensors_of, numbered, check_loop, cycle_begun, cycle_interval,
  check_all, max_checked, scanned,
}
use command_station_ex_la_bo.Prelude.{
  ℕ, zero, suc, ◌+◌, ◌-◌, ◌≤◌, ◌<◌, ◌≡◌, refl, sym, ap, ap₂, ◌∙◌, subst, inl, inr, Bool, false,
  ◌||◌, List, [], ◌∷◌, ◌++◌, append-nil, append_assoc, arith, length, leb, ◌==◌, if◌then◌else◌,
  Bool-cases, inr, dec_lt,
}

abbrev numbers : List Report → List ℕ
numbers [] = []
numbers (e ∷ v) = e.0 ∷ numbers v

numbers-told : (r : Report) (v : List Report) → numbers (told r v) ≡ numbers v
numbers-told r [] = refl
numbers-told r (e ∷ v) = ap₂ ◌∷◌ (kept e) (numbers-told r v)
  where
    kept : (e : Report) → (if e.0 == r.0 then r else e).0 ≡ e.0
    kept e = ground arith

numbers-tell : (rs v : List Report) → numbers (tell rs v) ≡ numbers v
numbers-tell [] v = refl
numbers-tell (r ∷ rs) v = numbers-tell rs (told r v) ∙ numbers-told r v

abbrev has_number : ℕ → List ℕ → Bool
has_number n [] = false
has_number n (k ∷ ks) = k == n || has_number n ks

abbrev Unique : List ℕ → Type 0
Unique [] = Unit
Unique (k ∷ ks) = (has_number k ks ≡ false) × Unique ks

has-numbers : (n : ℕ) (l : List Sensor) → has_number n (numbers (view l)) ≡ has (numbered n) l
has-numbers n [] = refl
has-numbers n (s ∷ l) = ap (λ b. s.snum == n || b) (has-numbers n l)

Distinct-Unique : (l : List Sensor) → Distinct l → Unique (numbers (view l))
Distinct-Unique [] h = tt
Distinct-Unique (s ∷ l) (h, hs) = (has-numbers s.snum l ∙ h, Distinct-Unique l hs)

Unique-Distinct : (l : List Sensor) → Unique (numbers (view l)) → Distinct l
Unique-Distinct [] h = tt
Unique-Distinct (s ∷ l) (h, hs) = (sym (has-numbers s.snum l) ∙ h, Unique-Distinct l hs)

has-append : (p : Sensor → Bool) (xs ys : List Sensor) → has p (xs ++ ys) ≡ false → has p ys ≡ false
has-append p [] ys h = h
has-append p (x ∷ xs) ys h = has-append p xs ys (ground (arith, h))

-- The sensors in front of those that the loop checks are as they are.
tell_in_front :
    (read : ℕ → ℕ) (more : ℕ) (xs l : List Sensor)
    → Distinct (xs ++ l)
    → view (xs ++ ((check_loop read more l).0 ++ (check_loop read more l).1))
      ≡ tell (check_loop read more l).2 (view (xs ++ l))
tell_in_front read more [] l h = tell-check_loop read more l h
tell_in_front read more (x ∷ xs) l (h, hs) =
    ap (λ v. (x.snum, x.active) ∷ v) (tell_in_front read more xs l hs)
    ∙ sym (
        tell_behind read more l (x.snum, x.active) (view (xs ++ l))
          (has-append (numbered x.snum) xs l h))

sensors_of-cycle_begun : (now : ℕ) (m : Sensors) → sensors_of (cycle_begun now m) ≡ sensors_of m
sensors_of-cycle_begun now m = at m.passed m.ahead m.last_read_cycle
  where
    at :
        (passed ahead : List Sensor) (last : ℕ)
        → let m : Sensors = record { passed = passed; ahead = ahead; last_read_cycle = last } in
          sensors_of (cycle_begun now m) ≡ sensors_of m
    at passed [] last = elim (Bool-cases (leb cycle_interval (since_cycle now last))) [
      | inl e ↦ rw e (sym (append-nil passed))
      | inr e ↦ rw e refl
    ]
    at passed (s ∷ ahead) last = refl

-- In a list whose sensors have distinct numbers: after a call, the states that a listener knows,
-- who has heard the reports, are the states of all the sensors. The sensors are as before, with
-- the same numbers in the same order, and the call has made at most one report.
pub tell-check_all :
    (now : ℕ) (read : ℕ → ℕ) (m : Sensors)
    → IsValid m
    → let after = check_all now read m in
      (view (sensors_of after.0) ≡ tell after.1 (view (sensors_of m)))
      × IsValid after.0
      × (length after.1 ≤ 1)
unfolding check_all
tell-check_all now read m h = at (sensors_of m)
  where
    going : Sensors
    going = cycle_begun now m

    known :
        view (
          (going.passed ++ (check_loop read max_checked going.ahead).0)
          ++ (check_loop read max_checked going.ahead).1)
        ≡ tell (check_loop read max_checked going.ahead).2 (view (sensors_of m))
    known =
        ap view (
          append_assoc going.passed (check_loop read max_checked going.ahead).0
            (check_loop read max_checked going.ahead).1)
        ∙ tell_in_front read max_checked going.passed going.ahead
            (subst Distinct (sym (sensors_of-cycle_begun now m)) h)
        ∙ ap (λ l. tell (check_loop read max_checked going.ahead).2 (view l))
            (sensors_of-cycle_begun now m)

    at :
        (l : List Sensor)
        → let after = scanned now read m l in
          (view (sensors_of after.0) ≡ tell after.1 (view (sensors_of m)))
          × IsValid after.0
          × (length after.1 ≤ 1)
    at [] = (refl, h, omega arith)
    at (s ∷ l) = (
      known,
      Unique-Distinct
          ((going.passed ++ (check_loop read max_checked going.ahead).0)
            ++ (check_loop read max_checked going.ahead).1)
          (subst Unique
            (sym (
              ap numbers known
              ∙ numbers-tell (check_loop read max_checked going.ahead).2 (view (sensors_of m))))
            (Distinct-Unique (sensors_of m) h)),
      (loop_sizes read max_checked going.ahead).0,
    )

emptied : (l : List Sensor) → length l ≤ 0 → l ≡ []
emptied [] h = refl
emptied (s ∷ l) h = absurd (omega (arith, h))

-- Call after call, each with its time and what the pins read.
unfoldable pub calls : (ℕ → ℕ) → (ℕ → ℕ → ℕ) → ℕ → Sensors → Sensors
calls now read zero m = m
calls now read (suc k) m = (check_all (now k) (read k) (calls now read k m)).0

ahead-check_all :
    (now : ℕ) (read : ℕ → ℕ) (m : Sensors)
    → 0 < length m.ahead
    → let after = check_all now read m in
      (length after.0.ahead < length m.ahead)
      × (after.1 ≡ [] → length after.0.ahead ≡ length m.ahead - max_checked)
unfolding check_all
ahead-check_all now read m h = at m.passed m.ahead m.last_read_cycle h
  where
    sized :
        (ahead : List Sensor)
        → 0 < length ahead
        → (loop_left read max_checked ahead < length ahead)
          × ((check_loop read max_checked ahead).2 ≡ []
              → loop_left read max_checked ahead ≡ length ahead - max_checked)
    sized ahead k =
        let sizes = loop_sizes read max_checked ahead in (sizes.3 (omega arith) k, sizes.1)

    at :
        (passed ahead : List Sensor) (last : ℕ)
        → 0 < length ahead
        → let m : Sensors = record { passed = passed; ahead = ahead; last_read_cycle = last } in
          let after = check_all now read m in
          (length after.0.ahead < length m.ahead)
          × (after.1 ≡ [] → length after.0.ahead ≡ length m.ahead - max_checked)
    at passed [] last k = absurd (omega (arith, k))
    at [] (s ∷ ahead) last k = sized (s ∷ ahead) k
    at (p ∷ passed) (s ∷ ahead) last k = sized (s ∷ ahead) k

-- A scan of the list is over after no more calls than it has sensors left: whatever the pins read and the times are,
-- after some such number of calls no sensor is ahead.
pub calls-ahead :
    (now : ℕ → ℕ) (read : ℕ → ℕ → ℕ) (m : Sensors)
    → (k : ℕ) × (k ≤ length m.ahead) × ((calls now read k m).ahead ≡ [])
unfolding calls
calls-ahead now read m = by_size (length m.ahead) 0 (omega arith) (omega arith)
  where
    by_size :
        (n k : ℕ)
        → length (calls now read k m).ahead ≤ n
        → k + length (calls now read k m).ahead ≤ length m.ahead
        → (k : ℕ) × (k ≤ length m.ahead) × ((calls now read k m).ahead ≡ [])
    by_size zero k e h = (k, omega (arith, h), emptied (calls now read k m).ahead e)
    by_size (suc n) k e h = elim (dec_lt 0 (length (calls now read k m).ahead)) [
      | no none_left ↦
          (k, omega (arith, h), emptied (calls now read k m).ahead (omega (arith, none_left)))
      | yes some_left ↦
          let less = (ahead-check_all (now k) (read k) (calls now read k m) some_left).0 in
          by_size n (suc k) (omega (arith, less, e)) (omega (arith, less, h))
    ]
