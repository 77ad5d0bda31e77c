-- ===== src/ProgTrack/Detection.antt =====
-- DCCACK.cpp: which pulses `checkAck` takes for an acknowledgement.
use command_station_ex_la_bo.Prelude.Int.{ℤ, ltb_ℤ}
use command_station_ex_la_bo.ProgTrack.Pulse.{
  check_all, Check, check_ack, Sample, get_ack, set_ack_pending, since, fits_pulse,
}
use command_station_ex_la_bo.Prelude.{
  ℕ, ◌≤◌, ◌≡◌, refl, true, false, List, [], ◌∷◌, ◌++◌, arith, All, ◌≢◌, if◌then◌else◌, ap, ◌∙◌, not,
  ◌||◌, ◌&&◌, ◌⊎◌, ◌+◌, ◌<◌, ◌^◌, ◌-◌, ◌%◌,
}

check_all-append :
    (xs ys : List Sample) (c : Check) → check_all (xs ++ ys) c ≡ check_all ys (check_all xs c)
unfolding check_all
check_all-append [] ys c = refl
check_all-append (x ∷ xs) ys c = check_all-append xs ys (check_ack x c)

-- In time, and above the threshold or not.
abbrev pub High : ℤ → Sample → Type 0
High threshold x = (x.resets ≤ 6) × (ltb_ℤ threshold x.current ≡ true)

abbrev pub Low : ℤ → Sample → Type 0
Low threshold x = (x.resets ≤ 6) × (ltb_ℤ threshold x.current ≡ false)

-- What a check keeps: it is pending, under the same settings, and its pulse began at `start`; 0 is none.
record During (c : Check) (start : ℕ) (c' : Check) : Type 0 where
  pending : c'.pending ≡ true
  started : c'.pulse_start ≡ start
  threshold : c'.threshold ≡ c.threshold
  min_duration : c'.min_duration ≡ c.min_duration
  max_duration : c'.max_duration ≡ c.max_duration

quiet_step :
    (c c' : Check) (x : Sample) → Low c.threshold x → During c 0 c' → During c 0 (check_ack x c')
unfolding check_ack
quiet_step c c' x l d = ground (arith, d, l)

quiet_run :
    (c c' : Check) (xs : List Sample)
    → All (Low c.threshold) xs
    → During c 0 c'
    → During c 0 (check_all xs c')
unfolding check_all
quiet_run c c' [] l d = d
quiet_run c c' (x ∷ xs) (l, ls) d = quiet_run c (check_ack x c') xs ls (quiet_step c c' x l d)

-- Inside the pulse, with so many low samples in a row.
record Pulse (c : Check) (start lows : ℕ) (c' : Check) : Type 0 where
  during : During c start c'
  edges : c'.trailing_edges ≡ lows

rises :
    (c c' : Check) (x : Sample)
    → High c.threshold x
    → During c 0 c'
    → Pulse c x.micros 0 (check_ack x c')
unfolding check_ack
rises c c' x l d = ground (arith, d, l)

keeps_up :
    (c c' : Check) (start : ℕ) (x : Sample)
    → start ≢ 0
    → High c.threshold x
    → Pulse c start 0 c'
    → Pulse c start 0 (check_ack x c')
unfolding check_ack
keeps_up c c' start x n l p = let d = p.during in ground (arith, d, p, l, n)

risen_run :
    (c c' : Check) (start : ℕ) (xs : List Sample)
    → start ≢ 0
    → All (High c.threshold) xs
    → Pulse c start 0 c'
    → Pulse c start 0 (check_all xs c')
unfolding check_all
risen_run c c' start [] n l p = p
risen_run c c' start (x ∷ xs) n (l, ls) p =
    risen_run c (check_ack x c') start xs n ls (keeps_up c c' start x n l p)

-- The pulse has ended after so long.
record Ended (c : Check) (start lows time : ℕ) (c' : Check) : Type 0 where
  pulse : Pulse c start lows c'
  duration : c'.pulse_duration ≡ time

falls :
    (c c' : Check) (start : ℕ) (x : Sample)
    → start ≢ 0
    → Low c.threshold x
    → Pulse c start 0 c'
    → Ended c start 1 (since x.micros start) (check_ack x c')
unfolding check_ack
falls c c' start x n l p = let d = p.during in ground (arith, d, p, l, n)

falls_on :
    (c c' : Check) (start duration : ℕ) (x : Sample)
    → start ≢ 0
    → Low c.threshold x
    → Ended c start 1 duration c'
    → Ended c start 2 duration (check_ack x c')
unfolding check_ack
falls_on c c' start duration x n l e =
    let p = e.pulse in let d = p.during in ground (arith, d, e, p, l, n)

judges :
    (c c' : Check) (start duration : ℕ) (x : Sample)
    → start ≢ 0
    → Low c.threshold x
    → Ended c start 2 duration c'
    → get_ack (check_ack x c')
      ≡ (if fits_pulse (record c { pulse_duration = duration }) then 1 else 2)
unfolding check_ack get_ack
judges c c' start duration x n l e =
    let p = e.pulse in let d = e.pulse.during in ground (arith, d, e, p, l, n)

began : (now : ℕ) (c : Check) → During c 0 (set_ack_pending now c)
unfolding set_ack_pending
began now c = record {
  pending = refl;
  started = refl;
  threshold = refl;
  min_duration = refl;
  max_duration = refl;
}

-- What a pulse of such a length is taken for.
fits_pulse_lem :
    (c : Check) (d : ℕ)
    → let answer : ℕ = if fits_pulse (record c { pulse_duration = d }) then 1 else 2 in
      (c.min_duration ≤ d → (d ≤ c.max_duration) ⊎ (c.max_duration ≡ 0) → answer ≡ 1)
      × ((d < c.min_duration) ⊎ ((c.max_duration < d) × (c.max_duration ≢ 0)) → answer ≡ 2)
fits_pulse_lem c d = ((λ l u. ground (arith, l, u)), (λ o. ground (arith, o)))

judged_pulse :
    (c : Check) (now : ℕ) (quiet high : List Sample) (first low1 low2 low3 : Sample)
    → All (Low c.threshold) quiet
    → High c.threshold first
    → first.micros ≢ 0
    → All (High c.threshold) high
    → Low c.threshold low1
    → Low c.threshold low2
    → Low c.threshold low3
    → get_ack
        (check_all (quiet ++ (first ∷ (high ++ (low1 ∷ low2 ∷ low3 ∷ [])))) (set_ack_pending now c))
      ≡ (if fits_pulse (record c { pulse_duration = since low1.micros first.micros }) then 1 else 2)
unfolding check_all
judged_pulse c now quiet high first low1 low2 low3 q f n h a b d =
    let waiting = check_all quiet (set_ack_pending now c) in
    let c1 = check_all high (check_ack first waiting) in
    let up = rises c waiting first f (quiet_run c (set_ack_pending now c) quiet q (began now c)) in
    let top = risen_run c (check_ack first waiting) first.micros high n h up in
    let down = falls c c1 first.micros low1 n a top in
    let low =
      falls_on c (check_ack low1 c1) first.micros (since low1.micros first.micros) low2 n b down in
    ap get_ack (
      check_all-append quiet (first ∷ (high ++ (low1 ∷ low2 ∷ low3 ∷ []))) (set_ack_pending now c)
      ∙ check_all-append high (low1 ∷ low2 ∷ low3 ∷ []) (check_ack first waiting))
    ∙ judges c (check_ack low2 (check_ack low1 c1)) first.micros (since low1.micros first.micros)
        low3 n d low

-- After any samples below the threshold, a run above it that starts when micros() is not 0, and three
-- samples below it, all within 6 resets, with d the time from the first sample above to the first
-- below, modulo 2^32: getAck gives 1 if d is at least the minimum, and at most the maximum or this is
-- 0, which is no maximum; it gives 2, which keeps polling, if d is less than the minimum or more than
-- a maximum that is not 0.
pub pulse_answer :
    (c : Check) (now : ℕ) (quiet high : List Sample) (first low1 low2 low3 : Sample)
    → All (Low c.threshold) quiet
    → High c.threshold first
    → first.micros ≢ 0
    → All (High c.threshold) high
    → Low c.threshold low1
    → Low c.threshold low2
    → Low c.threshold low3
    → let d = (low1.micros + 2 ^ 32 - first.micros) % 2 ^ 32 in
      let answer = get_ack (
        check_all
          (quiet ++ (first ∷ (high ++ (low1 ∷ low2 ∷ low3 ∷ []))))
          (set_ack_pending now c)) in
      (c.min_duration ≤ d → (d ≤ c.max_duration) ⊎ (c.max_duration ≡ 0) → answer ≡ 1)
      × ((d < c.min_duration) ⊎ ((c.max_duration < d) × (c.max_duration ≢ 0)) → answer ≡ 2)
pulse_answer c now quiet high first low1 low2 low3 q f n h a b d =
    let e = judged_pulse c now quiet high first low1 low2 low3 q f n h a b d in
    let (taken, left) = fits_pulse_lem c (since low1.micros first.micros) in
    ((λ l u. e ∙ taken l u), (λ o. e ∙ left o))

-- Only a pulse of a length between the limits is taken.
abbrev Sound : Check → Type 0
Sound c = (not c.detected || (not c.pending && fits_pulse c)) ≡ true

checked_once : (x : Sample) (c : Check) → Sound c → Sound (check_ack x c)
unfolding check_ack
checked_once x c h = ground (arith, h)

checked_always : (xs : List Sample) (c : Check) → Sound c → Sound (check_all xs c)
unfolding check_all
checked_always [] c h = h
checked_always (x ∷ xs) c h = checked_always xs (check_ack x c) (checked_once x c h)

-- Whatever the samples after the start of a check, an acknowledgement is given only if the length of the
-- pulse that was measured last is within the limits.
pub only_pulses_answer :
    (c : Check) (now : ℕ) (xs : List Sample)
    → get_ack (check_all xs (set_ack_pending now c)) ≡ 1
    → fits_pulse (check_all xs (set_ack_pending now c)) ≡ true
unfolding get_ack set_ack_pending
only_pulses_answer c now xs e =
    let h = checked_always xs (set_ack_pending now c) refl in ground (arith, e, h)
