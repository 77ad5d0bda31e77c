-- ===== src/Sensors/Cycle.antt =====
-- Sensors.cpp: the scan of the whole list.
use command_station_ex_la_bo.Sensors.Lookup.{Distinct}
use command_station_ex_la_bo.Sensors.{
  Sensor, Report, debounce, check_one, equal_bits, poll, has, check_loop, numbered, after, advance,
}
use command_station_ex_la_bo.Prelude.{
  ℕ, zero, suc, ◌-◌, ◌≤◌, ◌<◌, ◌≡◌, refl, sym, ap, ap₂, ◌∙◌, subst, inl, inr, Bool, false, Option,
  none, some, List, [], ◌∷◌, ◌++◌, arith, length, ltb, ◌==◌, if◌then◌else◌, Bool-cases,
  Option-cases, inr,
}

-- What the reports say of the sensors: numbers with states.
abbrev pub view : List Sensor → List Report
view [] = []
view (s ∷ ss) = (s.snum, s.active) ∷ view ss

abbrev pub told : Report → List Report → List Report
told r [] = []
told r (e ∷ v) = (if e.0 == r.0 then r else e) ∷ told r v

-- The states that are known after some reports.
abbrev pub tell : List Report → List Report → List Report
tell [] v = v
tell (r ∷ rs) v = tell rs (told r v)

-- What one check does to a sensor's number and state.
abbrev Checked : ℕ → Bool → Sensor × Option Report → Type 0
Checked n active (s, none) = (s.snum ≡ n) × (s.active ≡ active)
Checked n active (s, some r) = (s.snum ≡ n) × (r ≡ (n, s.active))

debounce-Checked : (s : Sensor) → Checked s.snum s.active (debounce s)
unfolding debounce
debounce-Checked s = elim (Bool-cases (equal_bits s.input_state s.active)) [
  | inl e ↦ rw e (refl, refl)
  | inr e ↦ rw e (elim (Bool-cases (ltb 0 s.latch_delay)) [
    | inl d ↦ rw d (refl, refl)
    | inr d ↦ rw d (refl, refl)
  ])
]

abbrev entry : Sensor → Report
entry s = (s.snum, s.active)

poll_keeps : (read : ℕ → ℕ) (s : Sensor) → ◌≡◌ {A = Report} (entry (poll read s)) (entry s)
poll_keeps read s = ground arith

check_one-Checked : (read : ℕ → ℕ) (s : Sensor) → Checked s.snum s.active (check_one read s)
check_one-Checked read s =
    subst (λ e. Checked e.0 e.1 (check_one read s)) (poll_keeps read s)
      (debounce-Checked (poll read s))

told_absent :
    (r : Report) (l : List Sensor) → has (numbered r.0) l ≡ false → told r (view l) ≡ view l
told_absent r [] h = refl
told_absent r (s ∷ l) h =
    let rest = told_absent r l (ground (arith, h)) in ap₂ ◌∷◌ (other (ground (arith, h))) rest
  where
    other :
        s.snum == r.0 ≡ false
        → (if s.snum == r.0 then r else (s.snum, s.active)) ≡ (s.snum, s.active)
    other e = rw e refl

-- One turn of the loop, by whether it reports.
module _ (read : ℕ → ℕ) where
  pub loop_quiet :
      (more : ℕ) (s : Sensor) (l : List Sensor)
      → (check_one read s).1 ≡ none
      → check_loop read (suc more) (s ∷ l) ≡ after (check_one read s).0 (check_loop read more l)
  unfolding check_loop
  loop_quiet more s l e = ap (λ o. advance (check_one read s).0 o l (check_loop read more l)) e

  pub loop_reports :
      (more : ℕ) (s : Sensor) (l : List Sensor) (r : Report)
      → (check_one read s).1 ≡ some r
      → check_loop read (suc more) (s ∷ l) ≡ ((check_one read s).0 ∷ [], l, r ∷ [])
  unfolding check_loop
  loop_reports more s l r e = ap (λ o. advance (check_one read s).0 o l (check_loop read more l)) e

  quiet_keeps :
      (s : Sensor)
      → (check_one read s).1 ≡ none
      → ◌≡◌ {A = Report} (entry (check_one read s).0) (entry s)
  quiet_keeps s e = at (check_one read s) (check_one-Checked read s) e
    where
      at :
          (c : Sensor × Option Report)
          → Checked s.snum s.active c
          → c.1 ≡ none
          → ◌≡◌ {A = Report} (entry c.0) (entry s)
      at (s', none) (p, q) e = ap₂ (λ n a. (n, a)) p q
      at (s', some r) h e = cc

  report_tells :
      (s : Sensor) (r : Report)
      → (check_one read s).1 ≡ some r
      → (◌≡◌ {A = Report} (entry (check_one read s).0) r) × (r.0 ≡ s.snum)
  report_tells s r e = at (check_one read s) (check_one-Checked read s) e
    where
      at :
          (c : Sensor × Option Report)
          → Checked s.snum s.active c
          → c.1 ≡ some r
          → (◌≡◌ {A = Report} (entry c.0) r) × (r.0 ≡ s.snum)
      at (s', none) h e = cc
      at (s', some r') (p, q) e = ground (arith, p, q, e)

  pub tell_behind :
      (more : ℕ) (l : List Sensor) (e : Report) (v : List Report)
      → has (numbered e.0) l ≡ false
      → tell (check_loop read more l).2 (e ∷ v) ≡ e ∷ tell (check_loop read more l).2 v
  unfolding check_loop
  tell_behind zero l e v h = refl
  tell_behind (suc more) [] e v h = refl
  tell_behind (suc more) (s ∷ l) e v h = elim (Option-cases (check_one read s).1) [
    | inl q ↦ rw (loop_quiet more s l q) (tell_behind more l e v (ground (arith, h)))
    | inr (r, q) ↦
        rw (loop_reports more s l r q) (ap (λ x. x ∷ told r v) (other r (report_tells s r q).1))
  ]
    where
      other : (r : Report) → r.0 ≡ s.snum → (if e.0 == r.0 then r else e) ≡ e
      other r k = ground (arith, h, k)

  abbrev pub loop_view : ℕ → List Sensor → List Report
  loop_view more l = view ((check_loop read more l).0 ++ (check_loop read more l).1)

  pub tell-check_loop :
      (more : ℕ) (l : List Sensor)
      → Distinct l
      → loop_view more l ≡ tell (check_loop read more l).2 (view l)
  unfolding check_loop
  tell-check_loop zero l h = refl
  tell-check_loop (suc more) [] h = refl
  tell-check_loop (suc more) (s ∷ l) (h, hs) = elim (Option-cases (check_one read s).1) [
    | inl q ↦ rw (loop_quiet more s l q) (
        ap₂ ◌∷◌ (quiet_keeps s q) (tell-check_loop more l hs)
        ∙ sym (tell_behind more l (entry s) (view l) h))
    | inr (r, q) ↦ rw (loop_reports more s l r q) (
        let t = report_tells s r q in
        ap₂ ◌∷◌ (t.0 ∙ first r t.1)
          (sym (told_absent r l (subst (λ n. has (numbered n) l ≡ false) (sym t.1) h))))
  ]
    where
      first : (r : Report) → r.0 ≡ s.snum → r ≡ (if s.snum == r.0 then r else entry s)
      first r k = ground (arith, k)

  abbrev pub loop_left : ℕ → List Sensor → ℕ
  loop_left more l = length (check_loop read more l).1

  pub loop_sizes :
      (more : ℕ) (l : List Sensor)
      → (length (check_loop read more l).2 ≤ 1)
        × ((check_loop read more l).2 ≡ [] → loop_left more l ≡ length l - more)
        × (loop_left more l ≤ length l)
        × (0 < more → 0 < length l → loop_left more l < length l)
  unfolding check_loop
  loop_sizes zero l = omega arith
  loop_sizes (suc more) [] = omega arith
  loop_sizes (suc more) (s ∷ l) = elim (Option-cases (check_one read s).1) [
    | inl q ↦ rw (loop_quiet more s l q) (
        let ih = loop_sizes more l in
        (ih.0, (λ e. ih.1 e ∙ omega arith), omega (arith, ih.2), (λ a b. omega (arith, ih.2))))
    | inr (r, q) ↦
        rw (loop_reports more s l r q) (omega arith, (λ e. cc), omega arith, (λ a b. omega arith))
  ]
