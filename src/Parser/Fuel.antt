-- ===== src/Parser/Fuel.antt =====
-- DCCEXParser.cpp: the scan of the parameters ends, and how many it can find.
use command_station_ex_la_bo.Parser.{
  Phase, Scan, skipping, max_params, signing, again, turn, building, onward, text, signed, built,
  Split, scan, build, out_of_fuel, Move, byte_at, behind_byte, malformed, ended, found, broken,
  split_values, fuel_for, first_scan,
}
use command_station_ex_la_bo.Prelude.{
  ℕ, ◌+◌, ◌-◌, ◌*◌, ◌≤◌, ◌<◌, ◌≡◌, ◌≢◌, Bool, List, [], ◌∷◌, ◌++◌, arith, length, length-append,
  true, subst, false, Option, none, some, suc, refl, zero, lt→ltb, dec_lt, sym, ◌∙◌, ap,
}

abbrev rank : Phase → ℕ
rank skipping = 2
rank signing = 1
rank building = 0
rank text = 2

-- What is left to do at a byte: free places for parameters, and phases.
abbrev left : Scan → Phase → ℕ
left s p = 3 * (max_params - length s.params) + rank p

pub length-snoc : (xs : List ℕ) (x : ℕ) → length (xs ++ (x ∷ [])) ≡ length xs + 1
length-snoc xs x = length-append xs (x ∷ [])

pub length-snoc2 : (xs : List ℕ) (x y : ℕ) → length (xs ++ (x ∷ y ∷ [])) ≡ length xs + 2
length-snoc2 xs x y = length-append xs (x ∷ y ∷ [])

again-left :
    (usehex : Bool) (hot : ℕ) (s s' : Scan) (p : Phase)
    → length s.params < max_params
    → turn usehex hot s p ≡ again s'
    → left s' s'.phase < left s p
unfolding turn
again-left usehex hot s s' skipping h e = ground (arith, e)
again-left usehex hot s s' signing h e = ground (arith, e)
again-left usehex hot s s' building h e = at (built usehex hot s.running) e
  where
    at : (o : Option ℕ) → build hot s o ≡ again s' → left s' s'.phase < left s building
    at none e = ground (arith, e, length-snoc s.params (signed s.negative s.running))
    at (some r) e = cc
again-left usehex hot s s' text h e = ground (arith, e)

built_at_end : (usehex : Bool) (running : ℕ) → built usehex 0 running ≡ none
unfolding built
built_at_end true running = refl
built_at_end false running = refl

onward-left :
    (usehex : Bool) (hot : ℕ) (s s' : Scan) (p : Phase)
    → length s.params < max_params
    → s.phase ≡ p
    → turn usehex hot s p ≡ onward s'
    → (hot ≢ 0) × (left s' s'.phase ≤ left s p)
unfolding turn
onward-left usehex hot s s' skipping h k e = ground (arith, e)
onward-left usehex hot s s' signing h k e =
    ground (arith, e, length-snoc2 s.params 0x7777 (s.place + 1))
onward-left usehex hot s s' building h k e = at (built usehex hot s.running) refl e
  where
    at :
        (o : Option ℕ)
        → built usehex hot s.running ≡ o
        → build hot s o ≡ onward s'
        → (hot ≢ 0) × (left s' s'.phase ≤ left s building)
    at none q e = cc
    at (some r) q e = ((λ z. cc (q, built_at_end usehex s.running, z)), ground (arith, e, k))
onward-left usehex hot s s' text h k e = ground (arith, e)

-- The four ways in which a turn can go, for what the scan gives.
abbrev pub resumed : ℕ → Bool → List ℕ → Move → Split
resumed fuel usehex cs (again s') = scan fuel usehex cs s'
resumed fuel usehex cs (onward s') = scan fuel usehex (behind_byte cs) s'
resumed fuel usehex cs (broken s') = malformed s'.params
resumed fuel usehex cs (ended s') = found s'.params (s'.behind ++ behind_byte cs)

pub scan_room :
    (fuel : ℕ) (usehex : Bool) (cs : List ℕ) (s : Scan) {t : Move}
    → length s.params < max_params
    → turn usehex (byte_at cs) s s.phase ≡ t
    → scan (suc fuel) usehex cs s ≡ resumed fuel usehex cs t
unfolding scan
scan_room fuel usehex cs s {t} room e = rw (lt→ltb _ _ room) (
    subst
      (λ u.
        (elim u as (λ t. Split) [
          | again s' ↦ scan fuel usehex cs s'
          | onward s' ↦ scan fuel usehex (behind_byte cs) s'
          | broken s' ↦ malformed s'.params
          | ended s' ↦ found s'.params (s'.behind ++ behind_byte cs)
        ])
        ≡ resumed fuel usehex cs t)
      (sym e) (same t))
  where
    same :
        (t : Move)
        → (elim t as (λ t. Split) [
          | again s' ↦ scan fuel usehex cs s'
          | onward s' ↦ scan fuel usehex (behind_byte cs) s'
          | broken s' ↦ malformed s'.params
          | ended s' ↦ found s'.params (s'.behind ++ behind_byte cs)
        ])
          ≡ resumed fuel usehex cs t
    same (again s') = refl
    same (onward s') = refl
    same (broken s') = refl
    same (ended s') = refl

pub scan_full :
    (fuel : ℕ) (usehex : Bool) (cs : List ℕ) (s : Scan)
    → max_params ≤ length s.params
    → scan (suc fuel) usehex cs s ≡ found s.params (s.behind ++ cs)
unfolding scan
scan_full fuel usehex cs s h = ground (arith, h)

scan-Ends :
    (fuel : ℕ) (usehex : Bool) (cs : List ℕ) (s : Scan)
    → length cs + left s s.phase < fuel
    → scan fuel usehex cs s ≢ out_of_fuel
scan-Ends zero usehex cs s h = absurd (omega arith)
scan-Ends (suc fuel) usehex cs s h = elim (dec_lt (length s.params) max_params) [
  | no full ↦ rw (scan_full fuel usehex cs s (omega (arith, full))) (λ e. cc)
  | yes room ↦ rw (scan_room fuel usehex cs s room refl) (
      at cs (turn usehex (byte_at cs) s s.phase) refl h room
        (λ cs s' k. scan-Ends fuel usehex cs s' k))
]
  where
    at :
        (cs : List ℕ) (t : Move)
        → turn usehex (byte_at cs) s s.phase ≡ t
        → length cs + left s s.phase < suc fuel
        → length s.params < max_params
        → ((cs : List ℕ) (s' : Scan)
            → length cs + left s' s'.phase < fuel
            → scan fuel usehex cs s' ≢ out_of_fuel)
        → resumed fuel usehex cs t ≢ out_of_fuel
    at cs (again s') e h room ih =
        ih cs s' (omega (arith, again-left usehex (byte_at cs) s s' s.phase room e, h))
    at [] (onward s') e h room ih = absurd ((onward-left usehex 0 s s' s.phase room refl e).0 refl)
    at (c ∷ cs) (onward s') e h room ih =
        ih cs s' (omega (arith, (onward-left usehex c s s' s.phase room refl e).1, h))
    at cs (broken s') e h room ih = λ e. cc
    at cs (ended s') e h room ih = λ e. cc

-- Whatever the text, the scan ends within its fuel.
pub split_values_ends : (usehex : Bool) (cs : List ℕ) → split_values usehex cs ≢ out_of_fuel
unfolding split_values
split_values_ends usehex cs = scan-Ends (fuel_for cs) usehex cs first_scan (omega arith)

-- Fuel that is not needed changes nothing.
scan-more :
    (fuel more : ℕ) (usehex : Bool) (cs : List ℕ) (s : Scan)
    → scan fuel usehex cs s ≢ out_of_fuel
    → scan (fuel + more) usehex cs s ≡ scan fuel usehex cs s
unfolding scan
scan-more zero more usehex cs s h = absurd (h refl)
scan-more (suc fuel) more usehex cs s h = elim (dec_lt (length s.params) max_params) [
  | no full ↦
      grown
      ∙ scan_full (fuel + more) usehex cs s (omega (arith, full))
      ∙ sym (scan_full fuel usehex cs s (omega (arith, full)))
  | yes room ↦
      let same = scan_room fuel usehex cs s room refl in
      grown
      ∙ scan_room (fuel + more) usehex cs s room refl
      ∙ at (turn usehex (byte_at cs) s s.phase) (λ e. h (same ∙ e))
          (λ cs s' k. scan-more fuel more usehex cs s' k)
      ∙ sym same
]
  where
    grown : scan (suc fuel + more) usehex cs s ≡ scan (suc (fuel + more)) usehex cs s
    grown = ap (λ f. scan f usehex cs s) {y = suc (fuel + more)} (omega arith)

    at :
        (t : Move)
        → resumed fuel usehex cs t ≢ out_of_fuel
        → ((cs : List ℕ) (s' : Scan)
            → scan fuel usehex cs s' ≢ out_of_fuel
            → scan (fuel + more) usehex cs s' ≡ scan fuel usehex cs s')
        → resumed (fuel + more) usehex cs t ≡ resumed fuel usehex cs t
    at (again s') k ih = ih cs s' k
    at (onward s') k ih = ih (behind_byte cs) s' k
    at (broken s') k ih = refl
    at (ended s') k ih = refl

-- What the scan gives with some fuel, it gives with the fuel that `split_values` has.
abbrev pub Gives : Bool → List ℕ → Scan → Split → Type 0
Gives usehex cs s r = (fuel : ℕ) × (scan fuel usehex cs s ≡ r)

pub Gives-split :
    (usehex : Bool) (cs : List ℕ) (r : Split)
    → r ≢ out_of_fuel
    → Gives usehex cs first_scan r
    → split_values usehex cs ≡ r
unfolding split_values
Gives-split usehex cs r n (fuel, e) =
    sym (scan-more (fuel_for cs) fuel usehex cs first_scan (split_values_ends usehex cs))
    ∙ ap (λ f. scan f usehex cs first_scan) {x = fuel_for cs + fuel} {y = fuel + fuel_for cs}
        (omega arith)
    ∙ scan-more fuel (fuel_for cs) usehex cs first_scan (λ q. n (sym e ∙ q))
    ∙ e

pub turn-Gives :
    (usehex : Bool) (cs : List ℕ) (s : Scan) (t : Move) (r : Split)
    → length s.params < max_params
    → turn usehex (byte_at cs) s s.phase ≡ t
    → (fuel : ℕ) × (resumed fuel usehex cs t ≡ r)
    → Gives usehex cs s r
turn-Gives usehex cs s t r room e (fuel, q) = (suc fuel, scan_room fuel usehex cs s room e ∙ q)
