-- ===== src/Locos/Assign.antt =====
-- LocoSlot.h: a setter on the slot that was looked up, and what is looked up afterwards.
use command_station_ex_la_bo.Locos.Setters.{assign_keeps}
use command_station_ex_la_bo.Locos.Distinct.{All-parts, Distinct}
use command_station_ex_la_bo.Locos.Lookup.{find-Found}
use command_station_ex_la_bo.Locos.{get_slot, LocoSlot, Table, has_loco, update, Setter, assign}
use command_station_ex_la_bo.Prelude.{
  ℕ, ◌≡◌, subst, ◌≢◌, inl, inr, true, false, some, List, [], ◌∷◌, arith, Bool-cases, Option-cases,
  inr, All, find,
}

-- A lookup that makes no slot.
pub get_slot_query :
    (max_locos : ℕ) (t : Table) (loco : ℕ)
    → loco ≢ 0
    → get_slot max_locos t loco false ≡ (t, find (has_loco loco) t.chain)
unfolding get_slot
get_slot_query max_locos t loco n = elim (Option-cases (find (has_loco loco) t.chain)) [
  | inl f ↦ ground (arith, f)
  | inr (s, f) ↦ ground (arith, f)
]

find-loco :
    (loco : ℕ) (ss : List LocoSlot) {s : LocoSlot}
    → find (has_loco loco) ss ≡ some s
    → s.loco ≡ loco
find-loco loco ss e = (find-Found loco ss e).same

-- The slot that is found is one of the list.
find-All :
    (P : LocoSlot → Type 0) (loco : ℕ) (ss : List LocoSlot) {s : LocoSlot}
    → find (has_loco loco) ss ≡ some s
    → All P ss
    → P s
find-All P loco ss {s} e h =
    let f = find-Found loco ss e in
    (All-parts P f.before (s ∷ f.after) (subst (All P) f.split h)).1.0

first_found :
    (loco : ℕ) (x s : LocoSlot) (xs : List LocoSlot)
    → has_loco loco x ≡ true
    → find (has_loco loco) (x ∷ xs) ≡ some s
    → x ≡ s
unfolding find
first_found loco x s xs q e = ground (arith, q, e)

pub find-update :
    (f : Setter) (loco : ℕ) (ss : List LocoSlot) {s : LocoSlot}
    → find (has_loco loco) ss ≡ some s
    → Distinct (λ s. s.at) ss
    → find (has_loco loco) (update f s.at ss) ≡ some (assign f s)
unfolding find update
find-update f loco [] e d = cc
find-update f loco (x ∷ xs) {s} e d = elim (Bool-cases (has_loco loco x)) [
  | inl q ↦
      subst (λ s. find (has_loco loco) (update f s.at (x ∷ xs)) ≡ some (assign f s))
        (first_found loco x s xs q e) (ground (arith, q, (assign_keeps f x).1))
  | inr q ↦
      let deeper : find (has_loco loco) xs ≡ some s = ground (arith, e, q) in
      let apart = find-All (λ t. t.at ≢ x.at) loco xs deeper d.0 in
      ground (arith, q, apart, find-update f loco xs deeper d.1)
]

-- The other locos are found as before.
pub find-update_other :
    (f : Setter) (loco other : ℕ) (ss : List LocoSlot) {s : LocoSlot}
    → find (has_loco loco) ss ≡ some s
    → Distinct (λ s. s.at) ss
    → other ≢ loco
    → find (has_loco other) (update f s.at ss) ≡ find (has_loco other) ss
unfolding find update
find-update_other f loco other [] e d n = cc
find-update_other f loco other (x ∷ xs) {s} e d n = elim (Bool-cases (has_loco loco x)) [
  | inl q ↦
      subst (λ s. find (has_loco other) (update f s.at (x ∷ xs)) ≡ find (has_loco other) (x ∷ xs))
        (first_found loco x s xs q e) (ground (arith, q, n, (assign_keeps f x).1))
  | inr q ↦
      let deeper : find (has_loco loco) xs ≡ some s = ground (arith, e, q) in
      let apart = find-All (λ t. t.at ≢ x.at) loco xs deeper d.0 in
      ground (arith, q, apart, find-update_other f loco other xs deeper d.1 n)
]
