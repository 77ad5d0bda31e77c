-- ===== src/Consists/Along.antt =====
-- DCCConsist.cpp: what the loop that deletes a consist does to the slots along it and to the others.
use command_station_ex_la_bo.Consists.{next_of, unlink_all, unlinked, slot_at}
use command_station_ex_la_bo.Locos.{LocoSlot, update, Setter, assign, Table}
use command_station_ex_la_bo.Prelude.{
  ℕ, zero, suc, ◌≡◌, refl, sym, ap, ◌∙◌, subst, ◌≢◌, inl, inr, true, false, Option, none, some,
  List, [], ◌∷◌, arith, ◌==◌, Bool-cases, inr, All, find,
}

abbrev pub unlinked_slots : ℕ → List LocoSlot → List LocoSlot
unlinked_slots at l =
    update (Setter.consist_reverse false) at
      (update (Setter.consist_next none) at (update (Setter.consist_lead none) at l))

update_here :
    (f : Setter) (at : ℕ) (s : LocoSlot) (l : List LocoSlot)
    → s.at == at ≡ true
    → update f at (s ∷ l) ≡ assign f s ∷ l
unfolding update
update_here f at s l e = rw e refl

update_behind :
    (f : Setter) (at : ℕ) (s : LocoSlot) (l : List LocoSlot)
    → s.at == at ≡ false
    → update f at (s ∷ l) ≡ s ∷ update f at l
unfolding update
update_behind f at s l e = rw e refl

pub unlinked_here :
    (at : ℕ) (s : LocoSlot) (l : List LocoSlot)
    → s.at == at ≡ true
    → unlinked_slots at (s ∷ l)
      ≡ record s { consist_lead = none; consist_next = none; consist_reverse = false } ∷ l
unfolding assign
unlinked_here at s l e =
    let lead = Setter.consist_lead none in
    let next = Setter.consist_next none in
    let reverse = Setter.consist_reverse false in
    ap (λ l. update reverse at (update next at l)) (update_here lead at s l e)
    ∙ ap (update reverse at) (update_here next at (record s { consist_lead = none }) l e)
    ∙ update_here reverse at (record s { consist_lead = none; consist_next = none }) l e

pub unlinked_behind :
    (at : ℕ) (s : LocoSlot) (l : List LocoSlot)
    → s.at == at ≡ false
    → unlinked_slots at (s ∷ l) ≡ s ∷ unlinked_slots at l
unlinked_behind at s l e =
    let lead = Setter.consist_lead none in
    let next = Setter.consist_next none in
    let reverse = Setter.consist_reverse false in
    ap (λ l. update reverse at (update next at l)) (update_behind lead at s l e)
    ∙ ap (update reverse at) (update_behind next at s (update lead at l) e)
    ∙ update_behind reverse at s (update next at (update lead at l)) e

slot_kept :
    (at a : ℕ) (l : List LocoSlot)
    → at ≢ a
    → find (λ s. s.at == a) (unlinked_slots at l) ≡ find (λ s. s.at == a) l
unfolding update find
slot_kept at a [] n = refl
slot_kept at a (s ∷ l) n = elim (Bool-cases (s.at == at)) [
  | inl e ↦
      let other : s.at == a ≡ false = ground (arith, e, n) in
      rw (unlinked_here at s l e, other) refl
  | inr e ↦ rw (unlinked_behind at s l e, slot_kept at a l n) refl
]

-- A slot with no lead, no next and no reverse, or none.
abbrev pub Free : Option LocoSlot → Type 0
Free none = Unit {0}
Free (some s) = (s.consist_lead ≡ none) × (s.consist_next ≡ none) × (s.consist_reverse ≡ false)

unlinked-Free : (at : ℕ) (l : List LocoSlot) → Free (find (λ s. s.at == at) (unlinked_slots at l))
unfolding update find
unlinked-Free at [] = tt
unlinked-Free at (s ∷ l) = elim (Bool-cases (s.at == at)) [
  | inl e ↦ rw (unlinked_here at s l e, e) (refl, refl, refl)
  | inr e ↦ rw (unlinked_behind at s l e, e) (unlinked-Free at l)
]

-- The addresses along the next pointers, from a pointer to a null pointer, none of them twice.
abbrev pub Along : Table → Option ℕ → List ℕ → Type 0
Along t p [] = p ≡ none
Along t p (a ∷ ats) = (p ≡ some a) × All (λ b. b ≢ a) ats × Along t (next_of (slot_at a t)) ats

Along-unlinked :
    (t : Table) (a : ℕ) (p : Option ℕ) (ats : List ℕ)
    → All (λ b. b ≢ a) ats
    → Along t p ats
    → Along (unlinked a t) p ats
Along-unlinked t a p [] n k = k
Along-unlinked t a p (b ∷ bs) (n, ns) (e, d, k) =
    let same : slot_at b (unlinked a t) ≡ slot_at b t = slot_kept a b t.chain (λ q. n (sym q)) in
    (
      e,
      d,
      subst (λ o. Along (unlinked a t) (next_of o) bs) (sym same)
          (Along-unlinked t a (next_of (slot_at b t)) bs ns k),
    )

-- The loop frees the slots along the consist, and leaves any other slot as it was.
pub unlink_all-Along :
    (fuel : ℕ) (t t' : Table) (p : Option ℕ) (ats : List ℕ)
    → unlink_all fuel t p ≡ some t'
    → Along t p ats
    → All (λ a. Free (slot_at a t')) ats
      × ((b : ℕ) → All (λ a. a ≢ b) ats → slot_at b t' ≡ slot_at b t)
unfolding unlink_all
unlink_all-Along fuel t t' none [] e k = (tt, (λ b n. ground (arith, e)))
unlink_all-Along fuel t t' none (a ∷ ats) e (k, d, r) = cc
unlink_all-Along fuel t t' (some at) [] e k = cc
unlink_all-Along zero t t' (some at) (a ∷ ats) e (k, d, r) = cc
unlink_all-Along (suc fuel) t t' (some at) (a ∷ ats) e (k, d, r) =
    let here : at ≡ a = ground (arith, k) in
    let go = subst (λ x. unlink_all fuel (unlinked x t) (next_of (slot_at x t)) ≡ some t') here e in
    let (free, kept) =
      unlink_all-Along fuel (unlinked a t) t' (next_of (slot_at a t)) ats go
        (Along-unlinked t a (next_of (slot_at a t)) ats d r) in
    (
      (subst Free (sym (kept a d)) (unlinked-Free a t.chain), free),
      (λ b n. kept b n.1 ∙ slot_kept a b t.chain n.0),
    )
