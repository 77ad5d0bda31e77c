-- ===== src/Consists/Deleted.antt =====
-- DCCConsist.cpp: deleting a consist ends.
use command_station_ex_la_bo.Consists.Along.{
  unlinked_slots, Along, unlinked_here, unlinked_behind, Free, unlink_all-Along,
}
use command_station_ex_la_bo.Locos.Setters.{length-update}
use command_station_ex_la_bo.Locos.Valid.{set_slot-IsValid}
use command_station_ex_la_bo.Locos.Valid.{IsValid}
use command_station_ex_la_bo.Consists.{
  null, next_of, unlink_all, unlinked, slot_at, linked, assign_at, delete_any_consist, found_slot,
  loop_start,
}
use command_station_ex_la_bo.Locos.{LocoSlot, update, Setter, Table, get_slot}
use command_station_ex_la_bo.Prelude.{
  ℕ, ◌+◌, ◌≤◌, ◌<◌, ◌≡◌, refl, inl, inr, false, none, List, [], ◌∷◌, arith, ◌==◌, if◌then◌else◌,
  Bool-cases, inr, find, ap, ◌∙◌, Option, some, suc, length, subst, zero, sym, All, ◌≢◌,
}

-- How many slots have a next in a consist.
abbrev chained_slots : List LocoSlot → ℕ
chained_slots [] = 0
chained_slots (s ∷ ss) = (if null s.consist_next then 0 else 1) + chained_slots ss

chained_slots-unlinked_slots :
    (at : ℕ) (l : List LocoSlot)
    → (chained_slots (unlinked_slots at l) ≤ chained_slots l)
      × (null (next_of (find (λ s. s.at == at) l)) ≡ false
          → chained_slots (unlinked_slots at l) < chained_slots l)
unfolding update find
chained_slots-unlinked_slots at [] = (omega arith, λ e. cc)
chained_slots-unlinked_slots at (s ∷ l) = elim (Bool-cases (s.at == at)) [
  | inl e ↦ rw (unlinked_here at s l e, e) (omega arith, (λ q. rw q (omega arith)))
  | inr e ↦
      rw (unlinked_behind at s l e, e)
        (let ih = chained_slots-unlinked_slots at l in
          (omega (arith, ih.0), (λ q. omega (arith, ih.1 q))))
]

off_here :
    (at : ℕ) (l : List LocoSlot) → linked (find (λ s. s.at == at) (unlinked_slots at l)) ≡ false
unfolding update find
off_here at [] = refl
off_here at (s ∷ l) = elim (Bool-cases (s.at == at)) [
  | inl e ↦ rw (unlinked_here at s l e, e) refl
  | inr e ↦ rw (unlinked_behind at s l e, e) (off_here at l)
]

off_kept :
    (at a : ℕ) (l : List LocoSlot)
    → linked (find (λ s. s.at == a) l) ≡ false
    → linked (find (λ s. s.at == a) (unlinked_slots at l)) ≡ false
unfolding update find
off_kept at a [] h = refl
off_kept at a (s ∷ l) h = elim (Bool-cases (s.at == at)) [
  | inl e ↦ rw (unlinked_here at s l e) (ground (arith, h))
  | inr e ↦ rw (unlinked_behind at s l e) (ground (arith, h, off_kept at a l))
]

-- What the loop gives: a table that is as good as before, in which every slot that was in no consist is in none, and the
-- slot where the loop began neither.
abbrev Unlinked : ℕ → Table → Option ℕ → Option Table → Type 0
Unlinked max_locos t p result =
    (t' : Table) × (result ≡ some t')
    × (IsValid max_locos t → IsValid max_locos t')
    × (length t'.chain ≡ length t.chain)
    × ((a : ℕ) → linked (slot_at a t) ≡ false → linked (slot_at a t') ≡ false)
    × ((a : ℕ) → p ≡ some a → linked (slot_at a t') ≡ false)

unlinked-IsValid :
    (max_locos at : ℕ) (t : Table) → IsValid max_locos t → IsValid max_locos (unlinked at t)
unlinked-IsValid max_locos at t v =
    set_slot-IsValid max_locos
      (assign_at (Setter.consist_next none) at (assign_at (Setter.consist_lead none) at t))
      (Setter.consist_reverse false) at
      (set_slot-IsValid max_locos (assign_at (Setter.consist_lead none) at t)
        (Setter.consist_next none) at
        (set_slot-IsValid max_locos t (Setter.consist_lead none) at v))

length-unlinked : (at : ℕ) (t : Table) → length (unlinked at t).chain ≡ length t.chain
length-unlinked at t =
    let one = update (Setter.consist_lead none) at t.chain in
    let two = update (Setter.consist_next none) at one in
    length-update (Setter.consist_reverse false) at two
    ∙ length-update (Setter.consist_next none) at one
    ∙ length-update (Setter.consist_lead none) at t.chain

-- The loop ends where the fuel is more than the slots that have a next in a consist, whatever these are.
unlink_all-Unlinked :
    (max_locos fuel : ℕ) (t : Table) (p : Option ℕ)
    → chained_slots t.chain < fuel
    → Unlinked max_locos t p (unlink_all fuel t p)
unfolding unlink_all
unlink_all-Unlinked max_locos fuel t none h = (t, refl, (λ v. v), refl, (λ a k. k), (λ a k. cc))
unlink_all-Unlinked max_locos zero t (some at) h = absurd (omega (arith, h))
unlink_all-Unlinked max_locos (suc fuel) t (some at) h =
    at_next (next_of (slot_at at t)) refl
      (λ less. unlink_all-Unlinked max_locos fuel (unlinked at t) (next_of (slot_at at t)) less)
  where
    drops :
        (chained_slots (unlinked at t).chain ≤ chained_slots t.chain)
        × (null (next_of (slot_at at t)) ≡ false
            → chained_slots (unlinked at t).chain < chained_slots t.chain)
    drops = chained_slots-unlinked_slots at t.chain

    began :
        (a : ℕ) → ◌≡◌ {A = Option ℕ} (some at) (some a) → linked (slot_at a (unlinked at t)) ≡ false
    began a e =
        subst (λ a. linked (slot_at a (unlinked at t)) ≡ false) {x = at} {y = a} (grind (arith, e))
          (off_here at t.chain)

    at_next :
        (n : Option ℕ)
        → next_of (slot_at at t) ≡ n
        → (chained_slots (unlinked at t).chain < fuel
            → Unlinked max_locos
                (unlinked at t)
                (next_of (slot_at at t))
                (unlink_all fuel (unlinked at t) (next_of (slot_at at t))))
        → Unlinked max_locos t (some at) (unlink_all fuel (unlinked at t) (next_of (slot_at at t)))
    at_next none e ih = rw e (
      unlinked at t,
      refl,
      unlinked-IsValid max_locos at t,
      length-unlinked at t,
      (λ a k. off_kept at a t.chain k),
      began,
    )
    at_next (some n) e ih =
        let (t', same, valid, sized, kept, started) = ih (omega (arith, h, drops.1 (ap null e))) in
        (
          t',
          same,
          (λ v. valid (unlinked-IsValid max_locos at t v)),
          sized ∙ length-unlinked at t,
          (λ a k. kept a (off_kept at a t.chain k)),
          (λ a k. kept a (began a k)),
        )

length-chained_slots : (l : List LocoSlot) → chained_slots l ≤ length l
length-chained_slots [] = omega arith
length-chained_slots (s ∷ l) = ground (arith, length-chained_slots l)

pub delete_any_consist_lem :
    (max_locos : ℕ) (t : Table) (loco : ℕ)
    → IsValid max_locos t
    → (t' : Table) × (delete_any_consist max_locos t loco ≡ some t')
      × IsValid max_locos t'
      × (length t'.chain ≡ length t.chain)
      × ((a : ℕ) → linked (slot_at a t) ≡ false → linked (slot_at a t') ≡ false)
      × ((s : LocoSlot) (a : ℕ)
          → (get_slot max_locos t loco false).1 ≡ some s
          → loop_start s ≡ some a
          → linked (slot_at a t') ≡ false)
      × ((s : LocoSlot) (ats : List ℕ)
          → (get_slot max_locos t loco false).1 ≡ some s
          → Along t (loop_start s) ats
          → All (λ a. Free (slot_at a t')) ats
            × ((b : ℕ) → All (λ a. a ≢ b) ats → slot_at b t' ≡ slot_at b t))
      × ((get_slot max_locos t loco false).1 ≡ none → t' ≡ t)
unfolding delete_any_consist
delete_any_consist_lem max_locos t loco v = at (get_slot max_locos t loco false).1 refl
  where
    inj : (s s' : LocoSlot) → some s ≡ some s' → s ≡ s'
    inj s s' q = ground (arith, q)

    at :
        (o : Option LocoSlot)
        → (get_slot max_locos t loco false).1 ≡ o
        → (t' : Table) × (found_slot t (get_slot max_locos t loco false).1 ≡ some t')
          × IsValid max_locos t'
          × (length t'.chain ≡ length t.chain)
          × ((a : ℕ) → linked (slot_at a t) ≡ false → linked (slot_at a t') ≡ false)
          × ((s : LocoSlot) (a : ℕ)
              → (get_slot max_locos t loco false).1 ≡ some s
              → loop_start s ≡ some a
              → linked (slot_at a t') ≡ false)
          × ((s : LocoSlot) (ats : List ℕ)
              → (get_slot max_locos t loco false).1 ≡ some s
              → Along t (loop_start s) ats
              → All (λ a. Free (slot_at a t')) ats
                × ((b : ℕ) → All (λ a. a ≢ b) ats → slot_at b t' ≡ slot_at b t))
          × ((get_slot max_locos t loco false).1 ≡ none → t' ≡ t)
    at none e = (
      t,
      ap (found_slot t) e,
      v,
      refl,
      (λ a k. k),
      (λ s a q f. cc),
      (λ s ats q f. cc),
      (λ q. refl),
    )
    at (some s) e =
        let same_slot : (s' : LocoSlot) → (get_slot max_locos t loco false).1 ≡ some s' → s ≡ s' =
          λ s' q. inj s s' (sym e ∙ q) in
        let (t', same, valid, sized, kept, started) =
          unlink_all-Unlinked max_locos (length t.chain + 1) t (loop_start s)
            (omega (arith, length-chained_slots t.chain)) in
        (
          t',
          ap (found_slot t) e ∙ same,
          valid v,
          sized,
          kept,
          (λ s' a q f. started a (ap (λ s. loop_start s) {x = s} {y = s'} (same_slot s' q) ∙ f)),
          (λ s' ats q k.
              unlink_all-Along (length t.chain + 1) t t' (loop_start s) ats same
                (subst (λ s. Along t (loop_start s) ats) (sym (same_slot s' q)) k)),
          (λ q. cc),
        )
