-- ===== src/Consists/Parsed.antt =====
-- DCCConsist.cpp: a consist that is made, where the table has room.
use command_station_ex_la_bo.Consists.Deleted.{delete_any_consist_lem}
use command_station_ex_la_bo.Locos.Lookup.{Outcome}
use command_station_ex_la_bo.Locos.Setters.{length-update}
use command_station_ex_la_bo.Locos.Lookup.{get_slot-Outcome}
use command_station_ex_la_bo.Locos.Valid.{IsValid, set_slot-IsValid, get_slot-IsValid}
use command_station_ex_la_bo.Locos.{Table, LocoSlot, get_slot, has_loco, Setter, prepare}
use command_station_ex_la_bo.Consists.{
  Parse, accepted, refused, null_slot, followed, chained, out_of_fuel, assign_at, Member, built_up,
  proper, parse, any_linked, deleted_first, first_deleted, leads, delete_any_consist, listed,
}
use command_station_ex_la_bo.Prelude.{
  ℕ, ◌+◌, ◌≤◌, ◌<◌, ◌≡◌, refl, sym, ap, ◌∙◌, subst, ◌≢◌, ◌⊎◌, inl, inr, Bool, true, false, Option,
  none, some, List, [], ◌∷◌, arith, length, Bool-cases, inr, All, find,
}

-- A table that is returned is valid, and no null pointer is used.
abbrev pub Sound : ℕ → Parse → Type 0
Sound max_locos (accepted t) = IsValid max_locos t
Sound max_locos (refused t) = IsValid max_locos t
Sound max_locos (listed t lists) = IsValid max_locos t
Sound max_locos null_slot = ⊥
Sound max_locos out_of_fuel = ⊥

-- What `getSlot` gives where the table has room.
abbrev Had : ℕ → Table → Table × Option LocoSlot → Type 0
Had max_locos t r = (s : LocoSlot) × (r.1 ≡ some s) × (length r.0.chain ≤ length t.chain + 1)

get_slot-Had :
    (max_locos : ℕ) (t : Table) (loco : ℕ)
    → IsValid max_locos t
    → loco ≢ 0
    → length t.chain < max_locos
    → Had max_locos t (get_slot max_locos t loco true)
get_slot-Had max_locos t loco v n room = elim (get_slot-Outcome max_locos t loco true) [
  | Outcome.refused e why ↦ absurd (never why)
  | Outcome.found {s} e f z ↦ rw e (s, refl, omega arith)
  | Outcome.recycled p ps e z f q ↦ rw e (prepare p.at loco, refl, omega arith)
  | Outcome.created e z f q l ↦ rw e (prepare t.made loco, refl, omega arith)
]
  where
    never :
        (loco ≡ 0)
          ⊎ ((find (has_loco loco) t.chain ≡ none)
              × ((true ≡ false) ⊎ ((t.recycler ≡ []) × (max_locos ≤ t.slot_count))))
        → ⊥
    never (inl z) = n z
    never (inr (f, inl q)) = cc
    never (inr (f, inr (q, l))) = omega (arith, v.counted, room, l, ap length q)

assign_at-IsValid :
    (max_locos : ℕ) (f : Setter) (at : ℕ) (t : Table)
    → IsValid max_locos t
    → IsValid max_locos (assign_at f at t)
assign_at-IsValid max_locos f at t v = set_slot-IsValid max_locos t f at v

followed-IsValid :
    (max_locos lead prev at : ℕ) (reverse : Bool) (t : Table)
    → IsValid max_locos t
    → IsValid max_locos (followed lead prev at reverse t)
      × (length (followed lead prev at reverse t).chain ≡ length t.chain)
followed-IsValid max_locos lead prev at reverse t v =
    let one = assign_at (Setter.consist_lead (some lead)) at t in
    let two = assign_at (Setter.consist_reverse reverse) at one in
    (
      assign_at-IsValid max_locos (Setter.consist_next (some at)) prev two (
          assign_at-IsValid max_locos (Setter.consist_reverse reverse) at one
            (assign_at-IsValid max_locos (Setter.consist_lead (some lead)) at t v)),
      length-update (Setter.consist_next (some at)) prev two.chain
          ∙ length-update (Setter.consist_reverse reverse) at one.chain
          ∙ length-update (Setter.consist_lead (some lead)) at t.chain,
    )

-- The slot is there, so the rest goes on with it.
with_slot :
    (o : Option LocoSlot) (s : LocoSlot) (P : Parse → Type 0) (k : LocoSlot → Parse)
    → o ≡ some s
    → P (k s)
    → P (elim o as (λ o. Parse) [ none ↦ null_slot | some s ↦ k s ])
with_slot o s P k e h =
    subst (λ o. P (elim o as (λ o. Parse) [ none ↦ null_slot | some s ↦ k s ])) (sym e) h

chained-Sound :
    (max_locos lead prev : ℕ) (t : Table) (ms : List Member)
    → IsValid max_locos t
    → All (λ m. m.0 ≢ 0) ms
    → length t.chain + length ms ≤ max_locos
    → Sound max_locos (chained max_locos lead prev t ms)
unfolding chained
chained-Sound max_locos lead prev t [] v h room = v
chained-Sound max_locos lead prev t (m ∷ ms) v (h, hs) room =
    let had = get_slot max_locos t m.0 true in
    let (s, e, l) = get_slot-Had max_locos t m.0 v h (omega (arith, room)) in
    let next =
      followed-IsValid max_locos lead prev s.at m.1 had.0
        (get_slot-IsValid max_locos t m.0 true v) in
    with_slot had.1 s (Sound max_locos)
      (λ s. chained max_locos lead s.at (followed lead prev s.at m.1 had.0) ms) e
      (chained-Sound max_locos lead s.at (followed lead prev s.at m.1 had.0) ms next.0 hs
        (omega (arith, room, l, next.1)))

built_up-Sound :
    (max_locos : ℕ) (t : Table) (ms : List Member)
    → IsValid max_locos t
    → All (λ m. m.0 ≢ 0) ms
    → length t.chain + length ms ≤ max_locos
    → Sound max_locos (built_up max_locos t ms)
unfolding built_up
built_up-Sound max_locos t [] v h room = v
built_up-Sound max_locos t (m ∷ []) v h room = v
built_up-Sound max_locos t (m ∷ n ∷ ms) v (h, hs) room =
    let had = get_slot max_locos t m.0 true in
    let (s, e, l) = get_slot-Had max_locos t m.0 v h (omega (arith, room)) in
    let first = assign_at (Setter.consist_reverse m.1) s.at had.0 in
    let made =
      with_slot had.1 s (Sound max_locos)
        (λ s.
          chained max_locos s.at s.at (assign_at (Setter.consist_reverse m.1) s.at had.0) (n ∷ ms))
        e
        (chained-Sound max_locos s.at s.at first (n ∷ ms)
          (assign_at-IsValid max_locos (Setter.consist_reverse m.1) s.at had.0
            (get_slot-IsValid max_locos t m.0 true v))
          hs
          (omega (arith, room, l, length-update (Setter.consist_reverse m.1) s.at had.0.chain))) in
    elim (Bool-cases (any_linked max_locos t (m ∷ n ∷ ms))) [ inl q ↦ rw q v | inr q ↦ rw q made ]

proper_nonzero : (ms : List Member) → proper ms ≡ true → All (λ m. m.0 ≢ 0) ms
proper_nonzero [] h = tt
proper_nonzero (m ∷ ms) h = (ground (arith, h), proper_nonzero ms (ground (arith, h)))

-- In a valid table that has room for all the locos of a command, a command for consists that has at
-- least one parameter uses no null pointer, its loops end, and the table stays valid, whatever the
-- consist pointers are and whether the command is refused or not.
pub parse_lem :
    (max_locos : ℕ) (t : Table) (m : Member) (ms : List Member)
    → IsValid max_locos t
    → length t.chain + length (m ∷ ms) ≤ max_locos
    → Sound max_locos (parse max_locos t (m ∷ ms))
unfolding parse
parse_lem max_locos t m ms v room = elim (Bool-cases (proper (m ∷ ms))) [
  | inr q ↦ rw q v
  | inl q ↦ rw q (begun q)
]
  where
    deleted :
        (o : Option Table)
        → ((t' : Table) × (o ≡ some t') × IsValid max_locos t' × (length t'.chain ≡ length t.chain))
        → proper (m ∷ ms) ≡ true
        → Sound max_locos (deleted_first max_locos (m ∷ ms) o)
    deleted o (t', e, v', l) q =
        subst (λ o. Sound max_locos (deleted_first max_locos (m ∷ ms) o)) (sym e)
          (built_up-Sound max_locos t' (m ∷ ms) v' (proper_nonzero (m ∷ ms) q)
            (omega (arith, room, l)))

    begun :
        proper (m ∷ ms) ≡ true
        → Sound max_locos (deleted_first max_locos (m ∷ ms) (first_deleted max_locos t (m ∷ ms)))
    begun q = elim (Bool-cases (leads (get_slot max_locos t m.0 false).1)) [
      | inl a ↦ rw a (
          let (t', same, valid, sized, kept, started, freed, unfound) =
            delete_any_consist_lem max_locos t m.0 v in
          deleted (delete_any_consist max_locos t m.0) (t', same, valid, sized) q)
      | inr a ↦ rw a (deleted (some t) (t, refl, v, refl) q)
    ]
