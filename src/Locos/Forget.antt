-- ===== src/Locos/Forget.antt =====
-- LocoSlot.cpp: lookups across the calls that add a loco to the table and take one out.
use command_station_ex_la_bo.Locos.Distinct.{Distinct, Distinct-parts, Distinct-front}
use command_station_ex_la_bo.Locos.Valid.{IsValid}
use command_station_ex_la_bo.Locos.{
  LocoSlot, get_slot, Table, has_loco, forget, join, prepare, unchain,
}
use command_station_ex_la_bo.Prelude.{
  ℕ, ◌+◌, ◌≡◌, refl, sym, ap, ◌∙◌, subst, ◌≢◌, inl, inr, Bool, true, false, Option, none, some,
  List, [], ◌∷◌, ◌++◌, arith, inr, All, find,
}
use command_station_ex_la_bo.Prelude.{refl, ◌∙◌}
use command_station_ex_la_bo.Locos.Lookup.{
  refused, found, recycled, created, get_slot-Outcome, find-Found, query_lem, Found, unchain_found,
}

find-none :
    (loco : ℕ) (ss : List LocoSlot) → All (λ s. s.loco ≢ loco) ss → find (has_loco loco) ss ≡ none
unfolding find
find-none loco [] h = refl
find-none loco (s ∷ ss) h = ground (arith, h.0, find-none loco ss h.1)

find_past :
    (loco : ℕ) (before : List LocoSlot) (s : LocoSlot) (after : List LocoSlot)
    → s.loco ≢ loco
    → find (has_loco loco) (before ++ s ∷ after) ≡ find (has_loco loco) (before ++ after)
unfolding find
find_past loco [] s after n = ground arith
find_past loco (x ∷ before) s after n = ground (arith, find_past loco before s after n)

get_slot_absent :
    (max_locos : ℕ) (t : Table) (loco : ℕ)
    → find (has_loco loco) t.chain ≡ none
    → get_slot max_locos t loco false ≡ (t, none)
unfolding get_slot
get_slot_absent max_locos t loco e = ground arith

get_slot_present :
    (max_locos : ℕ) (t : Table) (loco : ℕ) (s : LocoSlot)
    → loco ≢ 0
    → find (has_loco loco) t.chain ≡ some s
    → get_slot max_locos t loco false ≡ (t, some s)
unfolding get_slot
get_slot_present max_locos t loco s n e = ground arith

find_first :
    (loco : ℕ) (s : LocoSlot) (ss : List LocoSlot)
    → s.loco ≡ loco
    → find (has_loco loco) (s ∷ ss) ≡ some s
unfolding find
find_first loco s ss e = ground arith

abbrev Serves : ℕ → Table → ℕ → Table × Option LocoSlot → Type 0
Serves max_locos t loco (t', none) = Unit {0}
Serves max_locos t loco (t', some s) =
    (s.loco ≡ loco)
    × (get_slot max_locos t' loco false ≡ (t', some s))
    × ((j : ℕ) → j ≢ loco → find (has_loco j) t'.chain ≡ find (has_loco j) t.chain)

join-Serves :
    (max_locos : ℕ) (t u : Table) (at loco : ℕ)
    → loco ≢ 0
    → u.chain ≡ t.chain
    → Serves max_locos t loco (join u at loco)
join-Serves max_locos t u at loco n e = (
  refl,
  get_slot_present max_locos (join u at loco).0 loco (prepare at loco) n
      (find_first loco (prepare at loco) u.chain refl),
  λ j d. find_past j [] (prepare at loco) u.chain (λ q. d (sym q)) ∙ ap (find (has_loco j)) e,
)

get_slot-Serves :
    (max_locos : ℕ) (t : Table) (loco : ℕ) (auto_create : Bool)
    → Serves max_locos t loco (get_slot max_locos t loco auto_create)
get_slot-Serves max_locos t loco auto_create =
    elim (get_slot-Outcome max_locos t loco auto_create) [
      | refused e why ↦ rw e tt
      | found {s = s} e f n ↦
          rw e
            ((find-Found loco t.chain f).same, get_slot_present max_locos t loco s n f, λ j d. refl)
      | recycled p ps e n f r ↦
          rw e (join-Serves max_locos t (record t { recycler = ps }) p.at loco n refl)
      | created e n f r l ↦ rw e (
          join-Serves max_locos t (record t { slot_count = t.slot_count + 1; made = t.made + 1 })
            t.made loco n refl)
    ]

-- Where a call gives a slot for a loco, by finding or by making it, the slot is for that loco and
-- a later lookup finds just it; and what is found for every other loco is as before.
pub get_slot_lem :
    (max_locos : ℕ) (t : Table) (loco : ℕ) (auto_create : Bool) (t' : Table) (s : LocoSlot)
    → get_slot max_locos t loco auto_create ≡ (t', some s)
    → (s.loco ≡ loco)
      × (get_slot max_locos t' loco false ≡ (t', some s))
      × ((j : ℕ) → j ≢ loco → find (has_loco j) t'.chain ≡ find (has_loco j) t.chain)
get_slot_lem max_locos t loco auto_create t' s h =
    subst (Serves max_locos t loco) h (get_slot-Serves max_locos t loco auto_create)

-- With a slot in the recycler a loco is never refused.
recycler_serves :
    (max_locos : ℕ) (t : Table) (loco : ℕ) (p : LocoSlot) (ps : List LocoSlot)
    → t.recycler ≡ p ∷ ps
    → loco ≢ 0
    → (get_slot max_locos t loco true).1 ≢ none
recycler_serves max_locos t loco p ps e n = elim (get_slot-Outcome max_locos t loco true) [
  | refused g why ↦ absurd (ground arith)
  | found g f m ↦ ground arith
  | recycled q qs g m f r ↦ ground arith
  | created g m f r l ↦ ground arith
]

-- In a valid table, forgetting the slot that is found for a loco takes out just that slot: the
-- loco is not found again, every other loco is found as before, and a slot can be had for any next
-- loco, however full the table was.
pub forget_lem :
    (max_locos : ℕ) (t : Table) (loco next : ℕ) (s : LocoSlot)
    → IsValid max_locos t
    → get_slot max_locos t loco false ≡ (t, some s)
    → next ≢ 0
    → let t' = forget t s in
      (get_slot max_locos t' loco false ≡ (t', none))
      × ((j : ℕ) → j ≢ loco → find (has_loco j) t'.chain ≡ find (has_loco j) t.chain)
      × ((get_slot max_locos t' next true).1 ≢ none)
unfolding forget
forget_lem max_locos t loco next s v h n = elim (query_lem max_locos t loco) [
  | inl e ↦ absurd (ground arith)
  | inr (s', e, f') ↦
      let f = subst (Found loco t.chain) (ground arith) f' in
      let locos = subst (Distinct (λ s. s.loco)) f.split v.locos in
      let places = subst (λ c. Distinct (λ s. s.at) (c ++ t.recycler)) f.split v.places in
      let gone : (forget t s).chain ≡ f.before ++ f.after =
        ap (unchain s.at) f.split
        ∙ unchain_found f.before s f.after
            (Distinct-parts (λ s. s.at) (f.before ++ s ∷ f.after) t.recycler places) in
      let others = (Distinct-front (λ s. s.loco) f.before s f.after locos).0 in
      (
        get_slot_absent max_locos (forget t s) loco (
            ap (find (has_loco loco)) gone
            ∙ find-none loco (f.before ++ f.after)
                (subst (λ l. All (λ s. s.loco ≢ l) (f.before ++ f.after)) f.same others)),
        λ j d.
            ap (find (has_loco j)) gone
            ∙ sym (find_past j f.before s f.after (λ q. d (sym q ∙ f.same)))
            ∙ ap (find (has_loco j)) (sym f.split),
        recycler_serves max_locos (forget t s) next s t.recycler refl n,
      )
]
