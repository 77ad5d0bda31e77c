-- ===== src/Locos/Lookup.antt =====
-- LocoSlot::getSlot: what it finds or makes, and when.
use command_station_ex_la_bo.Locos.Distinct.{Distinct, All-parts}
use command_station_ex_la_bo.Locos.{LocoSlot, unchain, Table, get_slot, has_loco, join}
use command_station_ex_la_bo.Prelude.{
  ℕ, ◌+◌, ◌≤◌, ◌<◌, ◌≡◌, refl, ap, ◌≢◌, ◌⊎◌, inl, inr, Bool, true, false, Option, none, some, List,
  [], ◌∷◌, ◌++◌, arith, leb, ◌==◌, Bool-cases, Option-cases, inr, All, find,
}
use command_station_ex_la_bo.Prelude.{refl, true}

-- What `getSlot` finds, where it stands, and what is left when it is taken out.
pub record Found (loco : ℕ) (chain : List LocoSlot) (s : LocoSlot) : Type 0 where
  pub before : List LocoSlot
  pub after : List LocoSlot
  pub split : chain ≡ before ++ s ∷ after
  pub same : s.loco ≡ loco

pub find-Found :
    (loco : ℕ) (chain : List LocoSlot) {s : LocoSlot}
    → find (has_loco loco) chain ≡ some s
    → Found loco chain s
unfolding find
find-Found loco [] e = cc
find-Found loco (x ∷ xs) e = elim (Bool-cases (has_loco loco x)) [
  | inl h ↦ record { before = []; after = xs; split = ground arith; same = ground arith }
  | inr h ↦
      let f = find-Found loco xs (ground arith) in
      record { before = x ∷ f.before; after = f.after; split = ap (◌∷◌ x) f.split; same = f.same }
]

pub absent :
    (loco : ℕ) (chain : List LocoSlot)
    → find (has_loco loco) chain ≡ none
    → All (λ s. s.loco ≢ loco) chain
unfolding find
absent loco [] e = tt
absent loco (x ∷ xs) e = ground (arith, absent loco xs)

pub unchain_found :
    (before : List LocoSlot) (s : LocoSlot) (after : List LocoSlot)
    → Distinct (λ s. s.at) (before ++ s ∷ after)
    → unchain s.at (before ++ s ∷ after) ≡ before ++ after
unfolding unchain
unchain_found [] s after d = ground arith
unchain_found (x ∷ before) s after d =
    let (_, c) = All-parts (λ t. t.at ≢ x.at) before (s ∷ after) d.0 in
    ground (arith, c.0, unchain_found before s after d.1)

-- What `getSlot` does, and when.
pub data Outcome (max_locos : ℕ) (t : Table) (loco : ℕ) (auto_create : Bool)
    (r : Table × Option LocoSlot) : Type 0 where
  refused :
      r ≡ (t, none)
      → (loco ≡ 0)
        ⊎ ((find (has_loco loco) t.chain ≡ none)
            × ((auto_create ≡ false) ⊎ ((t.recycler ≡ []) × (max_locos ≤ t.slot_count))))
      → Outcome max_locos t loco auto_create r
  found :
      {s : LocoSlot}
      → r ≡ (t, some s)
      → find (has_loco loco) t.chain ≡ some s
      → loco ≢ 0
      → Outcome max_locos t loco auto_create r
  recycled :
      (p : LocoSlot) (ps : List LocoSlot)
      → r ≡ join (record t { recycler = ps }) p.at loco
      → loco ≢ 0
      → find (has_loco loco) t.chain ≡ none
      → t.recycler ≡ p ∷ ps
      → Outcome max_locos t loco auto_create r
  created :
      r ≡ join (record t { slot_count = t.slot_count + 1; made = t.made + 1 }) t.made loco
      → loco ≢ 0
      → find (has_loco loco) t.chain ≡ none
      → t.recycler ≡ []
      → t.slot_count < max_locos
      → Outcome max_locos t loco auto_create r

pub get_slot-Outcome :
    (max_locos : ℕ) (t : Table) (loco : ℕ) (auto_create : Bool)
    → Outcome max_locos t loco auto_create (get_slot max_locos t loco auto_create)
unfolding get_slot
get_slot-Outcome max_locos t loco auto_create = elim (Bool-cases (loco == 0)) [
  | inl z ↦ refused (ground arith) (inl (ground arith))
  | inr n ↦ elim (Option-cases (find (has_loco loco) t.chain)) [
    | inr (s, f) ↦ found (ground arith) f (ground arith)
    | inl f ↦ go auto_create t.recycler refl n f
  ]
]
  where
    go :
        (auto_create : Bool) (rs : List LocoSlot)
        → t.recycler ≡ rs
        → loco == 0 ≡ false
        → find (has_loco loco) t.chain ≡ none
        → Outcome max_locos t loco auto_create (get_slot max_locos t loco auto_create)
    go false rs e n f = refused (ground arith) (inr (f, inl refl))
    go true (p ∷ ps) e n f = recycled p ps (ground arith) (ground arith) f e
    go true [] e n f = elim (Bool-cases (leb max_locos t.slot_count)) [
      | inl l ↦ refused (ground arith) (inr (f, inr (e, ground arith)))
      | inr l ↦ created (ground arith) (ground arith) f e (ground arith)
    ]

-- A call that may not create a slot leaves the table alone.
pub query_lem :
    (max_locos : ℕ) (t : Table) (loco : ℕ)
    → (get_slot max_locos t loco false ≡ (t, none))
      ⊎ ((s : LocoSlot) × (get_slot max_locos t loco false ≡ (t, some s)) × Found loco t.chain s)
unfolding get_slot
query_lem max_locos t loco = elim (Option-cases (find (has_loco loco) t.chain)) [
  | inl n ↦ inl (ground arith)
  | inr (s, f) ↦ elim (Bool-cases (loco == 0)) [
    | inl z ↦ inl (ground arith)
    | inr z ↦ inr (s, ground arith, find-Found loco t.chain f)
  ]
]
