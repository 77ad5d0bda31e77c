-- ===== src/Locos/Valid.antt =====
-- LocoSlot.cpp: the table stays well formed, and holds no more slots than the configuration allows.
use command_station_ex_la_bo.Locos.Setters.{
  assign_keeps, Distinct-update, All-update, length-update,
}
use command_station_ex_la_bo.Locos.Lookup.{Found, get_slot-Outcome, unchain_found, absent}
use command_station_ex_la_bo.Locos.Distinct.{
  Distinct, All-parts, Distinct-front, All-append, Distinct-middle, Distinct-parts,
}
use command_station_ex_la_bo.Locos.{
  Table, LocoSlot, forget, step, join, get_slot, Setter, Call, unchain, update, get, assign,
  forget_loco, forget_all, set_slot, run, start, forget_everything,
}
use command_station_ex_la_bo.Prelude.{
  ℕ, ◌+◌, ◌≤◌, ◌<◌, ◌≡◌, refl, sym, ap, ◌∙◌, subst, ◌≢◌, inl, inr, Bool, List, [], ◌∷◌, ◌++◌,
  append-nil, append_assoc, arith, length, length-append, inr, All,
}
use command_station_ex_la_bo.Prelude.{refl, ◌∙◌}
use command_station_ex_la_bo.Locos.Lookup.{refused, found, recycled, created, query_lem}
use command_station_ex_la_bo.Locos.Setters.{length-update, assign_keeps}

pub record IsValid (max_locos : ℕ) (t : Table) : Type 0 where
  pub locos : Distinct (λ s. s.loco) t.chain
  pub no_zero : All (λ s. s.loco ≢ 0) t.chain
  pub places : Distinct (λ s. s.at) (t.chain ++ t.recycler)
  pub allocated : All (λ s. s.at < t.made) (t.chain ++ t.recycler)
  pub counted : length t.chain + length t.recycler ≡ t.slot_count
  pub bounded : t.slot_count ≤ max_locos

module _ (max_locos : ℕ) where
  -- A slot from the recycler, or a new one, in front of the chain.
  join-recycled :
      (t : Table) (p : LocoSlot) (ps : List LocoSlot) (loco : ℕ)
      → IsValid max_locos t
      → t.recycler ≡ p ∷ ps
      → loco ≢ 0
      → All (λ s. s.loco ≢ loco) t.chain
      → IsValid max_locos (join (record t { recycler = ps }) p.at loco).0
  join-recycled t p ps loco v e n a =
      let places = subst (λ r. Distinct (λ s. s.at) (t.chain ++ r)) e v.places in
      let allocated = subst (λ r. All (λ s. s.at < t.made) (t.chain ++ r)) e v.allocated in
      let front = Distinct-front (λ s. s.at) t.chain p ps places in
      let (b, c) = All-parts (λ s. s.at < t.made) t.chain (p ∷ ps) allocated in
      record {
        locos = (a, v.locos);
        no_zero = (n, v.no_zero);
        places = front;
        allocated = (c.0, All-append (λ s. s.at < t.made) t.chain ps b c.1);
        counted = omega (arith, v.counted, ap length e);
        bounded = v.bounded;
      }

  below_made : (m : ℕ) (ss : List LocoSlot) → All (λ s. s.at < m) ss → All (λ s. s.at ≢ m) ss
  below_made m [] h = tt
  below_made m (s ∷ ss) h = (omega arith, below_made m ss h.1)

  below_suc : (m : ℕ) (ss : List LocoSlot) → All (λ s. s.at < m) ss → All (λ s. s.at < m + 1) ss
  below_suc m [] h = tt
  below_suc m (s ∷ ss) h = (omega arith, below_suc m ss h.1)

  join_new :
      (t : Table) (loco : ℕ)
      → IsValid max_locos t
      → t.slot_count < max_locos
      → loco ≢ 0
      → All (λ s. s.loco ≢ loco) t.chain
      → IsValid max_locos
          (join (record t { slot_count = t.slot_count + 1; made = t.made + 1 }) t.made loco).0
  join_new t loco v l n a = record {
    locos = (a, v.locos);
    no_zero = (n, v.no_zero);
    places = (below_made t.made (t.chain ++ t.recycler) v.allocated, v.places);
    allocated = (omega arith, below_suc t.made (t.chain ++ t.recycler) v.allocated);
    counted = omega (arith, v.counted);
    bounded = omega arith;
  }

  pub get_slot-IsValid :
      (t : Table) (loco : ℕ) (auto_create : Bool)
      → IsValid max_locos t
      → IsValid max_locos (get_slot max_locos t loco auto_create).0
  get_slot-IsValid t loco auto_create v = elim (get_slot-Outcome max_locos t loco auto_create) [
    | refused e why ↦ rw e v
    | found e f n ↦ rw e v
    | recycled p ps e n f r ↦ rw e (join-recycled t p ps loco v r n (absent loco t.chain f))
    | created e n f r l ↦ rw e (join_new t loco v l n (absent loco t.chain f))
  ]

  move :
      (P : LocoSlot → Type 0) (before : List LocoSlot) (s : LocoSlot) (after rest : List LocoSlot)
      → All P ((before ++ s ∷ after) ++ rest)
      → All P ((before ++ after) ++ s ∷ rest)
  move P before s after rest h =
      let (a, r) = All-parts P (before ++ s ∷ after) rest h in
      let (b, c) = All-parts P before (s ∷ after) a in
      All-append P (before ++ after) (s ∷ rest) (All-append P before after b c.1) (c.0, r)

  move-Distinct :
      (f : LocoSlot → ℕ) (before : List LocoSlot) (s : LocoSlot) (after rest : List LocoSlot)
      → Distinct f ((before ++ s ∷ after) ++ rest)
      → Distinct f ((before ++ after) ++ s ∷ rest)
  move-Distinct f before s after rest h =
      let flat = subst (Distinct f) (append_assoc before (s ∷ after) rest) h in
      let front = Distinct-front f before s (after ++ rest) flat in
      Distinct-middle f (before ++ after) s rest
        (subst (λ l. Distinct f (s ∷ l)) (sym (append_assoc before after rest)) front)

  pub forget-IsValid :
      (t : Table) (loco : ℕ) (s : LocoSlot)
      → IsValid max_locos t
      → Found loco t.chain s
      → IsValid max_locos (forget t s)
  unfolding forget
  forget-IsValid t loco s v f =
      let chain = f.before ++ f.after in
      let locos = subst (Distinct (λ s. s.loco)) f.split v.locos in
      let no_zero = subst (All (λ s. s.loco ≢ 0)) f.split v.no_zero in
      let places = subst (λ c. Distinct (λ s. s.at) (c ++ t.recycler)) f.split v.places in
      let allocated = subst (λ c. All (λ s. s.at < t.made) (c ++ t.recycler)) f.split v.allocated in
      let (b, c) = All-parts (λ s. s.loco ≢ 0) f.before (s ∷ f.after) no_zero in
      let gone : unchain s.at t.chain ≡ chain =
        ap (unchain s.at) f.split
        ∙ unchain_found f.before s f.after
            (Distinct-parts (λ s. s.at) (f.before ++ s ∷ f.after) t.recycler places) in
      rw gone (record {
        locos = (Distinct-front (λ s. s.loco) f.before s f.after locos).1;
        no_zero = All-append (λ s. s.loco ≢ 0) f.before f.after b c.1;
        places = move-Distinct (λ s. s.at) f.before s f.after t.recycler places;
        allocated = move (λ s. s.at < t.made) f.before s f.after t.recycler allocated;
        counted = omega (
          arith,
          v.counted,
          ap length f.split,
          length-append f.before (s ∷ f.after),
          length-append f.before f.after,
        );
        bounded = v.bounded;
      })

  pub set_slot-IsValid :
      (t : Table) (f : Setter) (at : ℕ)
      → IsValid max_locos t
      → IsValid max_locos (record t { chain = update f at t.chain })
  set_slot-IsValid t f at v =
      let loco_kept : (s : LocoSlot) → (assign f s).loco ≡ s.loco = λ s. (assign_keeps f s).1 in
      let at_kept : (s : LocoSlot) → (assign f s).at ≡ s.at = λ s. (assign_keeps f s).0 in
      record {
        locos = subst (Distinct (λ s. s.loco)) (append-nil (update f at t.chain)) (
            Distinct-update (λ s. s.loco) f at t.chain [] loco_kept
              (subst (Distinct (λ s. s.loco)) (sym (append-nil t.chain)) v.locos));
        no_zero = subst (All (λ s. s.loco ≢ 0)) (append-nil (update f at t.chain)) (
            All-update (λ s. s.loco ≢ 0) f at t.chain [] (λ s n. rw (loco_kept s) n)
              (subst (All (λ s. s.loco ≢ 0)) (sym (append-nil t.chain)) v.no_zero));
        places = Distinct-update (λ s. s.at) f at t.chain t.recycler at_kept v.places;
        allocated =
            All-update (λ s. s.at < t.made) f at t.chain t.recycler (λ s l. rw (at_kept s) l)
              v.allocated;
        counted = omega (arith, v.counted, length-update f at t.chain);
        bounded = v.bounded;
      }

  pub forget_all-IsValid : (t : Table) → IsValid max_locos t → IsValid max_locos (forget_all t)
  unfolding forget_all
  forget_all-IsValid t v = record {
    locos = tt;
    no_zero = tt;
    places = tt;
    allocated = tt;
    counted = refl;
    bounded = omega arith;
  }

  pub step-IsValid :
      (t : Table) (c : Call) → IsValid max_locos t → IsValid max_locos (step max_locos t c)
  unfolding step
  step-IsValid t (get loco auto_create) v = get_slot-IsValid t loco auto_create v
  step-IsValid t (forget_loco loco) v = elim (query_lem max_locos t loco) [
    | inl e ↦ rw (step, e) v
    | inr (s, e, f) ↦ rw (step, e) (forget-IsValid t loco s v f)
  ]
  step-IsValid t forget_everything v = forget_all-IsValid t v
  step-IsValid t (set_slot f loco) v = elim (query_lem max_locos t loco) [
    | inl e ↦ rw (step, e) v
    | inr (s, e, _) ↦ rw (step, e) (set_slot-IsValid t f s.at v)
  ]

  pub start-IsValid : IsValid max_locos start
  unfolding start
  start-IsValid = record {
    locos = tt;
    no_zero = tt;
    places = tt;
    allocated = tt;
    counted = refl;
    bounded = omega arith;
  }

-- From a valid table on, whatever is called and in whatever order: no two slots of the chain have
-- the same loco, none has loco 0, no two slots share a place, every slot that is counted is in the
-- chain or in the recycler, and there are never more than the configuration allows.
pub run-IsValid :
    (max_locos : ℕ) (t : Table) (cs : List Call)
    → IsValid max_locos t
    → IsValid max_locos (run max_locos t cs)
unfolding run
run-IsValid max_locos t [] v = v
run-IsValid max_locos t (c ∷ cs) v =
    run-IsValid max_locos (step max_locos t c) cs (step-IsValid max_locos t c v)
