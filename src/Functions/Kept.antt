-- ===== src/Functions/Kept.antt =====
-- DCC.cpp: what setting a function changes in the table, and what it leaves.
use command_station_ex_la_bo.Functions.Masks.{bit, digit-new_set}
use command_station_ex_la_bo.Locos.Setters.{Distinct-update, assign_keeps}
use command_station_ex_la_bo.Locos.Lookup.{refused, found, recycled, created}
use command_station_ex_la_bo.Locos.Lookup.{get_slot-Outcome}
use command_station_ex_la_bo.Locos.Assign.{get_slot_query, find-update, find-update_other}
use command_station_ex_la_bo.Locos.Valid.{IsValid, get_slot-IsValid}
use command_station_ex_la_bo.Locos.Distinct.{Distinct, All-parts}
use command_station_ex_la_bo.Functions.{
  get_function_map, set_at, new_set, set_function, group_mask, set_fn, Answer,
}
use command_station_ex_la_bo.Locos.{LocoSlot, Table, has_loco, get_slot, Setter, assign}
use command_station_ex_la_bo.Prelude.{
  ℕ, ◌≤◌, ◌<◌, ◌≡◌, refl, sym, ap, ◌∙◌, subst, ◌≢◌, inl, inr, Bool, true, false, ◌&&◌, Option, none,
  some, List, [], ◌∷◌, ◌++◌, append-nil, arith, leb, ◌==◌, if◌then◌else◌, Bool-cases, Option-cases,
  inr, bit_or, digit, find,
}

abbrev pub held : Option LocoSlot → ℕ
held none = 0
held (some s) = s.functions

Distinct-prefix : (f : LocoSlot → ℕ) (xs ys : List LocoSlot) → Distinct f (xs ++ ys) → Distinct f xs
Distinct-prefix f [] ys h = tt
Distinct-prefix f (x ∷ xs) ys h =
    ((All-parts (λ t. f t ≢ f x) xs ys h.0).0, Distinct-prefix f xs ys h.1)

places : (max_locos : ℕ) (t : Table) → IsValid max_locos t → Distinct (λ s. s.at) t.chain
places max_locos t v = Distinct-prefix (λ s. s.at) t.chain t.recycler v.places

pub map-held :
    (max_locos : ℕ) (t : Table) (cab : ℕ)
    → cab ≢ 0
    → get_function_map max_locos t cab ≡ held (find (has_loco cab) t.chain)
unfolding get_function_map
map-held max_locos t cab n = elim (Option-cases (find (has_loco cab) t.chain)) [
  | inl f ↦ rw (get_slot_query max_locos t cab n, f) (ground (arith, n))
  | inr (s, f) ↦ rw (get_slot_query max_locos t cab n, f) (ground (arith, n))
]

-- The slot that is found or made holds what was held, which is nothing for a new slot.
record Had (t : Table) (cab : ℕ) (t' : Table) (s : LocoSlot) : Type 0 where
  slot : find (has_loco cab) t'.chain ≡ some s
  before : s.functions ≡ held (find (has_loco cab) t.chain)
  others : (j : ℕ) → j ≢ cab → find (has_loco j) t'.chain ≡ find (has_loco j) t.chain

abbrev HadBy : Table → ℕ → Table × Option LocoSlot → Type 0
HadBy t cab (t', none) = t' ≡ t
HadBy t cab (t', some s) = Had t cab t' s

get_slot-Had : (max_locos : ℕ) (t : Table) (cab : ℕ) → HadBy t cab (get_slot max_locos t cab true)
unfolding find
get_slot-Had max_locos t cab = elim (get_slot-Outcome max_locos t cab true) [
  | refused e why ↦ rw e refl
  | found {s} e f n ↦ rw e (record { slot = f; before = rw f refl; others = λ j k. refl })
  | recycled p ps e n f r ↦
      rw e (record { slot = ground arith; before = rw f refl; others = λ j k. ground (arith, k) })
  | created e n f r l ↦
      rw e (record { slot = ground arith; before = rw f refl; others = λ j k. ground (arith, k) })
]

-- Setting the function of a slot that is found.
record Set (t : Table) (cab : ℕ) (word : ℕ) (t' : Table) : Type 0 where
  now : held (find (has_loco cab) t'.chain) ≡ word
  others : (j : ℕ) → j ≢ cab → find (has_loco j) t'.chain ≡ find (has_loco j) t.chain

set_once :
    (t : Table) (cab : ℕ) (f : Setter) {s : LocoSlot}
    → find (has_loco cab) t.chain ≡ some s
    → Distinct (λ s. s.at) t.chain
    → Set t cab ((assign f s).functions) (set_at t f s)
set_once t cab f e d = record {
  now = ap held (find-update f cab t.chain e d);
  others = λ j n. find-update_other f cab j t.chain e d n;
}

Distinct-set :
    (t : Table) (f : Setter) (s : LocoSlot)
    → Distinct (λ s. s.at) t.chain
    → Distinct (λ s. s.at) (set_at t f s).chain
Distinct-set t f s d = subst (Distinct (λ s. s.at)) (append-nil _) (
    Distinct-update (λ s. s.at) f s.at t.chain [] (λ s. (assign_keeps f s).0)
      (subst (Distinct (λ s. s.at)) (sym (append-nil _)) d))

set_function-Set :
    (t : Table) (cab n : ℕ) (on : Bool) {s : LocoSlot}
    → find (has_loco cab) t.chain ≡ some s
    → Distinct (λ s. s.at) t.chain
    → Set t cab (new_set s.functions n on) (set_function t s n on)
unfolding assign
set_function-Set t cab n on {s} e d = elim (Bool-cases (new_set s.functions n on == s.functions)) [
  | inl q ↦ rw q (record { now = ap held e ∙ ground (arith, q); others = λ j n. refl })
  | inr q ↦
      let word = Setter.functions (new_set s.functions n on) in
      let once = set_once t cab word e d in
      let flags = Setter.group_flags (bit_or s.group_flags (group_mask n)) in
      let twice =
        set_once (set_at t word s) cab flags (find-update word cab t.chain e d)
          (Distinct-set t word s d) in
      elim (Bool-cases (leb n 28)) [
        | inl h ↦
            rw (q, h)
              (record { now = twice.now; others = λ j k. twice.others j k ∙ once.others j k })
        | inr h ↦ rw (q, h) once
      ]
]

-- The same for a table, as an answer.
abbrev served : Table → Option LocoSlot → ℕ → Bool → Answer
served t none n on = record { table = t; packet = none; accepted = false }
served t (some s) n on = record { table = set_function t s n on; packet = none; accepted = true }

pub set_fn-served :
    (max_locos : ℕ) (t : Table) (cab n : ℕ) (on : Bool) (t' : Table) (slot : Option LocoSlot)
    → get_slot max_locos t cab true ≡ (t', slot)
    → cab ≢ 0
    → n ≤ 28
    → set_fn max_locos t cab n on ≡ served t' slot n on
unfolding set_fn
set_fn-served max_locos t cab n on t' none e c h = ground (arith, e)
set_fn-served max_locos t cab n on t' (some s) e c h = ground (arith, e)

-- In a valid table, for a loco and a function up to 28: where the call is accepted, the word of the loco
-- has the function as told and each other one of the 32 as it was, all off for a loco that was not in
-- the table; the words of the other locos are as they were. Where it is refused no word changes.
pub set_fn_lem :
    (max_locos : ℕ) (t : Table) (cab n k j : ℕ) (on : Bool)
    → IsValid max_locos t
    → cab ≢ 0
    → n ≤ 28
    → k < 32
    → j ≢ 0
    → j ≢ cab
    → let r = set_fn max_locos t cab n on in
      (digit k (get_function_map max_locos r.table cab)
        ≡ (if r.accepted && k == n then bit on else digit k (get_function_map max_locos t cab)))
      × (get_function_map max_locos r.table j ≡ get_function_map max_locos t j)
set_fn_lem max_locos t cab n k j on v c h l z o =
    whole (get_slot max_locos t cab true).0 (get_slot max_locos t cab true).1 refl
      (get_slot-Had max_locos t cab) (get_slot-IsValid max_locos t cab true v)
  where
    whole :
        (t' : Table) (slot : Option LocoSlot)
        → get_slot max_locos t cab true ≡ (t', slot)
        → HadBy t cab (t', slot)
        → IsValid max_locos t'
        → let r = set_fn max_locos t cab n on in
          (digit k (get_function_map max_locos r.table cab)
            ≡ (if r.accepted && k == n then bit on else digit k (get_function_map max_locos t cab)))
          × (get_function_map max_locos r.table j ≡ get_function_map max_locos t j)
    whole t' none e had v' = rw (set_fn-served max_locos t cab n on t' none e c h, had) (refl, refl)
    whole t' (some s) e had v' =
        let set = set_function-Set t' cab n on had.slot (places max_locos t' v') in
        rw (set_fn-served max_locos t cab n on t' (some s) e c h) (
          ap (digit k) (map-held max_locos (set_function t' s n on) cab c ∙ set.now)
              ∙ digit-new_set s.functions n k on (omega arith) l
              ∙ ap (λ x. if k == n then bit on else digit k x)
                  (had.before ∙ sym (map-held max_locos t cab c)),
          map-held max_locos (set_function t' s n on) j z
              ∙ ap held (set.others j o ∙ had.others j o)
              ∙ sym (map-held max_locos t j z),
        )
