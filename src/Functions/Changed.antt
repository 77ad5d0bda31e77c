-- ===== src/Functions/Changed.antt =====
-- DCC.cpp: `changeFn` and `getFn`.
use command_station_ex_la_bo.Functions.Kept.{set_fn_lem, set_fn-served, map-held, held}
use command_station_ex_la_bo.Locos.Valid.{IsValid}
use command_station_ex_la_bo.Functions.Masks.{test-digit, bit}
use command_station_ex_la_bo.Locos.Assign.{get_slot_query}
use command_station_ex_la_bo.Prelude.Int.{pos}
use command_station_ex_la_bo.Locos.{get_slot}
use command_station_ex_la_bo.Functions.{get_fn, change_fn, set_fn, get_function_map}
use command_station_ex_la_bo.Locos.{Table, LocoSlot, has_loco}
use command_station_ex_la_bo.Locos.Lookup.{refused, found, recycled, created, get_slot-Outcome}
use command_station_ex_la_bo.Prelude.{
  ℕ, ◌<◌, ◌≡◌, sym, ap, ◌∙◌, ◌≢◌, inl, inr, true, some, arith, inr, digit, digit-lt, find, ◌≤◌,
  ◌==◌, if◌then◌else◌, ◌-◌, ◌&&◌, refl,
}

get_slot_in :
    (max_locos : ℕ) (t : Table) (cab : ℕ) {s : LocoSlot}
    → find (has_loco cab) t.chain ≡ some s
    → cab ≢ 0
    → get_slot max_locos t cab true ≡ (t, some s)
get_slot_in max_locos t cab {s} e c = elim (get_slot-Outcome max_locos t cab true) [
  | refused q (inl z) ↦ absurd (c z)
  | refused q (inr (n, w)) ↦ cc
  | found {s = s'} q f n ↦ q ∙ ap (λ o. (t, o)) (sym f ∙ e)
  | recycled p ps q n f r ↦ cc
  | created q n f r l ↦ cc
]

-- `getFn` tells the digit of a loco that is in the table.
pub get_fn-digit :
    (max_locos : ℕ) (t : Table) (cab n : ℕ) {s : LocoSlot}
    → find (has_loco cab) t.chain ≡ some s
    → cab ≢ 0
    → n < 32
    → get_fn max_locos t cab n ≡ pos (digit n s.functions)
unfolding get_fn
get_fn-digit max_locos t cab n {s} e c h =
    rw (get_slot_query max_locos t cab c, e)
      (ground (arith, test-digit s.functions n, digit-lt n s.functions, c, h))

changes :
    (max_locos : ℕ) (t : Table) (cab n : ℕ) {s : LocoSlot}
    → find (has_loco cab) t.chain ≡ some s
    → cab ≢ 0
    → n < 32
    → change_fn max_locos t cab n ≡ set_fn max_locos t cab n (digit n s.functions == 0)
unfolding change_fn
changes max_locos t cab n e c h = rw (change_fn, get_fn-digit max_locos t cab n e c h) refl

-- In a valid table, for a loco that is in it and a function up to 28: changing the function turns it
-- over in the loco's word, leaves the other 31 digits of the word, and changes no other loco's word.
pub change_fn_lem :
    (max_locos : ℕ) (t : Table) (cab n k j : ℕ) (s : LocoSlot)
    → IsValid max_locos t
    → find (has_loco cab) t.chain ≡ some s
    → cab ≢ 0
    → n ≤ 28
    → k < 32
    → j ≢ 0
    → j ≢ cab
    → let r = change_fn max_locos t cab n in
      (digit k (get_function_map max_locos r.table cab)
        ≡ (if k == n then 1 - digit n s.functions else digit k s.functions))
      × (get_function_map max_locos r.table j ≡ get_function_map max_locos t j)
change_fn_lem max_locos t cab n k j s v e c h l z o =
    let on = digit n s.functions == 0 in
    let (a, b) = set_fn_lem max_locos t cab n k j on v c h l z o in
    let yes =
      ap (λ r. r.accepted)
        (set_fn-served max_locos t cab n on t (some s) (get_slot_in max_locos t cab e c) c h) in
    rw (changes max_locos t cab n e c (omega (arith, h))) (
      a
          ∙ ap (λ y. if y && k == n then bit on else digit k (get_function_map max_locos t cab)) yes
          ∙ ap (λ x. if k == n then bit on else digit k x) (map-held max_locos t cab c ∙ ap held e)
          ∙ ground (arith, digit-lt n s.functions),
      b,
    )
