-- ===== src/Functions.antt =====
-- DCC.cpp: the functions of the locos, which the table of locos holds as words of 32 bits. A loco number
-- is one of 16 bits, and the negative numbers that the code refuses are left out. What is told to the
-- throttles and the display is left out too.
pub mod Masks
pub mod Kept
pub mod Changed
mod Tests
use command_station_ex_la_bo.Prelude.Int.{ℤ, negsuc, pos}
use command_station_ex_la_bo.Dcc.Packets.{binary_state_packet}
use command_station_ex_la_bo.Locos.{Table, Setter, LocoSlot, get_slot, update}
use command_station_ex_la_bo.Prelude.{
  ℕ, zero, suc, ◌+◌, ◌-◌, ◌*◌, ◌/◌, ◌%◌, ◌^◌, ◌≤◌, ◌<◌, ◌≡◌, refl, sym, ap, ap₂, ◌∙◌, subst, ◌≢◌,
  ◌↔◌, ◌⊎◌, inl, inr, Bool, true, false, not, ◌&&◌, ◌||◌, Option, none, some, List, [], ◌∷◌, ◌++◌,
  map, append-nil, append_assoc, arith, length, length-append, get_or, get_elem?, set, take, drop,
  replicate, ltb, leb, ◌==◌, ltb→lt, lt→ltb, leb→le, ==_iff, if◌then◌else◌, Bool-cases,
  Option-cases, inr, bit_and, bit_or, bit_xor, length-set, dec_lt, dec_le, ℕ_discrete, all_below,
  length-replicate, length-take, length-drop, All, take_all, take-append, find,
}

-- The slot's new value, at its place.
abbrev pub set_at : Table → Setter → LocoSlot → Table
set_at t f s = record t { chain = update f s.at t.chain }

-- What a call comes to: the table, a packet for the low priority queue, and the result.
pub record Answer : Type 0 where
  pub table : Table
  pub packet : Option (List ℕ)
  pub accepted : Bool

abbrev pub func_mask : ℕ → ℕ
func_mask n = 2 ^ n

-- `functionMask` off: the complement in 32 bits.
abbrev pub func_unmask : ℕ → ℕ
func_unmask n = 2 ^ 32 - 1 - 2 ^ n

abbrev pub new_set : ℕ → ℕ → Bool → ℕ
new_set previous n on =
    if on then bit_or previous (func_mask n) else bit_and previous (func_unmask n)

abbrev pub group_mask : ℕ → ℕ
group_mask n =
    if leb n 4
    then 0x01
    else if leb n 8
    then 0x02
    else if leb n 12
    then 0x04
    else if leb n 20
    then 0x08
    else 0x10

abbrev pub update_group_flags : Table → LocoSlot → ℕ → Table
update_group_flags t s n = set_at t (Setter.group_flags (bit_or s.group_flags (group_mask n))) s

abbrev pub set_function : Table → LocoSlot → ℕ → Bool → Table
set_function t s n on =
    let newset = new_set s.functions n on in
    let t' = set_at t (Setter.functions newset) s in
    if newset == s.functions then t else if leb n 28 then update_group_flags t' s n else t'

unfoldable pub set_fn : ℕ → Table → (cab n : ℕ) → Bool → Answer
set_fn max_locos t cab n on =
    if cab == 0
    then record { table = t; packet = none; accepted = false }
    else if ltb 28 n
    then record { table = t; packet = some (binary_state_packet cab n on); accepted = true }
    else if ltb 31 n
    then record { table = t; packet = none; accepted = true }
    else let (t', slot) = get_slot max_locos t cab true in
      elim slot [
        | none ↦ record { table = t'; packet = none; accepted = false }
        | some s ↦ record { table = set_function t' s n on; packet = none; accepted = true }
      ]

unfoldable pub get_fn : ℕ → Table → (cab n : ℕ) → ℤ
get_fn max_locos t cab n =
    if cab == 0 || ltb 31 n then negsuc 0 else elim ((get_slot max_locos t cab false).1) [
      | none ↦ negsuc 0
      | some s ↦ if bit_and s.functions (func_mask n) == 0 then pos 0 else pos 1
    ]

unfoldable pub change_fn : ℕ → Table → (cab n : ℕ) → Answer
change_fn max_locos t cab n = elim (get_fn max_locos t cab n) [
  | negsuc _ ↦ record { table = t; packet = none; accepted = false }
  | pos v ↦ set_fn max_locos t cab n (v == 0)
]

unfoldable pub get_function_map : ℕ → Table → ℕ → ℕ
get_function_map max_locos t cab =
    if cab == 0
    then 0
    else elim ((get_slot max_locos t cab false).1) [ none ↦ 0 | some s ↦ s.functions ]

-- The frequency is in the top three digits of the word.
unfoldable pub set_dc_freq : ℕ → Table → (cab freq : ℕ) → Table
set_dc_freq max_locos t cab freq =
    if cab == 0 || ltb 3 freq
    then t
    else let (t', slot) = get_slot max_locos t cab true in
      elim slot [
        | none ↦ t'
        | some s ↦
            let kept = bit_and s.functions 0x1FFFFFFF in
            let new_functions = if freq == 0 then kept else bit_or kept (2 ^ (28 + freq)) in
            if new_functions == s.functions
            then t'
            else set_at t' (Setter.functions new_functions) s
      ]

unfoldable pub get_throttle_frequency : ℕ → Table → ℕ → ℕ
get_throttle_frequency max_locos t cab = elim ((get_slot max_locos t cab false).1) [
  | none ↦ 0
  | some s ↦ s.functions / 2 ^ 29 % 256
]
