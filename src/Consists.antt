-- ===== src/Consists.antt =====
-- DCCConsist.cpp: making and deleting consists, over the table of locos. A parameter is a loco with
-- whether its sign is negative. A pointer is followed to the slot of the chain at its address, since
-- a slot that is forgotten is taken out of its consist first. addLocoToConsist is left out.
pub mod Along
pub mod Deleted
pub mod Parsed
mod Tests
use command_station_ex_la_bo.Locos.{get_slot}
use command_station_ex_la_bo.Locos.{Table, Setter, LocoSlot, update}
use command_station_ex_la_bo.Prelude.{
  ℕ, zero, suc, ◌+◌, ◌-◌, ◌*◌, ◌/◌, ◌%◌, ◌^◌, ◌≤◌, ◌<◌, ◌≡◌, refl, sym, ap, ap₂, ◌∙◌, subst, ◌≢◌,
  ◌↔◌, ◌⊎◌, inl, inr, Bool, true, false, not, ◌&&◌, ◌||◌, Option, none, some, List, [], ◌∷◌, ◌++◌,
  map, append-nil, append_assoc, arith, length, length-append, get_or, get_elem?, set, take, drop,
  replicate, ltb, leb, ◌==◌, ltb→lt, lt→ltb, leb→le, ==_iff, if◌then◌else◌, Bool-cases,
  Option-cases, inr, bit_and, bit_or, bit_xor, length-set, dec_lt, dec_le, ℕ_discrete, all_below,
  digit, digit-or, digit-and, digit-lt, and_power, length-replicate, length-take, length-drop, All,
  take_all, take-append, find,
}

abbrev pub slot_at : ℕ → Table → Option LocoSlot
slot_at at t = find (λ s. s.at == at) t.chain

abbrev pub assign_at : Setter → ℕ → Table → Table
assign_at f at t = record t { chain = update f at t.chain }

abbrev pub null : Option ℕ → Bool
null none = true
null (some at) = false

abbrev pub is_consist_lead : LocoSlot → Bool
is_consist_lead s = not (null s.consist_next) && null s.consist_lead

abbrev pub is_consist_follower : LocoSlot → Bool
is_consist_follower s = not (null s.consist_lead)

abbrev pub next_of : Option LocoSlot → Option ℕ
next_of none = none
next_of (some s) = s.consist_next

-- The three setters on one slot.
abbrev pub unlinked : ℕ → Table → Table
unlinked at t =
    assign_at (Setter.consist_reverse false) at
      (assign_at (Setter.consist_next none) at (assign_at (Setter.consist_lead none) at t))

-- The loop along a consist; none when the fuel is out.
pub unlink_all : ℕ → Table → Option ℕ → Option Table
unlink_all fuel t none = some t
unlink_all zero t (some at) = none
unlink_all (suc fuel) t (some at) = unlink_all fuel (unlinked at t) (next_of (slot_at at t))

-- From where the loop begins: the slot itself where it leads a consist, or its lead.
abbrev pub loop_start : LocoSlot → Option ℕ
loop_start s = if is_consist_lead s then some s.at else s.consist_lead

abbrev pub found_slot : Table → Option LocoSlot → Option Table
found_slot t none = some t
found_slot t (some s) = unlink_all (length t.chain + 1) t (loop_start s)

-- No loco is looked for without being made, so the greatest number of locos plays no part.
pub delete_any_consist : ℕ → Table → ℕ → Option Table
delete_any_consist max_locos t loco = found_slot t (get_slot max_locos t loco false).1

-- What `parse` returns, with the table, and for the command without parameters the consists that it
-- prints; or the use of a null pointer; or a loop that does not end.
pub data Parse : Type 0 where
  listed : Table → List (List (ℕ × Bool)) → Parse
  accepted : Table → Parse
  refused : Table → Parse
  null_slot : Parse
  out_of_fuel : Parse

abbrev pub Member : Type 0
Member = ℕ × Bool

abbrev pub named : ℕ → List Member → Bool
named loco [] = false
named loco (m ∷ ms) = m.0 == loco || named loco ms

abbrev pub proper : List Member → Bool
proper [] = true
proper (m ∷ ms) = leb 1 m.0 && leb m.0 10239 && not (named m.0 ms) && proper ms

abbrev pub leads : Option LocoSlot → Bool
leads none = false
leads (some s) = is_consist_lead s

abbrev pub linked : Option LocoSlot → Bool
linked none = false
linked (some s) = is_consist_lead s || is_consist_follower s

abbrev pub any_linked : ℕ → Table → List Member → Bool
any_linked max_locos t [] = false
any_linked max_locos t (m ∷ ms) =
    linked (get_slot max_locos t m.0 false).1 || any_linked max_locos t ms

-- One more loco behind another.
abbrev pub followed : ℕ → ℕ → ℕ → Bool → Table → Table
followed lead prev at reverse t = assign_at (Setter.consist_next (some at)) prev (
    assign_at (Setter.consist_reverse reverse) at
      (assign_at (Setter.consist_lead (some lead)) at t))

pub chained : ℕ → ℕ → ℕ → Table → List Member → Parse
chained max_locos lead prev t [] = accepted t
chained max_locos lead prev t (m ∷ ms) =
    let had = get_slot max_locos t m.0 true in
    elim had.1 as (λ o. Parse) [
      | none ↦ null_slot
      | some s ↦ chained max_locos lead s.at (followed lead prev s.at m.1 had.0) ms
    ]

pub built_up : ℕ → Table → List Member → Parse
built_up max_locos t [] = accepted t
built_up max_locos t (m ∷ []) = accepted t
built_up max_locos t (m ∷ n ∷ ms) =
    let had = get_slot max_locos t m.0 true in
    if any_linked max_locos t (m ∷ n ∷ ms) then refused t else elim had.1 as (λ o. Parse) [
      | none ↦ null_slot
      | some s ↦
          chained max_locos s.at s.at (assign_at (Setter.consist_reverse m.1) s.at had.0) (n ∷ ms)
    ]

abbrev pub first_deleted : ℕ → Table → List Member → Option Table
first_deleted max_locos t [] = some t
first_deleted max_locos t (m ∷ ms) =
    if leads (get_slot max_locos t m.0 false).1 then delete_any_consist max_locos t m.0 else some t

abbrev pub deleted_first : ℕ → List Member → Option Table → Parse
deleted_first max_locos members none = out_of_fuel
deleted_first max_locos members (some t) = built_up max_locos t members

-- The locos along a consist, each with its sign; none when the fuel is out.
pub walk : ℕ → Table → Option ℕ → Option (List Member)
walk fuel t none = some []
walk zero t (some at) = none
walk (suc fuel) t (some at) = elim (slot_at at t) [
  | none ↦ some []
  | some s ↦ elim (walk fuel t s.consist_next) [
    | none ↦ none
    | some ms ↦ some ((s.loco, s.consist_reverse) ∷ ms)
  ]
]

-- The consists of the slots that lead one.
pub listing : ℕ → Table → List LocoSlot → Option (List (List Member))
listing fuel t [] = some []
listing fuel t (s ∷ ss) =
    let rest = listing fuel t ss in
    if is_consist_lead s
    then elim (walk fuel t (some s.at)) [
      | none ↦ none
      | some ms ↦ elim rest [ none ↦ none | some lists ↦ some (ms ∷ lists) ]
    ]
    else rest

abbrev pub shown : Table → Option (List (List Member)) → Parse
shown t none = out_of_fuel
shown t (some lists) = listed t lists

-- A walk along more slots than the chain has goes round, and the source's does not end.
pub parse : ℕ → Table → List Member → Parse
parse max_locos t [] = shown t (listing (length t.chain + 1) t t.chain)
parse max_locos t (m ∷ ms) =
    if not (proper (m ∷ ms))
    then refused t
    else deleted_first max_locos (m ∷ ms) (first_deleted max_locos t (m ∷ ms))
