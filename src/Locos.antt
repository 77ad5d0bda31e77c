-- ===== src/Locos.antt =====
-- LocoSlot.h and LocoSlot.cpp: the table of locos. A slot has the address at which it was made, by
-- which the code tells slots apart; a pointer to a slot is that address. The chain is the list of the
-- slots from `firstSlot`, and a setter gives the slot a new value at its address.
pub mod Distinct
pub mod Valid
pub mod Forget
pub mod Lookup
pub mod Setters
pub mod Assign
mod Tests
use command_station_ex_la_bo.Prelude.{
  ℕ, zero, suc, ◌+◌, ◌-◌, ◌*◌, ◌/◌, ◌%◌, ◌^◌, ◌≤◌, ◌<◌, ◌≡◌, refl, sym, ap, ap₂, ◌∙◌, subst, ◌≢◌,
  ◌↔◌, ◌⊎◌, inl, inr, Bool, true, false, not, ◌&&◌, ◌||◌, Option, none, some, List, [], ◌∷◌, ◌++◌,
  map, append-nil, append_assoc, arith, length, length-append, get_or, get_elem?, set, take, drop,
  replicate, ltb, leb, ◌==◌, ltb→lt, lt→ltb, leb→le, ==_iff, if◌then◌else◌, Bool-cases,
  Option-cases, inr, bit_and, bit_or, bit_xor, length-set, dec_lt, dec_le, ℕ_discrete, all_below,
  length-replicate, length-take, length-drop, All, take_all, take-append, find,
}

pub record LocoSlot : Type 0 where
  pub at : ℕ
  pub functions : ℕ
  pub sniffer_functions : ℕ
  pub momentum_base : ℕ
  pub consist_lead : Option ℕ
  pub consist_next : Option ℕ
  pub loco : ℕ
  pub target_speed : ℕ
  pub speed_code : ℕ
  pub sniffer_speed_code : ℕ
  pub saved_speed_code : ℕ
  pub momentum_a : ℕ
  pub momentum_d : ℕ
  pub group_flags : ℕ
  pub consist_reverse : Bool

-- The statics of the class. `made` counts the slots that were ever allocated, for their addresses.
pub record Table : Type 0 where
  pub chain : List LocoSlot
  pub recycler : List LocoSlot
  pub slot_count : ℕ
  pub chain_modified : Bool
  pub made : ℕ

pub start : Table
start = record { chain = []; recycler = []; slot_count = 0; chain_modified = false; made = 0 }

-- `prepare` sets every member of the slot at an address.
abbrev pub prepare : ℕ → ℕ → LocoSlot
prepare at loco = record {
  at = at;
  functions = 0;
  sniffer_functions = 0;
  momentum_base = 0;
  consist_lead = none;
  consist_next = none;
  loco = loco;
  target_speed = 128;
  speed_code = 128;
  sniffer_speed_code = 128;
  saved_speed_code = 0;
  momentum_a = 255;
  momentum_d = 255;
  group_flags = 0;
  consist_reverse = false;
}

abbrev pub has_loco : ℕ → LocoSlot → Bool
has_loco loco s = s.loco == loco

-- A slot joins the chain in front, newly prepared for a loco.
abbrev pub join : Table → ℕ → ℕ → Table × Option LocoSlot
join t at loco =
    (record t { chain = prepare at loco ∷ t.chain; chain_modified = true }, some (prepare at loco))

-- `max_locos` is the constant of the configuration. Memory for a slot below it is taken to be there.
unfoldable pub get_slot : ℕ → Table → ℕ → Bool → Table × Option LocoSlot
get_slot max_locos t loco auto_create =
    if loco == 0 then (t, none) else elim (find (has_loco loco) t.chain) [
      | some s ↦ (t, some s)
      | none ↦ if not auto_create then (t, none) else elim t.recycler [
        | p ∷ ps ↦ join (record t { recycler = ps }) p.at loco
        | [] ↦
            if leb max_locos t.slot_count
            then (t, none)
            else join (record t { slot_count = t.slot_count + 1; made = t.made + 1 }) t.made loco
      ]
    ]

-- The chain without the slot at an address.
pub unchain : ℕ → List LocoSlot → List LocoSlot
unchain at [] = []
unchain at (s ∷ ss) = let rest = unchain at ss in if s.at == at then ss else s ∷ rest

pub forget : Table → LocoSlot → Table
forget t s = record t {
  chain = unchain s.at t.chain;
  recycler = s ∷ t.recycler;
  chain_modified = true;
}

pub forget_all : Table → Table
forget_all t = record t { chain = []; recycler = []; slot_count = 0; chain_modified = true }

-- The setters, and `saveSpeed`. The consist pointers are addresses.
pub data Setter : Type 0 where
  sniffer_speed_code sniffer_functions momentum_a momentum_d momentum_base : ℕ → Setter
  target_speed speed_code group_flags functions : ℕ → Setter
  consist_lead consist_next : Option ℕ → Setter
  consist_reverse : Bool → Setter
  save_speed : Setter

unfoldable pub assign : Setter → LocoSlot → LocoSlot
assign (Setter.sniffer_speed_code v) s = record s { sniffer_speed_code = v }
assign (Setter.sniffer_functions v) s = record s { sniffer_functions = v }
assign (Setter.momentum_a v) s = record s { momentum_a = v }
assign (Setter.momentum_d v) s = record s { momentum_d = v }
assign (Setter.momentum_base v) s = record s { momentum_base = v }
assign (Setter.target_speed v) s = record s { target_speed = v }
assign (Setter.speed_code v) s = record s { speed_code = v }
assign (Setter.group_flags v) s = record s { group_flags = v }
assign (Setter.functions v) s = record s { functions = v }
assign (Setter.consist_lead v) s = record s { consist_lead = v }
assign (Setter.consist_next v) s = record s { consist_next = v }
assign (Setter.consist_reverse v) s = record s { consist_reverse = v }
assign Setter.save_speed s = record s { saved_speed_code = s.target_speed }

unfoldable pub update : Setter → ℕ → List LocoSlot → List LocoSlot
update f at [] = []
update f at (s ∷ ss) = let rest = update f at ss in if s.at == at then assign f s ∷ ss else s ∷ rest

-- What the rest of the program does with the table. A slot is always had from `getSlot`.
pub data Call : Type 0 where
  get : (loco : ℕ) → (auto_create : Bool) → Call
  forget_loco : (loco : ℕ) → Call
  forget_everything : Call
  set_slot : (f : Setter) → (loco : ℕ) → Call

pub step : ℕ → Table → Call → Table
step max_locos t (get loco auto_create) = (get_slot max_locos t loco auto_create).0
step max_locos t (forget_loco loco) = elim ((get_slot max_locos t loco false).1) [
  | none ↦ t
  | some s ↦ forget t s
]
step max_locos t forget_everything = forget_all t
step max_locos t (set_slot f loco) = elim ((get_slot max_locos t loco false).1) [
  | none ↦ t
  | some s ↦ record t { chain = update f s.at t.chain }
]

pub run : ℕ → Table → List Call → Table
run max_locos t [] = t
run max_locos t (c ∷ cs) = run max_locos (step max_locos t c) cs
