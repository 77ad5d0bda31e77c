-- ===== src/Orders.antt =====
-- DCC.cpp: the calls that put one packet for an accessory or for the model clock into the queues. An
-- `int` is an integer. EXRAIL, which is told of an accessory's activation, is not modelled.
pub mod Track
pub mod ModelTime
mod Tests
use command_station_ex_la_bo.Dcc.Packets.{time_packet, accessory_packet, extended_accessory_packet}
use command_station_ex_la_bo.DccQueue.{Queues, schedule_dcc_packet, schedule_acc_on_off_packet}
use command_station_ex_la_bo.Prelude.Int.{ℤ, pos, negsuc}
use command_station_ex_la_bo.Prelude.{
  ℕ, zero, suc, ◌+◌, ◌-◌, ◌*◌, ◌/◌, ◌%◌, ◌^◌, ◌≤◌, ◌<◌, ◌≡◌, refl, sym, ap, ap₂, ◌∙◌, subst, ◌≢◌,
  ◌↔◌, ◌⊎◌, inl, inr, Bool, true, false, not, ◌&&◌, ◌||◌, Option, none, some, List, [], ◌∷◌, ◌++◌,
  map, append-nil, append_assoc, arith, length, length-append, get_or, get_elem?, set, take, drop,
  replicate, ltb, leb, ◌==◌, ltb→lt, lt→ltb, leb→le, ==_iff, if◌then◌else◌, Bool-cases,
  Option-cases, inr, bit_and, bit_or, bit_xor, length-set, dec_lt, dec_le, ℕ_discrete, all_below,
  length-replicate, length-take, length-drop, All, take_all, take-append, find,
}

-- The value where it is one of the first `n` numbers, as the masks of the source test it.
abbrev pub masked : ℕ → ℤ → Option ℕ
masked n (pos v) = if v % n == v then some v else none
masked n (negsuc v) = none

-- 0 sends the off packet, 1 the on packet, and more the on packet and after it the off packet.
pub send_accessory : Queues → ℕ → ℕ → Bool → ℕ → Queues
send_accessory q address port gate onoff =
    if onoff == 0
    then schedule_dcc_packet q (accessory_packet address port gate false) 2 3 0
    else if onoff == 1
    then schedule_dcc_packet q (accessory_packet address port gate true) 2 3 0
    else schedule_acc_on_off_packet q (accessory_packet address port gate true) 2 3 100

pub set_accessory : Queues → ℤ → ℕ → Bool → ℕ → Queues
set_accessory q address port gate onoff = elim (masked 512 address) [
  | none ↦ q
  | some a ↦ if port % 4 == port then send_accessory q a port gate onoff else q
]

-- Addresses run from -3 to 2044, and 3 is added for the track.
abbrev pub offset : ℤ → Option ℕ
offset (pos a) = if ltb 2044 a then none else some (a + 3)
offset (negsuc a) = if ltb 2 a then none else some (2 - a)

-- The truth value is what the call returns.
pub set_extended_accessory : Queues → ℤ → ℤ → ℕ → Queues × Bool
set_extended_accessory q address value repeats = elim (offset address) [
  | none ↦ (q, false)
  | some a ↦ elim (masked 32 value) [
    | none ↦ (q, false)
    | some v ↦ (schedule_dcc_packet q (extended_accessory_packet a v) 3 repeats 0, true)
  ]
]

pub set_time : Queues → ℕ → ℕ → Bool → Queues × Bool
set_time q minutes speed sudden = elim (time_packet minutes speed sudden) [
  | none ↦ (q, false)
  | some b ↦ (schedule_dcc_packet q b 5 2 0, true)
]
