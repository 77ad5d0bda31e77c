-- ===== src/Orders/Track.antt =====
-- DCC.cpp: what a call leaves in the queue, as a decoder on the track reads it.
use command_station_ex_la_bo.Dcc.Commands.{accessory_lem, extended_accessory_lem}
use command_station_ex_la_bo.Dcc.Receiver.{read_accessory, read_extended_accessory}
use command_station_ex_la_bo.Prelude.Int.{ℤ, pos, negsuc}
use command_station_ex_la_bo.DccQueue.Queued.{
  Queued, schedule_dcc_packet-Queued, schedule_acc_on_off_packet-Queued,
}
use command_station_ex_la_bo.Orders.{
  send_accessory, set_accessory, masked, offset, set_extended_accessory,
}
use command_station_ex_la_bo.DccQueue.{
  PendingType, normal_packet, Queues, acc_on_packet, schedule_acc_on_off_packet,
  schedule_dcc_packet,
}
use command_station_ex_la_bo.Dcc.Packets.{accessory_packet, extended_accessory_packet}
use command_station_ex_la_bo.Prelude.{
  ℕ, zero, suc, ◌≤◌, ◌<◌, ◌≡◌, refl, sym, subst, ◌⊎◌, inl, inr, Bool, true, false, not, none, some,
  List, arith, ltb, ◌==◌, if◌then◌else◌, inr, dec_lt, Option-cases, ap,
}

-- The packet of an accessory call, and the type of its slot.
abbrev first_type : ℕ → PendingType
first_type onoff = if ltb onoff 2 then normal_packet else acc_on_packet

send_accessory_both :
    (q : Queues) (address port n : ℕ) (gate : Bool)
    → send_accessory q address port gate (suc (suc n))
      ≡ schedule_acc_on_off_packet q (accessory_packet address port gate true) 2 3 100
unfolding send_accessory
send_accessory_both q address port n gate = ground arith

send_accessory-Queued :
    (q : Queues) (address port onoff : ℕ) (gate : Bool)
    → Queued q
        (send_accessory q address port gate onoff)
        (accessory_packet address port gate (not (onoff == 0)))
        (first_type onoff)
        3
unfolding send_accessory accessory_packet
send_accessory-Queued q address port zero gate =
    schedule_dcc_packet-Queued q (accessory_packet address port gate false) 3 0 (omega arith)
send_accessory-Queued q address port (suc zero) gate =
    schedule_dcc_packet-Queued q (accessory_packet address port gate true) 3 0 (omega arith)
send_accessory-Queued q address port (suc (suc n)) gate =
    let some_on : suc (suc n) == 0 ≡ false = ground arith in
    let both : ltb (suc (suc n)) 2 ≡ false = ground arith in
    subst
      (λ q1.
        Queued q q1 (accessory_packet address port gate (not (suc (suc n) == 0)))
          (first_type (suc (suc n))) 3)
      (sym (send_accessory_both q address port n gate))
      (rw (some_on, both)
        (schedule_acc_on_off_packet-Queued q (accessory_packet address port gate true) 3 100
          (omega arith)))

set_accessory_in :
    (q : Queues) (a port onoff : ℕ) (gate : Bool)
    → a < 512
    → port < 4
    → set_accessory q (pos a) port gate onoff ≡ send_accessory q a port gate onoff
unfolding set_accessory
set_accessory_in q a port onoff gate h k = ground arith

set_accessory_none :
    (q : Queues) (a port onoff : ℕ) (gate : Bool) → set_accessory q (negsuc a) port gate onoff ≡ q
unfolding set_accessory
set_accessory_none q a port onoff gate = refl

set_accessory_out :
    (q : Queues) (a port onoff : ℕ) (gate : Bool)
    → (512 ≤ a) ⊎ (4 ≤ port)
    → (set_accessory q (pos a) port gate onoff ≡ q) × ((masked 512 (pos a) ≡ none) ⊎ (4 ≤ port))
unfolding set_accessory
set_accessory_out q a port onoff gate h = ground arith

-- A call for an accessory that exists queues one packet, with three repeats, that a decoder reads as
-- just that address, port and gate, switched on unless the call is for the off packet only; it waits
-- to be turned into the off packet if the call asks for both. A call for any other accessory does
-- nothing.
pub set_accessory_lem :
    (q : Queues) (address : ℤ) (port onoff : ℕ) (gate : Bool)
    → ((a : ℕ) × (address ≡ pos a)
        × (a < 512)
        × (port < 4)
        × ((b : List ℕ) × Queued q
              (set_accessory q address port gate onoff)
              b
              (if ltb onoff 2 then normal_packet else acc_on_packet)
              3
            × (read_accessory b ≡ some (a, port, gate, not (onoff == 0)))))
      ⊎ ((set_accessory q address port gate onoff ≡ q) × ((masked 512 address ≡ none) ⊎ (4 ≤ port)))
set_accessory_lem q (negsuc a) port onoff gate =
    inr (set_accessory_none q a port onoff gate, inl refl)
set_accessory_lem q (pos a) port onoff gate = elim (dec_lt a 512) [
  | no n ↦ inr (set_accessory_out q a port onoff gate (inl (omega arith)))
  | yes h ↦ elim (dec_lt port 4) [
    | no n ↦ inr (set_accessory_out q a port onoff gate (inr (omega arith)))
    | yes k ↦ inl (
      a,
      refl,
      h,
      k,
      (
        accessory_packet a port gate (not (onoff == 0)),
        subst
            (λ q1.
              Queued q q1 (accessory_packet a port gate (not (onoff == 0))) (first_type onoff) 3)
            (sym (set_accessory_in q a port onoff gate h k))
            (send_accessory-Queued q a port onoff gate),
        accessory_lem a port gate (not (onoff == 0)) h k,
      ),
    )
  ]
]

offset_bound : (address : ℤ) (a : ℕ) → offset address ≡ some a → a < 2048
offset_bound (pos n) a e = ground arith
offset_bound (negsuc n) a e = ground arith

masked_bound : (value : ℤ) (v : ℕ) → masked 32 value ≡ some v → v < 32
masked_bound (pos n) v e = ground arith
masked_bound (negsuc n) v e = cc

extended_in :
    (q : Queues) (address value : ℤ) (repeats a v : ℕ)
    → offset address ≡ some a
    → masked 32 value ≡ some v
    → set_extended_accessory q address value repeats
      ≡ (schedule_dcc_packet q (extended_accessory_packet a v) 3 repeats 0, true)
unfolding set_extended_accessory
extended_in q address value repeats a v e f = ground (arith, e, f)

extended_out :
    (q : Queues) (address value : ℤ) (repeats : ℕ)
    → (offset address ≡ none) ⊎ (masked 32 value ≡ none)
    → set_extended_accessory q address value repeats ≡ (q, false)
unfolding set_extended_accessory
extended_out q address value repeats (inl e) = rw (set_extended_accessory, e)
extended_out q address value repeats (inr e) = elim (Option-cases (offset address)) [
  | inl f ↦ rw (set_extended_accessory, f)
  | inr (a, f) ↦ rw (set_extended_accessory, f, e)
]

extended-Queued :
    (q : Queues) (a v repeats : ℕ)
    → Queued q
        (schedule_dcc_packet q (extended_accessory_packet a v) 3 repeats 0)
        (extended_accessory_packet a v)
        normal_packet
        repeats
unfolding extended_accessory_packet
extended-Queued q a v repeats =
    schedule_dcc_packet-Queued q (extended_accessory_packet a v) repeats 0 (omega arith)

-- A call for an aspect of an extended accessory gives true and queues one packet that a decoder reads
-- as just that address, counted from -3, and that aspect, where both are in range; and otherwise it
-- gives false and does nothing.
pub set_extended_accessory_lem :
    (q : Queues) (address value : ℤ) (repeats : ℕ)
    → let (q1, ok) = set_extended_accessory q address value repeats in
      ((a : ℕ) × (v : ℕ) × (b : List ℕ) × (offset address ≡ some a)
        × (masked 32 value ≡ some v)
        × (ok ≡ true)
        × Queued q q1 b normal_packet repeats
        × (read_extended_accessory b ≡ some (a, v)))
      ⊎ ((ok ≡ false) × (q1 ≡ q) × ((offset address ≡ none) ⊎ (masked 32 value ≡ none)))
set_extended_accessory_lem q address value repeats = elim (Option-cases (offset address)) [
  | inl e ↦
      let r = extended_out q address value repeats (inl e) in
      inr (ap (λ r. r.1) r, ap (λ r. r.0) r, inl e)
  | inr (a, e) ↦ elim (Option-cases (masked 32 value)) [
    | inl f ↦
        let r = extended_out q address value repeats (inr f) in
        inr (ap (λ r. r.1) r, ap (λ r. r.0) r, inr f)
    | inr (v, f) ↦
        let r = extended_in q address value repeats a v e f in
        inl (
          a,
          v,
          extended_accessory_packet a v,
          e,
          f,
          ap (λ r. r.1) r,
          subst (λ q1. Queued q q1 (extended_accessory_packet a v) normal_packet repeats)
              (sym (ap (λ r. r.0) r)) (extended-Queued q a v repeats),
          extended_accessory_lem a v (offset_bound address a e) (masked_bound value v f),
        )
  ]
]
