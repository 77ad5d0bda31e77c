-- ===== src/Orders/ModelTime.antt =====
-- DCC::setTime: what the call leaves in the queue, as a decoder on the track reads it.
use command_station_ex_la_bo.Dcc.Clock.{time_lem}
use command_station_ex_la_bo.Dcc.Receiver.{read_time}
use command_station_ex_la_bo.DccQueue.Queued.{Queued, schedule_dcc_packet-Queued}
use command_station_ex_la_bo.DccQueue.{Queues, schedule_dcc_packet, normal_packet}
use command_station_ex_la_bo.Orders.{set_time}
use command_station_ex_la_bo.Dcc.Packets.{time_packet}
use command_station_ex_la_bo.Prelude.{
  ℕ, ◌≤◌, ◌≡◌, sym, ap, ◌∙◌, subst, ◌⊎◌, inl, inr, Bool, true, false, none, some, List, arith,
  length, inr,
}
use command_station_ex_la_bo.Prelude.{◌∙◌}

time_length :
    (minutes speed : ℕ) (sudden : Bool) (p : List ℕ)
    → time_packet minutes speed sudden ≡ some p
    → 5 ≡ length p
unfolding time_packet
time_length minutes speed sudden p e = ground arith

time_in :
    (q : Queues) (minutes speed : ℕ) (sudden : Bool) (p : List ℕ)
    → time_packet minutes speed sudden ≡ some p
    → set_time q minutes speed sudden ≡ (schedule_dcc_packet q p 5 2 0, true)
unfolding set_time
time_in q minutes speed sudden p e = rw (set_time, e)

time_out :
    (q : Queues) (minutes speed : ℕ) (sudden : Bool)
    → time_packet minutes speed sudden ≡ none
    → set_time q minutes speed sudden ≡ (q, false)
unfolding set_time
time_out q minutes speed sudden e = rw (set_time, e)

-- Setting the model time either gives true, and queues one packet with two repeats that a decoder
-- reads as just that time, factor and jump; or it gives false and does nothing, and then the time is
-- not below 1440 minutes or the factor not below 64.
pub set_time_lem :
    (q : Queues) (minutes speed : ℕ) (sudden : Bool)
    → let (q1, ok) = set_time q minutes speed sudden in
      ((b : List ℕ) × (ok ≡ true)
        × Queued q q1 b normal_packet 2
        × (read_time b ≡ some (minutes, speed, sudden)))
      ⊎ ((ok ≡ false) × (q1 ≡ q) × ((1440 ≤ minutes) ⊎ (64 ≤ speed)))
set_time_lem q minutes speed sudden = elim (time_lem minutes speed sudden) [
  | inl (p, e, r, _, _) ↦
      let s = time_in q minutes speed sudden p e in
      let n = time_length minutes speed sudden p e in
      let queued = schedule_dcc_packet-Queued q p 2 0 (omega (arith, n)) in
      inl (
        p,
        ap (λ r. r.1) s,
        subst (λ q1. Queued q q1 p normal_packet 2)
            (ap (λ k. schedule_dcc_packet q p k 2 0) (sym n) ∙ sym (ap (λ r. r.0) s)) queued,
        r,
      )
  | inr (e, out) ↦
      let s = time_out q minutes speed sudden e in inr (ap (λ r. r.1) s, ap (λ r. r.0) s, out)
]
