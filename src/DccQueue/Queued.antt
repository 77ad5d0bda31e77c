-- ===== src/DccQueue/Queued.antt =====
-- DCCQueue.cpp: what a call that appends a packet leaves in the queues.
use command_station_ex_la_bo.DccQueue.Estop.{get_slot-Prepared}
use command_station_ex_la_bo.DccQueue.{
  Queues, schedule_dcc_packet, schedule_acc_on_off_packet, PendingType, PendingSlot, bytes_of,
  normal_packet, acc_on_packet, get_slot, set_low,
}
use command_station_ex_la_bo.Prelude.{ℕ, ◌≤◌, ◌≡◌, ap, List, [], ◌∷◌, ◌++◌, length}

-- The low priority queue has one slot more, and the high priority queue is as it was.
pub record Queued (q q1 : Queues) (b : List ℕ) (t : PendingType) (r : ℕ) : Type 0 where
  pub slot : PendingSlot
  pub low : q1.low ≡ q.low ++ slot ∷ []
  pub high : q1.high ≡ q.high
  pub bytes : bytes_of slot ≡ b
  pub type : slot.type ≡ t
  pub repeats : slot.packet_repeat ≡ r

pub schedule_dcc_packet-Queued :
    (q : Queues) (b : List ℕ) (r c : ℕ)
    → length b ≤ 5
    → Queued q (schedule_dcc_packet q b (length b) r c) b normal_packet r
unfolding schedule_dcc_packet
schedule_dcc_packet-Queued q b r c h =
    let (q1, p) = get_slot q normal_packet b (length b) r c in
    let d = get_slot-Prepared q normal_packet b r c h in
    record {
      slot = p;
      low = ap (λ l. l ++ p ∷ []) d.same_low;
      high = d.same_high;
      bytes = d.bytes;
      type = d.type;
      repeats = d.repeats;
    }

pub schedule_acc_on_off_packet-Queued :
    (q : Queues) (b : List ℕ) (r c : ℕ)
    → length b ≤ 5
    → Queued q (schedule_acc_on_off_packet q b (length b) r c) b acc_on_packet r
unfolding schedule_acc_on_off_packet
schedule_acc_on_off_packet-Queued q b r c h =
    let (q1, p) = get_slot q acc_on_packet b (length b) r 0 in
    let d = get_slot-Prepared q acc_on_packet b r 0 h in
    record {
      slot = record p { word = set_low p.word c };
      low = ap (λ l. l ++ record p { word = set_low p.word c } ∷ []) d.same_low;
      high = d.same_high;
      bytes = d.bytes;
      type = d.type;
      repeats = d.repeats;
    }
