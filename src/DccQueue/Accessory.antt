-- ===== src/DccQueue/Accessory.antt =====
-- DCCQueue.cpp: the two packets of an accessory coil. The slot keeps its delay, and later its start
-- time, in the memory that holds the loco of other packets, and the code reads it as a loco there.
use command_station_ex_la_bo.DccQueue.Estop.{get_slot-Prepared}
use command_station_ex_la_bo.DccQueue.Coalesce.{with_packet}
use command_station_ex_la_bo.DccQueue.{
  schedule_next, pick, schedule_acc_on_off_packet, schedule_dcc_speed_packet, next_low, PendingSlot,
  Queues, next_high, acc_off_packet, acc_on_packet, loco_id, must_wait, start_time, to_acc_off,
  behind, get_slot, bytes_of, set_low, replace, for_loco,
}
use command_station_ex_la_bo.Prelude.{
  ℕ, ◌%◌, ◌≤◌, ◌<◌, ◌≡◌, ap, ◌≢◌, Bool, true, false, none, some, List, [], ◌∷◌, ◌++◌, arith, length,
  All,
}

-- Where the high priority queue offers nothing, and the first slot of the low priority queue is a
-- coil-on that need not wait and is not to be repeated, the coil-on is sent, and the coil-off
-- stands first in the high priority queue: the same bytes but for the activation bit, due after
-- the delay.
pub acc_off_follows :
    (q : Queues) (p : PendingSlot) (ps : List PendingSlot) (now : ℕ) (force : Bool)
    → next_high now q ≡ none
    → q.low ≡ p ∷ ps
    → p.type ≡ acc_on_packet
    → p.packet_repeat ≡ 0
    → must_wait now q.last_sent p ≡ false
    → let off = to_acc_off now p in
      schedule_next now force q
      ≡ some (
        record q { low = ps; high = off ∷ q.high; last_sent = loco_id p },
        record { bytes = bytes_of p; repeats = 0 },
      )
unfolding schedule_next next_low pick
acc_off_follows q p ps now force h l t r w = ground arith

-- Until it is due the coil-off is passed over, and the queue behind it is served as if it were not there.
pub acc_off_waits :
    (p : PendingSlot) (ps : List PendingSlot) (now last : ℕ)
    → p.type ≡ acc_off_packet
    → now < start_time p
    → pick now last (p ∷ ps) ≡ behind p (pick now last ps)
unfolding pick
acc_off_waits p ps now last t h = ground arith

-- A coil-on of at most five bytes, queued with a delay from 1 to 65535, is taken for a packet to
-- the loco whose number is the delay: it waits if that loco was served last.
pub acc_on_waits_for_loco :
    (q : Queues) (b : List ℕ) (r d now : ℕ)
    → length b ≤ 5
    → 0 < d
    → d < 65536
    → let q' = schedule_acc_on_off_packet q b (length b) r d in
      (p : PendingSlot) × (q'.low ≡ q.low ++ p ∷ [])
      × (p.type ≡ acc_on_packet)
      × (must_wait now d p ≡ true)
unfolding schedule_acc_on_off_packet
acc_on_waits_for_loco q b r d now h k l =
    let (q1, p) = get_slot q acc_on_packet b (length b) r 0 in
    let e = get_slot-Prepared q acc_on_packet b r 0 h in
    (
      record p { word = set_low p.word d },
      ap (λ l. l ++ record p { word = set_low p.word d } ∷ []) e.same_low,
      e.type,
      ground (arith, e.loco, e.type),
    )

-- `replace` takes the first slot with the number.
replace_at :
    (c : ℕ) (b : List ℕ) (l r : ℕ) (before after : List PendingSlot) (p : PendingSlot)
    → All (λ s. loco_id s ≢ c) before
    → loco_id p ≡ c
    → replace (for_loco c) b l r (before ++ p ∷ after)
      ≡ some (before ++ with_packet b l r p ∷ after)
unfolding replace
replace_at c b l r [] after p w e = ground arith
replace_at c b l r (s ∷ before) after p w e =
    ground (arith, w.0, replace_at c b l r before after p w.1 e)

-- A coil-off in the high priority queue whose start time ends, in its low 16 bits, in the number
-- of a loco, and which has no slot of that number before it, is overwritten by a speed packet for
-- that loco: the slot keeps its place, its type and its start time and now holds the speed packet,
-- and no slot is added.
pub speed_overwrites_acc_off :
    (q : Queues) (before after : List PendingSlot) (p : PendingSlot) (b : List ℕ) (r c : ℕ)
    → q.high ≡ before ++ p ∷ after
    → All (λ s. loco_id s ≢ c) before
    → p.type ≡ acc_off_packet
    → start_time p % 65536 ≡ c
    → (schedule_dcc_speed_packet q b (length b) r c).high
      ≡ before ++ with_packet b (length b) r p ∷ after
unfolding schedule_dcc_speed_packet
speed_overwrites_acc_off q before after p b r c h w t s =
    rw (h, schedule_dcc_speed_packet, replace_at c b (length b) r before after p w s)
