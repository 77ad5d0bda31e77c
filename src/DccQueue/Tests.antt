-- ===== src/DccQueue/Tests.antt =====
-- Runs of the queues on small inputs.
use command_station_ex_la_bo.DccQueue.Accessory.{speed_overwrites_acc_off}
use command_station_ex_la_bo.DccQueue.Estop.{Cleared, acc_offs, estop_sent_next}
use command_station_ex_la_bo.DccQueue.Coalesce.{with_packet, speed_coalesces}
use command_station_ex_la_bo.DccQueue.Conserve.{run_no_leak}
use command_station_ex_la_bo.DccQueue.Spacing.{served, Spaced, served-Spaced, loco_of, slot_sent}
use command_station_ex_la_bo.DccQueue.Calls.{
  Call, run, speed, function, next, acc_on_off, estop, step,
}
use command_station_ex_la_bo.DccQueue.{
  Queues, schedule_estop_packet, start, schedule_dcc_speed_packet, PendingSlot, Picked,
  schedule_next, for_loco, acc_on_packet, acc_off_packet, speed_packet, send, bytes_of, next_high,
  next_low, pick, get_slot, schedule_dcc_function_packet, schedule_acc_on_off_packet, replace,
  discard,
}
use command_station_ex_la_bo.Prelude.{
  ℕ, ◌+◌, ◌≡◌, refl, ◌≢◌, true, some, List, [], ◌∷◌, arith, length, find, map,
}

abbrev speed3 : List ℕ
speed3 = 3 ∷ 0x3F ∷ 0xB2 ∷ []

abbrev stop3 : List ℕ
stop3 = 3 ∷ 0x3F ∷ 0x81 ∷ []

-- An order for loco 3 and one for loco 4 are waiting.
abbrev waiting : Queues
waiting = run start (speed speed3 3 0 3 ∷ speed (4 ∷ 0x3F ∷ 0x90 ∷ []) 3 0 4 ∷ [])

estop_example :
    let q1 = schedule_estop_packet waiting stop3 3 4 3 in
    (q2 : Queues) × (schedule_next 1000 true q1 ≡ some (q2, record { bytes = stop3; repeats = 4 }))
    × Cleared 3 waiting.high q2.high
    × (acc_offs q2.high ≡ acc_offs waiting.high)
    × (q2.low ≡ waiting.low)
estop_example = estop_sent_next waiting stop3 4 3 1000 true (omega arith)

abbrev calls : List Call
calls =
    speed speed3 3 0 3
    ∷ function (3 ∷ 0x90 ∷ []) 2 3 1
    ∷ next 10 true
    ∷ next 20 true
    ∷ acc_on_off (0x81 ∷ 0xF9 ∷ []) 2 3 100
    ∷ next 30 true
    ∷ estop stop3 3 4 3
    ∷ next 40 true
    ∷ []

-- Loco 3 has its speed and then, once a packet for no loco was sent between, its function; the stop is
-- for no loco in particular.
served_locos : map (λ e. loco_of e.1) (served start calls) ≡ 3 ∷ 0 ∷ 3 ∷ 0 ∷ []
unfolding start served slot_sent step schedule_next next_high next_low pick get_slot
    schedule_dcc_speed_packet schedule_dcc_function_packet schedule_estop_packet
    schedule_acc_on_off_packet replace discard
served_locos = refl

served_example : Spaced 0 (served start calls)
unfolding start
served_example = served-Spaced start calls

no_leak_example :
    let q = run start calls in length q.high + length q.low + length q.recycled ≡ q.created
no_leak_example = run_no_leak calls

coalesces_example :
    let q' = schedule_dcc_speed_packet waiting (3 ∷ 0x3F ∷ 0x85 ∷ []) 3 0 3 in
    (p : PendingSlot) × (find (for_loco 3) q'.high ≡ some p)
    × (bytes_of p ≡ 3 ∷ 0x3F ∷ 0x85 ∷ [])
    × (p.packet_repeat ≡ 0)
    × ((j : ℕ) → j ≢ 3 → find (for_loco j) q'.high ≡ find (for_loco j) waiting.high)
    × (q'.low ≡ waiting.low)
coalesces_example = speed_coalesces waiting (3 ∷ 0x3F ∷ 0x85 ∷ []) 0 3 (omega arith) (omega arith)

abbrev coil : PendingSlot
coil = record {
  type = acc_on_packet;
  packet_length = 2;
  packet_repeat = 0;
  packet = 0x81 ∷ 0xF9 ∷ 0 ∷ 0 ∷ 0 ∷ [];
  word = 100;
}

abbrev with_coil : Queues
with_coil = record { high = []; low = coil ∷ []; recycled = []; created = 1; last_sent = 0 }

-- The coil-off is due at 65539 ms, and 65539 ends in 3.
abbrev coil_off : PendingSlot
coil_off = record coil { type = acc_off_packet; word = 65539 }

abbrev with_coil_off : Queues
with_coil_off = record with_coil { low = []; high = coil_off ∷ [] }

overwrites_example :
    (schedule_dcc_speed_packet with_coil_off speed3 3 0 3).high
    ≡ with_packet speed3 3 0 coil_off ∷ []
overwrites_example =
    speed_overwrites_acc_off with_coil_off [] [] coil_off speed3 0 3 refl tt refl refl

abbrev slot3 : PendingSlot
slot3 = record coil { type = speed_packet; word = 3 }

abbrev slot4 : PendingSlot
slot4 = record coil { type = speed_packet; word = 4 }

-- Loco 3 was served last, so its slot is passed over.
abbrev picked : Picked
picked = record (send slot4 (coil_off ∷ [])) { queue = slot3 ∷ coil_off ∷ [] }
