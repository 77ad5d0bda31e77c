-- ===== src/DccQueue/Calls.antt =====
-- DCCQueue.h: the public calls as a sequence, in the order in which the program makes them.
use command_station_ex_la_bo.Prelude.{ℕ, Bool, List, [], ◌∷◌, Option, none, some}
use command_station_ex_la_bo.DccQueue.{
  Queues, Packet, schedule_dcc_packet, schedule_dcc_speed_packet, schedule_dcc_function_packet,
  schedule_estop_packet, schedule_acc_on_off_packet, schedule_next,
}

-- The arguments are those of the functions: packet, length, repeats, and so on.
pub data Call : Type 0 where
  normal speed estop acc_on_off : List ℕ → ℕ → ℕ → ℕ → Call
  function : List ℕ → ℕ → ℕ → ℕ → Call
  next : ℕ → Bool → Call

-- A call's effect on the queues, and the packet that it sends.
unfoldable pub step : Queues → Call → Queues × Option Packet
step q (normal b l r c) = (schedule_dcc_packet q b l r c, none)
step q (speed b l r c) = (schedule_dcc_speed_packet q b l r c, none)
step q (function b l c g) = (schedule_dcc_function_packet q b l c g, none)
step q (estop b l r c) = (schedule_estop_packet q b l r c, none)
step q (acc_on_off b l r d) = (schedule_acc_on_off_packet q b l r d, none)
step q (next now force) = elim (schedule_next now force q) [
  | none ↦ (q, none)
  | some (q', p) ↦ (q', some p)
]

unfoldable pub run : Queues → List Call → Queues
unfolding step
run q [] = q
run q (c ∷ cs) = run (step q c).0 cs
