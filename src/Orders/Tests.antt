-- ===== src/Orders/Tests.antt =====
-- Calls on empty queues.
use command_station_ex_la_bo.Orders.Track.{set_accessory_lem}
use command_station_ex_la_bo.Dcc.Receiver.{read_accessory}
use command_station_ex_la_bo.DccQueue.Queued.{Queued}
use command_station_ex_la_bo.Orders.{set_accessory, masked}
use command_station_ex_la_bo.Prelude.Int.{pos}
use command_station_ex_la_bo.DccQueue.{start, acc_on_packet}
use command_station_ex_la_bo.Prelude.{ℕ, ◌≤◌, ◌<◌, ◌≡◌, ◌⊎◌, true, none, some, List}

-- Address 100, port 2: on, and then off.
set_accessory_example :
    ((a : ℕ) × (pos 100 ≡ pos a)
      × (a < 512)
      × (2 < 4)
      × ((b : List ℕ) × Queued start (set_accessory start (pos 100) 2 true 2) b acc_on_packet 3
          × (read_accessory b ≡ some (a, 2, true, true))))
    ⊎ ((set_accessory start (pos 100) 2 true 2 ≡ start) × ((masked 512 (pos 100) ≡ none) ⊎ (4 ≤ 2)))
set_accessory_example = set_accessory_lem start (pos 100) 2 2 true
