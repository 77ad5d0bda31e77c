-- ===== src/Sensors/Tests.antt =====
-- Sensors.cpp: concrete sensors.
use command_station_ex_la_bo.Sensors.Cycle.{view, tell}
use command_station_ex_la_bo.Sensors.Scan.{calls, calls-ahead, tell-check_all}
use command_station_ex_la_bo.Sensors.Lookup.{IsValid, get-create}
use command_station_ex_la_bo.Sensors.Debounce.{watch, settled, check_one-settled}
use command_station_ex_la_bo.Sensors.{
  Sensor, Sensors, check_all, create_multiple, input_change_callback, create, new_sensor,
  check_loop, remove, vpin_max, debounce, sensors_of, get, vpin_none,
}
use command_station_ex_la_bo.Prelude.{
  ℕ, ◌≤◌, ◌≡◌, refl, ◌≢◌, true, false, ◌||◌, some, [], ◌∷◌, arith, length, leb, ◌==◌,
}

abbrev door : Sensor
door = new_sensor (λ pin. false) 7 40 1

abbrev gate : Sensor
gate = record door { snum = 8; pin = 41 }

abbrev two : Sensors
two = record { passed = gate ∷ door ∷ []; ahead = []; last_read_cycle = 0 }

abbrev scanning : Sensors
scanning = record {
  passed = [];
  ahead = gate ∷ record door { latch_delay = 0 } ∷ [];
  last_read_cycle = 0;
}

abbrev lit : ℕ → ℕ
lit pin = 1

door_reported : (check_all 5 lit scanning).1 ≡ (7, true) ∷ []
unfolding check_all check_loop debounce
door_reported = refl

made_twice :
    sensors_of (create_multiple (λ pin. false) 40 2 two)
    ≡ new_sensor (λ pin. false) 41 41 1 ∷ new_sensor (λ pin. false) 40 40 1 ∷ gate ∷ door ∷ []
unfolding create_multiple create remove
made_twice = refl

called_back :
    (input_change_callback 40 1 two).passed ≡ gate ∷ record door { input_state = true } ∷ []
unfolding input_change_callback
called_back = refl

check_one-settled_example :
    watch (true ∷ false ∷ true ∷ true ∷ []) door
    ≡ settled 7 false false (true ∷ false ∷ true ∷ true ∷ [])
check_one-settled_example =
    check_one-settled (true ∷ false ∷ true ∷ true ∷ []) door
      (refl, (λ e. absurd (omega (arith, e)))) refl

get-create_example :
    let made = create (λ pin. false) 7 50 1 two in
    IsValid made.0
    × (made.1 ≡ (leb 50 vpin_max || 50 == vpin_none))
    × (made.1 ≡ false → made.0 ≡ two)
    × (made.1 ≡ true → get 7 made.0 ≡ some (new_sensor (λ pin. false) 7 50 1))
    × ((k : ℕ) → k ≢ 7 → get k made.0 ≡ get k two)
get-create_example = get-create (λ pin. false) 7 50 1 two (refl, (refl, tt))

tell-check_all_example :
    let after = check_all 5 lit scanning in
    (view (sensors_of after.0) ≡ tell after.1 (view (sensors_of scanning)))
    × IsValid after.0
    × (length after.1 ≤ 1)
tell-check_all_example = tell-check_all 5 lit scanning (refl, (refl, tt))

calls-ahead_example :
    (k : ℕ) × (k ≤ length scanning.ahead) × ((calls (λ k. k) (λ k. lit) k scanning).ahead ≡ [])
calls-ahead_example = calls-ahead (λ k. k) (λ k. lit) scanning
