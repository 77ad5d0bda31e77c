-- ===== src/Dcc/Tests.antt =====
-- Packets and reminders on concrete values.
use command_station_ex_la_bo.Dcc.Roundtrip.{cv_main_lem}
use command_station_ex_la_bo.Dcc.Commands.{function_group_lem}
use command_station_ex_la_bo.Dcc.Speed.{throttle_lem}
use command_station_ex_la_bo.Dcc.Reminder.{Settings, Throttle, Paced, reminds, reminds_reach}
use command_station_ex_la_bo.Dcc.Receiver.{
  read_loco, speed128, write_byte, functions, verify_byte, write_bit,
}
use command_station_ex_la_bo.Dcc.Packets.{
  throttle_packet, write_cv_byte_packet, function_packet, group_bytes, read_cv_byte_packet,
  write_cv_bit_packet, address, speed_bytes,
}
use command_station_ex_la_bo.Prelude.{
  ℕ, zero, suc, ◌≡◌, refl, true, false, some, List, [], ◌∷◌, arith, replicate, length-replicate,
}

-- Loco 3, forward, speed 50 of 126.
short_address : throttle_packet 128 3 0xB2 ≡ 3 ∷ 0x3F ∷ 0xB2 ∷ []
unfolding throttle_packet address speed_bytes
short_address = refl

throttle_example : read_loco (throttle_packet 128 1234 0xB2) ≡ some (1234, speed128 true 50)
throttle_example = throttle_lem 128 1234 0xB2 (omega arith) (omega arith)

cv_main_example :
    (read_loco (write_cv_byte_packet 1234 300 7) ≡ some (1234, write_byte 300 7))
    × (read_loco (read_cv_byte_packet 1234 300) ≡ some (1234, verify_byte 300 0))
    × (read_loco (write_cv_bit_packet 1234 300 5 true) ≡ some (1234, write_bit 300 5 true))
cv_main_example = cv_main_lem 1234 300 7 5 true (omega arith) (omega arith) (omega arith)

function_group_example :
    read_loco (function_packet 3 (group_bytes 1 0b10011).0 (group_bytes 1 0b10011).1)
    ≡ some (3, functions 0 0b10011)
function_group_example = function_group_lem 3 1 0b10011 (omega arith) (omega arith) (omega arith)

abbrev settings : Settings
settings = record { default_a = 20; default_d = 30; linear = false }

abbrev throttle : Throttle
throttle = record {
  target_speed = 0xC0;
  speed_code = 0x7F;
  momentum_a = 255;
  momentum_d = 10;
  momentum_base = 4294967000;
}

-- Two seconds between reminders.
abbrev waits : List ℕ
waits = replicate 255 2000

replicate-Paced : (n : ℕ) → Paced (replicate n 2000)
replicate-Paced zero = tt
replicate-Paced (suc n) = ((omega arith, omega arith), replicate-Paced n)

reminds_example : (reminds settings throttle 4294967000 waits).speed_code ≡ 0xC0
reminds_example =
    reminds_reach settings throttle waits
      (omega arith, omega arith, omega arith, omega arith, omega arith, omega arith) (omega arith)
      (replicate-Paced 255) (omega (arith, length-replicate {A = ℕ} 255 2000))
