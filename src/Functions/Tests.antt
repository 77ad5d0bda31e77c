-- ===== src/Functions/Tests.antt =====
-- The functions of locos at a concrete table.
use command_station_ex_la_bo.Functions.Kept.{set_fn_lem}
use command_station_ex_la_bo.Functions.{set_fn, get_function_map}
use command_station_ex_la_bo.Locos.Valid.{IsValid}
use command_station_ex_la_bo.Locos.{Table, prepare, get_slot}
use command_station_ex_la_bo.Prelude.{◌≡◌, refl, true, false, [], ◌∷◌, arith, digit, find}

-- Loco 3, with function 2 on.
abbrev one_loco : Table
one_loco = record {
  chain = record (prepare 0 3) { functions = 4 } ∷ [];
  recycler = [];
  slot_count = 1;
  chain_modified = false;
  made = 1;
}

one_loco-IsValid : IsValid 2 one_loco
one_loco-IsValid = record {
  locos = (tt, tt);
  no_zero = (ground arith, tt);
  places = (tt, tt);
  allocated = (omega arith, tt);
  counted = refl;
  bounded = omega arith;
}

set_fn_example :
    let r = set_fn 2 one_loco 5 28 true in
    (digit 28 (get_function_map 2 r.table 5) ≡ 1)
    × (get_function_map 2 r.table 3 ≡ get_function_map 2 one_loco 3)
unfolding set_fn get_slot find
set_fn_example =
    set_fn_lem 2 one_loco 5 28 28 3 true one_loco-IsValid (omega arith) (omega arith) (omega arith)
      (omega arith) (omega arith)
