-- ===== src/Locos/Tests.antt =====
-- A table of at most two locos.
use command_station_ex_la_bo.Locos.Forget.{forget_lem}
use command_station_ex_la_bo.Locos.Valid.{IsValid, run-IsValid, start-IsValid}
use command_station_ex_la_bo.Prelude.{
  ℕ, ◌≡◌, refl, ◌≢◌, true, false, none, List, [], ◌∷◌, arith, find,
}
use command_station_ex_la_bo.Prelude.{refl}
use command_station_ex_la_bo.Locos.{
  get, forget_loco, set_slot, Call, Table, get_slot, Setter, prepare, run, forget, start, has_loco,
  LocoSlot,
}

abbrev calls : List Call
calls = get 3 true ∷ get 4 true ∷ set_slot (Setter.target_speed 200) 3 ∷ forget_loco 4 ∷ []

abbrev three : LocoSlot
three = record (prepare 0 3) { target_speed = 200 }

abbrev two : Table
two = record {
  chain = three ∷ prepare 1 4 ∷ [];
  recycler = [];
  slot_count = 2;
  chain_modified = true;
  made = 2;
}

run-IsValid_example : IsValid 2 (run 2 start calls)
run-IsValid_example = run-IsValid 2 start calls (start-IsValid 2)

two-IsValid : IsValid 2 two
two-IsValid = record {
  locos = ground arith;
  no_zero = ground arith;
  places = ground arith;
  allocated = ground arith;
  counted = refl;
  bounded = omega arith;
}

-- The table is full, and after loco 4 is forgotten there is a slot for loco 5.
forget_example :
    let t' = forget two (prepare 1 4) in
    (get_slot 2 t' 4 false ≡ (t', none))
    × ((j : ℕ) → j ≢ 4 → find (has_loco j) t'.chain ≡ find (has_loco j) two.chain)
    × ((get_slot 2 t' 5 true).1 ≢ none)
unfolding get_slot find
forget_example = forget_lem 2 two 4 5 (prepare 1 4) two-IsValid refl (ground arith)
