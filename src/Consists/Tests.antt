-- ===== src/Consists/Tests.antt =====
-- DCCConsist.cpp: concrete consists.
use command_station_ex_la_bo.Consists.Along.{Along}
use command_station_ex_la_bo.Consists.Parsed.{Sound, parse_lem}
use command_station_ex_la_bo.Locos.{Table, update, assign, get_slot, prepare}
use command_station_ex_la_bo.Locos.Valid.{IsValid}
use command_station_ex_la_bo.Consists.{
  Member, Parse, parse, accepted, built_up, delete_any_consist, refused, chained, null_slot,
  out_of_fuel, unlink_all, listed, listing, walk,
}
use command_station_ex_la_bo.Prelude.{
  ℕ, ◌≡◌, refl, Bool, true, false, Option, none, some, List, [], ◌∷◌, map, arith, find,
}

abbrev of_five : List Member
of_five = (5, false) ∷ (7, true) ∷ (9, false) ∷ []

abbrev members : Parse → List (ℕ × (Option ℕ × (Option ℕ × Bool)))
members (accepted t) =
    map (λ s. (s.loco, (s.consist_lead, (s.consist_next, s.consist_reverse)))) t.chain
members (refused t) = []
members (listed t lists) = []
members null_slot = []
members out_of_fuel = []

abbrev empty : Table
empty = record { chain = []; recycler = []; slot_count = 0; chain_modified = false; made = 0 }

empty-IsValid : IsValid 10 empty
empty-IsValid = record {
  locos = tt;
  no_zero = tt;
  places = tt;
  allocated = tt;
  counted = refl;
  bounded = omega arith;
}

-- Loco 5 leads loco 7.
abbrev pair : Table
pair = record {
  chain =
      record (prepare 1 7) { consist_lead = some 0 }
      ∷ record (prepare 0 5) { consist_next = some 1 }
      ∷ [];
  recycler = [];
  slot_count = 2;
  chain_modified = true;
  made = 2;
}

made_of_five :
    members (parse 10 empty of_five)
    ≡ (9, (some 0, (none, false)))
      ∷ (7, (some 0, (some 2, true)))
      ∷ (5, (none, (some 1, false)))
      ∷ []
unfolding parse built_up chained update assign get_slot find
made_of_five = refl

-- A table of one place has no slot for the second loco.
no_place : parse 1 empty of_five ≡ null_slot
unfolding parse built_up chained update assign get_slot find
no_place = refl

pair_listed : parse 10 pair [] ≡ listed pair (((5, false) ∷ (7, false) ∷ []) ∷ [])
unfolding parse listing walk find
pair_listed = refl

-- A loco that is its own next: the list does not end.
abbrev looped : Table
looped = record pair { chain = record (prepare 0 5) { consist_next = some 0 } ∷ [] }

looped_endless : parse 10 looped [] ≡ out_of_fuel
unfolding parse listing walk find
looped_endless = refl

-- From loco 5 on, the slots of the pair are those of loco 5 and loco 7.
pair-Along : Along pair (some 0) (0 ∷ 1 ∷ [])
unfolding find
pair-Along = (refl, (omega arith, tt), (refl, tt, refl))

pair_deleted :
    delete_any_consist 10 pair 7 ≡ some (record pair { chain = prepare 1 7 ∷ prepare 0 5 ∷ [] })
unfolding delete_any_consist unlink_all update assign get_slot find
pair_deleted = refl

parse_lem_example : Sound 10 (parse 10 empty of_five)
parse_lem_example =
    parse_lem 10 empty (5, false) ((7, true) ∷ (9, false) ∷ []) empty-IsValid (omega arith)
