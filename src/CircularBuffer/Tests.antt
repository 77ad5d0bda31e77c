-- ===== src/CircularBuffer/Tests.antt =====
-- Runs of a buffer of four bytes.
use command_station_ex_la_bo.CircularBuffer.Drain.{get_bytes_lem}
use command_station_ex_la_bo.CircularBuffer.Flow.{Pushed, push_bytes_lem}
use command_station_ex_la_bo.CircularBuffer.Valid.{IsValid, begin-IsValid, held}
use command_station_ex_la_bo.CircularBuffer.{CircularBuffer, begin, get_bytes, push_bytes, init}
use command_station_ex_la_bo.Prelude.{◌≡◌, refl, true, false, some, [], ◌∷◌, arith}

abbrev fresh : CircularBuffer
fresh = begin (init 4)

fresh-IsValid : IsValid fresh
fresh-IsValid = begin-IsValid 4 (omega arith)

push_example : Pushed fresh (1 ∷ 2 ∷ 3 ∷ []) (push_bytes fresh (1 ∷ 2 ∷ 3 ∷ []))
unfolding begin
push_example = push_bytes_lem fresh (1 ∷ 2 ∷ 3 ∷ []) fresh-IsValid refl

abbrev three : CircularBuffer
three = record {
  begun = true;
  buffer = 30 ∷ 0 ∷ 10 ∷ 20 ∷ [];
  size = 4;
  head = 1;
  tail = 2;
  full = false;
  peak_count = 3;
}

three-IsValid : IsValid three
three-IsValid = record {
  ready = refl;
  sized = refl;
  head_in = omega arith;
  tail_in = omega arith;
  full_at = λ e. absurd (ground arith);
}

get_bytes_example :
    let (b', got) = get_bytes three 2 in
    (got ≡ some (10 ∷ 20 ∷ [])) × (held b' ≡ 30 ∷ []) × IsValid b'
get_bytes_example = get_bytes_lem three 2 three-IsValid (omega arith) (omega arith)

abbrev four : CircularBuffer
four = record three { buffer = 30 ∷ 40 ∷ 10 ∷ 20 ∷ []; head = 2; full = true }

four-IsValid : IsValid four
four-IsValid = record {
  ready = refl;
  sized = refl;
  head_in = omega arith;
  tail_in = omega arith;
  full_at = λ e. refl;
}

abbrev at_end : CircularBuffer
at_end = record three { head = 3; tail = 1 }
