-- ===== src/CircularBuffer/Edge.antt =====
-- CircularBuffer.cpp at its edges: a full buffer, an empty request, and the last place.
use command_station_ex_la_bo.CircularBuffer.Valid.{held, IsValid}
use command_station_ex_la_bo.CircularBuffer.{
  push_bytes, get_bytes, push_byte, get_count, CircularBuffer, get_loop, is_empty,
}
use command_station_ex_la_bo.Prelude.{ℕ, ◌+◌, ◌≡◌, true, false, List, [], arith}

-- Of a push into a full buffer, after begin, nothing is stored, and the call reports success.
pub push_bytes_when_full :
    (b : CircularBuffer) (xs : List ℕ)
    → b.begun ≡ true
    → b.full ≡ true
    → ((push_bytes b xs).1 ≡ true) × (held (push_bytes b xs).0 ≡ held b)
unfolding push_bytes get_count
push_bytes_when_full b xs r f = ground arith

-- A request for no bytes empties a valid buffer that is full.
pub get_bytes_zero :
    (b : CircularBuffer)
    → IsValid b
    → b.full ≡ true
    → (is_empty (get_bytes b 0).0 ≡ true) × (held (get_bytes b 0).0 ≡ [])
unfolding get_bytes get_count get_loop
get_bytes_zero b v f = ground (arith, v.ready, v.full_at f)

-- In a valid buffer that is not full, a single byte that goes to the last place of the array is
-- reported as stored, but the head is then the size, outside the array: it does not go round.
pub push_byte_outside :
    (b : CircularBuffer) (x : ℕ)
    → IsValid b
    → b.full ≡ false
    → b.head + 1 ≡ b.size
    → ((push_byte b x).1 ≡ true) × ((push_byte b x).0.head ≡ b.size)
unfolding push_byte get_count
push_byte_outside b x v f e = ground (arith, v.ready, v.tail_in)
