-- ===== src/CircularBuffer.antt =====
-- CircularBuffer.hpp and CircularBuffer.cpp: the byte queue of the display and of the UDP clients. It
-- is used by one task here, so the semaphore is always taken at once. A write to a place outside the
-- buffer has no effect on the list that stands for it.
pub mod Valid
pub mod Flow
pub mod Drain
pub mod Edge
mod Tests
use command_station_ex_la_bo.Prelude.{
  ℕ, zero, suc, ◌+◌, ◌-◌, ◌*◌, ◌/◌, ◌%◌, ◌^◌, ◌≤◌, ◌<◌, ◌≡◌, refl, sym, ap, ap₂, ◌∙◌, subst, ◌≢◌,
  ◌↔◌, ◌⊎◌, inl, inr, Bool, true, false, not, ◌&&◌, ◌||◌, Option, none, some, List, [], ◌∷◌, ◌++◌,
  map, append-nil, append_assoc, arith, length, length-append, get_or, get_elem?, set, take, drop,
  replicate, ltb, leb, ◌==◌, ltb→lt, lt→ltb, leb→le, ==_iff, if◌then◌else◌, Bool-cases,
  Option-cases, inr, bit_and, bit_or, bit_xor, length-set, dec_lt, dec_le, ℕ_discrete, all_below,
  length-replicate, length-take, length-drop, All, take_all, take-append, find,
}

-- `begun` says that `buffer` is not null.
pub record CircularBuffer : Type 0 where
  pub begun : Bool
  pub buffer : List ℕ
  pub size : ℕ
  pub head : ℕ
  pub tail : ℕ
  pub full : Bool
  pub peak_count : ℕ

pub init : ℕ → CircularBuffer
init n = record {
  begun = false;
  buffer = [];
  size = n;
  head = 0;
  tail = 0;
  full = false;
  peak_count = 0;
}

pub clear : CircularBuffer → CircularBuffer
clear b =
    if b.begun
    then record b { buffer = replicate b.size 0; full = false; head = 0; tail = 0; peak_count = 0 }
    else b

-- The bytes of `new byte[size]` are cleared at once.
pub begin : CircularBuffer → CircularBuffer
unfolding clear
begin b = clear (record b { begun = true; buffer = replicate b.size 0 })

pub end : CircularBuffer → CircularBuffer
end b = if b.begun then record b { begun = false; buffer = [] } else b

abbrev pub used_size : CircularBuffer → ℕ
used_size b =
    if b.full
    then b.size
    else if leb b.tail b.head
    then b.head - b.tail
    else b.size + b.head - b.tail

-- The count, and the buffer with its peak brought up to it.
pub get_count : CircularBuffer → CircularBuffer × ℕ
get_count b =
    if b.begun
    then (
      (if ltb b.peak_count (used_size b) then record b { peak_count = used_size b } else b),
      used_size b,
    )
    else (b, 0)

abbrev pub is_empty : CircularBuffer → Bool
is_empty b = not b.full && b.head == b.tail

pub push_byte : CircularBuffer → ℕ → CircularBuffer × Bool
push_byte b x =
    let now_full = b.head + 1 == b.tail in
    let pushed = record b {
      buffer = set b.buffer b.head x;
      head = b.head + 1;
      full = now_full;
      peak_count = if now_full then b.size + 1 else b.peak_count;
    } in
    if not b.begun
    then (b, false)
    else if b.full
    then ((get_count b).0, true)
    else ((get_count pushed).0, not now_full)

-- The loop of `PushBytes`, and whether it went to its end.
pub push_loop : CircularBuffer → List ℕ → CircularBuffer × Bool
push_loop b [] = (b, true)
push_loop b (x ∷ xs) =
    let h = (b.head + 1) % b.size in
    let now_full = h == b.tail in
    let pushed = record b { buffer = set b.buffer b.head x; head = h; full = now_full } in
    let rest = push_loop pushed xs in
    if now_full then (record pushed { peak_count = b.size + length (x ∷ xs) }, false) else rest

pub push_bytes : CircularBuffer → List ℕ → CircularBuffer × Bool
push_bytes b xs =
    let (b', ok) = push_loop b xs in
    if not b.begun
    then (b, false)
    else if b.full
    then ((get_count b).0, true)
    else ((get_count b').0, ok)

pub get_byte : CircularBuffer → CircularBuffer × ℕ
get_byte b =
    if not b.begun
    then (b, 0)
    else if is_empty b
    then (b, 0)
    else (record b { tail = (b.tail + 1) % b.size; full = false }, get_or b.buffer b.tail 0)

-- The loop of `GetBytes`, with the bytes that it copies out.
pub get_loop : CircularBuffer → ℕ → CircularBuffer × List ℕ
get_loop b zero = (b, [])
get_loop b (suc n) =
    let (b', xs) = get_loop (record b { tail = (b.tail + 1) % b.size }) n in
    (b', get_or b.buffer b.tail 0 ∷ xs)

-- `none` is the result false.
pub get_bytes : CircularBuffer → ℕ → CircularBuffer × Option (List ℕ)
get_bytes b n =
    let (b1, count) = get_count b in
    let (b2, xs) = get_loop b1 n in
    if not b.begun
    then (b, none)
    else if ltb count n
    then (b1, none)
    else (record b2 { full = false }, some xs)

-- Two bytes as the pattern of 16 bits, the low one first.
pub get_int16 : CircularBuffer → CircularBuffer × ℕ
get_int16 b =
    let (b1, count) = get_count b in
    let (b2, lo) = get_byte b1 in
    let (b3, hi) = get_byte b2 in
    if not b.begun
    then (b, 0)
    else if is_empty b
    then (b, 0)
    else if ltb count 2
    then (b1, 0)
    else (b3, hi * 256 + lo)

-- Four bytes as the pattern of 32 bits, the low one first.
pub get_int32 : CircularBuffer → CircularBuffer × ℕ
get_int32 b =
    let (b1, count) = get_count b in
    let (b2, v1) = get_byte b1 in
    let (b3, v2) = get_byte b2 in
    let (b4, v3) = get_byte b3 in
    let (b5, v4) = get_byte b4 in
    if not b.begun
    then (b, 0)
    else if is_empty b
    then (b, 0)
    else if ltb count 4
    then (b1, 0)
    else (b5, v4 * 16777216 + v3 * 65536 + v2 * 256 + v1)
