-- ===== src/CircularBuffer/Drain.antt =====
-- CircularBuffer::GetBytes: the oldest bytes come out, in order.
use command_station_ex_la_bo.CircularBuffer.Valid.{
  with_peak-IsValid, mod-next, IsValid, held, get_count_lem, with_peak-IsValid,
}
use command_station_ex_la_bo.CircularBuffer.{
  get_loop, CircularBuffer, used_size, get_bytes, get_count,
}
use command_station_ex_la_bo.RingStream.Valid.{ahead, window}
use command_station_ex_la_bo.Prelude.{
  ℕ, zero, suc, ◌+◌, ◌-◌, ◌%◌, ◌≤◌, ◌<◌, ◌≡◌, refl, sym, ap, ◌∙◌, false, List, [], ◌∷◌, arith,
  get_or, take, drop, some, true, if◌then◌else◌, ltb, subst,
}
use command_station_ex_la_bo.RingStream.{next}

ahead_step : (n p k : ℕ) → p < n → suc k ≤ n → ahead n (next n p) k ≡ ahead n p (suc k)
ahead_step n p k h l = ground arith

next_in : (n p : ℕ) → p < n → next n p < n
next_in n p h = ground arith

ahead_none : (n p : ℕ) → p < n → ahead n p 0 ≡ p
ahead_none n p h = ground arith

-- A window that is cut behind its first `i` bytes.
drop-window :
    (buf : List ℕ) (n p i j m : ℕ)
    → p < n
    → i ≤ n
    → m ≡ i + j
    → drop i (window buf n p m) ≡ window buf n (ahead n p i) j
drop-window buf n p zero j m h l e =
    ap (window buf n p) {y = j} (omega arith) ∙ ap (λ q. window buf n q j) (sym (ahead_none n p h))
drop-window buf n p (suc i) j zero h l e = absurd (omega arith)
drop-window buf n p (suc i) j (suc m) h l e =
    drop-window buf n (next n p) i j m (next_in n p h) (omega arith) (omega arith)
    ∙ ap (λ q. window buf n q j) (ahead_step n p i h l)

take-window : (buf : List ℕ) (n p i m : ℕ) → i ≤ m → take i (window buf n p m) ≡ window buf n p i
take-window buf n p zero m l = refl
take-window buf n p (suc i) zero l = absurd (omega arith)
take-window buf n p (suc i) (suc m) l =
    ap (◌∷◌ (get_or buf p 0)) (take-window buf n (next n p) i m (omega arith))

get_loop_lem :
    (b : CircularBuffer) (n : ℕ)
    → b.tail < b.size
    → n ≤ b.size
    → get_loop b n ≡ (record b { tail = ahead b.size b.tail n }, window b.buffer b.size b.tail n)
unfolding get_loop
get_loop_lem b zero h l = ap (λ q. (record b { tail = q }, [])) (sym (ahead_none b.size b.tail h))
get_loop_lem b (suc n) h l =
    let m = mod-next b.size b.tail h in
    let b1 = record b { tail = (b.tail + 1) % b.size } in
    let inside : b1.tail < b.size = rw m (next_in b.size b.tail h) in
    ap (λ r. (r.0, get_or b.buffer b.tail 0 ∷ r.1))
      (get_loop_lem b1 n inside (omega arith)
        ∙ ap (λ q. (record b { tail = ahead b.size q n }, window b.buffer b.size q n)) m)
    ∙ ap (λ q. (record b { tail = q }, window b.buffer b.size b.tail (suc n)))
        (ahead_step b.size b.tail n h l)

-- The buffer after `n` bytes have come out.
abbrev drained : CircularBuffer → ℕ → CircularBuffer
drained b n = record b { tail = ahead b.size b.tail n; full = false }

drained-IsValid : (b : CircularBuffer) (n : ℕ) → IsValid b → n ≤ b.size → IsValid (drained b n)
drained-IsValid b n v l = record {
  ready = v.ready;
  sized = v.sized;
  head_in = v.head_in;
  tail_in = ground (arith, v.tail_in);
  full_at = λ e. absurd (ground arith);
}

used_size-drained :
    (b : CircularBuffer) (n : ℕ)
    → IsValid b
    → 0 < n
    → n ≤ used_size b
    → used_size (drained b n) ≡ used_size b - n
used_size-drained b n v p l = ground (arith, v.tail_in, v.head_in, v.full_at)

get_bytes_open :
    (b : CircularBuffer) (n : ℕ)
    → b.begun ≡ true
    → n ≤ used_size b
    → get_bytes b n ≡ (
      record (get_loop (get_count b).0 n).0 { full = false },
      some (get_loop (get_count b).0 n).1,
    )
unfolding get_bytes get_count
get_bytes_open b n r l = ground arith

used_size_le : (b : CircularBuffer) → IsValid b → used_size b ≤ b.size
used_size_le b v = ground (arith, v.tail_in, v.head_in)

-- From a valid buffer, a request for at least one byte, and for no more than are held, gives the
-- oldest bytes in order and leaves the others, in a valid buffer.
pub get_bytes_lem :
    (b : CircularBuffer) (n : ℕ)
    → IsValid b
    → 0 < n
    → n ≤ used_size b
    → let (b', got) = get_bytes b n in
      (got ≡ some (take n (held b))) × (held b' ≡ drop n (held b)) × IsValid b'
get_bytes_lem b n v p l =
    let c = (if ltb b.peak_count (used_size b) then used_size b else b.peak_count) in
    let b1 = record b { peak_count = c } in
    let inside : n ≤ b.size = omega (arith, used_size_le b v) in
    let counted = ap (λ r. r.0) (get_count_lem b v.ready) in
    let same =
      get_bytes_open b n v.ready l
      ∙ ap (λ b1. (record (get_loop b1 n).0 { full = false }, some (get_loop b1 n).1)) counted
      ∙ ap (λ r. (record r.0 { full = false }, some r.1)) (get_loop_lem b1 n v.tail_in inside) in
    subst (λ r. (r.1 ≡ some (take n (held b))) × (held r.0 ≡ drop n (held b)) × IsValid r.0)
      (sym same)
      (
        ap some (sym (take-window b.buffer b.size b.tail n (used_size b) l)),
        ap (window b.buffer b.size (ahead b.size b.tail n)) (used_size-drained b n v p l)
            ∙ sym (
                drop-window b.buffer b.size b.tail n (used_size b - n) (used_size b) v.tail_in
                  inside (omega arith)),
        with_peak-IsValid (drained b n) c (drained-IsValid b n v inside),
      )
