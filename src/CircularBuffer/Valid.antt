-- ===== src/CircularBuffer/Valid.antt =====
-- CircularBuffer.cpp: what the buffer holds, and one step of the loops that fill and empty it. The
-- bytes held are a window of the array, as in the ring of replies.
use command_station_ex_la_bo.RingStream.Valid.{window, ahead, window-set_end}
use command_station_ex_la_bo.RingStream.{next}
use command_station_ex_la_bo.CircularBuffer.{CircularBuffer, begin, init, used_size, get_count}
use command_station_ex_la_bo.Prelude.{
  ℕ, ◌+◌, ◌%◌, ◌<◌, ◌≡◌, refl, ap, ◌∙◌, true, false, List, [], ◌∷◌, ◌++◌, arith, length, set, ◌==◌,
  ==_iff, length-set, ℕ_discrete, length-replicate, suc, if◌then◌else◌, ltb,
}
use native.Mathlib.Nat.{mod-eq_of_lt, mod_self}

pub record IsValid (b : CircularBuffer) : Type 0 where
  pub ready : b.begun ≡ true
  pub sized : length b.buffer ≡ b.size
  pub head_in : b.head < b.size
  pub tail_in : b.tail < b.size
  pub full_at : b.full ≡ true → b.head ≡ b.tail

pub begin-IsValid : (n : ℕ) → 0 < n → IsValid (begin (init n))
unfolding begin init
begin-IsValid n h = record {
  ready = refl;
  sized = length-replicate n 0;
  head_in = h;
  tail_in = h;
  full_at = λ e. refl;
}

-- The bytes held, oldest first.
abbrev pub held : CircularBuffer → List ℕ
held b = window b.buffer b.size b.tail (used_size b)

pub mod-next : (n p : ℕ) → p < n → (p + 1) % n ≡ next n p
mod-next n p h = elim (ℕ_discrete (p + 1) n) [
  | yes e ↦ rw e (mod_self n ∙ ground arith)
  | no d ↦ mod-eq_of_lt (omega arith) ∙ ground arith
]

-- One turn of the loop of `PushBytes`.
abbrev pub push_one : CircularBuffer → ℕ → CircularBuffer
push_one b x =
    let h = (b.head + 1) % b.size in
    record b { buffer = set b.buffer b.head x; head = h; full = h == b.tail }

head_ahead :
    (b : CircularBuffer)
    → IsValid b
    → b.full ≡ false
    → (used_size b < b.size) × (b.head ≡ ahead b.size b.tail (used_size b))
head_ahead b v e = ground arith

pub push_one-IsValid :
    (b : CircularBuffer) (x : ℕ) → IsValid b → b.full ≡ false → IsValid (push_one b x)
push_one-IsValid b x v e = record {
  ready = v.ready;
  sized = length-set b.buffer b.head x ∙ v.sized;
  head_in = rw (mod-next b.size b.head v.head_in) (ground arith);
  tail_in = v.tail_in;
  full_at = λ f. (==_iff _ _).0 f;
}

pub used_size-push_one :
    (b : CircularBuffer) (x : ℕ)
    → IsValid b
    → b.full ≡ false
    → used_size (push_one b x) ≡ used_size b + 1
used_size-push_one b x v e = rw (mod-next b.size b.head v.head_in) (ground arith)

pub held-push_one :
    (b : CircularBuffer) (x : ℕ)
    → IsValid b
    → b.full ≡ false
    → held (push_one b x) ≡ held b ++ x ∷ []
held-push_one b x v e =
    let (room, place) = head_ahead b v e in
    ap (window (set b.buffer b.head x) b.size b.tail) {y = suc (used_size b)}
      (used_size-push_one b x v e ∙ omega arith)
    ∙ window-set_end b.buffer b.size x b.head b.tail (used_size b) v.sized v.tail_in room place

-- The count leaves all but the peak alone.
pub get_count_lem :
    (b : CircularBuffer)
    → b.begun ≡ true
    → get_count b ≡ (
      record b {
        peak_count = if ltb b.peak_count (used_size b) then used_size b else b.peak_count;
      },
      used_size b,
    )
unfolding get_count
get_count_lem b e = ground arith

pub with_peak-IsValid :
    (b : CircularBuffer) (n : ℕ) → IsValid b → IsValid (record b { peak_count = n })
with_peak-IsValid b n v = record {
  ready = v.ready;
  sized = v.sized;
  head_in = v.head_in;
  tail_in = v.tail_in;
  full_at = v.full_at;
}
