-- ===== src/RingStream/Valid.antt =====
-- RingStream.cpp: the positions stay inside the buffer, and what the ring holds.
use command_station_ex_la_bo.Prelude.{
  ℕ, zero, suc, ◌+◌, ◌-◌, ◌/◌, ◌%◌, ◌≤◌, ◌<◌, ◌≡◌, refl, sym, ap, ap₂, ◌∙◌, true, List, [], ◌∷◌,
  ◌++◌, arith, ltb, leb, if◌then◌else◌, length, get_or, set, length-set, get_or-set_self,
  get_or-set_ne, set_beyond, length-replicate, set_end,
}
use command_station_ex_la_bo.RingStream.{
  RingStream, init, next, write, write_all, read_raw_byte, commit,
}

-- The positions are inside the buffer, and an overflow shows as a ring that is exactly full.
pub record IsValid (s : RingStream) : Type 0 where
  pub size : length s.buffer ≡ s.len
  pub write_in : s.pos_write < s.len
  pub read_in : s.pos_read < s.len
  pub start_in : s.start < s.len
  pub full : s.overflow ≡ true → s.pos_write ≡ s.pos_read

pub init-IsValid : (n : ℕ) → 0 < n → IsValid (init n)
unfolding init
init-IsValid n h = record {
  size = length-replicate n 0;
  write_in = h;
  read_in = h;
  start_in = h;
  full = λ e. refl;
}

pub write-IsValid : (s : RingStream) (b : ℕ) → IsValid s → IsValid (write s b).0
unfolding write
write-IsValid s b v = ground (arith, length-set s.buffer s.pos_write b)

pub write_all-IsValid : (s : RingStream) (bs : List ℕ) → IsValid s → IsValid (write_all s bs)
unfolding write_all
write_all-IsValid s [] v = v
write_all-IsValid s (b ∷ bs) v = write_all-IsValid (write s b).0 bs (write-IsValid s b v)

pub read_raw_byte-IsValid : (s : RingStream) → IsValid s → IsValid (read_raw_byte s).0
unfolding read_raw_byte
read_raw_byte-IsValid s v = ground arith

pub commit-IsValid : (s : RingStream) → IsValid s → IsValid (commit s).0
unfolding commit
commit-IsValid s v =
    let m1 = next s.len s.start in
    ground (
      arith,
      length-set s.buffer m1 (s.count / 256 % 256),
      length-set (set s.buffer m1 (s.count / 256 % 256)) (next s.len m1) (s.count % 256),
    )

-- How many bytes are held.
abbrev pub used : RingStream → ℕ
used s =
    if s.overflow
    then s.len
    else if leb s.pos_read s.pos_write
    then s.pos_write - s.pos_read
    else s.len + s.pos_write - s.pos_read

-- The `k` bytes from position `p` on, going round at `n`.
abbrev pub window : List ℕ → ℕ → ℕ → ℕ → List ℕ
window buf n p zero = []
window buf n p (suc k) = get_or buf p 0 ∷ window buf n (next n p) k

-- The bytes held, oldest first.
abbrev pub contents : RingStream → List ℕ
contents s = window s.buffer s.len s.pos_read (used s)

-- The position `k` steps behind `p`.
abbrev pub ahead : ℕ → ℕ → ℕ → ℕ
ahead n p k = if ltb (p + k) n then p + k else p + k - n

pub length-window : (buf : List ℕ) (n p k : ℕ) → length (window buf n p k) ≡ k
length-window buf n p zero = refl
length-window buf n p (suc k) = ap suc (length-window buf n (next n p) k)

ahead_zero : (n p : ℕ) → p < n → ahead n p 0 ≡ p
ahead_zero n p h = ground arith

next-lt : (n p : ℕ) → p < n → next n p < n
next-lt n p h = ground arith

ahead-next : (n p k : ℕ) → p < n → suc k < n → ahead n (next n p) k ≡ ahead n p (suc k)
ahead-next n p k hp hk = ground arith

ahead-around : (n p : ℕ) → p < n → ahead n (next n p) (n - 1) ≡ p
ahead-around n p h = ground arith

ahead-ne : (n p k : ℕ) → p < n → suc k < n → ahead n p (suc k) ≡ p → ⊥
ahead-ne n p k hp hk e = ground arith

-- A write at the place that lies `m` steps ahead is a write at index `m` of the window.
pub window-set :
    (buf : List ℕ) (n x i p k m : ℕ)
    → length buf ≡ n
    → p < n
    → k ≤ n
    → m < n
    → i ≡ ahead n p m
    → window (set buf i x) n p k ≡ set (window buf n p k) m x
window-set buf n x i p zero m hs hp hk hm e = refl
window-set buf n x i p (suc k) zero hs hp hk hm e =
    ap₂ ◌∷◌ (rw (e ∙ ahead_zero n p hp) (get_or-set_self buf p x 0 (omega arith))) (
      window-set buf n x i (next n p) k (n - 1) hs (next-lt n p hp) (omega arith) (omega arith)
        (e ∙ ahead_zero n p hp ∙ sym (ahead-around n p hp))
      ∙ set_beyond _ (n - 1) x (omega (arith, length-window buf n (next n p) k)))
window-set buf n x i p (suc k) (suc m) hs hp hk hm e =
    ap₂ ◌∷◌ (get_or-set_ne buf x 0 (λ q. ahead-ne n p m hp hm (sym e ∙ q))) (
      window-set buf n x i (next n p) k m hs (next-lt n p hp) (omega arith) (omega arith)
        (e ∙ sym (ahead-next n p m hp hm)))

-- A longer window has one more byte at its end.
pub window-suc :
    (buf : List ℕ) (n p k : ℕ)
    → p < n
    → k < n
    → window buf n p (suc k) ≡ window buf n p k ++ get_or buf (ahead n p k) 0 ∷ []
window-suc buf n p zero hp hk = rw (ahead_zero n p hp)
window-suc buf n p (suc k) hp hk =
    ap (◌∷◌ (get_or buf p 0))
      (rw (← ahead-next n p k hp hk) (window-suc buf n (next n p) k (next-lt n p hp) (omega arith)))

-- So a write just behind the window, when the window then takes it in, appends the byte.
pub window-set_end :
    (buf : List ℕ) (n x i p k : ℕ)
    → length buf ≡ n
    → p < n
    → k < n
    → i ≡ ahead n p k
    → window (set buf i x) n p (suc k) ≡ window buf n p k ++ x ∷ []
window-set_end buf n x i p k hs hp hk e =
    window-set buf n x i p (suc k) k hs hp (omega arith) hk e
    ∙ ap (λ w. set w k x) (window-suc buf n p k hp hk)
    ∙ set_end (window buf n p k) k (get_or buf (ahead n p k) 0) x (length-window buf n p k)

-- A write behind the window leaves it alone.
pub window-set_out :
    (buf : List ℕ) (n x i p k m : ℕ)
    → length buf ≡ n
    → p < n
    → k ≤ m
    → m < n
    → i ≡ ahead n p m
    → window (set buf i x) n p k ≡ window buf n p k
window-set_out buf n x i p k m hs hp hk hm e =
    window-set buf n x i p k m hs hp (omega arith) hm e
    ∙ set_beyond (window buf n p k) m x (omega (arith, length-window buf n p k))
