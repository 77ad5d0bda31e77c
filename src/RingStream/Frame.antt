-- ===== src/RingStream/Frame.antt =====
-- RingStream.cpp: what the ring holds while a frame is written between `mark` and `commit`.
use command_station_ex_la_bo.Prelude.{
  ℕ, suc, ◌+◌, ◌≤◌, ◌<◌, ◌≡◌, refl, sym, ap, ◌∙◌, true, false, List, [], ◌∷◌, ◌++◌, arith, length,
  set, append_assoc, append-nil, length-append, ◌⊎◌, inl, inr, dec_lt, subst,
}
use command_station_ex_la_bo.RingStream.{RingStream, write, write_all, mark}
use command_station_ex_la_bo.RingStream.Valid.{
  IsValid, used, window, contents, ahead, window-set_out, window-set_end, write-IsValid,
}

-- The ring `s` some way into a frame that was begun on the ring `s0`, behind the writes of `bs`.
pub record Open (s0 : RingStream) (bs : List ℕ) (s : RingStream) : Type 0 where
  pub valid : IsValid s
  pub len_kept : s.len ≡ s0.len
  pub read_kept : s.pos_read ≡ s0.pos_read
  pub kept : window s.buffer s0.len s0.pos_read (used s0) ≡ contents s0
  pub state :
      ((s.overflow ≡ false)
        × (used s ≡ used s0 + length bs)
        × (window s.buffer s0.len s0.pos_read (used s) ≡ contents s0 ++ bs))
      ⊎ ((s.overflow ≡ true) × (s0.len ≤ used s0 + length bs))

write_position :
    (s : RingStream)
    → IsValid s
    → s.overflow ≡ false
    → s.pos_write ≡ ahead s.len s.pos_read (used s)
write_position s v e = ground arith

pub used-lt : (s : RingStream) → IsValid s → s.overflow ≡ false → used s < s.len
used-lt s v e = ground arith

-- A write with room to spare.
record Stores (s s' : RingStream) (b : ℕ) : Type 0 where
  grows : used s' ≡ suc (used s)
  fine : s'.overflow ≡ false
  stored : s'.buffer ≡ set s.buffer s.pos_write b
  counted : s'.count ≡ s.count + 1

write-Stores :
    (s : RingStream) (b : ℕ)
    → IsValid s
    → s.overflow ≡ false
    → used s + 1 < s.len
    → Stores s (write s b).0 b
unfolding write
write-Stores s b v e h = ground arith

-- What no write touches.
pub write_keeps :
    (s : RingStream) (b : ℕ)
    → ((write s b).0.len ≡ s.len)
      × ((write s b).0.pos_read ≡ s.pos_read)
      × ((write s b).0.start ≡ s.start)
unfolding write
write_keeps s b = ground arith

-- The write that fills the last place.
write_fills :
    (s : RingStream) (b : ℕ)
    → IsValid s
    → s.overflow ≡ false
    → used s + 1 ≡ s.len
    → ((write s b).0.overflow ≡ true) × ((write s b).0.buffer ≡ set s.buffer s.pos_write b)
unfolding write
write_fills s b v e h = ground arith

write_overflowed : (s : RingStream) (b : ℕ) → s.overflow ≡ true → (write s b).0 ≡ s
unfolding write
write_overflowed s b e = ground arith

write_count :
    (s : RingStream) (b : ℕ)
    → (write s b).0.overflow ≡ false
    → (s.overflow ≡ false) × ((write s b).0.count ≡ s.count + 1)
unfolding write
write_count s b e = ground arith

module _ (s0 : RingStream) (bs : List ℕ) (s : RingStream) (b : ℕ) (o : Open s0 bs s)
    (e : s.overflow ≡ false) (u : used s ≡ used s0 + length bs)
    (w : window s.buffer s0.len s0.pos_read (used s) ≡ contents s0 ++ bs) where
  more : length (bs ++ b ∷ []) ≡ length bs + 1
  more = length-append bs (b ∷ [])

  place : s.pos_write ≡ ahead s0.len s0.pos_read (used s)
  place = rw (← o.len_kept, ← o.read_kept) (write_position s o.valid e)

  kept_on :
      (s' : RingStream)
      → s'.buffer ≡ set s.buffer s.pos_write b
      → window s'.buffer s0.len s0.pos_read (used s0) ≡ contents s0
  kept_on s' h = rw h (
      window-set_out s.buffer s0.len b s.pos_write s0.pos_read (used s0) (used s)
        (o.valid.size ∙ o.len_kept) (omega (arith, o.valid.read_in, o.len_kept, o.read_kept))
        (omega (arith, u)) (omega (arith, used-lt s o.valid e, o.len_kept)) place
      ∙ o.kept)

  write-Open_fits : used s + 1 < s.len → Open s0 (bs ++ b ∷ []) (write s b).0
  write-Open_fits room =
      let t = write-Stores s b o.valid e room in
      record {
        valid = write-IsValid s b o.valid;
        len_kept = (write_keeps s b).0 ∙ o.len_kept;
        read_kept = (write_keeps s b).1 ∙ o.read_kept;
        kept = kept_on (write s b).0 t.stored;
        state = inl (
          t.fine,
          omega (arith, t.grows, u, more),
          ap (window (write s b).0.buffer s0.len s0.pos_read) t.grows
              ∙ ap (λ l. window l s0.len s0.pos_read (suc (used s))) t.stored
              ∙ window-set_end s.buffer s0.len b s.pos_write s0.pos_read (used s)
                  (o.valid.size ∙ o.len_kept)
                  (omega (arith, o.valid.read_in, o.len_kept, o.read_kept))
                  (omega (arith, room, o.len_kept)) place
              ∙ ap (λ l. l ++ b ∷ []) w
              ∙ append_assoc (contents s0) bs (b ∷ []),
        );
      }

  write-Open_fills : used s + 1 ≡ s.len → Open s0 (bs ++ b ∷ []) (write s b).0
  write-Open_fills room =
      let t = write_fills s b o.valid e room in
      record {
        valid = write-IsValid s b o.valid;
        len_kept = (write_keeps s b).0 ∙ o.len_kept;
        read_kept = (write_keeps s b).1 ∙ o.read_kept;
        kept = kept_on (write s b).0 t.1;
        state = inr (t.0, omega (arith, room, u, more, o.len_kept));
      }

-- Each write appends its byte or finds the ring full.
pub write-Open :
    (s0 : RingStream) (bs : List ℕ) (s : RingStream) (b : ℕ)
    → Open s0 bs s
    → Open s0 (bs ++ b ∷ []) (write s b).0
write-Open s0 bs s b o = elim o.state [
  | inl (e, u, w) ↦ elim (dec_lt (used s + 1) s.len) [
    | yes h ↦ write-Open_fits s0 bs s b o e u w h
    | no h ↦ write-Open_fills s0 bs s b o e u w (omega (arith, used-lt s o.valid e))
  ]
  | inr (e, full) ↦ rw (write_overflowed s b e) (record {
    valid = o.valid;
    len_kept = o.len_kept;
    read_kept = o.read_kept;
    kept = o.kept;
    state = inr (e, omega (arith, full, length-append bs (b ∷ [])));
  })
]

pub write_all-Open :
    (s0 : RingStream) (bs : List ℕ) (s : RingStream) (xs : List ℕ)
    → Open s0 bs s
    → Open s0 (bs ++ xs) (write_all s xs)
unfolding write_all
write_all-Open s0 bs s [] o = rw append-nil o
write_all-Open s0 bs s (x ∷ xs) o =
    subst (λ l. Open s0 l (write_all (write s x).0 xs)) (append_assoc bs (x ∷ []) xs)
      (write_all-Open s0 (bs ++ x ∷ []) (write s x).0 xs (write-Open s0 bs s x o))

-- The count is exact as long as nothing overflowed, and the mark stays.
pub write_all_count :
    (s : RingStream) (xs : List ℕ)
    → (write_all s xs).overflow ≡ false
    → (s.overflow ≡ false) × ((write_all s xs).count ≡ s.count + length xs)
unfolding write_all
write_all_count s [] e = (e, omega arith)
write_all_count s (x ∷ xs) e =
    let (f, c) = write_all_count (write s x).0 xs e in
    let (f', c') = write_count s x f in (f', omega (arith, c, c'))

pub start-write_all : (s : RingStream) (xs : List ℕ) → (write_all s xs).start ≡ s.start
unfolding write_all
start-write_all s [] = refl
start-write_all s (x ∷ xs) = start-write_all (write s x).0 xs ∙ (write_keeps s x).2

recount :
    {s0 s : RingStream} {bs : List ℕ} (c : ℕ) → Open s0 bs s → Open s0 bs (record s { count = c })
recount c o = record {
  valid = record {
    size = o.valid.size;
    write_in = o.valid.write_in;
    read_in = o.valid.read_in;
    start_in = o.valid.start_in;
    full = o.valid.full;
  };
  len_kept = o.len_kept;
  read_kept = o.read_kept;
  kept = o.kept;
  state = o.state;
}

abbrev begun : RingStream → ℕ → RingStream
begun s b = record s { ring_client = b; start = s.pos_write }

begun-Open : (s : RingStream) (b : ℕ) → IsValid s → s.overflow ≡ false → Open s [] (begun s b)
begun-Open s b v e = record {
  valid = record {
    size = v.size;
    write_in = v.write_in;
    read_in = v.read_in;
    start_in = v.write_in;
    full = v.full;
  };
  len_kept = refl;
  read_kept = refl;
  kept = refl;
  state = inl (e, omega arith, sym (append-nil (contents s)));
}

-- `mark` opens a frame with its three header bytes.
pub mark-Open :
    (s : RingStream) (b : ℕ) → IsValid s → s.overflow ≡ false → Open s (b ∷ 0 ∷ 0 ∷ []) (mark s b)
unfolding mark write_all
mark-Open s b v e =
    recount 0 (write_all-Open s [] (begun s b) (b ∷ 0 ∷ 0 ∷ []) (begun-Open s b v e))

pub mark_start :
    (s : RingStream) (b : ℕ) → ((mark s b).start ≡ s.pos_write) × ((mark s b).count ≡ 0)
unfolding mark write_all
mark_start s b = (start-write_all (begun s b) (b ∷ 0 ∷ 0 ∷ []), refl)
