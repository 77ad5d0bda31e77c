-- ===== src/RingStream/Delivery.antt =====
-- RingStream.cpp, the reader's side: a committed frame is read back as it was written. The reader is
-- that of WifiInboundHandler.cpp, which takes the client and the count in `loop1`, and the payload in
-- `loop2` once it may be sent.
use command_station_ex_la_bo.Prelude.{
  ℕ, zero, suc, ◌+◌, ◌<◌, ◌≡◌, refl, sym, ap, ◌∙◌, false, List, [], ◌∷◌, ◌++◌, arith, length, map,
  ◌≢◌, ◌*◌, ap₂, subst, if◌then◌else◌,
}
use command_station_ex_la_bo.Prelude.Int.{ℤ, pos, ◌-ℤ◌, ltb_ℤ}
use command_station_ex_la_bo.RingStream.{
  RingStream, next, read_raw_byte, read, read_count, free_space,
}
use command_station_ex_la_bo.RingStream.Valid.{
  IsValid, used, window, contents, read_raw_byte-IsValid, length-window,
}
use command_station_ex_la_bo.RingStream.Commit.{fits, frame}

-- `n` calls of `read`, and what they return, as the loop over `currentReplySize` makes them.
unfoldable pub reads : ℕ → RingStream → RingStream × List ℤ
reads zero s = (s, [])
reads (suc n) s = let (s1, c) = read s in let (s2, cs) = reads n s1 in (s2, c ∷ cs)

-- A reader takes the client, and unless it is negative the count, and as many bytes as that says.
unfoldable pub receive : RingStream → RingStream × ℤ × List ℤ
receive s =
    let (s1, client) = read s in
    let (s2, n) = read_count s1 in
    let (s3, cs) = reads n s2 in if ltb_ℤ client (pos 0) then (s1, client, []) else (s3, client, cs)

-- No byte is the marker, for which `read` gives a question mark.
abbrev pub NoMarker : List ℕ → Type 0
NoMarker [] = Unit {0}
NoMarker (x ∷ xs) = (x ≢ 255) × NoMarker xs

used-read_raw_byte :
    (s : RingStream) (k : ℕ) → IsValid s → used s ≡ suc k → used (read_raw_byte s).0 ≡ k
unfolding read_raw_byte
used-read_raw_byte s k v h = ground arith

used_cons :
    (s : RingStream) (x : ℕ) (rest : List ℕ) → contents s ≡ x ∷ rest → used s ≡ suc (length rest)
used_cons s x rest h = sym (length-window s.buffer s.len s.pos_read (used s)) ∙ ap length h

-- The oldest byte comes out.
pub read_raw_byte_lem :
    (s : RingStream) (x : ℕ) (rest : List ℕ)
    → IsValid s
    → contents s ≡ x ∷ rest
    → ((read_raw_byte s).1 ≡ x) × (contents (read_raw_byte s).0 ≡ rest)
unfolding read_raw_byte
read_raw_byte_lem s x rest v h =
    let u = used_cons s x rest h in
    let w = ap (window s.buffer s.len s.pos_read) (sym u) ∙ h in
    (
      cc,
      ap (window s.buffer s.len (next s.len s.pos_read)) (used-read_raw_byte s (length rest) v u)
          ∙ cc,
    )

read_lem :
    (s : RingStream) (x : ℕ) (rest : List ℕ)
    → IsValid s
    → x ≢ 255
    → contents s ≡ x ∷ rest
    → read s ≡ ((read_raw_byte s).0, pos x)
unfolding read
read_lem s x rest v h e = ground (arith, used_cons s x rest e, (read_raw_byte_lem s x rest v e).0)

-- `n` calls of `read` take the `n` oldest bytes.
reads_lem :
    (s : RingStream) (xs rest : List ℕ)
    → IsValid s
    → NoMarker xs
    → contents s ≡ xs ++ rest
    → ((reads (length xs) s).1 ≡ map pos xs)
      × (contents (reads (length xs) s).0 ≡ rest)
      × IsValid (reads (length xs) s).0
unfolding reads
reads_lem s [] rest v m e = (refl, e, v)
reads_lem s (x ∷ xs) rest v m e =
    let q = read_lem s x (xs ++ rest) v m.0 e in
    let t = read_raw_byte_lem s x (xs ++ rest) v e in
    let r = reads_lem (read_raw_byte s).0 xs rest (read_raw_byte-IsValid s v) m.1 t.1 in
    (
      ap₂ ◌∷◌ (ap (λ p. p.1) q) (ap (λ p. (reads (length xs) p.0).1) q ∙ r.0),
      ap (λ p. contents (reads (length xs) p.0).0) q ∙ r.1,
      subst (λ p. IsValid (reads (length xs) p.0).0) (sym q) r.2,
    )

read_count_lem :
    (s : RingStream) (hi lo : ℕ) (rest : List ℕ)
    → IsValid s
    → contents s ≡ hi ∷ lo ∷ rest
    → ((read_count s).1 ≡ hi * 256 + lo)
      × (contents (read_count s).0 ≡ rest)
      × IsValid (read_count s).0
unfolding read_count
read_count_lem s hi lo rest v e =
    let (x1, c1) = read_raw_byte_lem s hi (lo ∷ rest) v e in
    let w = read_raw_byte-IsValid s v in
    let (x2, c2) = read_raw_byte_lem (read_raw_byte s).0 lo rest w c1 in
    (cc, c2, read_raw_byte-IsValid (read_raw_byte s).0 w)

not_negative : (b : ℕ) → ltb_ℤ (pos b) (pos 0) ≡ false
not_negative b = ground arith

-- Of a valid ring whose oldest bytes are a committed frame, of 1 to 65535 bytes, where neither the
-- client nor any of these bytes is 255, the reader gets the frame's client and as many bytes as it
-- has, which are its payload, and the valid ring then holds what came behind the frame.
pub receive_lem :
    (s : RingStream) (b : ℕ) (xs rest : List ℕ)
    → IsValid s
    → 0 < length xs
    → length xs < 65536
    → b ≢ 255
    → NoMarker xs
    → contents s ≡ frame b xs ++ rest
    → let (s', client, cs) = receive s in
      (client ≡ pos b) × (cs ≡ map pos xs) × (contents s' ≡ rest) × IsValid s'
unfolding receive
receive_lem s b [] rest v n k c m e = absurd (omega arith)
receive_lem s b (x ∷ xs) rest v n k c m e =
    let e1 = (read_raw_byte_lem s b _ v e).1 in
    let (l, e2, v2) = read_count_lem (read_raw_byte s).0 _ _ _ (read_raw_byte-IsValid s v) e1 in
    let long : (read_count (read_raw_byte s).0).1 ≡ length (x ∷ xs) = l ∙ omega arith in
    let (ys, e3, v3) = reads_lem (read_count (read_raw_byte s).0).0 (x ∷ xs) rest v2 m e2 in
    rw (read_lem s b _ v c e, not_negative b, long) (refl, ys, e3, v3)

-- On a valid ring without an overflow, a frame fits exactly if its payload is less than what
-- `freeSpace` reports.
pub free_space-fits :
    (s : RingStream) (xs : List ℕ)
    → IsValid s
    → s.overflow ≡ false
    → fits s xs ≡ ltb_ℤ (pos (length xs)) (free_space s)
unfolding free_space ◌-ℤ◌
free_space-fits s xs v e = ground arith
