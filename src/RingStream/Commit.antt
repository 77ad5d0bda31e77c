-- ===== src/RingStream/Commit.antt =====
-- RingStream::commit: a frame goes to the end of the ring, whole or not at all.
use command_station_ex_la_bo.Prelude.{
  ℕ, ◌+◌, ◌≤◌, ◌<◌, ◌≡◌, refl, sym, ap, ◌∙◌, true, false, List, [], ◌∷◌, ◌++◌, arith, length, set,
  append-nil, inl, inr, Bool, ltb, ◌/◌, ◌%◌, lt→ltb, set-append_right, length-set, if◌then◌else◌,
  ap₂,
}
use command_station_ex_la_bo.RingStream.{RingStream, next, write_all, mark, commit}
use command_station_ex_la_bo.RingStream.Valid.{
  IsValid, used, window, contents, ahead, length-window, window-set, commit-IsValid,
}
use command_station_ex_la_bo.RingStream.Frame.{
  Open, mark-Open, mark_start, write_all-Open, write_all_count, start-write_all, used-lt,
}

-- `mark`, a write for each byte of the payload, and `commit`, as the callers make them.
abbrev pub send : RingStream → ℕ → List ℕ → RingStream × Bool
send s b xs = commit (write_all (mark s b) xs)

-- Room for the header and the payload, with the one place that the ring leaves free.
abbrev pub fits : RingStream → List ℕ → Bool
fits s xs = ltb (used s + 3 + length xs) s.len

-- What a reader gets of a payload: nothing of an empty one.
abbrev pub frame : ℕ → List ℕ → List ℕ
frame b [] = []
frame b (x ∷ xs) = b ∷ (length (x ∷ xs) / 256 % 256) ∷ (length (x ∷ xs) % 256) ∷ x ∷ xs

commit_overflow :
    (s : RingStream)
    → s.overflow ≡ true
    → commit s ≡ (record s { pos_write = s.start; overflow = false }, false)
unfolding commit
commit_overflow s e = ground arith

commit_none :
    (s : RingStream)
    → s.overflow ≡ false
    → s.count ≡ 0
    → commit s ≡ (record s { pos_write = s.start; ring_client = 255 }, true)
unfolding commit
commit_none s e c = ground arith

-- What a commit that goes through leaves.
record Commits (s s' : RingStream) : Type 0 where
  same_write : s'.pos_write ≡ s.pos_write
  same_read : s'.pos_read ≡ s.pos_read
  same_len : s'.len ≡ s.len
  same_overflow : s'.overflow ≡ s.overflow
  filled :
      s'.buffer
      ≡ set
          (set s.buffer (next s.len s.start) (s.count / 256 % 256))
          (next s.len (next s.len s.start))
          (s.count % 256)

commit-Commits :
    (s : RingStream)
    → s.overflow ≡ false
    → 0 < s.count
    → Commits s (commit s).0 × ((commit s).1 ≡ true)
unfolding commit
commit-Commits s e c = ground arith

-- The mark is where the frame's first byte went.
next-ahead : (n p k : ℕ) → p < n → k + 1 < n → next n (ahead n p k) ≡ ahead n p (k + 1)
next-ahead n p k hp hk = ground arith

start_ahead :
    (s : RingStream)
    → IsValid s
    → s.overflow ≡ false
    → s.pos_write ≡ ahead s.len s.pos_read (used s)
start_ahead s v e = ground arith

-- The state to which both kinds of rewinding come.
rewound_used :
    (s s1 : RingStream)
    → IsValid s
    → s.overflow ≡ false
    → s1.len ≡ s.len
    → s1.pos_read ≡ s.pos_read
    → s1.pos_write ≡ s.pos_write
    → s1.overflow ≡ false
    → used s1 ≡ used s
rewound_used s s1 v e l r w f = ground arith

window_cong :
    (buf : List ℕ) {n n' p p' k k' : ℕ}
    → n ≡ n'
    → p ≡ p'
    → k ≡ k'
    → window buf n p k ≡ window buf n' p' k'
window_cong buf a b c = rw (a, b, c)

-- The outcome of a frame, of which `send_lem` below is the proof.
abbrev pub Sent : RingStream → ℕ → List ℕ → RingStream × Bool → Type 0
Sent s b xs r =
    (r.1 ≡ fits s xs)
    × (contents r.0 ≡ (if fits s xs then contents s ++ frame b xs else contents s))
    × IsValid r.0
    × (r.0.overflow ≡ false)

Commits-used : (s s' : RingStream) → Commits s s' → used s' ≡ used s
Commits-used s s' c = rw (c.same_overflow, c.same_read, c.same_write, c.same_len)

module _ (s : RingStream) (b : ℕ) (xs : List ℕ) (v : IsValid s) (e : s.overflow ≡ false) where
  body : RingStream
  body = write_all (mark s b) xs

  body-Open : Open s (b ∷ 0 ∷ 0 ∷ xs) body
  unfolding body
  body-Open = write_all-Open s (b ∷ 0 ∷ 0 ∷ []) (mark s b) xs (mark-Open s b v e)

  body_start : body.start ≡ s.pos_write
  unfolding body
  body_start = start-write_all (mark s b) xs ∙ (mark_start s b).0

  body_count : body.overflow ≡ false → body.count ≡ length xs
  unfolding body
  body_count f = omega (arith, (write_all_count (mark s b) xs f).1, (mark_start s b).1)

  -- Either way back leaves what was held before the frame.
  rewound_contents :
      (s1 : RingStream)
      → s1.buffer ≡ body.buffer
      → s1.len ≡ body.len
      → s1.pos_read ≡ body.pos_read
      → s1.pos_write ≡ body.start
      → s1.overflow ≡ false
      → contents s1 ≡ contents s
  rewound_contents s1 eb l r w f =
      window_cong s1.buffer (l ∙ body-Open.len_kept) (r ∙ body-Open.read_kept) (
        rewound_used s s1 v e (l ∙ body-Open.len_kept) (r ∙ body-Open.read_kept) (w ∙ body_start) f)
      ∙ ap (λ buf. window buf s.len s.pos_read (used s)) eb
      ∙ body-Open.kept

  send_overflow :
      body.overflow ≡ true → s.len ≤ used s + length (b ∷ 0 ∷ 0 ∷ xs) → Sent s b xs (commit body)
  send_overflow f full =
      let no_room : fits s xs ≡ false = ground arith in
      let q = commit_overflow body f in
      (
        ap (λ r. r.1) q ∙ sym no_room,
        rw no_room (
            ap (λ r. contents r.0) q
            ∙ rewound_contents (record body { pos_write = body.start; overflow = false }) refl refl
                refl refl refl),
        commit-IsValid body body-Open.valid,
        ap (λ r. r.0.overflow) q,
      )

  room : body.overflow ≡ false → used body ≡ used s + length (b ∷ 0 ∷ 0 ∷ xs) → fits s xs ≡ true
  room f u = lt→ltb _ _ (omega (arith, used-lt body body-Open.valid f, body-Open.len_kept, u))

  send_none :
      body.overflow ≡ false
      → used body ≡ used s + length (b ∷ 0 ∷ 0 ∷ xs)
      → xs ≡ []
      → Sent s b xs (commit body)
  send_none f u n =
      let q = commit_none body f (body_count f ∙ ap length n) in
      let here = room f u in
      (
        ap (λ r. r.1) q ∙ sym here,
        rw here (
            ap (λ r. contents r.0) q
            ∙ rewound_contents (record body { pos_write = body.start; ring_client = 255 }) refl refl
                refl refl f
            ∙ sym (rw n (append-nil (contents s)))),
        commit-IsValid body body-Open.valid,
        ap (λ r. r.0.overflow) q ∙ f,
      )

  set_header :
      (w : List ℕ) (u h l : ℕ)
      → length w ≡ u
      → set (set (w ++ b ∷ 0 ∷ 0 ∷ xs) (u + 1) h) (u + 2) l ≡ w ++ b ∷ h ∷ l ∷ xs
  set_header w u h l n =
      rw (set-append_right w (b ∷ 0 ∷ 0 ∷ xs) (u + 1) 1 h (omega arith))
        (set-append_right w (b ∷ h ∷ 0 ∷ xs) (u + 2) 2 l (omega arith))

  first_place : used s + 3 < s.len → next body.len body.start ≡ ahead s.len s.pos_read (used s + 1)
  first_place h =
      ap₂ next body-Open.len_kept (body_start ∙ start_ahead s v e)
      ∙ next-ahead s.len s.pos_read (used s) v.read_in (omega arith)

  second_place :
      used s + 3 < s.len
      → next body.len (next body.len body.start) ≡ ahead s.len s.pos_read (used s + 2)
  second_place h =
      rw (first_place h, body-Open.len_kept)
        (next-ahead s.len s.pos_read (used s + 1) v.read_in (omega arith)
          ∙ ap (ahead s.len s.pos_read) (omega arith))

  -- The two count bytes land behind the client byte.
  header_window :
      (hi lo : ℕ)
      → used s + 3 < s.len
      → used body ≤ s.len
      → window body.buffer s.len s.pos_read (used body) ≡ contents s ++ b ∷ 0 ∷ 0 ∷ xs
      → window
          (set
            (set body.buffer (next body.len body.start) hi)
            (next body.len (next body.len body.start))
            lo)
          s.len
          s.pos_read
          (used body)
        ≡ contents s ++ b ∷ hi ∷ lo ∷ xs
  header_window hi lo h k w =
      let m1 = next body.len body.start in
      let size = body-Open.valid.size ∙ body-Open.len_kept in
      window-set (set body.buffer m1 hi) s.len lo (next body.len m1) s.pos_read (used body)
        (used s + 2) (length-set body.buffer m1 hi ∙ size) v.read_in k (omega arith)
        (second_place h)
      ∙ ap (λ l. set l (used s + 2) lo)
          (window-set body.buffer s.len hi m1 s.pos_read (used body) (used s + 1) size v.read_in k
            (omega arith) (first_place h))
      ∙ ap (λ l. set (set l (used s + 1) hi) (used s + 2) lo) w
      ∙ set_header (contents s) (used s) hi lo (length-window s.buffer s.len s.pos_read (used s))

  send_some :
      body.overflow ≡ false
      → used body ≡ used s + length (b ∷ 0 ∷ 0 ∷ xs)
      → window body.buffer s.len s.pos_read (used body) ≡ contents s ++ b ∷ 0 ∷ 0 ∷ xs
      → 0 < length xs
      → contents (commit body).0
        ≡ contents s ++ b ∷ (length xs / 256 % 256) ∷ (length xs % 256) ∷ xs
  send_some f u w n =
      let (c, _) = commit-Commits body f (omega (arith, body_count f)) in
      let k = used-lt body body-Open.valid f in
      window_cong (commit body).0.buffer (c.same_len ∙ body-Open.len_kept)
        (c.same_read ∙ body-Open.read_kept) (Commits-used body (commit body).0 c)
      ∙ ap (λ buf. window buf s.len s.pos_read (used body)) c.filled
      ∙ header_window (body.count / 256 % 256) (body.count % 256)
          (omega (arith, k, u, body-Open.len_kept)) (omega (arith, k, body-Open.len_kept)) w
      ∙ rw (body_count f) refl

  send_fits :
      (ys : List ℕ)
      → xs ≡ ys
      → body.overflow ≡ false
      → used body ≡ used s + length (b ∷ 0 ∷ 0 ∷ xs)
      → window body.buffer s.len s.pos_read (used body) ≡ contents s ++ b ∷ 0 ∷ 0 ∷ xs
      → Sent s b xs (commit body)
  send_fits [] n f u w = send_none f u n
  send_fits (y ∷ ys) n f u w =
      let (c, ok) = commit-Commits body f (omega (arith, body_count f, ap length n)) in
      let here = room f u in
      (
        ok ∙ sym here,
        rw here (send_some f u w (omega (arith, ap length n)) ∙ ap (◌++◌ (contents s)) (rw n refl)),
        commit-IsValid body body-Open.valid,
        c.same_overflow ∙ f,
      )

-- On a valid ring without an overflow, a frame goes to the end of the ring exactly when it fits
-- with one place to spare, with its client byte and its length in front; an empty payload leaves
-- nothing; and a frame that does not fit leaves what was held before. The ring stays valid and
-- ready for the next frame.
pub send_lem :
    (s : RingStream) (b : ℕ) (xs : List ℕ)
    → IsValid s
    → s.overflow ≡ false
    → Sent s b xs (send s b xs)
unfolding body
send_lem s b xs v e = elim (body-Open s b xs v e).state [
  | inl (f, u, w) ↦ send_fits s b xs v e xs refl f u w
  | inr (f, full) ↦ send_overflow s b xs v e f full
]
