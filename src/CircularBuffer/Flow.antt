-- ===== src/CircularBuffer/Flow.antt =====
-- CircularBuffer::PushBytes and GetBytes: what goes in comes out, in order.
use command_station_ex_la_bo.CircularBuffer.Valid.{
  push_one, IsValid, held, push_one-IsValid, used_size-push_one, held-push_one, with_peak-IsValid,
  get_count_lem,
}
use command_station_ex_la_bo.CircularBuffer.{
  CircularBuffer, push_loop, used_size, push_bytes, get_count,
}
use command_station_ex_la_bo.Prelude.{
  ℕ, zero, suc, ◌+◌, ◌-◌, ◌≤◌, ◌<◌, ◌≡◌, refl, sym, ap, ◌∙◌, subst, inl, inr, Bool, true, false,
  List, [], ◌∷◌, ◌++◌, append-nil, append_assoc, arith, length, take, ltb, lt→ltb, Bool-cases, inr,
}

-- The outcome of a push of some bytes into a buffer that is not full.
abbrev pub Pushed : CircularBuffer → List ℕ → CircularBuffer × Bool → Type 0
Pushed b xs r =
    (r.1 ≡ ltb (used_size b + length xs) b.size)
    × (held r.0 ≡ held b ++ take (b.size - used_size b) xs)
    × IsValid r.0

push_loop_full :
    (b : CircularBuffer) (x : ℕ) (xs : List ℕ)
    → (push_one b x).full ≡ true
    → push_loop b (x ∷ xs)
      ≡ (record (push_one b x) { peak_count = b.size + length (x ∷ xs) }, false)
unfolding push_loop
push_loop_full b x xs e = ground arith

push_loop_on :
    (b : CircularBuffer) (x : ℕ) (xs : List ℕ)
    → (push_one b x).full ≡ false
    → push_loop b (x ∷ xs) ≡ push_loop (push_one b x) xs
unfolding push_loop
push_loop_on b x xs e = ground arith

used-lt : (b : CircularBuffer) → IsValid b → b.full ≡ false → used_size b < b.size
used-lt b v e = ground arith

used_full : (b : CircularBuffer) → b.full ≡ true → used_size b ≡ b.size
used_full b e = ground arith

not_ltb : (m n : ℕ) → n ≤ m → ltb m n ≡ false
not_ltb m n h = ground arith

push_loop_nil : (b : CircularBuffer) → push_loop b [] ≡ (b, true)
unfolding push_loop
push_loop_nil b = refl

take_nil : (n : ℕ) → take {A = ℕ} n [] ≡ []
take_nil zero = refl
take_nil (suc n) = refl

push_loop-Pushed :
    (b : CircularBuffer) (xs : List ℕ) → IsValid b → b.full ≡ false → Pushed b xs (push_loop b xs)
push_loop-Pushed b [] v e = subst (Pushed b []) (sym (push_loop_nil b)) (
  sym (lt→ltb _ _ (omega (arith, used-lt b v e))),
  sym (ap (◌++◌ (held b)) (take_nil (b.size - used_size b)) ∙ append-nil (held b)),
  v,
)
push_loop-Pushed b (x ∷ xs) v e =
    let w = push_one-IsValid b x v e in
    let u = used_size-push_one b x v e in
    let room = used-lt b v e in
    elim (Bool-cases (push_one b x).full) [
      | inl f ↦
          let last : 1 ≡ b.size - used_size b = omega (arith, u, used_full (push_one b x) f) in
          subst (Pushed b (x ∷ xs)) (sym (push_loop_full b x xs f)) (
            sym (not_ltb _ _ (omega (arith, last))),
            held-push_one b x v e ∙ ap (λ k. held b ++ take k (x ∷ xs)) last,
            with_peak-IsValid (push_one b x) (b.size + length (x ∷ xs)) w,
          )
      | inr f ↦
          let (ok, same, w') = push_loop-Pushed (push_one b x) xs w f in
          let more : suc (b.size - used_size (push_one b x)) ≡ b.size - used_size b =
            omega (arith, u, used-lt (push_one b x) w f) in
          subst (Pushed b (x ∷ xs)) (sym (push_loop_on b x xs f)) (
            ok ∙ ap (λ k. ltb k b.size) (omega (arith, u)),
            same
                ∙ ap (λ l. l ++ take (b.size - used_size (push_one b x)) xs) (held-push_one b x v e)
                ∙ append_assoc (held b) (x ∷ []) _
                ∙ ap (λ k. held b ++ take k (x ∷ xs)) more,
            w',
          )
    ]

push_bytes_open :
    (b : CircularBuffer) (xs : List ℕ)
    → b.begun ≡ true
    → b.full ≡ false
    → push_bytes b xs ≡ ((get_count (push_loop b xs).0).0, (push_loop b xs).1)
unfolding push_bytes
push_bytes_open b xs r e = ground arith

-- A push into a valid buffer that is not full stores as many of the bytes as there are places, in
-- order behind those that are held, and leaves a valid buffer. It reports success exactly if a
-- place is left over: where the bytes just fill the buffer all are stored, and failure is
-- reported.
pub push_bytes_lem :
    (b : CircularBuffer) (xs : List ℕ) → IsValid b → b.full ≡ false → Pushed b xs (push_bytes b xs)
push_bytes_lem b xs v e =
    let (ok, same, w) = push_loop-Pushed b xs v e in
    subst (Pushed b xs) (sym (push_bytes_open b xs v.ready e)) (
      subst (λ r. Pushed b xs (r.0, (push_loop b xs).1))
        (sym (get_count_lem (push_loop b xs).0 w.ready))
        (ok, same, with_peak-IsValid (push_loop b xs).0 _ w))
