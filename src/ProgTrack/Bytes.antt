-- ===== src/ProgTrack/Bytes.antt =====
-- DCC.cpp and DCCACK.cpp: what the programs for one CV give before a decoder that obeys the format.
use command_station_ex_la_bo.ProgTrack.Reading.{
  plain, ask_byte, read_back, bits_read, ask_one, ask_zero, store_byte,
}
use command_station_ex_la_bo.ProgTrack.Programs.{
  read_bits, after_ack, read_cv_prog, verify_byte_prog, write_byte_prog,
}
use command_station_ex_la_bo.Prelude.Int.{ℤ, pos}
use command_station_ex_la_bo.ProgTrack.Decoder.{Cvs, respond, has_bit, update}
use command_station_ex_la_bo.ProgTrack.{
  Poll, exec, Turn, Manager, if_resets, AckOp, baseline, vb, startmerge, after_read, wack, merge,
  itskip, setbit, v1, nakfail, skiptarget, v0, callfail, itcb, itcbv, biv, itc1,
}
use command_station_ex_la_bo.ProgTrack.Session.{Outcome, back, session, answered, session_turn}
use command_station_ex_la_bo.Prelude.{
  ℕ, ◌≤◌, ◌<◌, ◌≡◌, refl, ap, ◌∙◌, Bool, true, false, ◌||◌, List, ◌∷◌, arith, ◌==◌, if◌then◌else◌,
  ◌/◌, not, ◌^◌, [],
}

-- What a run comes to: the decoder's CVs afterwards, and the value of the callback.
abbrev pub Comes : Outcome Cvs → Cvs → ℤ → Type 0
Comes o cvs v = (m : Manager) × (o ≡ back cvs m v)

enough : (b : Bool) (p : Poll) (t : Turn) → p.resets ≡ 20 → if_resets p (if b then 20 else 3) t ≡ t
enough true p t e = rw e refl
enough false p t e = rw e refl

pub begins :
    (cvs : Cvs) (ack : Bool) (m : Manager) (rest : List AckOp)
    → session respond false cvs ack m (baseline ∷ rest)
      ≡ session respond false cvs ack (record m { callback_state = after_read }) rest
unfolding exec
begins cvs ack m rest =
    plain cvs ack m baseline rest (enough (m.auto_power_off || m.rejoin) (answered ack) _ refl)

same_refl : (x : ℕ) → (x == x) ≡ true
same_refl x = ground arith

-- A byte that the decoder acknowledges.
pub confirmed :
    (cvs : Cvs) (ack : Bool) (m : Manager) (rest : List AckOp)
    → 0 < m.cv
    → m.cv ≤ 1024
    → m.byte ≡ cvs m.cv
    → session respond false cvs ack m (vb ∷ wack ∷ rest)
      ≡ session respond false cvs true (record m { received = true }) rest
confirmed cvs ack m rest l u e =
    ask_byte cvs ack m rest l u
    ∙ ap (λ a. session respond false cvs a (record m { received = a }) rest) (ground (arith, e))

-- A byte that was read bit by bit is confirmed.
pub whole_byte :
    (cvs : Cvs) (ack : Bool) (m : Manager) (rest : List AckOp)
    → 0 < m.cv
    → m.cv ≤ 1024
    → cvs m.cv < 256
    → session respond false cvs ack m (startmerge ∷ read_bits 8 (vb ∷ wack ∷ rest))
      ≡ session respond false cvs true (read_back m (cvs m.cv) true) rest
unfolding exec
whole_byte cvs ack m rest l u b =
    let m' = record m { bit_num = 7; byte = 0 } in
    let (a, r, e) =
      bits_read cvs ack m' (vb ∷ wack ∷ rest) 8 l u b (omega arith) (omega (arith, b), refl) in
    plain cvs ack m startmerge (read_bits 8 (vb ∷ wack ∷ rest)) refl
    ∙ e
    ∙ confirmed cvs a (read_back m' (cvs m.cv) r) rest l u refl

-- The byte is read down from bit 6, and confirmed.
pub rest_of_byte :
    (cvs : Cvs) (ack : Bool) (m : Manager) (rest : List AckOp)
    → 0 < m.cv
    → m.cv ≤ 1024
    → cvs m.cv < 256
    → m.byte ≡ cvs m.cv / 2 ^ 7
    → m.bit_num ≡ 6
    → session respond false cvs ack m (read_bits 7 (vb ∷ wack ∷ rest))
      ≡ session respond false cvs true (read_back m (cvs m.cv) true) rest
rest_of_byte cvs ack m rest l u b e f =
    let (a, r, g) = bits_read cvs ack m (vb ∷ wack ∷ rest) 7 l u b (omega arith) (e, f) in
    g ∙ confirmed cvs a (read_back m (cvs m.cv) r) rest l u refl

-- The part of the programs that takes bit 7 first.
abbrev top_bit : List AckOp → List AckOp
top_bit rest = merge ∷ itskip ∷ setbit 7 ∷ after_ack v1 (nakfail ∷ setbit 6 ∷ skiptarget ∷ rest)

is_set : (b : Bool) → not b ≡ false → b ≡ true
is_set b e = ground (arith, e)

top_read :
    (cvs : Cvs) (m : Manager) (rest : List AckOp) (z : Bool)
    → 0 < m.cv
    → m.cv ≤ 1024
    → not (has_bit (cvs m.cv) 7) ≡ z
    → session respond false cvs z (record m { received = z; bit_num = 7; byte = 0 }) (top_bit rest)
      ≡ session respond false cvs true
          (record m { received = true; bit_num = 6; byte = if z then 0 else 1 })
          rest
unfolding session exec
top_read cvs m rest true l u e = refl
top_read cvs m rest false l u e =
    ask_one cvs false (record m { received = false; bit_num = 7; byte = 1 })
      (nakfail ∷ setbit 6 ∷ skiptarget ∷ rest) l u (omega arith)
    ∙ ap
        (λ a.
          session respond false cvs a (record m { received = a; bit_num = 7; byte = 1 })
            (nakfail ∷ setbit 6 ∷ skiptarget ∷ rest))
        (is_set _ e)

-- The end of the programs that read one byte.
abbrev by_bits : AckOp → List AckOp
by_bits op = startmerge ∷ v0 ∷ wack ∷ top_bit (read_bits 7 (vb ∷ wack ∷ op ∷ callfail ∷ []))

read_by_bits :
    (cvs : Cvs) (ack : Bool) (m : Manager) (op : AckOp)
    → 0 < m.cv
    → m.cv ≤ 1024
    → cvs m.cv < 256
    → session respond false cvs ack m (by_bits op)
      ≡ session respond false cvs true (read_back m (cvs m.cv) true) (op ∷ callfail ∷ [])
unfolding exec
read_by_bits cvs ack m op l u b =
    let z = not (has_bit (cvs m.cv) 7) in
    let last = vb ∷ wack ∷ op ∷ callfail ∷ [] in
    let m' = record m { received = true; bit_num = 6; byte = if z then 0 else 1 } in
    plain cvs ack m startmerge _ refl
    ∙ ask_zero cvs ack (record m { bit_num = 7; byte = 0 }) (top_bit (read_bits 7 last)) l u
        (omega arith)
    ∙ top_read cvs m (read_bits 7 last) z l u refl
    ∙ rest_of_byte cvs true m' (op ∷ callfail ∷ []) l u b (ground (arith, b)) refl

read_cv_value :
    (cvs : Cvs) (ack : Bool) (m : Manager)
    → 0 < m.cv
    → m.cv ≤ 1024
    → cvs m.cv < 256
    → Comes (session respond false cvs ack m read_cv_prog) cvs (pos (cvs m.cv))
unfolding read_cv_prog exec
read_cv_value cvs ack m l u b = (
  _,
  begins cvs ack m (by_bits itcb)
      ∙ read_by_bits cvs ack (record m { callback_state = after_read }) itcb l u b
      ∙ session_turn respond cvs true _ itcb (callfail ∷ []) refl,
)

verify_byte_value :
    (cvs : Cvs) (ack : Bool) (m : Manager)
    → 0 < m.cv
    → m.cv ≤ 1024
    → cvs m.cv < 256
    → Comes (session respond false cvs ack m verify_byte_prog) cvs (pos (cvs m.cv))
unfolding verify_byte_prog exec
verify_byte_value cvs ack m l u b =
    let m' = record m { callback_state = after_read; byte = m.byte_verify } in
    let (m'', e) = guess (cvs m.cv == m.byte_verify) refl in
    (
      m'',
      begins cvs ack m _
          ∙ plain cvs ack _ biv _ refl
          ∙ ask_byte cvs ack m' (itcb ∷ by_bits itcbv) l u
          ∙ e,
    )
  where
    guess :
        (a : Bool)
        → (cvs m.cv == m.byte_verify) ≡ a
        → Comes
            (session respond false cvs a
              (record m { callback_state = after_read; byte = m.byte_verify; received = a })
              (itcb ∷ by_bits itcbv))
            cvs
            (pos (cvs m.cv))
    guess true e = (
      _,
      session_turn respond cvs true _ itcb (by_bits itcbv) refl
          ∙ ap
              (λ v.
                back cvs
                  (record m { callback_state = after_read; byte = m.byte_verify; received = true })
                  (pos v))
              (ground (arith, e)),
    )
    guess false e = (
      _,
      plain cvs false _ itcb (by_bits itcbv) refl
          ∙ read_by_bits cvs false
              (record m { callback_state = after_read; byte = m.byte_verify; received = false })
              itcbv l u b
          ∙ session_turn respond cvs true _ itcbv (callfail ∷ []) refl,
    )

write_byte_stores :
    (cvs : Cvs) (ack : Bool) (m : Manager)
    → 0 < m.cv
    → m.cv ≤ 1024
    → Comes (session respond false cvs ack m write_byte_prog) (update cvs m.cv m.byte) (pos 1)
unfolding write_byte_prog exec
write_byte_stores cvs ack m l u = (
  _,
  begins cvs ack m _
      ∙ store_byte cvs ack (record m { callback_state = after_read }) _ l u
      ∙ session_turn respond _ true _ itc1 _ refl,
)

-- For a CV from 1 to 1024 that holds a byte, before a decoder that obeys the format: the programs that
-- read the CV and that verify a byte, right or wrong, call back with what the CV holds and change
-- nothing; the program that writes a byte calls back with 1, and the CV then holds the byte.
pub byte_programs :
    (cvs : Cvs) (ack : Bool) (m : Manager)
    → 0 < m.cv
    → m.cv ≤ 1024
    → cvs m.cv < 256
    → Comes (session respond false cvs ack m read_cv_prog) cvs (pos (cvs m.cv))
      × Comes (session respond false cvs ack m verify_byte_prog) cvs (pos (cvs m.cv))
      × Comes (session respond false cvs ack m write_byte_prog) (update cvs m.cv m.byte) (pos 1)
byte_programs cvs ack m l u b = (
  read_cv_value cvs ack m l u b,
  verify_byte_value cvs ack m l u b,
  write_byte_stores cvs ack m l u,
)
