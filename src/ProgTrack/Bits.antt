-- ===== src/ProgTrack/Bits.antt =====
-- DCC.cpp and DCCACK.cpp: what the programs for one bit give before a decoder that obeys the format.
use command_station_ex_la_bo.ProgTrack.Reading.{store_bit, ask_one, plain, ask_zero}
use command_station_ex_la_bo.ProgTrack.Session.{session, session_turn}
use command_station_ex_la_bo.ProgTrack.Bytes.{Comes, begins}
use command_station_ex_la_bo.ProgTrack.Programs.{
  read_bit_prog, write_bit0_prog, verify_bit0_prog, write_bit1_prog, verify_bit1_prog,
}
use command_station_ex_la_bo.ProgTrack.{
  Manager, exec, baseline, v1, v0, wack, after_read, itc1, itc0, callfail, after_write,
}
use command_station_ex_la_bo.ProgTrack.Decoder.{has_bit, Cvs, with_bit, update, respond}
use command_station_ex_la_bo.Prelude.Int.{ℤ, pos}
use command_station_ex_la_bo.Prelude.{
  ℕ, zero, suc, ◌≤◌, ◌<◌, ◌≡◌, refl, ap, ◌∙◌, Bool, true, false, not, [], ◌∷◌, arith, if◌then◌else◌,
}

abbrev bit_value : Bool → ℤ
bit_value on = pos (if on then 1 else 0)

pub written : (x b : ℕ) (on : Bool) → b < 8 → has_bit (with_bit x b on) b ≡ on
written x zero on h = ground arith
written x (suc zero) on h = ground arith
written x (suc (suc zero)) on h = ground arith
written x (suc (suc (suc zero))) on h = ground arith
written x (suc (suc (suc (suc zero)))) on h = ground arith
written x (suc (suc (suc (suc (suc zero))))) on h = ground arith
written x (suc (suc (suc (suc (suc (suc zero)))))) on h = ground arith
written x (suc (suc (suc (suc (suc (suc (suc zero))))))) on h = ground arith
written x (suc (suc (suc (suc (suc (suc (suc (suc b)))))))) on h = absurd (omega arith)

pub update_at : (cvs : Cvs) (cv v : ℕ) → update cvs cv v cv ≡ v
update_at cvs cv v = ground arith

module _ (cvs : Cvs) (ack : Bool) (m : Manager) (l : 0 < m.cv) (u : m.cv ≤ 1024)
    (h : m.bit_num < 8) where
  -- It asks for a one; a decoder with a zero gets the question for a zero.
  one_first :
      Comes
        (session respond false cvs ack m
          (baseline ∷ v1 ∷ wack ∷ itc1 ∷ v0 ∷ wack ∷ itc0 ∷ callfail ∷ []))
        cvs
        (bit_value (has_bit (cvs m.cv) m.bit_num))
  unfolding exec
  one_first =
      let begun = record m { callback_state = after_read } in
      let rest = v0 ∷ wack ∷ itc0 ∷ callfail ∷ [] in
      let (m', e) = then_zero (has_bit (cvs m.cv) m.bit_num) refl in
      (m', begins cvs ack m _ ∙ ask_one cvs ack begun (itc1 ∷ rest) l u h ∙ e)
    where
      then_zero :
          (a : Bool)
          → has_bit (cvs m.cv) m.bit_num ≡ a
          → Comes
              (session respond false cvs a
                (record m { callback_state = after_read; received = a })
                (itc1 ∷ v0 ∷ wack ∷ itc0 ∷ callfail ∷ []))
              cvs
              (bit_value a)
      then_zero true e = (_, session_turn respond cvs true _ itc1 _ refl)
      then_zero false e = (
        _,
        plain cvs false _ itc1 _ refl
            ∙ ask_zero cvs false (record m { callback_state = after_read; received = false })
                (itc0 ∷ callfail ∷ []) l u h
            ∙ ap
                (λ a.
                  session respond false cvs (not a)
                    (record m { callback_state = after_read; received = not a })
                    (itc0 ∷ callfail ∷ []))
                e
            ∙ session_turn respond cvs true _ itc0 _ refl,
      )

  zero_first :
      Comes
        (session respond false cvs ack m
          (baseline ∷ v0 ∷ wack ∷ itc0 ∷ v1 ∷ wack ∷ itc1 ∷ callfail ∷ []))
        cvs
        (bit_value (has_bit (cvs m.cv) m.bit_num))
  unfolding exec
  zero_first =
      let begun = record m { callback_state = after_read } in
      let rest = v1 ∷ wack ∷ itc1 ∷ callfail ∷ [] in
      let (m', e) = then_one (has_bit (cvs m.cv) m.bit_num) refl in
      (m', begins cvs ack m _ ∙ ask_zero cvs ack begun (itc0 ∷ rest) l u h ∙ e)
    where
      then_one :
          (a : Bool)
          → has_bit (cvs m.cv) m.bit_num ≡ a
          → Comes
              (session respond false cvs
                (not a)
                (record m { callback_state = after_read; received = not a })
                (itc0 ∷ v1 ∷ wack ∷ itc1 ∷ callfail ∷ []))
              cvs
              (bit_value a)
      then_one false e = (_, session_turn respond cvs true _ itc0 _ refl)
      then_one true e = (
        _,
        plain cvs false _ itc0 _ refl
            ∙ ask_one cvs false (record m { callback_state = after_read; received = false })
                (itc1 ∷ callfail ∷ []) l u h
            ∙ ap
                (λ a.
                  session respond false cvs a
                    (record m { callback_state = after_read; received = a }) (itc1 ∷ callfail ∷ []))
                e
            ∙ session_turn respond cvs true _ itc1 _ refl,
      )

  bit_programs_read :
      (let bit = bit_value (has_bit (cvs m.cv) m.bit_num) in
        Comes (session respond false cvs ack m read_bit_prog) cvs bit
        × Comes (session respond false cvs ack m verify_bit0_prog) cvs bit
        × Comes (session respond false cvs ack m verify_bit1_prog) cvs bit)
  unfolding read_bit_prog verify_bit0_prog verify_bit1_prog
  bit_programs_read = (one_first, zero_first, one_first)

  bit_programs_write :
      (on : Bool)
      → Comes
          (session respond false cvs ack m (if on then write_bit1_prog else write_bit0_prog))
          (update cvs m.cv (with_bit (cvs m.cv) m.bit_num on))
          (pos 1)
  unfolding write_bit0_prog write_bit1_prog exec
  bit_programs_write true =
      let cvs' = update cvs m.cv (with_bit (cvs m.cv) m.bit_num true) in
      (
        _,
        begins cvs ack m _
            ∙ store_bit cvs ack (record m { callback_state = after_read }) _ l u true h
            ∙ ask_one cvs' true (record m { callback_state = after_write; received = true })
                (itc1 ∷ callfail ∷ []) l u h
            ∙ ap
                (λ a.
                  session respond false cvs' a
                    (record m { callback_state = after_write; received = a })
                    (itc1 ∷ callfail ∷ []))
                (ap (λ x. has_bit x m.bit_num) (update_at cvs m.cv _)
                  ∙ written (cvs m.cv) m.bit_num true h)
            ∙ session_turn respond cvs' true _ itc1 _ refl,
      )
  bit_programs_write false =
      let cvs' = update cvs m.cv (with_bit (cvs m.cv) m.bit_num false) in
      (
        _,
        begins cvs ack m _
            ∙ store_bit cvs ack (record m { callback_state = after_read }) _ l u false h
            ∙ ask_zero cvs' true (record m { callback_state = after_write; received = true })
                (itc1 ∷ callfail ∷ []) l u h
            ∙ ap
                (λ a.
                  session respond false cvs' (not a)
                    (record m { callback_state = after_write; received = not a })
                    (itc1 ∷ callfail ∷ []))
                (ap (λ x. has_bit x m.bit_num) (update_at cvs m.cv _)
                  ∙ written (cvs m.cv) m.bit_num false h)
            ∙ session_turn respond cvs' true _ itc1 _ refl,
      )

  -- For a CV from 1 to 1024 and a bit below 8, before a decoder that obeys the format: the programs that
  -- read the bit and that verify it, as 0 or as 1, call back with the bit and change nothing; the
  -- program that writes the bit calls back with 1, and only that bit of the CV is set to the value.
  pub bit_programs :
      (on : Bool)
      → (let bit = bit_value (has_bit (cvs m.cv) m.bit_num) in
          Comes (session respond false cvs ack m read_bit_prog) cvs bit
          × Comes (session respond false cvs ack m verify_bit0_prog) cvs bit
          × Comes (session respond false cvs ack m verify_bit1_prog) cvs bit)
        × Comes
            (session respond false cvs ack m (if on then write_bit1_prog else write_bit0_prog))
            (update cvs m.cv (with_bit (cvs m.cv) m.bit_num on))
            (pos 1)
  bit_programs on = (bit_programs_read, bit_programs_write on)
