-- ===== src/ProgTrack/ConsistRead.antt =====
-- DCC.cpp: the program that reads the address of a consist from CVs 19 and 20.
use command_station_ex_la_bo.ProgTrack.Ids.{try_byte, take_byte}
use command_station_ex_la_bo.Prelude.Int.{pos}
use command_station_ex_la_bo.ProgTrack.Session.{session, session_turn, back}
use command_station_ex_la_bo.ProgTrack.Bytes.{Comes, begins, whole_byte}
use command_station_ex_la_bo.ProgTrack.Reading.{beyond, skipped, plain, ask_byte, read_back}
use command_station_ex_la_bo.ProgTrack.{
  AckOp, Manager, exec, setcv, itskip, setbyte, startmerge, vb, wack, after_read, itc0, nakfail,
  nakskip, itcb7, combine1920, bad20skip, callfail, skiptarget, stashlocoid,
}
use command_station_ex_la_bo.ProgTrack.Programs.{read_bits, loco_read_consist_prog}
use command_station_ex_la_bo.ProgTrack.Decoder.{Cvs, respond}
use command_station_ex_la_bo.Prelude.{
  ℕ, ◌+◌, ◌*◌, ◌%◌, ◌≤◌, ◌<◌, ◌≡◌, refl, ap, ◌∙◌, Bool, true, false, List, [], ◌∷◌, arith, ◌==◌,
  if◌then◌else◌,
}

-- What the two CVs say.
abbrev pub consist_of : (cv20 cv19 : ℕ) → ℕ
consist_of cv20 cv19 = if cv20 == 0 then cv19 % 128 else cv20 * 100 + cv19 % 128 % 100

-- LOCO_READ_CONSIST_PROG, behind the question whether CV 20 is 0.
abbrev one_byte : List AckOp
one_byte =
    setcv 19
    ∷ setbyte 0
    ∷ vb
    ∷ wack
    ∷ itc0
    ∷ setbyte 128
    ∷ vb
    ∷ wack
    ∷ itc0
    ∷ startmerge
    ∷ read_bits 8 (vb ∷ wack ∷ itcb7 ∷ callfail ∷ [])

abbrev second_byte : List AckOp
second_byte =
    setcv 19 ∷ startmerge ∷ read_bits 8 (vb ∷ wack ∷ nakfail ∷ combine1920 ∷ skiptarget ∷ one_byte)

abbrev two_bytes : List AckOp
two_bytes =
    itskip ∷ startmerge ∷ read_bits 8 (vb ∷ wack ∷ nakskip ∷ bad20skip ∷ stashlocoid ∷ second_byte)

abbrev tried : Manager → ℕ → Bool → Manager
tried m b a = record m { cv = 19; byte = b; received = a }

not_zero :
    (cvs : Cvs) (m : Manager)
    → cvs 19 < 256
    → Comes
        (session respond false cvs false (tried m 0 false) (
          setbyte 128
          ∷ vb
          ∷ wack
          ∷ itc0
          ∷ startmerge
          ∷ read_bits 8 (vb ∷ wack ∷ itcb7 ∷ callfail ∷ [])))
        cvs
        (pos (cvs 19 % 128))
unfolding exec
not_zero cvs m b =
    let (m', e) = only_direction (cvs 19 == 128) refl in
    (
      m',
      plain cvs false (tried m 0 false) (setbyte 128) _ refl
          ∙ ask_byte cvs false (tried m 128 false) _ (omega arith) (omega arith)
          ∙ e,
    )
  where
    only_direction :
        (a : Bool)
        → (cvs 19 == 128) ≡ a
        → Comes
            (session respond false cvs a
              (tried m 128 a)
              (itc0 ∷ startmerge ∷ read_bits 8 (vb ∷ wack ∷ itcb7 ∷ callfail ∷ [])))
            cvs
            (pos (cvs 19 % 128))
    only_direction true e = (
      _,
      session_turn respond cvs true (tried m 128 true) itc0 _ refl
          ∙ ap (λ v. back cvs (tried m 128 true) (pos v)) (ground (arith, e)),
    )
    only_direction false e = (
      _,
      plain cvs false (tried m 128 false) itc0 _ refl
          ∙ whole_byte cvs false (tried m 128 false) (itcb7 ∷ callfail ∷ []) (omega arith)
              (omega arith) b
          ∙ session_turn respond cvs true _ itcb7 _ refl,
    )

read_one :
    (cvs : Cvs) (ack : Bool) (m : Manager)
    → cvs 19 < 256
    → Comes (session respond false cvs ack m one_byte) cvs (pos (cvs 19 % 128))
unfolding exec
read_one cvs ack m b =
    let (m', e) = nothing (cvs 19 == 0) refl in
    (m', try_byte cvs ack m _ 19 (omega arith) (omega arith) 0 refl ∙ e)
  where
    nothing :
        (a : Bool)
        → (cvs 19 == 0) ≡ a
        → Comes
            (session respond false cvs a (tried m 0 a) (
              itc0
              ∷ setbyte 128
              ∷ vb
              ∷ wack
              ∷ itc0
              ∷ startmerge
              ∷ read_bits 8 (vb ∷ wack ∷ itcb7 ∷ callfail ∷ [])))
            cvs
            (pos (cvs 19 % 128))
    nothing true e = (
      _,
      session_turn respond cvs true (tried m 0 true) itc0 _ refl
          ∙ ap (λ v. back cvs (tried m 0 true) (pos v)) (ground (arith, e)),
    )
    nothing false e =
        let (m', e) = not_zero cvs m b in (m', plain cvs false (tried m 0 false) itc0 _ refl ∙ e)

abbrev first : Manager → Bool → Manager
first m a = record m { callback_state = after_read; cv = 20; byte = 0; received = a }

-- CV 20 is not 0, and no mark of a decoder that has no such CV.
read_two :
    (cvs : Cvs) (m : Manager)
    → cvs 20 ≤ 120
    → cvs 19 < 256
    → Comes
        (session respond false cvs false (first m false) two_bytes)
        cvs
        (pos (cvs 20 * 100 + cvs 19 % 128 % 100))
unfolding exec
read_two cvs m a b =
    let high = read_back (first m false) (cvs 20) true in
    let low = read_back (record high { cv = 19; stash = cvs 20 }) (cvs 19) true in
    (
      _,
      plain cvs false (first m false) itskip _ refl
          ∙ whole_byte cvs false (first m false) _ (omega arith) (omega arith) (omega arith)
          ∙ plain cvs true high nakskip _ refl
          ∙ plain cvs true high bad20skip (stashlocoid ∷ second_byte) (ground arith)
          ∙ plain cvs true high stashlocoid second_byte refl
          ∙ take_byte cvs true (record high { stash = cvs 20 }) _ 19 (omega arith) (omega arith) b
          ∙ plain cvs true low nakfail _ refl
          ∙ session_turn respond cvs true low combine1920 _ refl,
    )

pub consist_read :
    (cvs : Cvs) (ack : Bool) (m : Manager)
    → cvs 20 ≤ 120
    → cvs 19 < 256
    → Comes
        (session respond false cvs ack m loco_read_consist_prog)
        cvs
        (pos (consist_of (cvs 20) (cvs 19)))
unfolding loco_read_consist_prog exec beyond
consist_read cvs ack m a b =
    let (m', e) = whichever (cvs 20 == 0) refl in
    (
      m',
      begins cvs ack m _
          ∙ try_byte cvs ack (record m { callback_state = after_read }) two_bytes 20 (omega arith)
              (omega arith) 0 refl
          ∙ e,
    )
  where
    whichever :
        (z : Bool)
        → (cvs 20 == 0) ≡ z
        → Comes
            (session respond false cvs z (first m z) two_bytes)
            cvs
            (pos (consist_of (cvs 20) (cvs 19)))
    whichever true e =
        let (m', f) = read_one cvs true (first m true) b in
        (
          m',
          skipped cvs true (first m true) itskip _ refl
              ∙ f
              ∙ ap (λ v. back cvs m' (pos v)) (ground (arith, e)),
        )
    whichever false e =
        let (m', f) = read_two cvs m a b in
        (m', f ∙ ap (λ v. back cvs m' (pos v)) (ground (arith, e)))
