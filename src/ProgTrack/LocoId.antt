-- ===== src/ProgTrack/LocoId.antt =====
-- DCC.cpp: the programs that write the address of a loco.
use command_station_ex_la_bo.Prelude.Int.{pos}
use command_station_ex_la_bo.ProgTrack.Programs.{short_loco_id_prog, long_loco_id_prog}
use command_station_ex_la_bo.ProgTrack.Ids.{put_byte, put_bit, put_low, put_high}
use command_station_ex_la_bo.ProgTrack.Bytes.{begins, Comes}
use command_station_ex_la_bo.ProgTrack.Bits.{written}
use command_station_ex_la_bo.ProgTrack.Reading.{ask_one, ask_zero, plain}
use command_station_ex_la_bo.ProgTrack.Session.{session, session_turn}
use command_station_ex_la_bo.Dcc.Packets.{low_byte, high_byte}
use command_station_ex_la_bo.ProgTrack.{
  exec, Manager, AckOp, baseline, setcv, setbyte, wb, wack, setbit, w1, w0, v1, v0, nakfail,
  after_write, after_read, itskip, vb, callfail, skiptarget, itc1,
}
use command_station_ex_la_bo.ProgTrack.Decoder.{Cvs, update, with_bit, respond}
use command_station_ex_la_bo.Prelude.{
  ℕ, ◌≡◌, refl, ap, ◌∙◌, Bool, true, false, not, List, ◌∷◌, arith, if◌then◌else◌,
}

abbrev pub freed : Cvs → Cvs
freed cvs = update (update cvs 20 0) 19 0

abbrev pub addressed : Cvs → Bool → Cvs
addressed cvs long = update (freed cvs) 29 (with_bit (cvs 29) 5 long)

abbrev pub short_written : Cvs → ℕ → Cvs
short_written cvs word = update (addressed cvs false) 1 (low_byte word)

abbrev pub long_written : Cvs → ℕ → Cvs
long_written cvs word = update (update (addressed cvs true) 17 (high_byte word)) 18 (low_byte word)

-- The consist is cleared, and bit 5 of CV 29 says which address counts.
abbrev opening_of : Bool → List AckOp → List AckOp
opening_of on rest =
    baseline
    ∷ setcv 20
    ∷ setbyte 0
    ∷ wb
    ∷ wack
    ∷ setcv 19
    ∷ setbyte 0
    ∷ wb
    ∷ wack
    ∷ setcv 29
    ∷ setbit 5
    ∷ (if on then w1 else w0)
    ∷ wack
    ∷ (if on then v1 else v0)
    ∷ wack
    ∷ nakfail
    ∷ rest

abbrev opened : Manager → Bool → Manager
opened m a = record m { callback_state = after_write; cv = 29; byte = 0; bit_num = 5; received = a }

checked :
    (cvs : Cvs) (m : Manager) (rest : List AckOp) (on : Bool)
    → session respond false
        (addressed cvs on)
        true
        (opened m true)
        ((if on then v1 else v0) ∷ wack ∷ nakfail ∷ rest)
      ≡ session respond false (addressed cvs on) true (opened m true) (nakfail ∷ rest)
checked cvs m rest true =
    ask_one (addressed cvs true) true (opened m true) (nakfail ∷ rest) (omega arith) (omega arith)
      (omega arith)
    ∙ ap (λ a. session respond false (addressed cvs true) a (opened m a) (nakfail ∷ rest))
        (written (cvs 29) 5 true (omega arith))
checked cvs m rest false =
    ask_zero (addressed cvs false) true (opened m true) (nakfail ∷ rest) (omega arith) (omega arith)
      (omega arith)
    ∙ ap
        (λ a.
          session respond false (addressed cvs false) (not a) (opened m (not a)) (nakfail ∷ rest))
        (written (cvs 29) 5 false (omega arith))

opening :
    (cvs : Cvs) (ack : Bool) (m : Manager) (rest : List AckOp) (on : Bool)
    → session respond false cvs ack m (opening_of on rest)
      ≡ session respond false (addressed cvs on) true (opened m true) rest
unfolding exec
opening cvs ack m rest on =
    begins cvs ack m _
    ∙ put_byte cvs ack (record m { callback_state = after_read }) _ 20 (omega arith) (omega arith) 0
    ∙ put_byte (update cvs 20 0) true
        (record m { callback_state = after_write; cv = 20; byte = 0; received = true }) _ 19
        (omega arith) (omega arith) 0
    ∙ put_bit (freed cvs) true
        (record m { callback_state = after_write; cv = 19; byte = 0; received = true }) _ 29
        (omega arith) (omega arith) 5 on (omega arith)
    ∙ checked cvs m rest on
    ∙ plain (addressed cvs on) true (opened m true) nakfail rest refl

pub short_written_by :
    (cvs : Cvs) (ack : Bool) (m : Manager)
    → Comes (session respond false cvs ack m short_loco_id_prog) (short_written cvs m.word) (pos 1)
unfolding short_loco_id_prog exec
short_written_by cvs ack m = (
  _,
  opening cvs ack m _ false
      ∙ put_low (addressed cvs false) true (opened m true) _ 1 (omega arith) (omega arith)
      ∙ session_turn respond (short_written cvs m.word) true _ itc1 _ refl,
)

-- The search behind ITSKIP passes over the check of the byte.
unchecked :
    (cvs : Cvs) (m : Manager) (rest : List AckOp)
    → session respond false cvs true
        (record m { received = true })
        (itskip ∷ vb ∷ wack ∷ itskip ∷ callfail ∷ skiptarget ∷ rest)
      ≡ session respond false cvs true (record m { received = true }) rest
unfolding session exec
unchecked cvs m rest = refl

pub long_written_by :
    (cvs : Cvs) (ack : Bool) (m : Manager)
    → Comes (session respond false cvs ack m long_loco_id_prog) (long_written cvs m.word) (pos 1)
unfolding long_loco_id_prog exec
long_written_by cvs ack m =
    let high = record (opened m true) { cv = 17; byte = high_byte m.word } in
    let cvs' = update (addressed cvs true) 17 (high_byte m.word) in
    (
      _,
      opening cvs ack m _ true
          ∙ put_high (addressed cvs true) true (opened m true) _ 17 (omega arith) (omega arith)
          ∙ unchecked cvs' high _
          ∙ put_low cvs' true high _ 18 (omega arith) (omega arith)
          ∙ session_turn respond (long_written cvs m.word) true _ itc1 _ refl,
    )
