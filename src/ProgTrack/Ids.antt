-- ===== src/ProgTrack/Ids.antt =====
-- DCC.cpp: the runs of entries that the programs for addresses share.
use command_station_ex_la_bo.ProgTrack.Bytes.{whole_byte}
use command_station_ex_la_bo.Dcc.Packets.{low_byte, high_byte}
use command_station_ex_la_bo.ProgTrack.Reading.{
  read_back, plain, ask_zero, ask_byte, store_byte, store_bit,
}
use command_station_ex_la_bo.ProgTrack.Programs.{read_bits}
use command_station_ex_la_bo.ProgTrack.Session.{session}
use command_station_ex_la_bo.ProgTrack.{
  Manager, AckOp, exec, setcv, setbyte, setbytel, setbyteh, setbit, startmerge, wb, w1, v0, vb,
  wack, w0, after_write,
}
use command_station_ex_la_bo.ProgTrack.Decoder.{Cvs, respond, update, has_bit, with_bit}
use command_station_ex_la_bo.Prelude.{
  ℕ, ◌≤◌, ◌<◌, ◌≡◌, refl, ap, ◌∙◌, Bool, true, false, not, List, ◌∷◌, ◌==◌, if◌then◌else◌,
}

module _ (cvs : Cvs) (ack : Bool) (m : Manager) (rest : List AckOp) (c : ℕ) (l : 0 < c)
    (u : c ≤ 1024) where
  pub put_byte :
      (b : ℕ)
      → session respond false cvs ack m (setcv c ∷ setbyte b ∷ wb ∷ wack ∷ rest)
        ≡ session respond false
            (update cvs c b)
            true
            (record m { cv = c; byte = b; callback_state = after_write; received = true })
            rest
  unfolding exec
  put_byte b =
      plain cvs ack m (setcv c) _ refl
      ∙ plain cvs ack (record m { cv = c }) (setbyte b) _ refl
      ∙ store_byte cvs ack (record m { cv = c; byte = b }) rest l u

  pub put_low :
      session respond false cvs ack m (setcv c ∷ setbytel ∷ wb ∷ wack ∷ rest)
      ≡ session respond false
          (update cvs c (low_byte m.word))
          true
          (record m {
            cv = c;
            byte = low_byte m.word;
            callback_state = after_write;
            received = true;
          })
          rest
  unfolding exec
  put_low =
      plain cvs ack m (setcv c) _ refl
      ∙ plain cvs ack (record m { cv = c }) setbytel _ refl
      ∙ store_byte cvs ack (record m { cv = c; byte = low_byte m.word }) rest l u

  pub put_high :
      session respond false cvs ack m (setcv c ∷ setbyteh ∷ wb ∷ wack ∷ rest)
      ≡ session respond false
          (update cvs c (high_byte m.word))
          true
          (record m {
            cv = c;
            byte = high_byte m.word;
            callback_state = after_write;
            received = true;
          })
          rest
  unfolding exec
  put_high =
      plain cvs ack m (setcv c) _ refl
      ∙ plain cvs ack (record m { cv = c }) setbyteh _ refl
      ∙ store_byte cvs ack (record m { cv = c; byte = high_byte m.word }) rest l u

  pub put_bit :
      (b : ℕ) (on : Bool)
      → b < 8
      → session respond false cvs ack m (setcv c ∷ setbit b ∷ (if on then w1 else w0) ∷ wack ∷ rest)
        ≡ session respond false
            (update cvs c (with_bit (cvs c) b on))
            true
            (record m { cv = c; bit_num = b; callback_state = after_write; received = true })
            rest
  unfolding exec
  put_bit b on h =
      plain cvs ack m (setcv c) _ refl
      ∙ plain cvs ack (record m { cv = c }) (setbit b) _ refl
      ∙ store_bit cvs ack (record m { cv = c; bit_num = b }) rest l u on h

  pub take_byte :
      cvs c < 256
      → session respond false cvs ack m (setcv c ∷ startmerge ∷ read_bits 8 (vb ∷ wack ∷ rest))
        ≡ session respond false cvs true (read_back (record m { cv = c }) (cvs c) true) rest
  unfolding exec
  take_byte b =
      plain cvs ack m (setcv c) _ refl ∙ whole_byte cvs ack (record m { cv = c }) rest l u b

  pub take_bit :
      (b : ℕ)
      → b < 8
      → session respond false cvs ack m (setcv c ∷ setbit b ∷ v0 ∷ wack ∷ rest) ≡ (
          let is_zero = not (has_bit (cvs c) b) in
          session respond false cvs is_zero
            (record m { cv = c; bit_num = b; received = is_zero })
            rest)
  unfolding exec
  take_bit b h =
      plain cvs ack m (setcv c) _ refl
      ∙ plain cvs ack (record m { cv = c }) (setbit b) _ refl
      ∙ ask_zero cvs ack (record m { cv = c; bit_num = b }) rest l u h

  pub try_byte :
      (b : ℕ) {a : Bool}
      → (cvs c == b) ≡ a
      → session respond false cvs ack m (setcv c ∷ setbyte b ∷ vb ∷ wack ∷ rest)
        ≡ session respond false cvs a (record m { cv = c; byte = b; received = a }) rest
  unfolding exec
  try_byte b e =
      plain cvs ack m (setcv c) _ refl
      ∙ plain cvs ack (record m { cv = c }) (setbyte b) _ refl
      ∙ ask_byte cvs ack (record m { cv = c; byte = b }) rest l u
      ∙ ap (λ a. session respond false cvs a (record m { cv = c; byte = b; received = a }) rest) e
