-- ===== src/ProgTrack/LocoRead.antt =====
-- DCC.cpp: the program that reads the address of a loco.
use command_station_ex_la_bo.Prelude.Int.{pos}
use command_station_ex_la_bo.ProgTrack.Programs.{read_bits, loco_read_id_prog}
use command_station_ex_la_bo.ProgTrack.Ids.{take_byte, take_bit}
use command_station_ex_la_bo.ProgTrack.Bytes.{begins, Comes, rest_of_byte}
use command_station_ex_la_bo.ProgTrack.Reading.{plain, read_back, beyond, skipped}
use command_station_ex_la_bo.ProgTrack.Session.{session, session_turn, back}
use command_station_ex_la_bo.ProgTrack.{
  exec, Manager, AckOp, setcv, wack, setbit, nakfail, after_read, itskip, startmerge, vb, callfail,
  itcb, combinelocoid, stashlocoid, to_int32, skiptarget,
}
use command_station_ex_la_bo.ProgTrack.Decoder.{Cvs, respond, has_bit}
use command_station_ex_la_bo.Prelude.{
  ℕ, ◌≡◌, refl, ap, ◌∙◌, Bool, true, false, not, List, ◌∷◌, arith, all_below, ◌≤◌, bit_or, ◌<◌,
  ◌==◌, [], ◌+◌, ◌^◌, ◌-◌, ◌*◌, ◌%◌, all_below_at,
}

-- LOCO_READ_ID_PROG: what stands behind the question for bit 5 of CV 29.
abbrev short_part : List AckOp
short_part = setcv 1 ∷ startmerge ∷ setbit 6 ∷ read_bits 7 (vb ∷ wack ∷ itcb ∷ callfail ∷ [])

abbrev low_part : List AckOp
low_part =
    setcv 18
    ∷ startmerge
    ∷ read_bits 8 (vb ∷ wack ∷ nakfail ∷ combinelocoid ∷ skiptarget ∷ short_part)

abbrev pub both_parts : List AckOp
both_parts =
    itskip ∷ setcv 17 ∷ startmerge ∷ read_bits 8 (vb ∷ wack ∷ nakfail ∷ stashlocoid ∷ low_part)

combined_table : all_below 16384 (λ x. bit_or 0x4000 x == x + 0x4000) ≡ true
unfolding all_below
combined_table = refl

fits : (w v : ℕ) → w ≡ v → v < 2 ^ 31 → to_int32 w ≡ pos v
fits w v e h = rw e (ground arith)

combined :
    (high low : ℕ)
    → 192 ≤ high
    → high < 256
    → low < 256
    → to_int32 (bit_or 0x4000 ((low + (high + 2 ^ 32 - 192) * 256) % 2 ^ 32))
      ≡ pos ((high - 192) * 256 + low + 0x4000)
combined high low a b c =
    let x = (low + (high + 2 ^ 32 - 192) * 256) % 2 ^ 32 in
    let t = all_below_at 16384 _ x combined_table (omega (arith, a, b, c)) in
    fits _ _ (ground (arith, t)) (omega (arith, b, c))

pub read_short :
    (cvs : Cvs) (m : Manager)
    → cvs 1 < 128
    → Comes
        (session respond false cvs true (record m { received = true }) both_parts)
        cvs
        (pos (cvs 1))
unfolding exec beyond
read_short cvs m b =
    let begun = record m { received = true } in
    let found = record begun { cv = 1; byte = 0; bit_num = 6 } in
    (
      _,
      skipped cvs true begun itskip _ refl
          ∙ plain cvs true begun (setcv 1) _ refl
          ∙ plain cvs true (record begun { cv = 1 }) startmerge _ refl
          ∙ plain cvs true (record begun { cv = 1; byte = 0; bit_num = 7 }) (setbit 6) _ refl
          ∙ rest_of_byte cvs true found (itcb ∷ callfail ∷ []) (omega arith) (omega arith)
              (omega (arith, b)) (omega (arith, b)) refl
          ∙ session_turn respond cvs true (read_back found (cvs 1) true) itcb (callfail ∷ []) refl,
    )

pub read_long :
    (cvs : Cvs) (m : Manager)
    → 192 ≤ cvs 17
    → cvs 17 < 256
    → cvs 18 < 256
    → Comes
        (session respond false cvs false (record m { received = false }) both_parts)
        cvs
        (pos ((cvs 17 - 192) * 256 + cvs 18 + 0x4000))
unfolding exec
read_long cvs m a b c =
    let high = record (read_back (record m { cv = 17 }) (cvs 17) true) { stash = cvs 17 } in
    let low = read_back (record high { cv = 18 }) (cvs 18) true in
    (
      low,
      plain cvs false _ itskip _ refl
          ∙ take_byte cvs false (record m { received = false }) _ 17 (omega arith) (omega arith) b
          ∙ plain cvs true _ nakfail _ refl
          ∙ plain cvs true _ stashlocoid low_part refl
          ∙ take_byte cvs true high _ 18 (omega arith) (omega arith) c
          ∙ plain cvs true _ nakfail _ refl
          ∙ session_turn respond cvs true low combinelocoid _ refl
          ∙ ap (λ v. back cvs low v) (combined (cvs 17) (cvs 18) a b c),
    )

abbrev pub asked : Manager → Bool → Manager
asked m a = record m { callback_state = after_read; cv = 29; bit_num = 5; received = a }

pub question :
    (cvs : Cvs) (ack : Bool) (m : Manager) {z : Bool}
    → not (has_bit (cvs 29) 5) ≡ z
    → session respond false cvs ack m loco_read_id_prog
      ≡ session respond false cvs z (asked m z) both_parts
unfolding loco_read_id_prog
question cvs ack m e =
    begins cvs ack m _
    ∙ take_bit cvs ack (record m { callback_state = after_read }) both_parts 29 (omega arith)
        (omega arith) 5 (omega arith)
    ∙ ap (λ a. session respond false cvs a (asked m a) both_parts) e
