-- ===== src/ProgTrack/Programs.antt =====
-- DCC.cpp: the programs, entry for entry. The entries that come in runs have a name.
use command_station_ex_la_bo.Prelude.{ℕ, zero, suc, List, [], ◌∷◌}
use command_station_ex_la_bo.ProgTrack.{AckOp}
use command_station_ex_la_bo.ProgTrack.{
  baseline, w0, w1, wb, vb, v0, v1, wack, itc1, itc0, itcb, itcbv, itcb7, nakfail, callfail, biv,
  startmerge, merge, setbit, setcv, setbyte, setbyteh, setbytel, stashlocoid, combinelocoid, itskip,
  nakskip, combine1920, bad20skip, fail_if_nonzero_nak, skiptarget,
}

-- An entry that sends a packet, and the WACK behind it.
abbrev pub after_ack : AckOp → List AckOp → List AckOp
after_ack op rest = op ∷ wack ∷ rest

-- So many times `V0, WACK, MERGE`.
abbrev pub read_bits : ℕ → List AckOp → List AckOp
read_bits zero rest = rest
read_bits (suc n) rest = v0 ∷ wack ∷ merge ∷ read_bits n rest

unfoldable pub write_bit0_prog : List AckOp
write_bit0_prog = baseline ∷ after_ack w0 (after_ack v0 (itc1 ∷ callfail ∷ []))

unfoldable pub write_bit1_prog : List AckOp
write_bit1_prog = baseline ∷ after_ack w1 (after_ack v1 (itc1 ∷ callfail ∷ []))

unfoldable pub verify_bit0_prog : List AckOp
verify_bit0_prog = baseline ∷ after_ack v0 (itc0 ∷ after_ack v1 (itc1 ∷ callfail ∷ []))

unfoldable pub verify_bit1_prog : List AckOp
verify_bit1_prog = baseline ∷ after_ack v1 (itc1 ∷ after_ack v0 (itc0 ∷ callfail ∷ []))

unfoldable pub read_bit_prog : List AckOp
read_bit_prog = baseline ∷ after_ack v1 (itc1 ∷ after_ack v0 (itc0 ∷ callfail ∷ []))

unfoldable pub write_byte_prog : List AckOp
write_byte_prog = baseline ∷ after_ack wb (itc1 ∷ after_ack vb (itc1 ∷ callfail ∷ []))

unfoldable pub verify_byte_prog : List AckOp
verify_byte_prog =
    baseline
    ∷ biv
    ∷ after_ack vb (
        itcb
        ∷ startmerge
        ∷ after_ack v0 (
            merge
            ∷ itskip
            ∷ setbit 7
            ∷ after_ack v1 (
                nakfail
                ∷ setbit 6
                ∷ skiptarget
                ∷ read_bits 7 (after_ack vb (itcbv ∷ callfail ∷ [])))))

unfoldable pub read_cv_prog : List AckOp
read_cv_prog =
    baseline
    ∷ startmerge
    ∷ after_ack v0 (
        merge
        ∷ itskip
        ∷ setbit 7
        ∷ after_ack v1
            (nakfail ∷ setbit 6 ∷ skiptarget ∷ read_bits 7 (after_ack vb (itcb ∷ callfail ∷ []))))

unfoldable pub loco_driveaway_prog : List AckOp
loco_driveaway_prog =
    baseline
    ∷ setcv 20
    ∷ setbyte 0
    ∷ after_ack vb (
        itskip
        ∷ startmerge
        ∷ read_bits 8 (
            after_ack vb (
              nakskip
              ∷ bad20skip
              ∷ stashlocoid
              ∷ setcv 19
              ∷ startmerge
              ∷ read_bits 8 (
                  after_ack vb (
                    nakfail
                    ∷ combine1920
                    ∷ skiptarget
                    ∷ setcv 19
                    ∷ setbyte 0
                    ∷ after_ack vb (
                        itskip
                        ∷ setbyte 128
                        ∷ after_ack vb (
                            itskip
                            ∷ startmerge
                            ∷ read_bits 8 (
                                after_ack vb (
                                  itcb7
                                  ∷ skiptarget
                                  ∷ setcv 29
                                  ∷ setbit 5
                                  ∷ after_ack v0 (
                                      itskip
                                      ∷ setcv 17
                                      ∷ startmerge
                                      ∷ read_bits 8 (
                                          after_ack vb (
                                            nakfail
                                            ∷ stashlocoid
                                            ∷ setcv 18
                                            ∷ startmerge
                                            ∷ read_bits 8 (
                                                after_ack vb (
                                                  nakfail
                                                  ∷ combinelocoid
                                                  ∷ skiptarget
                                                  ∷ setcv 1
                                                  ∷ startmerge
                                                  ∷ setbit 6
                                                  ∷ read_bits 7 (
                                                      after_ack vb
                                                        (itcb ∷ callfail ∷ []))))))))))))))))

unfoldable pub loco_read_id_prog : List AckOp
loco_read_id_prog =
    baseline
    ∷ setcv 29
    ∷ setbit 5
    ∷ after_ack v0 (
        itskip
        ∷ setcv 17
        ∷ startmerge
        ∷ read_bits 8 (
            after_ack vb (
              nakfail
              ∷ stashlocoid
              ∷ setcv 18
              ∷ startmerge
              ∷ read_bits 8 (
                  after_ack vb (
                    nakfail
                    ∷ combinelocoid
                    ∷ skiptarget
                    ∷ setcv 1
                    ∷ startmerge
                    ∷ setbit 6
                    ∷ read_bits 7 (after_ack vb (itcb ∷ callfail ∷ [])))))))

unfoldable pub loco_read_consist_prog : List AckOp
loco_read_consist_prog =
    baseline
    ∷ setcv 20
    ∷ setbyte 0
    ∷ after_ack vb (
        itskip
        ∷ startmerge
        ∷ read_bits 8 (
            after_ack vb (
              nakskip
              ∷ bad20skip
              ∷ stashlocoid
              ∷ setcv 19
              ∷ startmerge
              ∷ read_bits 8 (
                  after_ack vb (
                    nakfail
                    ∷ combine1920
                    ∷ skiptarget
                    ∷ setcv 19
                    ∷ setbyte 0
                    ∷ after_ack vb (
                        itc0
                        ∷ setbyte 128
                        ∷ after_ack vb (
                            itc0
                            ∷ startmerge
                            ∷ read_bits 8 (after_ack vb (itcb7 ∷ callfail ∷ [])))))))))

unfoldable pub short_loco_id_prog : List AckOp
short_loco_id_prog =
    baseline
    ∷ setcv 20
    ∷ setbyte 0
    ∷ after_ack wb (
        setcv 19
        ∷ setbyte 0
        ∷ after_ack wb (
            setcv 29
            ∷ setbit 5
            ∷ after_ack w0 (
                after_ack v0 (
                  nakfail
                  ∷ setcv 1
                  ∷ setbytel
                  ∷ after_ack wb (itc1 ∷ after_ack vb (itc1 ∷ callfail ∷ []))))))

unfoldable pub consist_id_prog : List AckOp
consist_id_prog =
    baseline
    ∷ setcv 20
    ∷ setbyteh
    ∷ after_ack wb (
        itskip
        ∷ fail_if_nonzero_nak
        ∷ skiptarget
        ∷ setcv 19
        ∷ setbytel
        ∷ after_ack wb (itc1 ∷ after_ack vb (itc1 ∷ callfail ∷ [])))

unfoldable pub long_loco_id_prog : List AckOp
long_loco_id_prog =
    baseline
    ∷ setcv 20
    ∷ setbyte 0
    ∷ after_ack wb (
        setcv 19
        ∷ setbyte 0
        ∷ after_ack wb (
            setcv 29
            ∷ setbit 5
            ∷ after_ack w1 (
                after_ack v1 (
                  nakfail
                  ∷ setcv 17
                  ∷ setbyteh
                  ∷ after_ack wb (
                      itskip
                      ∷ after_ack vb (
                          itskip
                          ∷ callfail
                          ∷ skiptarget
                          ∷ setcv 18
                          ∷ setbytel
                          ∷ after_ack wb (itc1 ∷ after_ack vb (itc1 ∷ callfail ∷ []))))))))

abbrev pub programs : List (List AckOp)
programs =
    write_bit0_prog ∷ write_bit1_prog ∷ verify_bit0_prog ∷ verify_bit1_prog ∷ read_bit_prog
    ∷ write_byte_prog ∷ verify_byte_prog ∷ read_cv_prog ∷ loco_driveaway_prog ∷ loco_read_id_prog
    ∷ loco_read_consist_prog ∷ short_loco_id_prog ∷ consist_id_prog ∷ long_loco_id_prog ∷ []
