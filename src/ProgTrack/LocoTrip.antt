-- ===== src/ProgTrack/LocoTrip.antt =====
-- DCC.cpp: setLocoId and getLocoId, from the request to the callback.
use command_station_ex_la_bo.ProgTrack.LocoRead.{read_short, read_long, asked, question}
use command_station_ex_la_bo.ProgTrack.LocoId.{
  short_written, long_written, short_written_by, long_written_by,
}
use command_station_ex_la_bo.ProgTrack.Requests.{
  set_loco_id, Track, Ends, setup_word, get_loco_id, set_up, setup-Ends,
}
use command_station_ex_la_bo.Prelude.Int.{pos, ℤ}
use command_station_ex_la_bo.ProgTrack.Programs.{
  short_loco_id_prog, long_loco_id_prog, loco_read_id_prog,
}
use command_station_ex_la_bo.ProgTrack.Bits.{written}
use command_station_ex_la_bo.ProgTrack.Session.{back}
use command_station_ex_la_bo.ProgTrack.{Manager}
use command_station_ex_la_bo.ProgTrack.Decoder.{Cvs}
use command_station_ex_la_bo.Prelude.{
  ℕ, ◌≡◌, refl, ap, ◌∙◌, Bool, true, false, not, arith, if◌then◌else◌, all_below, ◌≤◌, bit_or, ◌<◌,
  ◌==◌, ◌+◌, all_below_at, leb, subst, sym, dec_le,
}

long_table : all_below 10240 (λ x. bit_or x 0xC000 == x + 0xC000) ≡ true
unfolding all_below
long_table = refl

long_word : (id : ℕ) → id ≤ 10239 → bit_or id 0xC000 ≡ id + 0xC000
long_word id u = let t = all_below_at 10240 _ id long_table (omega arith) in ground (arith, t)

short_request :
    (t : Track) (m : Manager) (id : ℕ)
    → 0 < id
    → id ≤ 127
    → set_loco_id t m (pos id) ≡ setup_word t m id short_loco_id_prog
unfolding set_loco_id
short_request t m id l u = ground arith

long_request :
    (t : Track) (m : Manager) (id : ℕ)
    → 127 < id
    → id ≤ 10239
    → set_loco_id t m (pos id) ≡ setup_word t m (id + 0xC000) long_loco_id_prog
unfolding set_loco_id
long_request t m id l u = ground (arith, long_word id u)

-- The value that the address is read back as: a long address carries LONG_ADDR_MARKER.
abbrev pub read_as : ℕ → ℤ
read_as id = pos (if leb id 127 then id else id + 0x4000)

module _ (t : Track) (d : t.has_driver ≡ true) (c : t.can_measure ≡ true) (cvs : Cvs) (ack : Bool)
    (m m' : Manager) (id : ℕ) where
  abbrev Trip : Type 0
  Trip =
      (cvs' : Cvs) × Ends ack (set_loco_id t m (pos id)) cvs cvs' (pos 1)
      × Ends ack (get_loco_id t m') cvs' cvs' (read_as id)

  short_trip : 0 < id → id ≤ 127 → Trip
  unfolding setup_word get_loco_id
  short_trip l u =
      let start = set_up t (record m { word = id }) 0 0 short_loco_id_prog in
      let read = set_up t m' 0 0 loco_read_id_prog in
      let cvs' = short_written cvs id in
      let (m1, e) = read_short cvs' (asked read true) (omega (arith, u)) in
      (
        cvs',
        subst (λ r. Ends ack r cvs cvs' (pos 1)) (sym (short_request t m id l u))
            (setup-Ends ack cvs cvs' (pos 1) t _ 0 0 short_loco_id_prog d c
              (short_written_by cvs ack start)),
        setup-Ends ack cvs' cvs' (read_as id) t m' 0 0 loco_read_id_prog d c (
          m1,
          question cvs' ack read (ap not (written (cvs 29) 5 false (omega arith)))
              ∙ e
              ∙ ap (λ v. back cvs' m1 v) (ap pos (ground (arith, u))),
        ),
      )

  long_trip : 127 < id → id ≤ 10239 → Trip
  unfolding setup_word get_loco_id
  long_trip l u =
      let start = set_up t (record m { word = id + 0xC000 }) 0 0 long_loco_id_prog in
      let read = set_up t m' 0 0 loco_read_id_prog in
      let cvs' = long_written cvs (id + 0xC000) in
      let (m1, e) =
        read_long cvs' (asked read false) (omega (arith, u)) (omega (arith, u)) (omega arith) in
      (
        cvs',
        subst (λ r. Ends ack r cvs cvs' (pos 1)) (sym (long_request t m id l u))
            (setup-Ends ack cvs cvs' (pos 1) t _ 0 0 long_loco_id_prog d c
              (long_written_by cvs ack start)),
        setup-Ends ack cvs' cvs' (read_as id) t m' 0 0 loco_read_id_prog d c (
          m1,
          question cvs' ack read (ap not (written (cvs 29) 5 true (omega arith)))
              ∙ e
              ∙ ap (λ v. back cvs' m1 v) (ap pos (ground (arith, l, u))),
        ),
      )

-- On a track with a driver that can measure current, before a decoder that obeys the format, whatever
-- its CVs and the states before: writing an address from 1 to 10239 calls back with 1, and reading the
-- address of that decoder then calls back with the address, a long one with LONG_ADDR_MARKER added.
pub loco_id_round_trip :
    (t : Track) (cvs : Cvs) (ack : Bool) (m m' : Manager) (id : ℕ)
    → t.has_driver ≡ true
    → t.can_measure ≡ true
    → 0 < id
    → id ≤ 10239
    → (cvs' : Cvs) × Ends ack (set_loco_id t m (pos id)) cvs cvs' (pos 1)
      × Ends ack (get_loco_id t m') cvs' cvs' (read_as id)
loco_id_round_trip t cvs ack m m' id d c l u = elim (dec_le id 127) [
  | yes h ↦ short_trip t d c cvs ack m m' id l h
  | no h ↦ long_trip t d c cvs ack m m' id (omega (arith, h)) u
]
