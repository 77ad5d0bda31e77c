-- ===== src/ProgTrack/ConsistId.antt =====
-- DCC.cpp: the program that writes the address of a consist to CVs 19 and 20, and the way from
-- setConsistId to getConsistId.
use command_station_ex_la_bo.ProgTrack.ConsistRead.{consist_of, consist_read}
use command_station_ex_la_bo.ProgTrack.Ids.{put_high, put_low}
use command_station_ex_la_bo.Prelude.Int.{pos}
use command_station_ex_la_bo.ProgTrack.Session.{session, session_turn, back}
use command_station_ex_la_bo.ProgTrack.Bytes.{Comes, begins}
use command_station_ex_la_bo.ProgTrack.Reading.{beyond, skipped}
use command_station_ex_la_bo.ProgTrack.{Manager, exec, itskip, after_read, after_write, itc1}
use command_station_ex_la_bo.ProgTrack.Programs.{consist_id_prog, loco_read_consist_prog}
use command_station_ex_la_bo.Dcc.Packets.{high_byte, low_byte}
use command_station_ex_la_bo.ProgTrack.Decoder.{Cvs, update, respond}
use command_station_ex_la_bo.ProgTrack.Requests.{
  consist_cv20, consist_cv19, set_consist_id, setup_word, Track, get_consist_id, Ends, set_up,
  setup-Ends,
}
use command_station_ex_la_bo.Prelude.{
  ℕ, ◌*◌, ◌^◌, ◌≤◌, ◌≡◌, refl, ap, ◌∙◌, Bool, true, false, ◌&&◌, arith, leb, ◌==◌, bit_or,
  all_below, all_below_at, subst, sym,
}

abbrev consist_word : ℕ → Bool → ℕ
consist_word id reverse = bit_or (consist_cv20 id * 2 ^ 8) (consist_cv19 id reverse)

abbrev consist_written : Cvs → ℕ → Cvs
consist_written cvs word = update (update cvs 20 (high_byte word)) 19 (low_byte word)

abbrev word_test : Bool → ℕ → Bool
word_test reverse id =
    let w = consist_word id reverse in
    consist_of (high_byte w) (low_byte w) == id && leb (high_byte w) 120

word_table : (all_below 10240 (word_test false) && all_below 10240 (word_test true)) ≡ true
unfolding all_below consist_cv20 consist_cv19
word_table = refl

word_fact : (id : ℕ) (reverse : Bool) → id ≤ 10239 → word_test reverse id ≡ true
word_fact id true u =
    all_below_at 10240 (word_test true) id (ground (arith, word_table)) (omega arith)
word_fact id false u =
    all_below_at 10240 (word_test false) id (ground (arith, word_table)) (omega arith)

consist_written_by :
    (cvs : Cvs) (ack : Bool) (m : Manager)
    → Comes (session respond false cvs ack m consist_id_prog) (consist_written cvs m.word) (pos 1)
unfolding consist_id_prog exec beyond
consist_written_by cvs ack m =
    let begun = record m { callback_state = after_read } in
    let high = record m {
      callback_state = after_write;
      cv = 20;
      byte = high_byte m.word;
      received = true;
    } in
    let cvs' = update cvs 20 (high_byte m.word) in
    (
      _,
      begins cvs ack m _
          ∙ put_high cvs ack begun _ 20 (omega arith) (omega arith)
          ∙ skipped cvs' true high itskip _ refl
          ∙ put_low cvs' true high _ 19 (omega arith) (omega arith)
          ∙ session_turn respond (consist_written cvs m.word) true _ itc1 _ refl,
    )

set_request :
    (t : Track) (m : Manager) (id : ℕ) (reverse : Bool)
    → id ≤ 10239
    → set_consist_id t m (pos id) reverse ≡ setup_word t m (consist_word id reverse) consist_id_prog
unfolding set_consist_id
set_request t m id reverse u = ground arith

-- On a track with a driver that can measure current, before a decoder that obeys the format, whatever
-- its CVs and the states before: writing a consist address up to 10239, in either direction, calls
-- back with 1, and reading the consist address of that decoder then calls back with that address.
pub consist_id_round_trip :
    (t : Track) (cvs : Cvs) (ack : Bool) (m m' : Manager) (id : ℕ) (reverse : Bool)
    → t.has_driver ≡ true
    → t.can_measure ≡ true
    → id ≤ 10239
    → (cvs' : Cvs) × Ends ack (set_consist_id t m (pos id) reverse) cvs cvs' (pos 1)
      × Ends ack (get_consist_id t m') cvs' cvs' (pos id)
unfolding setup_word get_consist_id
consist_id_round_trip t cvs ack m m' id reverse d c u =
    let word = consist_word id reverse in
    let start = set_up t (record m { word = word }) 0 0 consist_id_prog in
    let read = set_up t m' 0 0 loco_read_consist_prog in
    let cvs' = consist_written cvs word in
    let fact = word_fact id reverse u in
    let (m1, e) = consist_read cvs' ack read (ground (arith, fact)) (omega arith) in
    (
      cvs',
      subst (λ r. Ends ack r cvs cvs' (pos 1)) (sym (set_request t m id reverse u))
          (setup-Ends ack cvs cvs' (pos 1) t _ 0 0 consist_id_prog d c
            (consist_written_by cvs ack start)),
      setup-Ends ack cvs' cvs' (pos id) t m' 0 0 loco_read_consist_prog d c
          (m1, e ∙ ap (λ v. back cvs' m1 (pos v)) (ground (arith, fact))),
    )
