-- ===== src/ProgTrack/Requests.antt =====
-- DCCACK.cpp: `Setup`; DCC.cpp: the requests for the programming track; Labox.cpp: the CVs that LaBox
-- itself takes. A CV is the pattern of 32 bits of its number. The messages of LaBox's menu are left out.
use command_station_ex_la_bo.ProgTrack.Session.{session}
use command_station_ex_la_bo.ProgTrack.Bytes.{Comes}
use command_station_ex_la_bo.ProgTrack.Decoder.{Cvs, respond}
use command_station_ex_la_bo.ProgTrack.Programs.{
  write_byte_prog, verify_byte_prog, read_cv_prog, loco_driveaway_prog, loco_read_id_prog,
  loco_read_consist_prog, write_bit1_prog, verify_bit1_prog, read_bit_prog, write_bit0_prog,
  verify_bit0_prog, short_loco_id_prog, consist_id_prog, long_loco_id_prog,
}
use command_station_ex_la_bo.Prelude.Int.{ℤ, negsuc, pos}
use command_station_ex_la_bo.ProgTrack.{Manager, AckOp}
use command_station_ex_la_bo.Prelude.{
  ℕ, ◌+◌, ◌*◌, ◌/◌, ◌%◌, ◌^◌, Bool, true, false, not, ◌||◌, List, ltb, leb, ◌==◌, if◌then◌else◌,
  bit_or, ◌≡◌,
}

-- What `Setup` asks for: the driver of a programming track, after a join is undone, whether it can
-- measure current, and the number of retries that is set.
pub record Track : Type 0 where
  pub has_driver : Bool
  pub can_measure : Bool
  pub ack_retry : ℕ

-- A request is started, or answered by its callback at once, or neither.
pub data Request : Type 0 where
  started : Manager → Request
  answered_at_once : Manager → ℤ → Request
  silent : Manager → Request

abbrev unjoined : Manager → Manager
unjoined m = record m { rejoin = m.joined; joined = false }

abbrev pub set_up : Track → Manager → (cv byte : ℕ) → List AckOp → Manager
set_up t m cv byte prog = record (unjoined m) {
  auto_power_off = not m.power;
  power = true;
  cv = cv;
  start = prog;
  retry = t.ack_retry;
  byte = byte;
  byte_verify = byte;
  bit_num = byte;
}

unfoldable pub setup : Track → Manager → (cv byte : ℕ) → List AckOp → Request
setup t m cv byte prog =
    if not t.has_driver
    then answered_at_once (unjoined m) (negsuc 2)
    else if not t.can_measure
    then answered_at_once (record (unjoined m) { joined = m.joined }) (negsuc 1)
    else started (set_up t m cv byte prog)

unfoldable pub setup_word : Track → Manager → ℕ → List AckOp → Request
setup_word t m word prog = setup t (record m { word = word }) 0 0 prog

-- With LABOX_CV_ADDRESS 1000: whether LaBox itself takes the CV.
unfoldable pub change_cvs : ℕ → Bool
change_cvs cv = cv == 1000 + 1 || cv == 1000 + 7

unfoldable pub write_cv_byte : Track → Manager → (cv byte : ℕ) → Request
write_cv_byte t m cv byte = if change_cvs cv then silent m else setup t m cv byte write_byte_prog

unfoldable pub write_cv_bit : Track → Manager → (cv bit : ℕ) → Bool → Request
write_cv_bit t m cv bit value =
    if leb 8 bit
    then answered_at_once m (negsuc 0)
    else setup t m cv bit (if value then write_bit1_prog else write_bit0_prog)

unfoldable pub verify_cv_byte : Track → Manager → (cv byte : ℕ) → Request
verify_cv_byte t m cv byte = setup t m cv byte verify_byte_prog

unfoldable pub verify_cv_bit : Track → Manager → (cv bit : ℕ) → Bool → Request
verify_cv_bit t m cv bit value =
    if leb 8 bit
    then answered_at_once m (negsuc 0)
    else setup t m cv bit (if value then verify_bit1_prog else verify_bit0_prog)

unfoldable pub read_cv_bit : Track → Manager → (cv bit : ℕ) → Request
read_cv_bit t m cv bit =
    if leb 8 bit then answered_at_once m (negsuc 0) else setup t m cv bit read_bit_prog

unfoldable pub read_cv : Track → Manager → ℕ → Request
read_cv t m cv = setup t m cv 0 read_cv_prog

unfoldable pub get_driveaway_loco_id : Track → Manager → Request
get_driveaway_loco_id t m = setup t m 0 0 loco_driveaway_prog

unfoldable pub get_loco_id : Track → Manager → Request
get_loco_id t m = setup t m 0 0 loco_read_id_prog

unfoldable pub get_consist_id : Track → Manager → Request
get_consist_id t m = setup t m 0 0 loco_read_consist_prog

unfoldable pub set_loco_id : Track → Manager → ℤ → Request
set_loco_id t m (negsuc _) = answered_at_once m (negsuc 0)
set_loco_id t m (pos id) =
    if ltb id 1 || ltb 10239 id
    then answered_at_once m (negsuc 0)
    else if leb id 127
    then setup_word t m id short_loco_id_prog
    else setup_word t m (bit_or id 0xC000) long_loco_id_prog

-- CV 20 and CV 19 of a consist id.
unfoldable pub consist_cv20 : ℕ → ℕ
consist_cv20 id = if leb id 127 then 0 else id / 100

unfoldable pub consist_cv19 : ℕ → Bool → ℕ
consist_cv19 id reverse =
    let cv19 = if leb id 127 then id else id % 100 in if reverse then bit_or cv19 0x80 else cv19

unfoldable pub set_consist_id : Track → Manager → ℤ → Bool → Request
set_consist_id t m (negsuc _) reverse = answered_at_once m (negsuc 0)
set_consist_id t m (pos id) reverse =
    if ltb 10239 id
    then answered_at_once m (negsuc 0)
    else setup_word t m (bit_or (consist_cv20 id * 2 ^ 8) (consist_cv19 id reverse)) consist_id_prog

-- A request whose program runs to its callback leaves the decoder these CVs, and answers this value.
abbrev pub Ends : Bool → Request → Cvs → Cvs → ℤ → Type 0
Ends ack (started m) cvs cvs' v = Comes (session respond false cvs ack m m.start) cvs' v
Ends ack _ cvs cvs' v = ⊥

pub setup-Ends :
    (ack : Bool) (cvs cvs' : Cvs) (v : ℤ) (t : Track) (m : Manager) (cv byte : ℕ)
    (prog : List AckOp)
    → t.has_driver ≡ true
    → t.can_measure ≡ true
    → Comes (session respond false cvs ack (set_up t m cv byte prog) prog) cvs' v
    → Ends ack (setup t m cv byte prog) cvs cvs' v
unfolding setup
setup-Ends ack cvs cvs' v t m cv byte prog d c e = rw (d, c) e
