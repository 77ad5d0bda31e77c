-- ===== src/ProgTrack.antt =====
-- DCCACK.h and DCCACK.cpp: the interpreter of the programs that read and write the CVs of a decoder on
-- the programming track. A program is the list of its entries from the one that `ackManagerProg` is
-- at. A number that stands behind an opcode in the array is an argument of its entry here; none is
-- 0xFF, so that a search for SKIPTARGET passes over it there too. Messages to the user are left out.
pub mod Programs
pub mod Session
pub mod Total
pub mod Polling
pub mod Decoder
pub mod Messages
pub mod Reading
pub mod Bytes
pub mod Bits
pub mod Requests
pub mod Ids
pub mod LocoId
pub mod LocoRead
pub mod LocoTrip
pub mod ConsistRead
pub mod ConsistId
pub mod Return
pub mod Settling
pub mod Retries
pub mod Pulse
pub mod Detection
mod Tests
use command_station_ex_la_bo.Prelude.{
  ℕ, zero, suc, ◌+◌, ◌-◌, ◌*◌, ◌/◌, ◌%◌, ◌^◌, ◌≤◌, ◌<◌, ◌≡◌, refl, sym, ap, ap₂, ◌∙◌, subst, ◌≢◌,
  ◌↔◌, ◌⊎◌, inl, inr, Bool, true, false, not, ◌&&◌, ◌||◌, Option, none, some, List, [], ◌∷◌, ◌++◌,
  map, append-nil, append_assoc, arith, length, length-append, get_or, get_elem?, set, take, drop,
  replicate, ltb, leb, ◌==◌, ltb→lt, lt→ltb, leb→le, ==_iff, if◌then◌else◌, Bool-cases,
  Option-cases, inr, bit_and, bit_or, bit_xor, length-set, dec_lt, dec_le, ℕ_discrete, all_below,
  length-replicate, length-take, length-drop, All, take_all, take-append, find,
}
use command_station_ex_la_bo.Prelude.Int.{ℤ, pos, negsuc}
use command_station_ex_la_bo.Dcc.Packets.{cv1, cv2, high_byte, low_byte}

pub data AckOp : Type 0 where
  baseline w0 w1 wb vb v0 v1 wack : AckOp
  itc1 itc0 itcb itcbv itcb7 nakfail callfail : AckOp
  biv startmerge merge : AckOp
  setbit setcv setbyte : ℕ → AckOp
  setbyteh setbytel stashlocoid combinelocoid : AckOp
  itskip nakskip combine1920 bad20skip fail_if_nonzero_nak skiptarget : AckOp

pub data CallbackState : Type 0 where
  after_read after_write waiting_100 waiting_30 ready : CallbackState

-- The statics of DCCACK that the interpreter uses, the power of the programming track, and whether
-- it is joined to the main track. `word` and `cv` are the patterns of 32 bits.
pub record Manager : Type 0 where
  pub start : List AckOp
  pub byte : ℕ
  pub byte_verify : ℕ
  pub stash : ℕ
  pub word : ℕ
  pub retry : ℕ
  pub retry_sum : ℕ
  pub cv : ℕ
  pub bit_num : ℕ
  pub received : Bool
  pub rejoin : Bool
  pub auto_power_off : Bool
  pub callback_state : CallbackState
  pub callback_start : ℕ
  pub power : Bool
  pub joined : Bool

-- What the loop sees from outside: the power mode, the resets sent, and the state of the ack check.
pub record Poll : Type 0 where
  pub overload : Bool
  pub resets : ℕ
  pub pending : Bool
  pub detected : Bool

abbrev pub reset_min : ℕ
reset_min = 8

abbrev pub write_byte : ℕ
write_byte = 0x7C

abbrev pub verify_byte : ℕ
verify_byte = 0x74

abbrev pub bit_manipulate : ℕ
bit_manipulate = 0x78

abbrev pub write_bit : ℕ
write_bit = 0xF0

abbrev pub verify_bit : ℕ
verify_bit = 0xE0

abbrev pub long_addr_marker : ℕ
long_addr_marker = 0x4000

pub bit_message : ℕ → Bool → Manager → List ℕ
bit_message kind on m =
    cv1 bit_manipulate m.cv
    ∷ cv2 m.cv
    ∷ bit_or (bit_or kind (if on then 0x08 else 0x00)) m.bit_num
    ∷ []

pub byte_message : ℕ → Manager → List ℕ
byte_message kind m = cv1 kind m.cv ∷ cv2 m.cv ∷ m.byte ∷ []

-- The integer that a pattern of 32 bits stands for.
abbrev pub to_int32 : ℕ → ℤ
to_int32 w = if ltb w (2 ^ 31) then pos w else negsuc (2 ^ 32 - 1 - w)

-- How one entry ends: by `return`, by `break`, by `break` after a packet was scheduled and the ack
-- check started, by `break` at the next SKIPTARGET, or by a callback and `return`.
pub data Turn : Type 0 where
  wait : Turn
  go : Manager → Turn
  send : Manager → List ℕ → Turn
  skip : Manager → Turn
  call : Manager → ℤ → Turn

abbrev pub if_resets : Poll → ℕ → Turn → Turn
if_resets p n t = if ltb p.resets n then wait else t

abbrev pub merged : Manager → Manager
merged m = record m {
  byte = if m.received then m.byte * 2 % 256 else bit_or (m.byte * 2 % 256) 1;
  bit_num = (m.bit_num + 255) % 256;
}

pub exec : Poll → Manager → AckOp → Turn
exec p m baseline =
    if p.overload
    then wait
    else if_resets p (if m.auto_power_off || m.rejoin then 20 else 3)
        (go (record m { callback_state = after_read }))
exec p m w0 =
    if_resets p reset_min
      (send (record m { callback_state = after_write }) (bit_message write_bit false m))
exec p m w1 =
    if_resets p reset_min
      (send (record m { callback_state = after_write }) (bit_message write_bit true m))
exec p m wb =
    if_resets p reset_min
      (send (record m { callback_state = after_write }) (byte_message write_byte m))
exec p m vb = if_resets p reset_min (send m (byte_message verify_byte m))
exec p m v0 = if_resets p reset_min (send m (bit_message verify_bit false m))
exec p m v1 = if_resets p reset_min (send m (bit_message verify_bit true m))
exec p m wack = if p.pending then wait else go (record m { received = p.detected })
exec p m itc0 = if m.received then call m (pos 0) else go m
exec p m itc1 = if m.received then call m (pos 1) else go m
exec p m itcb = if m.received then call m (pos m.byte) else go m
exec p m itcbv =
    if m.received
    then call
        (if m.byte == m.byte_verify then record m { retry_sum = (m.retry_sum + 1) % 65536 } else m)
        (pos m.byte)
    else go m
exec p m itcb7 = if m.received then call m (pos (m.byte % 128)) else go m
exec p m nakfail = if m.received then go m else call m (negsuc 0)
exec p m callfail = call m (negsuc 0)
exec p m biv = go (record m { byte = m.byte_verify })
exec p m startmerge = go (record m { bit_num = 7; byte = 0 })
exec p m merge = go (merged m)
exec p m (setbit n) = go (record m { bit_num = n })
exec p m (setcv n) = go (record m { cv = n })
exec p m (setbyte n) = go (record m { byte = n })
exec p m setbyteh = go (record m { byte = high_byte m.word })
exec p m setbytel = go (record m { byte = low_byte m.word })
exec p m stashlocoid = go (record m { stash = m.byte })
exec p m combinelocoid =
    call m (to_int32 (bit_or long_addr_marker ((m.byte + (m.stash + 2 ^ 32 - 192) * 256) % 2 ^ 32)))
exec p m combine1920 =
    call (record m { byte = m.byte % 128 % 100 }) (pos (m.stash * 100 + m.byte % 128 % 100))
exec p m itskip = if m.received then skip m else go m
exec p m nakskip = if m.received then go m else skip m
exec p m bad20skip = if ltb 120 m.byte then skip m else go m
exec p m fail_if_nonzero_nak = if m.byte == 0 then go m else call m (negsuc 3)
exec p m skiptarget = go m

abbrev pub is_target : AckOp → Bool
is_target skiptarget = true
is_target _ = false

-- What one call of `loop` does: the packets that it schedules, and how it returns, with the program
-- from the entry that it stays at. `runs_off` would be a read behind the end of the array.
pub data Pass : Type 0 where
  waits : Manager → List AckOp → Pass
  sends : List ℕ → Pass → Pass
  calls : Manager → List AckOp → ℤ → Pass
  runs_off : Pass

-- `skipping` says that the inner loop of a skip is on its way. Scheduling a packet starts the ack check.
pub loop : Bool → Poll → Manager → List AckOp → Pass
loop skipping p m [] = runs_off
loop true p m (op ∷ ops) = elim (is_target op) [
  | true ↦ loop false p m ops
  | false ↦ loop true p m ops
]
loop false p m (op ∷ ops) = elim (exec p m op) [
  | wait ↦ waits m (op ∷ ops)
  | go m' ↦ loop false p m' ops
  | send m' packet ↦
      sends packet (loop false (record p { pending = true; detected = false }) m' ops)
  | skip m' ↦ loop true p m' ops
  | call m' v ↦ calls m' (op ∷ ops) v
]
