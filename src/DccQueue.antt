-- ===== src/DccQueue.antt =====
-- DCCQueue.h and DCCQueue.cpp: the two queues of packets for the main track, and the free list from
-- which their slots come. A queue is the list of its slots from `head` to `tail`; `remove(p)` inside
-- a loop takes out the slot that the loop is at. The clock is an argument, and stands still in a call.
pub mod Calls
pub mod Conserve
pub mod Spacing
pub mod Estop
pub mod Coalesce
pub mod Queued
pub mod Accessory
mod Tests
use command_station_ex_la_bo.Prelude.{
  ℕ, suc, ◌+◌, ◌-◌, ◌*◌, ◌/◌, ◌%◌, ◌^◌, Bool, true, false, not, ◌&&◌, ◌||◌, List, [], ◌∷◌, ◌++◌,
  Option, none, some, ltb, ◌==◌, if◌then◌else◌, get_or, set, take, drop, replicate, bit_and,
}

pub data PendingType : Type 0 where
  normal_packet function1_packet function2_packet function3_packet : PendingType
  function4_packet function5_packet speed_packet acc_on_packet acc_off_packet dead_packet :
      PendingType

-- The place of a type in the enumeration.
abbrev pub code : PendingType → ℕ
code normal_packet = 0
code function1_packet = 1
code function2_packet = 2
code function3_packet = 3
code function4_packet = 4
code function5_packet = 5
code speed_packet = 6
code acc_on_packet = 7
code acc_off_packet = 8
code dead_packet = 9

abbrev pub max_packet_size : ℕ
max_packet_size = 5

-- `word` is the union at the end of the struct, as a 32-bit word. The targets are little-endian: the
-- two 16-bit members are its low half.
pub record PendingSlot : Type 0 where
  pub type : PendingType
  pub packet_length : ℕ
  pub packet_repeat : ℕ
  pub packet : List ℕ
  pub word : ℕ

abbrev pub loco_id : PendingSlot → ℕ
loco_id p = p.word % 65536

abbrev pub delay_off : PendingSlot → ℕ
delay_off p = p.word % 65536

abbrev pub start_time : PendingSlot → ℕ
start_time p = p.word

-- A store to a 16-bit member.
abbrev pub set_low : ℕ → ℕ → ℕ
set_low w v = w / 65536 * 65536 + v % 65536

-- `memcpy(dst, src, n)` into a buffer.
abbrev pub memcpy : List ℕ → List ℕ → ℕ → List ℕ
memcpy dst src n = take n src ++ drop n dst

-- `created` is the static of `getSlot`.
pub record Queues : Type 0 where
  pub high : List PendingSlot
  pub low : List PendingSlot
  pub recycled : List PendingSlot
  pub created : ℕ
  pub last_sent : ℕ

pub start : Queues
start = record { high = []; low = []; recycled = []; created = 0; last_sent = 0 }

-- What is handed to `DCCWaveform::mainTrack.schedulePacket`.
pub record Packet : Type 0 where
  pub bytes : List ℕ
  pub repeats : ℕ

abbrev pub add_queue : List PendingSlot → PendingSlot → List PendingSlot
add_queue q p = q ++ p ∷ []

abbrev pub jump_queue : List PendingSlot → PendingSlot → List PendingSlot
jump_queue q p = p ∷ q

-- A new slot holds any bytes until the packet is copied into it; zeros stand for them here.
blank : PendingSlot
blank = record {
  type = dead_packet;
  packet_length = 0;
  packet_repeat = 0;
  packet = replicate max_packet_size 0;
  word = 0;
}

pub fill : PendingSlot → PendingType → List ℕ → ℕ → ℕ → ℕ → PendingSlot
fill p type packet length repeats loco =
    let n = if ltb max_packet_size length then max_packet_size else length in
    record {
      type = type;
      packet_length = length;
      packet_repeat = repeats;
      packet = memcpy p.packet packet n;
      word = set_low 0 loco;
    }

pub get_slot : Queues → PendingType → List ℕ → ℕ → ℕ → ℕ → Queues × PendingSlot
unfolding fill blank
get_slot q type packet length repeats loco = elim q.recycled [
  | [] ↦ (record q { created = q.created + 1 }, fill blank type packet length repeats loco)
  | p ∷ ps ↦ (record q { recycled = ps }, fill p type packet length repeats loco)
]

pub schedule_dcc_packet : Queues → List ℕ → ℕ → ℕ → ℕ → Queues
schedule_dcc_packet q packet length repeats loco =
    let (q1, p) = get_slot q normal_packet packet length repeats loco in
    record q1 { low = add_queue q1.low p }

-- The packet of the first slot that passes the test is replaced; `none` when there is no such slot.
pub replace : (PendingSlot → Bool) → List ℕ → ℕ → ℕ → List PendingSlot → Option (List PendingSlot)
replace test packet length repeats [] = none
replace test packet length repeats (p ∷ ps) =
    let rest = replace test packet length repeats ps in
    if test p
    then some (
        record p {
          packet = memcpy p.packet packet length;
          packet_length = length;
          packet_repeat = repeats;
        }
        ∷ ps)
    else elim rest [ none ↦ none | some qs ↦ some (p ∷ qs) ]

abbrev pub for_loco : ℕ → PendingSlot → Bool
for_loco loco p = loco_id p == loco

pub schedule_dcc_speed_packet : Queues → List ℕ → ℕ → ℕ → ℕ → Queues
schedule_dcc_speed_packet q packet length repeats loco =
    let (q1, p) = get_slot q speed_packet packet length repeats loco in
    elim (replace (for_loco loco) packet length repeats q.high) [
      | some high ↦ record q { high = high }
      | none ↦ record q1 { high = add_queue q1.high p }
    ]

abbrev pub function_type : ℕ → Option PendingType
function_type group =
    if group == 1
    then some function1_packet
    else if group == 2
    then some function2_packet
    else if group == 3
    then some function3_packet
    else if group == 4
    then some function4_packet
    else if group == 5
    then some function5_packet
    else none

abbrev pub for_function : ℕ → PendingType → PendingSlot → Bool
for_function loco type p = loco_id p == loco && code p.type == code type

-- An unknown group only gives a message.
pub schedule_dcc_function_packet : Queues → List ℕ → ℕ → ℕ → ℕ → Queues
schedule_dcc_function_packet q packet length loco group = elim (function_type group) [
  | none ↦ q
  | some type ↦
      let (q1, p) = get_slot q type packet length 0 loco in
      elim (replace (for_function loco type) packet length 0 q.low) [
        | some low ↦ record q { low = low }
        | none ↦ record q1 { low = add_queue q1.low p }
      ]
]

abbrev pub is_acc_off : PendingSlot → Bool
is_acc_off p = code p.type == code acc_off_packet

-- The slots that an emergency stop discards.
abbrev pub discards : ℕ → PendingSlot → Bool
discards loco p = not (is_acc_off p) && (loco == 0 || loco_id p == loco)

-- The discarded slots go one by one onto the free list.
pub discard : ℕ → List PendingSlot → List PendingSlot → List PendingSlot × List PendingSlot
discard loco [] recycled = ([], recycled)
discard loco (p ∷ ps) recycled =
    let (kept, rest) = discard loco ps (if discards loco p then p ∷ recycled else recycled) in
    (if discards loco p then kept else p ∷ kept, rest)

pub schedule_estop_packet : Queues → List ℕ → ℕ → ℕ → ℕ → Queues
schedule_estop_packet q packet length repeats loco =
    let (kept, rest) = discard loco q.high q.recycled in
    let (q1, p) =
      get_slot (record q { high = kept; recycled = rest }) speed_packet packet length repeats 0 in
    record q1 { high = jump_queue q1.high p }

pub schedule_acc_on_off_packet : Queues → List ℕ → ℕ → ℕ → ℕ → Queues
schedule_acc_on_off_packet q packet length repeats delay =
    let (q1, p) = get_slot q acc_on_packet packet length repeats 0 in
    record q1 { low = add_queue q1.low (record p { word = set_low p.word delay }) }

-- What one pass over a queue found: the queue afterwards, the slot whose packet it sent, the slot that
-- it took out, the packet that it sent, and the new `lastSentPacketLocoId`.
pub record Picked : Type 0 where
  pub queue : List PendingSlot
  pub slot : PendingSlot
  pub removed : Option PendingSlot
  pub sent : Packet
  pub last : ℕ

abbrev pub behind : PendingSlot → Option Picked → Option Picked
behind p none = none
behind p (some k) = some (record k { queue = p ∷ k.queue })

-- A slot that may not be sent yet: a coil-off that is not due, or the loco that was sent last.
abbrev pub must_wait : ℕ → ℕ → PendingSlot → Bool
must_wait now last p =
    (is_acc_off p && ltb now (start_time p)) || (not (loco_id p == 0) && loco_id p == last)

abbrev pub bytes_of : PendingSlot → List ℕ
bytes_of p = take p.packet_length p.packet

abbrev pub send : PendingSlot → List PendingSlot → Picked
send p ps =
    if loco_id p == 0
    then record {
      queue = ps;
      slot = p;
      removed = some p;
      sent = record { bytes = bytes_of p; repeats = p.packet_repeat };
      last = 0;
    }
    else if p.packet_repeat == 0
    then record {
      queue = ps;
      slot = p;
      removed = some p;
      sent = record { bytes = bytes_of p; repeats = 0 };
      last = loco_id p;
    }
    else record {
      queue = record p { packet_repeat = p.packet_repeat - 1 } ∷ ps;
      slot = p;
      removed = none;
      sent = record { bytes = bytes_of p; repeats = 0 };
      last = loco_id p;
    }

pub pick : ℕ → ℕ → List PendingSlot → Option Picked
pick now last [] = none
pick now last (p ∷ ps) =
    let rest = pick now last ps in if must_wait now last p then behind p rest else some (send p ps)

-- A coil-on that has been sent becomes the coil-off, due after its delay.
abbrev pub to_acc_off : ℕ → PendingSlot → PendingSlot
to_acc_off now p = record p {
  type = acc_off_packet;
  packet = set p.packet 1 (bit_and (get_or p.packet 1 0) 0xF7);
  word = (now + delay_off p) % 2 ^ 32;
}

abbrev pub is_acc_on : PendingSlot → Bool
is_acc_on p = code p.type == code acc_on_packet

abbrev pub retire : ℕ → Option PendingSlot → Queues → Queues
retire now none q = q
retire now (some p) q =
    if is_acc_on p
    then record q { high = jump_queue q.high (to_acc_off now p) }
    else record q { recycled = p ∷ q.recycled }

pub next_high : ℕ → Queues → Option (Queues × Packet)
next_high now q = elim (pick now q.last_sent q.high) [
  | none ↦ none
  | some k ↦ some (retire now k.removed (record q { high = k.queue; last_sent = k.last }), k.sent)
]

pub next_low : ℕ → Queues → Option (Queues × Packet)
next_low now q = elim (pick now q.last_sent q.low) [
  | none ↦ none
  | some k ↦ some (retire now k.removed (record q { low = k.queue; last_sent = k.last }), k.sent)
]

abbrev pub idle_packet : Packet
idle_packet = record { bytes = 0xFF ∷ 0x00 ∷ []; repeats = 0 }

-- `none` is the result false: nothing was sent.
pub schedule_next : ℕ → Bool → Queues → Option (Queues × Packet)
schedule_next now force q = elim (next_high now q) [
  | some r ↦ some r
  | none ↦ elim (next_low now q) [
    | some r ↦ some r
    | none ↦ if force then some (record q { last_sent = 0 }, idle_packet) else none
  ]
]
