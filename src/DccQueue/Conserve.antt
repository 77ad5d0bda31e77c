-- ===== src/DccQueue/Conserve.antt =====
-- DCCQueue.cpp: no slot is lost and none is in two places. The code checks this itself when it makes
-- a slot, and reports a leak.
use command_station_ex_la_bo.DccQueue.Calls.{
  step, Call, next, run, normal, speed, function, estop, acc_on_off,
}
use command_station_ex_la_bo.Prelude.{
  ℕ, ◌+◌, ◌≡◌, refl, inl, inr, Bool, Option, none, some, List, [], ◌∷◌, arith, length,
  length-append, Option-cases,
}
use command_station_ex_la_bo.DccQueue.{
  PendingSlot, PendingType, Queues, get_slot, replace, discard, pick, Picked, retire,
  schedule_dcc_packet, schedule_dcc_speed_packet, normal_packet, speed_packet, for_loco,
  schedule_dcc_function_packet, schedule_estop_packet, schedule_acc_on_off_packet, next_high,
  next_low, schedule_next, start, function_type, acc_on_packet, Packet, for_function, set_low,
}

-- Every slot that was made is in one of the three lists.
abbrev pub IsConserved : Queues → Type 0
IsConserved q = length q.high + length q.low + length q.recycled ≡ q.created

-- A fresh slot is one more than the lists hold.
get_slot_count :
    (q : Queues) (t : PendingType) (b : List ℕ) (l r c : ℕ)
    → let (q1, p) = get_slot q t b l r c in
      (q1.high ≡ q.high)
      × (q1.low ≡ q.low)
      × (length q1.recycled + 1 + q.created ≡ q1.created + length q.recycled)
unfolding get_slot
get_slot_count q t b l r c = ground arith

length-replace :
    (t : PendingSlot → Bool) (b : List ℕ) (l r : ℕ) (ps : List PendingSlot) {qs : List PendingSlot}
    → replace t b l r ps ≡ some qs
    → length qs ≡ length ps
unfolding replace
length-replace t b l r [] e = cc
length-replace t b l r (p ∷ ps) e = elim (Option-cases (replace t b l r ps)) [
  | inl n ↦ ground arith
  | inr (qs, f) ↦ ground (arith, length-replace t b l r ps f)
]

discard_count :
    (c : ℕ) (ps rs : List PendingSlot)
    → let (kept, rest) = discard c ps rs in length kept + length rest ≡ length ps + length rs
unfolding discard
discard_count c [] rs = omega arith
discard_count c (p ∷ ps) rs = ground (arith, discard_count c ps rs, discard_count c ps (p ∷ rs))

abbrev taken : Option PendingSlot → ℕ
taken none = 0
taken (some p) = 1

pick_count :
    (now last : ℕ) (ps : List PendingSlot) {k : Picked}
    → pick now last ps ≡ some k
    → length k.queue + taken k.removed ≡ length ps
unfolding pick
pick_count now last [] e = cc
pick_count now last (p ∷ ps) e = elim (Option-cases (pick now last ps)) [
  | inl n ↦ ground arith
  | inr (k, f) ↦ ground (arith, pick_count now last ps f)
]

retire_count :
    (now : ℕ) (o : Option PendingSlot) (q : Queues)
    → length (retire now o q).high + length (retire now o q).low + length (retire now o q).recycled
      ≡ length q.high + length q.low + length q.recycled + taken o
retire_count now none q = omega arith
retire_count now (some p) q = ground arith

retire_created :
    (now : ℕ) (o : Option PendingSlot) (q : Queues) → (retire now o q).created ≡ q.created
retire_created now none q = refl
retire_created now (some p) q = ground arith

normal_keeps :
    (q : Queues) (b : List ℕ) (l r c : ℕ)
    → IsConserved q
    → IsConserved (schedule_dcc_packet q b l r c)
unfolding schedule_dcc_packet
normal_keeps q b l r c h =
    let (q1, p) = get_slot q normal_packet b l r c in
    ground (arith, get_slot_count q normal_packet b l r c, length-append q1.low (p ∷ []))

speed_keeps :
    (q : Queues) (b : List ℕ) (l r c : ℕ)
    → IsConserved q
    → IsConserved (schedule_dcc_speed_packet q b l r c)
unfolding schedule_dcc_speed_packet
speed_keeps q b l r c h =
    let (q1, p) = get_slot q speed_packet b l r c in
    elim (Option-cases (replace (for_loco c) b l r q.high)) [
      | inl n ↦
          ground (arith, get_slot_count q speed_packet b l r c, length-append q1.high (p ∷ []))
      | inr (hs, f) ↦ ground (arith, length-replace (for_loco c) b l r q.high f)
    ]

function_keeps :
    (q : Queues) (b : List ℕ) (l c g : ℕ)
    → IsConserved q
    → IsConserved (schedule_dcc_function_packet q b l c g)
unfolding schedule_dcc_function_packet
function_keeps q b l c g h = elim (Option-cases (function_type g)) [
  | inl n ↦ rw (n, schedule_dcc_function_packet) h
  | inr (t, e) ↦
      let (q1, p) = get_slot q t b l 0 c in
      elim (Option-cases (replace (for_function c t) b l 0 q.low)) [
        | inl n ↦
            rw (e, schedule_dcc_function_packet, n)
              (ground (arith, get_slot_count q t b l 0 c, length-append q1.low (p ∷ [])))
        | inr (ls, f) ↦
            rw (e, schedule_dcc_function_packet, f)
              (ground (arith, length-replace (for_function c t) b l 0 q.low f))
      ]
]

estop_keeps :
    (q : Queues) (b : List ℕ) (l r c : ℕ)
    → IsConserved q
    → IsConserved (schedule_estop_packet q b l r c)
unfolding schedule_estop_packet
estop_keeps q b l r c h =
    let (kept, rest) = discard c q.high q.recycled in
    ground (
      arith,
      discard_count c q.high q.recycled,
      get_slot_count (record q { high = kept; recycled = rest }) speed_packet b l r 0,
    )

acc_keeps :
    (q : Queues) (b : List ℕ) (l r d : ℕ)
    → IsConserved q
    → IsConserved (schedule_acc_on_off_packet q b l r d)
unfolding schedule_acc_on_off_packet
acc_keeps q b l r d h =
    let (q1, p) = get_slot q acc_on_packet b l r 0 in
    ground (
      arith,
      get_slot_count q acc_on_packet b l r 0,
      length-append q1.low (record p { word = set_low p.word d } ∷ []),
    )

next_high_keeps :
    (now : ℕ) (q : Queues) {r : Queues × Packet}
    → IsConserved q
    → next_high now q ≡ some r
    → IsConserved r.0
unfolding next_high
next_high_keeps now q h e = elim (Option-cases (pick now q.last_sent q.high)) [
  | inl n ↦ ground arith
  | inr (k, f) ↦
      let q' = record q { high = k.queue; last_sent = k.last } in
      ground (
        arith,
        pick_count now q.last_sent q.high f,
        retire_count now k.removed q',
        retire_created now k.removed q',
      )
]

next_low_keeps :
    (now : ℕ) (q : Queues) {r : Queues × Packet}
    → IsConserved q
    → next_low now q ≡ some r
    → IsConserved r.0
unfolding next_low
next_low_keeps now q h e = elim (Option-cases (pick now q.last_sent q.low)) [
  | inl n ↦ ground arith
  | inr (k, f) ↦
      let q' = record q { low = k.queue; last_sent = k.last } in
      ground (
        arith,
        pick_count now q.last_sent q.low f,
        retire_count now k.removed q',
        retire_created now k.removed q',
      )
]

next_keeps :
    (now : ℕ) (force : Bool) (q : Queues) → IsConserved q → IsConserved (step q (next now force)).0
unfolding schedule_next step
next_keeps now force q h = elim (Option-cases (next_high now q)) [
  | inr (r, f) ↦ ground (arith, next_high_keeps now q h f)
  | inl n ↦ elim (Option-cases (next_low now q)) [
    | inr (r, f) ↦ ground (arith, next_low_keeps now q h f)
    | inl m ↦ ground arith
  ]
]

-- Each call keeps every slot that was made in exactly one of the queues and the free list.
pub step-IsConserved : (q : Queues) (c : Call) → IsConserved q → IsConserved (step q c).0
unfolding step
step-IsConserved q (normal b l r c) h = normal_keeps q b l r c h
step-IsConserved q (speed b l r c) h = speed_keeps q b l r c h
step-IsConserved q (function b l c g) h = function_keeps q b l c g h
step-IsConserved q (estop b l r c) h = estop_keeps q b l r c h
step-IsConserved q (acc_on_off b l r d) h = acc_keeps q b l r d h
step-IsConserved q (next now force) h = next_keeps now force q h

run-IsConserved : (q : Queues) (cs : List Call) → IsConserved q → IsConserved (run q cs)
unfolding run
run-IsConserved q [] h = h
run-IsConserved q (c ∷ cs) h = run-IsConserved (step q c).0 cs (step-IsConserved q c h)

-- After any calls from the start, the slots that were made are as many as those in the two queues
-- and on the free list together: none leaks.
pub run_no_leak :
    (cs : List Call)
    → let q = run start cs in length q.high + length q.low + length q.recycled ≡ q.created
unfolding start
run_no_leak cs = run-IsConserved start cs (omega arith)
