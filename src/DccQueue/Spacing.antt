-- ===== src/DccQueue/Spacing.antt =====
-- DCCQueue::scheduleNext: which packet goes next. No loco gets two packets in a row.
use command_station_ex_la_bo.DccQueue.Calls.{
  step, Call, normal, speed, function, estop, acc_on_off, next,
}
use command_station_ex_la_bo.Prelude.{
  ℕ, ◌≡◌, refl, ap, ◌≢◌, ◌⊎◌, inl, inr, true, false, some, List, [], ◌∷◌, ◌++◌, arith, Bool-cases,
  Option-cases, All, Option, none, Bool, subst, ◌%◌, take, sym,
}
use command_station_ex_la_bo.DccQueue.{
  PendingSlot, Picked, pick, send, must_wait, schedule_next, Queues, retire, next_high, next_low,
  Packet, get_slot, schedule_dcc_packet, schedule_dcc_speed_packet, schedule_dcc_function_packet,
  schedule_estop_packet, schedule_acc_on_off_packet, PendingType, normal_packet, speed_packet,
  function_type, discard, acc_on_packet, bytes_of, idle_packet, loco_id,
}

-- A queue's choice: the slots before it must wait, it need not, and only it is touched.
pub record Chosen (now last : ℕ) (ps : List PendingSlot) (k : Picked) : Type 0 where
  pub before : List PendingSlot
  pub slot : PendingSlot
  pub after : List PendingSlot
  pub split : ps ≡ before ++ slot ∷ after
  pub waiting : All (λ p. must_wait now last p ≡ true) before
  pub ready : must_wait now last slot ≡ false
  pub outcome : k ≡ record (send slot after) { queue = before ++ (send slot after).queue }

-- Where a queue offers a slot, it is the first that need not wait; the slots before it all must
-- wait, and but for it the queue is as it was.
pub pick-Chosen :
    (now last : ℕ) (ps : List PendingSlot) {k : Picked}
    → pick now last ps ≡ some k
    → Chosen now last ps k
unfolding pick
pick-Chosen now last [] e = cc
pick-Chosen now last (p ∷ ps) e = elim (Bool-cases (must_wait now last p)) [
  | inl w ↦ elim (Option-cases (pick now last ps)) [
    | inl n ↦ absurd (ground arith)
    | inr (k', f) ↦
        let c = pick-Chosen now last ps f in
        record {
          before = p ∷ c.before;
          slot = c.slot;
          after = c.after;
          split = ap (◌∷◌ p) c.split;
          waiting = (w, c.waiting);
          ready = c.ready;
          outcome = ground arith;
        }
  ]
  | inr g ↦ record {
    before = [];
    slot = p;
    after = ps;
    split = refl;
    waiting = tt;
    ready = g;
    outcome = ground arith;
  }
]

-- A queue has the slot.
abbrev pub Holds : List PendingSlot → PendingSlot → Type 0
Holds ps s = (xs : List PendingSlot) × (ys : List PendingSlot) × (ps ≡ xs ++ s ∷ ys)

-- The slot that a queue offers is one of its own; its packet is sent, and its loco, which is recorded,
-- is not the one served last.
pub pick_slot :
    (now last : ℕ) (ps : List PendingSlot) {k : Picked}
    → pick now last ps ≡ some k
    → Holds ps k.slot
      × (k.sent.bytes ≡ bytes_of k.slot)
      × (k.last ≡ loco_id k.slot)
      × ((loco_id k.slot ≡ 0) ⊎ (loco_id k.slot ≢ last))
pick_slot now last ps {k} e =
    let c = pick-Chosen now last ps e in
    let same : k.slot ≡ c.slot = ground (arith, c.outcome) in
    (
      subst (Holds ps) (sym same) (c.before, c.after, c.split),
      rw same (ground (arith, c.outcome)),
      rw same (ground (arith, c.outcome)),
      rw same (ground (arith, c.ready)),
    )

retire_last :
    (now : ℕ) (o : Option PendingSlot) (q : Queues) → (retire now o q).last_sent ≡ q.last_sent
retire_last now none q = refl
retire_last now (some p) q = ground arith

-- The slot whose packet `scheduleNext` sends; `none` where neither queue has one to send.
unfoldable pub slot_sent : ℕ → Queues → Option PendingSlot
slot_sent now q = elim (pick now q.last_sent q.high) [
  | some k ↦ some k.slot
  | none ↦ elim (pick now q.last_sent q.low) [ some k ↦ some k.slot | none ↦ none ]
]

-- The loco of a slot; 0 for no slot.
abbrev pub loco_of : Option PendingSlot → ℕ
loco_of none = 0
loco_of (some s) = s.word % 65536

-- What is sent: the packet of a slot that was in one of the queues, or for no slot the idle packet.
abbrev pub Told : Queues × Option PendingSlot × Packet → Type 0
Told (q, none, p) = p ≡ idle_packet
Told (q, some s, p) = (Holds q.high s ⊎ Holds q.low s) × (p.bytes ≡ take s.packet_length s.packet)

-- What one call leaves behind with its packet.
abbrev Sends : Queues → Queues → Packet → Option PendingSlot → Type 0
Sends q q' p s =
    Told (q, s, p) × (q'.last_sent ≡ loco_of s) × ((loco_of s ≡ 0) ⊎ (loco_of s ≢ q.last_sent))

-- One call of `scheduleNext` that sends, whichever queue serves it.
pub next_sent :
    (now : ℕ) (force : Bool) (q : Queues) {q' : Queues} {p : Packet}
    → schedule_next now force q ≡ some (q', p)
    → Sends q q' p (slot_sent now q)
unfolding schedule_next next_high next_low slot_sent
next_sent now force q {q'} {p} e = elim (Option-cases (pick now q.last_sent q.high)) [
  | inr (k, f) ↦
      let (held, sent, last, spaced) = pick_slot now q.last_sent q.high f in
      let kept = retire_last now k.removed (record q { high = k.queue; last_sent = k.last }) in
      let here : slot_sent now q ≡ some k.slot = ground (arith, f) in
      subst (Sends q q' p) (sym here)
        ((inl held, ground (arith, e, f, sent)), ground (arith, e, f, kept, last), spaced)
  | inl n ↦ elim (Option-cases (pick now q.last_sent q.low)) [
    | inr (k, f) ↦
        let (held, sent, last, spaced) = pick_slot now q.last_sent q.low f in
        let kept = retire_last now k.removed (record q { low = k.queue; last_sent = k.last }) in
        let here : slot_sent now q ≡ some k.slot = ground (arith, n, f) in
        subst (Sends q q' p) (sym here)
          ((inr held, ground (arith, e, n, f, sent)), ground (arith, e, n, f, kept, last), spaced)
    | inl m ↦
        let here : slot_sent now q ≡ none = ground (arith, n, m) in
        subst (Sends q q' p) (sym here) (ground (arith, e, n, m), ground (arith, e, n, m), inl refl)
  ]
]

-- The slot whose packet a call sends.
abbrev call_slot : Queues → Call → Option PendingSlot
call_slot q (next now force) = slot_sent now q
call_slot q (normal b l r c) = none
call_slot q (speed b l r c) = none
call_slot q (function b l c g) = none
call_slot q (estop b l r c) = none
call_slot q (acc_on_off b l r d) = none

-- What a sequence of calls sends: for each packet the queues before, the slot and the packet.
unfoldable pub served : Queues → List Call → List (Queues × Option PendingSlot × Packet)
served q [] = []
served q (c ∷ cs) =
    let (q', sent) = step q c in
    let rest = served q' cs in elim sent [ none ↦ rest | some p ↦ (q, call_slot q c, p) ∷ rest ]

-- No packet but one for no loco is for the loco of the packet before it.
abbrev pub Spaced : ℕ → List (Queues × Option PendingSlot × Packet) → Type 0
Spaced last [] = Unit {0}
Spaced last ((q, s, p) ∷ es) =
    ((loco_of s ≡ 0) ⊎ (loco_of s ≢ last)) × Told (q, s, p) × Spaced (loco_of s) es

-- Scheduling a packet leaves the record of the last loco alone.
get_slot_last :
    (q : Queues) (t : PendingType) (b : List ℕ) (l r c : ℕ)
    → (get_slot q t b l r c).0.last_sent ≡ q.last_sent
unfolding get_slot
get_slot_last q t b l r c = ground arith

normal_last :
    (q : Queues) (b : List ℕ) (l r c : ℕ) → (schedule_dcc_packet q b l r c).last_sent ≡ q.last_sent
unfolding schedule_dcc_packet
normal_last q b l r c = get_slot_last q normal_packet b l r c

speed_last :
    (q : Queues) (b : List ℕ) (l r c : ℕ)
    → (schedule_dcc_speed_packet q b l r c).last_sent ≡ q.last_sent
unfolding schedule_dcc_speed_packet
speed_last q b l r c = ground (arith, get_slot_last q speed_packet b l r c)

function_last :
    (q : Queues) (b : List ℕ) (l c g : ℕ)
    → (schedule_dcc_function_packet q b l c g).last_sent ≡ q.last_sent
unfolding schedule_dcc_function_packet
function_last q b l c g = elim (Option-cases (function_type g)) [
  | inl n ↦ rw (n, schedule_dcc_function_packet)
  | inr (t, e) ↦ rw (e, schedule_dcc_function_packet) (ground (arith, get_slot_last q t b l 0 c))
]

estop_last :
    (q : Queues) (b : List ℕ) (l r c : ℕ)
    → (schedule_estop_packet q b l r c).last_sent ≡ q.last_sent
unfolding schedule_estop_packet
estop_last q b l r c =
    get_slot_last
      (record q {
        high = (discard c q.high q.recycled).0;
        recycled = (discard c q.high q.recycled).1;
      })
      speed_packet b l r 0

acc_last :
    (q : Queues) (b : List ℕ) (l r d : ℕ)
    → (schedule_acc_on_off_packet q b l r d).last_sent ≡ q.last_sent
unfolding schedule_acc_on_off_packet
acc_last q b l r d = get_slot_last q acc_on_packet b l r 0

step_spaced :
    (q : Queues) (c : Call)
    → let (q', sent) = step q c in
      let s = call_slot q c in
      ((sent ≡ none) × (q'.last_sent ≡ q.last_sent))
      ⊎ ((p : Packet) × (sent ≡ some p)
          × Told (q, s, p)
          × (q'.last_sent ≡ loco_of s)
          × ((loco_of s ≡ 0) ⊎ (loco_of s ≢ q.last_sent)))
unfolding step
step_spaced q (normal b l r c) = inl (refl, normal_last q b l r c)
step_spaced q (speed b l r c) = inl (refl, speed_last q b l r c)
step_spaced q (function b l c g) = inl (refl, function_last q b l c g)
step_spaced q (estop b l r c) = inl (refl, estop_last q b l r c)
step_spaced q (acc_on_off b l r d) = inl (refl, acc_last q b l r d)
step_spaced q (next now force) = elim (Option-cases (schedule_next now force q)) [
  | inl n ↦ inl (ground arith, ground arith)
  | inr ((q', p), f) ↦
      let (told, last, spaced) = next_sent now force q f in
      inr (p, ground arith, told, ground (arith, f, last), spaced)
]

-- From any queues on, and whatever calls are made: each packet that is sent has the bytes of a slot
-- that was in one of the queues, or is the idle packet; and of the locos of these slots (0 for the idle
-- packet, and for a slot that is for no loco) no two in a row are the same unless they are 0, nor is
-- the first the one recorded as served last.
pub served-Spaced : (q : Queues) (cs : List Call) → Spaced q.last_sent (served q cs)
unfolding served
served-Spaced q [] = tt
served-Spaced q (c ∷ cs) = elim (step_spaced q c) [
  | inl (n, e) ↦
      rw (n, served)
        (subst (λ l. Spaced l (served (step q c).0 cs)) e (served-Spaced (step q c).0 cs))
  | inr (p, e, told, last, d) ↦
      rw (e, served)
        (
          d,
          told,
          subst (λ l. Spaced l (served (step q c).0 cs)) last (served-Spaced (step q c).0 cs),
        )
]
