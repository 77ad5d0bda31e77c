-- ===== src/DccQueue/Coalesce.antt =====
-- DCCQueue.cpp: a speed packet replaces the one that is still queued for the loco, and a function
-- packet the one for its loco and group.
use command_station_ex_la_bo.DccQueue.Estop.{get_slot-Prepared}
use command_station_ex_la_bo.DccQueue.{
  PendingSlot, replace, schedule_dcc_speed_packet, memcpy, bytes_of, Queues, for_loco, get_slot,
  speed_packet,
}
use command_station_ex_la_bo.Prelude.{
  ℕ, ◌≤◌, ◌<◌, ◌≡◌, refl, ◌∙◌, ◌≢◌, inl, inr, Bool, false, none, some, List, [], ◌∷◌, ◌++◌, arith,
  length, drop, if◌then◌else◌, Bool-cases, Option-cases, take_all, take-append, find,
}

-- What a replaced slot becomes.
abbrev pub with_packet : List ℕ → ℕ → ℕ → PendingSlot → PendingSlot
with_packet b l r p = record p {
  packet = memcpy p.packet b l;
  packet_length = l;
  packet_repeat = r;
}

-- `replace` fails on a queue with no slot for it, and else rewrites the first.
pub replace-none :
    (t : PendingSlot → Bool) (b : List ℕ) (l r : ℕ) (ps : List PendingSlot)
    → replace t b l r ps ≡ none
    → find t ps ≡ none
unfolding replace find
replace-none t b l r [] e = refl
replace-none t b l r (p ∷ ps) e = elim (Option-cases (replace t b l r ps)) [
  | inl n ↦ ground (arith, replace-none t b l r ps n)
  | inr (qs, f) ↦ absurd (ground arith)
]

replace-some :
    (c : ℕ) (b : List ℕ) (l r : ℕ) (ps : List PendingSlot) {qs : List PendingSlot}
    → replace (for_loco c) b l r ps ≡ some qs
    → (p : PendingSlot) × (find (for_loco c) ps ≡ some p)
      × (find (for_loco c) qs ≡ some (with_packet b l r p))
unfolding replace find
replace-some c b l r [] e = absurd (cc)
replace-some c b l r (p ∷ ps) e = elim (Bool-cases (for_loco c p)) [
  | inl y ↦ (p, ground arith, ground arith)
  | inr n ↦ elim (Option-cases (replace (for_loco c) b l r ps)) [
    | inl m ↦ absurd (ground arith)
    | inr (qs', f) ↦
        let (w, g, h) = replace-some c b l r ps f in (w, ground (arith, g), ground (arith, h))
  ]
]

-- Slots of another loco are not touched.
replace_other :
    (c j : ℕ) (b : List ℕ) (l r : ℕ) (ps : List PendingSlot) {qs : List PendingSlot}
    → j ≢ c
    → replace (for_loco c) b l r ps ≡ some qs
    → find (for_loco j) qs ≡ find (for_loco j) ps
unfolding replace find
replace_other c j b l r [] ne e = absurd (cc)
replace_other c j b l r (p ∷ ps) ne e = elim (Option-cases (replace (for_loco c) b l r ps)) [
  | inl m ↦ ground arith
  | inr (qs', f) ↦ ground (arith, replace_other c j b l r ps ne f)
]

find-append_none :
    (t : PendingSlot → Bool) (ps : List PendingSlot) (p : PendingSlot)
    → find t ps ≡ none
    → find t (ps ++ p ∷ []) ≡ (if t p then some p else none)
unfolding find
find-append_none t [] p e = refl
find-append_none t (q ∷ ps) p e = ground (arith, find-append_none t ps p)

find-append_other :
    (t : PendingSlot → Bool) (ps : List PendingSlot) (p : PendingSlot)
    → t p ≡ false
    → find t (ps ++ p ∷ []) ≡ find t ps
unfolding find
find-append_other t [] p e = ground arith
find-append_other t (q ∷ ps) p e = ground (arith, find-append_other t ps p e)

with_packet-bytes_of :
    (b : List ℕ) (r : ℕ) (p : PendingSlot) → bytes_of (with_packet b (length b) r p) ≡ b
with_packet-bytes_of b r p =
    rw (take_all b (length b) refl) (take-append b (drop (length b) p.packet) (length b) refl)

-- After a speed packet of at most five bytes has been scheduled for a loco number of 16 bits, the
-- first slot with that number in the high priority queue has just its bytes and repeats, the first
-- slot of every other number is as it was, and so is the low priority queue.
pub speed_coalesces :
    (q : Queues) (b : List ℕ) (r c : ℕ)
    → length b ≤ 5
    → c < 65536
    → let q' = schedule_dcc_speed_packet q b (length b) r c in
      (p : PendingSlot) × (find (for_loco c) q'.high ≡ some p)
      × (bytes_of p ≡ b)
      × (p.packet_repeat ≡ r)
      × ((j : ℕ) → j ≢ c → find (for_loco j) q'.high ≡ find (for_loco j) q.high)
      × (q'.low ≡ q.low)
unfolding schedule_dcc_speed_packet
speed_coalesces q b r c h k = elim (Option-cases (replace (for_loco c) b (length b) r q.high)) [
  | inr (hs, f) ↦
      let (p, g, e) = replace-some c b (length b) r q.high f in
      rw (f, schedule_dcc_speed_packet)
        (
          with_packet b (length b) r p,
          e,
          with_packet-bytes_of b r p,
          refl,
          λ j ne. replace_other c j b (length b) r q.high ne f,
          refl,
        )
  | inl n ↦
      let (q1, p) = get_slot q speed_packet b (length b) r c in
      let d = get_slot-Prepared q speed_packet b r c h in
      rw (n, schedule_dcc_speed_packet)
        (
          p,
          rw d.same_high (
              find-append_none (for_loco c) q.high p (replace-none _ b (length b) r q.high n)
              ∙ ground (arith, d.loco)),
          d.bytes,
          d.repeats,
          λ j ne. rw d.same_high (find-append_other (for_loco j) q.high p (ground (arith, d.loco))),
          d.same_low,
        )
]
