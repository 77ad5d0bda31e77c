-- ===== src/DccQueue/Estop.antt =====
-- DCCQueue::scheduleEstopPacket: the stop goes out next, and nothing that would undo it stays queued.
use command_station_ex_la_bo.Prelude.{
  ℕ, ◌%◌, ◌≤◌, ◌≡◌, refl, sym, ap, ◌∙◌, subst, Bool, false, some, List, [], ◌∷◌, arith, length,
  drop, ltb, if◌then◌else◌, take_all, take-append, true, Bool-cases, ◌⊎◌, ◌≢◌, inl, inr,
}
use command_station_ex_la_bo.DccQueue.{
  PendingSlot, PendingType, Queues, discards, is_acc_off, discard, bytes_of, get_slot,
  schedule_estop_packet, schedule_next, next_high, pick, fill, speed_packet, blank, acc_off_packet,
  code, normal_packet, function1_packet, function2_packet, function3_packet, function4_packet,
  function5_packet, acc_on_packet, dead_packet,
}

-- A queue before and after a stop for a loco, 0 for every loco: a coil-off command stays, and a slot
-- whose loco is another one; any other slot goes, and there is no slot that was not there.
pub data Cleared (c : ℕ) : List PendingSlot → List PendingSlot → Type 0 where
  over : Cleared c [] []
  stays :
      {p : PendingSlot} {ps qs : List PendingSlot}
      → (p.type ≡ acc_off_packet) ⊎ ((c ≢ 0) × (p.word % 65536 ≢ c))
      → Cleared c ps qs
      → Cleared c (p ∷ ps) (p ∷ qs)
  goes :
      {p : PendingSlot} {ps qs : List PendingSlot}
      → p.type ≢ acc_off_packet
      → (c ≡ 0) ⊎ (p.word % 65536 ≡ c)
      → Cleared c ps qs
      → Cleared c (p ∷ ps) qs

-- The coil-off commands of a queue.
pub acc_offs : List PendingSlot → List PendingSlot
acc_offs [] = []
acc_offs (p ∷ ps) = if is_acc_off p then p ∷ acc_offs ps else acc_offs ps

-- A type is that of a coil-off command exactly if its place is.
type_of_code : (t : PendingType) → code t ≡ code acc_off_packet → t ≡ acc_off_packet
type_of_code normal_packet e = absurd (omega (arith, e))
type_of_code function1_packet e = absurd (omega (arith, e))
type_of_code function2_packet e = absurd (omega (arith, e))
type_of_code function3_packet e = absurd (omega (arith, e))
type_of_code function4_packet e = absurd (omega (arith, e))
type_of_code function5_packet e = absurd (omega (arith, e))
type_of_code speed_packet e = absurd (omega (arith, e))
type_of_code acc_on_packet e = absurd (omega (arith, e))
type_of_code acc_off_packet e = refl
type_of_code dead_packet e = absurd (omega (arith, e))

discard_kept :
    (c : ℕ) (p : PendingSlot)
    → discards c p ≡ false
    → (p.type ≡ acc_off_packet) ⊎ ((c ≢ 0) × (p.word % 65536 ≢ c))
discard_kept c p e = elim (Bool-cases (is_acc_off p)) [
  | inl a ↦ inl (type_of_code p.type (ground (arith, a)))
  | inr a ↦ inr (ground (arith, a, e), ground (arith, a, e))
]

discard_gone :
    (c : ℕ) (p : PendingSlot)
    → discards c p ≡ true
    → (p.type ≢ acc_off_packet) × ((c ≡ 0) ⊎ (p.word % 65536 ≡ c))
discard_gone c p e = ((λ t. ground (arith, e, ap code t)), ground (arith, e))

discard-Cleared : (c : ℕ) (ps rs : List PendingSlot) → Cleared c ps (discard c ps rs).0
unfolding discard
discard-Cleared c [] rs = Cleared.over
discard-Cleared c (p ∷ ps) rs = elim (Bool-cases (discards c p)) [
  | inl e ↦
      let (t, l) = discard_gone c p e in rw e (Cleared.goes t l (discard-Cleared c ps (p ∷ rs)))
  | inr e ↦ rw e (Cleared.stays (discard_kept c p e) (discard-Cleared c ps rs))
]

acc_offs-discard : (c : ℕ) (ps rs : List PendingSlot) → acc_offs (discard c ps rs).0 ≡ acc_offs ps
unfolding discard acc_offs
acc_offs-discard c [] rs = refl
acc_offs-discard c (p ∷ ps) rs =
    ground (arith, acc_offs-discard c ps rs, acc_offs-discard c ps (p ∷ rs))

-- The slot that `getSlot` prepares, when the packet has the length that is stated and fits.
pub record Prepared (q q1 : Queues) (p : PendingSlot) (t : PendingType) (b : List ℕ) (r c : ℕ)
    : Type 0 where
  pub same_high : q1.high ≡ q.high
  pub same_low : q1.low ≡ q.low
  pub type : p.type ≡ t
  pub size : p.packet_length ≡ length b
  pub repeats : p.packet_repeat ≡ r
  pub bytes : bytes_of p ≡ b
  pub loco : p.word ≡ c % 65536

fill-bytes_of :
    (p : PendingSlot) (t : PendingType) (b : List ℕ) (r c : ℕ)
    → length b ≤ 5
    → bytes_of (fill p t b (length b) r c) ≡ b
unfolding fill
fill-bytes_of p t b r c h =
    let short : ltb 5 (length b) ≡ false = ground arith in
    rw (short, take_all b (length b) refl)
      (take-append b (drop (length b) p.packet) (length b) refl)

pub get_slot-Prepared :
    (q : Queues) (t : PendingType) (b : List ℕ) (r c : ℕ)
    → length b ≤ 5
    → let (q1, p) = get_slot q t b (length b) r c in Prepared q q1 p t b r c
unfolding get_slot
get_slot-Prepared q t b r c h = go q.recycled refl
  where
    go :
        (rs : List PendingSlot)
        → q.recycled ≡ rs
        → Prepared q (get_slot q t b (length b) r c).0 (get_slot q t b (length b) r c).1 t b r c
    go [] e =
        rw (e, get_slot)
          (record {
            same_high = refl;
            same_low = refl;
            type = refl;
            size = refl;
            repeats = refl;
            bytes = fill-bytes_of blank t b r c h;
            loco = omega arith;
          })
    go (p ∷ ps) e =
        rw (e, get_slot)
          (record {
            same_high = refl;
            same_low = refl;
            type = refl;
            size = refl;
            repeats = refl;
            bytes = fill-bytes_of p t b r c h;
            loco = omega arith;
          })

-- Right after an emergency stop whose packet has at most five bytes, the next packet is the stop,
-- with its repeats and for no loco in particular. The high priority queue then has, in their order,
-- just its coil-off commands and, unless the stop is for every loco (0), the slots whose loco is
-- another one than that of the stop; the low priority queue is as it was.
pub estop_sent_next :
    (q : Queues) (b : List ℕ) (r c now : ℕ) (force : Bool)
    → length b ≤ 5
    → let q1 = schedule_estop_packet q b (length b) r c in
      (q2 : Queues) × (schedule_next now force q1 ≡ some (q2, record { bytes = b; repeats = r }))
      × Cleared c q.high q2.high
      × (acc_offs q2.high ≡ acc_offs q.high)
      × (q2.low ≡ q.low)
unfolding schedule_estop_packet schedule_next next_high pick
estop_sent_next q b r c now force h =
    let (kept, rest) = discard c q.high q.recycled in
    let q0 = record q { high = kept; recycled = rest } in
    let (q1, p) = get_slot q0 speed_packet b (length b) r 0 in
    let d = get_slot-Prepared q0 speed_packet b r 0 h in
    (
      record q1 { last_sent = 0; recycled = p ∷ q1.recycled },
      ground (arith, d.type, d.size, d.repeats, d.bytes, d.loco),
      subst (Cleared c q.high) (sym d.same_high) (discard-Cleared c q.high q.recycled),
      ap acc_offs d.same_high ∙ acc_offs-discard c q.high q.recycled,
      d.same_low,
    )
