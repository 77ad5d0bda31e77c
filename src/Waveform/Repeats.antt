-- ===== src/Waveform/Repeats.antt =====
-- DCCWaveform.cpp: a packet that is scheduled is sent with its checksum as often as it should be.
use Prim.Native.Nat.{digits, bit_xor-bitwise, differ}
use command_station_ex_la_bo.Waveform.Bytes.{finished}
use command_station_ex_la_bo.Waveform.Bits.{
  bits, in_state, chosen, interrupt2_stateless, ticks, ticks_for, waves_of, ticks-bits,
}
use command_station_ex_la_bo.Waveform.{
  Wave, WaveState, wave_start, wave_mid_1, checksum, schedule_packet, max_packet_size,
}
use command_station_ex_la_bo.Waveform.Packets.{
  framed_all, promoted, Sends, Sends-behind, waiting, preamble-Sends, bytes-Sends,
}
use command_station_ex_la_bo.Prelude.{
  ℕ, zero, suc, ◌+◌, ◌*◌, ◌/◌, ◌%◌, ◌≤◌, ◌≡◌, refl, sym, ap, ap₂, ◌∙◌, subst, Bool, true, false,
  List, [], ◌∷◌, ◌++◌, arith, length, length-append, drop, replicate, bit_xor,
}

-- The preamble, with the bit that ends the packet before it, and the bytes.
abbrev pub packet_bits : ℕ → List ℕ → List Bool
packet_bits preambles bytes = replicate preambles true ++ framed_all bytes

abbrev packet_size : ℕ → List ℕ → ℕ
packet_size preambles bytes = preambles + 9 * length bytes

packet-Sends :
    (k b : ℕ) (rest unused : List ℕ) (w : Wave)
    → w.required_preambles ≡ suc (suc k)
    → (promoted w).transmit_packet ≡ b ∷ (rest ++ unused)
    → (promoted w).transmit_length ≡ suc (length rest)
    → Sends
        (packet_size (suc (suc k)) (b ∷ rest))
        (finished wave_start w)
        (packet_bits (suc (suc k)) (b ∷ rest))
        (finished wave_start (promoted w))
packet-Sends k b rest unused w e p l =
    subst
      (λ n.
        Sends (packet_size (suc (suc k)) (b ∷ rest)) (waiting n wave_start w.reminder_window_open w)
          (packet_bits (suc (suc k)) (b ∷ rest)) (finished wave_start (promoted w)))
      (sym e)
      (preamble-Sends k wave_start w.reminder_window_open w (finished wave_start (promoted w))
        (9 * suc (length rest)) (framed_all (b ∷ rest))
        (bytes-Sends b rest [] unused wave_mid_1 (promoted w) p (omega (arith, l))))

-- The state is not read.
Sends-in_state :
    (n : ℕ) (s : WaveState) (w w' : Wave) (bs : List Bool)
    → Sends n (in_state s w) bs w'
    → Sends n w bs w'
unfolding bits
Sends-in_state zero s w w' bs h = h
Sends-in_state (suc n) s w w' bs h = subst (λ x. Sends-next n x bs w') (interrupt2_stateless s w) h
  where
    Sends-next : ℕ → Wave → List Bool → Wave → Type 0
    Sends-next n x bs w' =
        ((chosen x.state ∷ (bits n x).0) ≡ bs) × (in_state wave_start (bits n x).1 ≡ w')

-- One packet, and what follows it.
Sends-followed :
    (m n : ℕ) (w x w' : Wave) (cs bs : List Bool)
    → Sends m w cs x
    → Sends n x bs w'
    → Sends (m + n) w (cs ++ bs) w'
Sends-followed m n w x w' cs bs (e, f) h =
    Sends-behind m n (m + n) w (bits m w).1 w' cs bs refl (ap (λ l. (l, (bits m w).1)) e)
      (Sends-in_state n wave_start (bits m w).1 w' bs (subst (λ y. Sends n y bs w') (sym f) h))

-- The track holds a packet that it must still repeat so many times.
abbrev pub holding : ℕ → Wave → Wave
holding r w = record w { transmit_repeats = r; reminder_window_open = false }

abbrev pub copies : ℕ → List Bool → List Bool
copies zero bs = []
copies (suc r) bs = bs ++ copies r bs

abbrev total : ℕ → ℕ → ℕ
total zero n = 0
total (suc r) n = n + total r n

promoted_again : (r : ℕ) (w : Wave) → promoted (holding (suc r) w) ≡ holding r w
promoted_again r w = ground arith

repeats-Sends :
    (r k b : ℕ) (rest unused : List ℕ) (w : Wave)
    → w.required_preambles ≡ suc (suc k)
    → w.transmit_packet ≡ b ∷ (rest ++ unused)
    → w.transmit_length ≡ suc (length rest)
    → Sends
        (total r (packet_size (suc (suc k)) (b ∷ rest)))
        (finished wave_start (holding r w))
        (copies r (packet_bits (suc (suc k)) (b ∷ rest)))
        (finished wave_start (holding 0 w))
unfolding bits
repeats-Sends zero k b rest unused w e p l = (refl, refl)
repeats-Sends (suc r) k b rest unused w e p l =
    let again = promoted_again r w in
    Sends-followed (packet_size (suc (suc k)) (b ∷ rest))
      (total r (packet_size (suc (suc k)) (b ∷ rest))) (finished wave_start (holding (suc r) w))
      (finished wave_start (holding r w)) (finished wave_start (holding 0 w))
      (packet_bits (suc (suc k)) (b ∷ rest)) (copies r (packet_bits (suc (suc k)) (b ∷ rest)))
      (subst
        (λ x.
          Sends (packet_size (suc (suc k)) (b ∷ rest)) (finished wave_start (holding (suc r) w))
            (packet_bits (suc (suc k)) (b ∷ rest)) (finished wave_start x))
        again
        (packet-Sends k b rest unused (holding (suc r) w) e (ap (λ x. x.transmit_packet) again ∙ p)
          (ap (λ x. x.transmit_length) again ∙ l)))
      (repeats-Sends r k b rest unused w e p l)

-- All the sendings of a packet that is promoted.
promoted-Sends :
    (r k b : ℕ) (rest unused : List ℕ) (w x : Wave)
    → w.required_preambles ≡ suc (suc k)
    → promoted w ≡ holding r x
    → x.required_preambles ≡ suc (suc k)
    → x.transmit_packet ≡ b ∷ (rest ++ unused)
    → x.transmit_length ≡ suc (length rest)
    → Sends
        (total (suc r) (packet_size (suc (suc k)) (b ∷ rest)))
        (finished wave_start w)
        (copies (suc r) (packet_bits (suc (suc k)) (b ∷ rest)))
        (finished wave_start (holding 0 x))
promoted-Sends r k b rest unused w x e q d p l =
    Sends-followed (packet_size (suc (suc k)) (b ∷ rest))
      (total r (packet_size (suc (suc k)) (b ∷ rest))) (finished wave_start w)
      (finished wave_start (holding r x)) (finished wave_start (holding 0 x))
      (packet_bits (suc (suc k)) (b ∷ rest)) (copies r (packet_bits (suc (suc k)) (b ∷ rest)))
      (subst
        (λ y.
          Sends (packet_size (suc (suc k)) (b ∷ rest)) (finished wave_start w)
            (packet_bits (suc (suc k)) (b ∷ rest)) (finished wave_start y))
        q
        (packet-Sends k b rest unused w e (ap (λ x. x.transmit_packet) q ∙ p)
          (ap (λ x. x.transmit_length) q ∙ l)))
      (repeats-Sends r k b rest unused x d p l)

-- The bytes of a packet with its checksum.
abbrev pub with_checksum : List ℕ → List ℕ
with_checksum buffer = buffer ++ (checksum buffer 0 ∷ [])

-- The track that has taken a packet.
abbrev pub taken : List ℕ → ℕ → Wave → Wave
taken buffer repeats w = record w {
  pending_repeats = repeats;
  packet_pending = false;
  sent_resets = 0;
  transmit_packet = with_checksum buffer ++ drop (length buffer + 1) w.pending_packet;
  transmit_length = length buffer + 1;
  pending_packet = with_checksum buffer ++ drop (length buffer + 1) w.pending_packet;
  pending_length = length buffer + 1;
}

scheduled_promoted :
    (buffer : List ℕ) (repeats : ℕ) (w : Wave)
    → length buffer ≤ max_packet_size
    → w.transmit_repeats ≡ 0
    → promoted (schedule_packet buffer repeats w) ≡ holding repeats (taken buffer repeats w)
unfolding schedule_packet
scheduled_promoted buffer repeats w h e = ground (arith, h, e)

required-schedule_packet :
    (buffer : List ℕ) (repeats : ℕ) (w : Wave)
    → (schedule_packet buffer repeats w).required_preambles ≡ w.required_preambles
unfolding schedule_packet
required-schedule_packet buffer repeats w = ground arith

Sends-ticks :
    (n : ℕ) (w w' : Wave) (bs : List Bool)
    → Sends n (in_state wave_start w) bs w'
    → ticks (ticks_for bs) (in_state wave_start w) ≡ (waves_of bs, w')
Sends-ticks n w w' bs (e, f) =
    ap (λ l. ticks (ticks_for l) (in_state wave_start w)) (sym e)
    ∙ ticks-bits n (in_state wave_start w)
    ∙ ap₂ (λ l x. (waves_of l, x)) e f

-- At the end of the last sending of a packet, on a track whose preamble with the bit before it has
-- two ones at least, a packet of at most five bytes is scheduled. Then the levels that the ticks
-- set are those of the preamble's ones and of the packet's bytes and their checksum, each byte its
-- eight digits behind a 0; and that once more than the repeats that are asked for. Thereafter the
-- track is at the end of the last sending of that packet, and none is pending.
pub schedule_packet-ticks :
    (buffer : List ℕ) (repeats k : ℕ) (w : Wave)
    → length buffer ≤ max_packet_size
    → w.transmit_repeats ≡ 0
    → w.required_preambles ≡ suc (suc k)
    → let all = copies (suc repeats) (packet_bits (suc (suc k)) (with_checksum buffer)) in
      ticks (ticks_for all) (finished wave_start (schedule_packet buffer repeats w))
      ≡ (waves_of all, finished wave_start (holding 0 (taken buffer repeats w)))
schedule_packet-ticks [] repeats k w h e d =
    Sends-ticks (total (suc repeats) (packet_size (suc (suc k)) (0 ∷ [])))
      (finished wave_start (schedule_packet [] repeats w))
      (finished wave_start (holding 0 (taken [] repeats w)))
      (copies (suc repeats) (packet_bits (suc (suc k)) (0 ∷ [])))
      (promoted-Sends repeats k 0 [] (drop 1 w.pending_packet) (schedule_packet [] repeats w)
        (taken [] repeats w) (required-schedule_packet [] repeats w ∙ d)
        (scheduled_promoted [] repeats w h e) d refl refl)
schedule_packet-ticks (b ∷ bs) repeats k w h e d =
    let buffer = b ∷ bs in
    let rest = bs ++ (checksum buffer 0 ∷ []) in
    Sends-ticks (total (suc repeats) (packet_size (suc (suc k)) (b ∷ rest)))
      (finished wave_start (schedule_packet buffer repeats w))
      (finished wave_start (holding 0 (taken buffer repeats w)))
      (copies (suc repeats) (packet_bits (suc (suc k)) (b ∷ rest)))
      (promoted-Sends repeats k b rest (drop (length buffer + 1) w.pending_packet)
        (schedule_packet buffer repeats w) (taken buffer repeats w)
        (required-schedule_packet buffer repeats w ∙ d) (scheduled_promoted buffer repeats w h e) d
        refl (omega (arith, length-append bs (checksum buffer 0 ∷ []))))

same_digits : (n a : ℕ) → a ≤ n → digits (λ b. b) differ n a a ≡ 0
same_digits zero zero h = refl
same_digits zero (suc a) h = absurd (omega arith)
same_digits (suc n) zero h = refl
same_digits (suc n) (suc a) h =
    ap₂ (λ x y. x * 2 + y) {y = 0} (same_digits n (suc a / 2) (omega arith)) (alike (suc a % 2))
  where
    alike : (x : ℕ) → differ x x ≡ 0
    alike zero = refl
    alike (suc x) = alike x

xor_self : (a : ℕ) → bit_xor a a ≡ 0
xor_self a = (λ i. bit_xor-bitwise a a i) ∙ same_digits a a (omega arith)

-- The exclusive or of a packet's bytes with their checksum is 0, which is what a decoder tests.
pub checksum-with_checksum : (buffer : List ℕ) → checksum (with_checksum buffer) 0 ≡ 0
checksum-with_checksum buffer = from buffer 0 (checksum buffer 0) ∙ xor_self (checksum buffer 0)
  where
    from :
        (bs : List ℕ) (sum last : ℕ)
        → checksum (bs ++ (last ∷ [])) sum ≡ bit_xor (checksum bs sum) last
    from [] sum last = refl
    from (b ∷ bs) sum last = from bs (bit_xor sum b) last
