-- ===== src/Waveform/Packets.antt =====
-- DCCWaveform.cpp: the bits of a packet.
use command_station_ex_la_bo.Waveform.{
  WaveState, Wave, interrupt2, wave_start, promote_pending_packet, wave_mid_1,
}
use command_station_ex_la_bo.Waveform.Bits.{bits, chosen, in_state}
use command_station_ex_la_bo.Waveform.Bytes.{
  framed, sending, finished, sent_byte, bits-sending, last_state,
}
use command_station_ex_la_bo.Prelude.{
  ℕ, zero, suc, ◌+◌, ◌*◌, ◌<◌, ◌≡◌, refl, sym, ap, ◌∙◌, subst, Bool, true, false, ◌&&◌, List, [],
  ◌∷◌, ◌++◌, append_assoc, arith, length, length-append, get_or, replicate, ltb, ◌==◌,
}

-- The bits of the bytes, each behind its 0.
abbrev pub framed_all : List ℕ → List Bool
framed_all [] = []
framed_all (b ∷ bs) = framed b ++ framed_all bs

-- So many interrupts, and more.
bits_more :
    (m n k : ℕ) (w : Wave)
    → k ≡ m + n
    → bits k w ≡ ((bits m w).0 ++ (bits n (bits m w).1).0, (bits n (bits m w).1).1)
unfolding bits
bits_more zero n k w e = ap (λ k. bits k w) {x = k} {y = n} (omega (arith, e))
bits_more (suc m) n k w e =
    ap (λ k. bits k w) {x = k} {y = suc (m + n)} (omega (arith, e))
    ∙ ap (λ rest. (chosen (interrupt2 w).state ∷ rest.0, rest.1))
        (bits_more m n (m + n) (interrupt2 w) refl)

get_or-middle : (xs ys : List ℕ) (b d : ℕ) → get_or (xs ++ (b ∷ ys)) (length xs) d ≡ b
get_or-middle [] ys b d = refl
get_or-middle (x ∷ xs) ys b d = get_or-middle xs ys b d

-- So many interrupts choose these bits, and lead to this track, about to begin a bit.
abbrev pub Sends : ℕ → Wave → List Bool → Wave → Type 0
Sends n w bs w' = ((bits n w).0 ≡ bs) × (in_state wave_start (bits n w).1 ≡ w')

pub Sends-behind :
    (m n k : ℕ) (w x w' : Wave) (cs bs : List Bool)
    → k ≡ m + n
    → bits m w ≡ (cs, x)
    → Sends n x bs w'
    → Sends k w (cs ++ bs) w'
Sends-behind m n k w x w' cs bs e first (then_bits, then_wave) =
    let all = bits_more m n k w e ∙ ap (λ r. (r.0 ++ (bits n r.1).0, (bits n r.1).1)) first in
    (
      ap (λ r. r.0) all ∙ ap (λ l. cs ++ l) then_bits,
      ap (λ r. in_state wave_start r.1) all ∙ then_wave,
    )

-- One byte, where the packet is given in three parts.
bits-byte :
    (b : ℕ) (xs rest : List ℕ) (s : WaveState) (w : Wave)
    → w.transmit_packet ≡ xs ++ (b ∷ rest)
    → bits 9 (sending (length xs) s w) ≡ (framed b, sent_byte (length xs) b w)
bits-byte b xs rest s w e =
    subst (λ c. bits 9 (sending (length xs) s w) ≡ (framed c, sent_byte (length xs) c w))
      (ap (λ l. get_or l (length xs) 0) e ∙ get_or-middle xs rest b 0)
      (bits-sending (length xs) s w)

sent_more :
    (i b : ℕ) (w : Wave)
    → i + 1 < w.transmit_length
    → sent_byte i b w ≡ sending (i + 1) (last_state b) w
sent_more i b w h = ground (arith, h)

-- The bytes of the packet from one on: their bits, and the end of the packet.
pub bytes-Sends :
    (b : ℕ) (rest xs unused : List ℕ) (s : WaveState) (w : Wave)
    → w.transmit_packet ≡ xs ++ (b ∷ (rest ++ unused))
    → w.transmit_length ≡ length xs + suc (length rest)
    → Sends
        (9 * suc (length rest))
        (sending (length xs) s w)
        (framed_all (b ∷ rest))
        (finished wave_start w)
unfolding bits
bytes-Sends b [] xs unused s w e l =
    let last : sent_byte (length xs) b w ≡ finished (last_state b) w = rw l (ground arith) in
    Sends-behind 9 0 9 (sending (length xs) s w) (finished (last_state b) w) (finished wave_start w)
      (framed b) [] refl (bits-byte b xs unused s w e ∙ ap (λ x. (framed b, x)) last) (refl, refl)
bytes-Sends b (c ∷ rest) xs unused s w e l =
    let more : sent_byte (length xs) b w ≡ sending (length (xs ++ (b ∷ []))) (last_state b) w =
      sent_more (length xs) b w (omega (arith, l))
      ∙ ap (λ i. sending i (last_state b) w) (sym (length-append xs (b ∷ []))) in
    Sends-behind 9 (9 * suc (length rest)) (9 * suc (suc (length rest))) (sending (length xs) s w)
      (sending (length (xs ++ (b ∷ []))) (last_state b) w) (finished wave_start w) (framed b)
      (framed_all (c ∷ rest)) (omega arith)
      (bits-byte b xs (c ∷ (rest ++ unused)) s w e ∙ ap (λ x. (framed b, x)) more)
      (bytes-Sends c rest (xs ++ (b ∷ [])) unused (last_state b) w
        (e ∙ sym (append_assoc xs (b ∷ []) (c ∷ (rest ++ unused))))
        (omega (arith, l, length-append xs (b ∷ []))))

-- The preamble with so many bits left.
abbrev pub waiting : ℕ → WaveState → Bool → Wave → Wave
waiting k s window w = record w {
  state = s;
  remaining_preambles = k;
  bits_sent = 0;
  bytes_sent = 0;
  reminder_window_open = window;
}

-- The packet that the end of the preamble takes.
abbrev pub promoted : Wave → Wave
promoted w = record (promote_pending_packet w) { reminder_window_open = false }

preamble_step :
    (k : ℕ) (s : WaveState) (window : Bool) (w : Wave)
    → interrupt2 (waiting (suc (suc (suc k))) s window w)
      ≡ waiting (suc (suc k)) wave_mid_1 (w.transmit_repeats == 0 && ltb (suc (suc k)) 12) w
unfolding interrupt2
preamble_step k s window w = ground arith

preamble_end :
    (s : WaveState) (window : Bool) (w : Wave)
    → bits 2 (waiting 2 s window w) ≡ (true ∷ true ∷ [], sending 0 wave_mid_1 (promoted w))
unfolding interrupt2 bits
preamble_end s window w = ground arith

pub preamble-Sends :
    (k : ℕ) (s : WaveState) (window : Bool) (w w' : Wave) (n : ℕ) (bs : List Bool)
    → Sends n (sending 0 wave_mid_1 (promoted w)) bs w'
    → Sends
        (suc (suc k) + n)
        (waiting (suc (suc k)) s window w)
        (replicate (suc (suc k)) true ++ bs)
        w'
unfolding bits
preamble-Sends zero s window w w' n bs h =
    Sends-behind 2 n (2 + n) (waiting 2 s window w) (sending 0 wave_mid_1 (promoted w)) w'
      (true ∷ true ∷ []) bs refl (preamble_end s window w) h
preamble-Sends (suc k) s window w w' n bs h =
    let next = w.transmit_repeats == 0 && ltb (suc (suc k)) 12 in
    Sends-behind 1 (suc (suc k) + n) (suc (suc (suc k)) + n)
      (waiting (suc (suc (suc k))) s window w) (waiting (suc (suc k)) wave_mid_1 next w) w'
      (true ∷ []) (replicate (suc (suc k)) true ++ bs) (omega arith)
      (ap (λ x. (chosen x.state ∷ [], x)) (preamble_step k s window w))
      (preamble-Sends k wave_mid_1 next w w' n bs h)
