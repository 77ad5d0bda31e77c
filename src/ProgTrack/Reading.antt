-- ===== src/ProgTrack/Reading.antt =====
-- DCCACK.cpp: the entries with their WACK, and the reading of a byte bit by bit, before a decoder
-- that obeys the NMRA's format.
use command_station_ex_la_bo.ProgTrack.Programs.{read_bits}
use command_station_ex_la_bo.ProgTrack.Messages.{
  byte_message_read, verify_message_read, write_message_read,
}
use command_station_ex_la_bo.ProgTrack.Session.{Outcome, session, answered, session_turn}
use command_station_ex_la_bo.ProgTrack.{
  Manager, AckOp, exec, send, wack, vb, wb, v0, v1, w1, w0, merged, after_write, merge, go,
  is_target, skip,
}
use command_station_ex_la_bo.ProgTrack.Decoder.{
  Cvs, respond, Order, read_service, obey, update, has_bit, with_bit,
}
use command_station_ex_la_bo.Prelude.{
  ℕ, ◌≡◌, refl, ◌∙◌, Bool, false, some, List, ◌∷◌, ◌<◌, all_below, ◌≤◌, ◌/◌, bit_or, if◌then◌else◌,
  ◌^◌, ◌*◌, ◌==◌, not, suc, ◌%◌, arith, true, zero, ◌+◌, all_below_at, ap, ap₂, Bool-cases, [], inl,
  inr,
}

-- What becomes of the decoder and of its answer.
abbrev Answers : Cvs → Order → Manager → List AckOp → Outcome Cvs
Answers cvs o m rest =
    session respond false (obey cvs o).0 (obey cvs o).1 (record m { received = (obey cvs o).1 })
      rest

respond_read :
    (cvs : Cvs) (packet : List ℕ) {o : Order}
    → read_service packet ≡ some o
    → respond cvs packet ≡ obey cvs o
unfolding respond obey
respond_read cvs packet e = rw (respond, e) refl

ask :
    (cvs : Cvs) (ack : Bool) (m m' : Manager) (op : AckOp) (rest : List AckOp) (packet : List ℕ)
    {o : Order}
    → exec (answered ack) m op ≡ send m' packet
    → read_service packet ≡ some o
    → session respond false cvs ack m (op ∷ wack ∷ rest) ≡ Answers cvs o m' rest
unfolding exec
ask cvs ack m m' op rest packet {o} sent e =
    session_turn respond cvs ack m op (wack ∷ rest) sent
    ∙ rw (respond_read cvs packet e)
        (session_turn respond (obey cvs o).0 (obey cvs o).1 m' wack rest refl)

-- The answers to each kind of entry, for a CV that the messages can name.
module _ (cvs : Cvs) (ack : Bool) (m : Manager) (rest : List AckOp) (l : 0 < m.cv)
    (u : m.cv ≤ 1024) where
  pub ask_byte : session respond false cvs ack m (vb ∷ wack ∷ rest) ≡ (
      let same_byte = cvs m.cv == m.byte in
      session respond false cvs same_byte (record m { received = same_byte }) rest)
  unfolding exec obey
  ask_byte = ask cvs ack m m vb rest _ refl (byte_message_read m l u).0

  pub store_byte :
      session respond false cvs ack m (wb ∷ wack ∷ rest)
      ≡ session respond false
          (update cvs m.cv m.byte)
          true
          (record m { callback_state = after_write; received = true })
          rest
  unfolding exec obey
  store_byte = ask cvs ack m _ wb rest _ refl (byte_message_read m l u).1

  pub ask_zero :
      m.bit_num < 8
      → session respond false cvs ack m (v0 ∷ wack ∷ rest) ≡ (
          let is_zero = not (has_bit (cvs m.cv) m.bit_num) in
          session respond false cvs is_zero (record m { received = is_zero }) rest)
  unfolding exec obey
  ask_zero h = ask cvs ack m m v0 rest _ refl (verify_message_read m l u false h)

  pub ask_one :
      m.bit_num < 8
      → session respond false cvs ack m (v1 ∷ wack ∷ rest) ≡ (
          let is_one = has_bit (cvs m.cv) m.bit_num in
          session respond false cvs is_one (record m { received = is_one }) rest)
  unfolding exec obey
  ask_one h = ask cvs ack m m v1 rest _ refl (verify_message_read m l u true h)

  pub store_bit :
      (on : Bool)
      → m.bit_num < 8
      → session respond false cvs ack m ((if on then w1 else w0) ∷ wack ∷ rest)
        ≡ session respond false
            (update cvs m.cv (with_bit (cvs m.cv) m.bit_num on))
            true
            (record m { callback_state = after_write; received = true })
            rest
  unfolding exec obey
  store_bit true h = ask cvs ack m _ w1 rest _ refl (write_message_read m l u true h)
  store_bit false h = ask cvs ack m _ w0 rest _ refl (write_message_read m l u false h)

-- The bits of a byte, from the highest.
halve : (x k : ℕ) → k < 8 → x / 2 ^ suc k ≡ x / 2 ^ k / 2
halve x zero h = omega arith
halve x (suc zero) h = omega arith
halve x (suc (suc zero)) h = omega arith
halve x (suc (suc (suc zero))) h = omega arith
halve x (suc (suc (suc (suc zero)))) h = omega arith
halve x (suc (suc (suc (suc (suc zero))))) h = omega arith
halve x (suc (suc (suc (suc (suc (suc zero)))))) h = omega arith
halve x (suc (suc (suc (suc (suc (suc (suc zero))))))) h = omega arith
halve x (suc (suc (suc (suc (suc (suc (suc (suc k)))))))) h = absurd (omega arith)

odd_table : all_below 128 (λ x. bit_or (x * 2 % 256) 1 == x * 2 + 1) ≡ true
unfolding all_below
odd_table = refl

small : (x k : ℕ) → x < 256 → k < 8 → x / 2 ^ k / 2 < 128
small x k b h = omega arith

merged_byte :
    (m : Manager) (x k : ℕ)
    → x < 256
    → k < 8
    → m.byte ≡ x / 2 ^ suc k
    → m.received ≡ not (has_bit x k)
    → (merged m).byte ≡ x / 2 ^ k
merged_byte m x k b h e r =
    let t = all_below_at 128 _ m.byte odd_table (omega (arith, halve x k h, small x k b h)) in
    ground (arith, halve x k h, small x k b h)

-- An entry with no packet.
pub plain :
    (cvs : Cvs) (ack : Bool) (m : Manager) (op : AckOp) (rest : List AckOp) {m' : Manager}
    → exec (answered ack) m op ≡ go m'
    → session respond false cvs ack m (op ∷ rest) ≡ session respond false cvs ack m' rest
plain cvs ack m op rest e = session_turn respond cvs ack m op rest e

abbrev pub read_back : Manager → ℕ → Bool → Manager
read_back m x r = record m { byte = x; bit_num = 255; received = r }

-- The state before `n` more bits: those above are in the byte, and the next one is numbered.
abbrev pub Halfway : ℕ → ℕ → Manager → Type 0
Halfway x n m = (m.byte ≡ x / 2 ^ n) × (m.bit_num ≡ (n + 255) % 256)

pub bits_read :
    (cvs : Cvs) (ack : Bool) (m : Manager) (rest : List AckOp) (n : ℕ)
    → 0 < m.cv
    → m.cv ≤ 1024
    → cvs m.cv < 256
    → n ≤ 8
    → Halfway (cvs m.cv) n m
    → (a r : Bool) × (session respond false cvs ack m (read_bits n rest)
        ≡ session respond false cvs a (read_back m (cvs m.cv) r) rest)
unfolding exec
bits_read cvs ack m rest zero l u b h (e, f) = (
  ack,
  m.received,
  ap₂ (λ x y. session respond false cvs ack (record m { byte = x; bit_num = y }) rest)
      (e ∙ omega arith) f,
)
bits_read cvs ack m rest (suc k) l u b h (e, f) =
    let at : m.bit_num ≡ k = f ∙ omega (arith, h) in
    let answer = not (has_bit (cvs m.cv) m.bit_num) in
    let m' = record m { received = answer } in
    let next = merged_byte m' (cvs m.cv) k b h e (ap (λ i. not (has_bit (cvs m.cv) i)) at) in
    let (a, r, g) =
      bits_read cvs answer (merged m') rest k l u b (omega arith)
        (next, ap (λ i. (i + 255) % 256) at) in
    (
      a,
      r,
      ask_zero cvs ack m _ l u (omega arith)
          ∙ plain cvs answer m' merge (read_bits k rest) refl
          ∙ g,
    )

-- What stands behind the next SKIPTARGET, and the search for it.
unfoldable pub beyond : List AckOp → List AckOp
beyond [] = []
beyond (op ∷ ops) = elim (is_target op) [ true ↦ ops | false ↦ beyond ops ]

sought :
    (cvs : Cvs) (ack : Bool) (m : Manager) (ops : List AckOp)
    → session respond true cvs ack m ops ≡ session respond false cvs ack m (beyond ops)
unfolding session beyond
sought cvs ack m [] = refl
sought cvs ack m (op ∷ ops) = elim (Bool-cases (is_target op)) [
  | inl e ↦ rw (session, beyond, e) refl
  | inr e ↦ rw (session, beyond, e) (sought cvs ack m ops)
]

pub skipped :
    (cvs : Cvs) (ack : Bool) (m : Manager) (op : AckOp) (ops : List AckOp) {m' : Manager}
    → exec (answered ack) m op ≡ skip m'
    → session respond false cvs ack m (op ∷ ops) ≡ session respond false cvs ack m' (beyond ops)
skipped cvs ack m op ops {m'} e = session_turn respond cvs ack m op ops e ∙ sought cvs ack m' ops
