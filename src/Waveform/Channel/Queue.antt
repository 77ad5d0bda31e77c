-- ===== src/Waveform/Channel/Queue.antt =====
-- DCCRMT.cpp: a packet is copied out once, and repeated.
use command_station_ex_la_bo.Waveform.Channel.{
  Channel, rmt_interrupt, rmt_fill_data, Fill, busy, data_len, filled, converted_packet,
}
use command_station_ex_la_bo.Prelude.{
  ℕ, zero, suc, ◌+◌, ◌-◌, ◌%◌, ◌≤◌, ◌<◌, ◌≡◌, refl, ap, ◌∙◌, true, false, Option, none, some, List,
  [], ◌∷◌, ◌++◌, arith, length, replicate,
}

-- What the interrupts hand out, one after the other.
unfoldable pub interrupts : ℕ → Channel → Channel × List (Option Fill)
interrupts zero c = (c, [])
interrupts (suc n) c =
    let first = rmt_interrupt c in let rest = interrupts n first.0 in (rest.0, first.1 ∷ rest.1)

-- The channel repeats a packet so many times more.
abbrev repeating : ℕ → Channel → Channel
repeating r c = record c { data_ready = false; data_repeat = r }

abbrev counted : Channel → Channel
counted c = record c { packet_counter = (c.packet_counter + 1) % 4294967296 }

abbrev place : Channel → ℕ
place c = length c.preamble_items - 1

abbrev Interrupted : Type 0
Interrupted = Channel × Option Fill

repeated_once :
    (r : ℕ) (c : Channel)
    → ◌≡◌ {A = Interrupted} (rmt_interrupt (repeating (suc r) c)) (repeating r (counted c), none)
unfolding rmt_interrupt
repeated_once r c = ground arith

-- So many interrupts without a copy, and then the idle packet.
repeats_out :
    (r : ℕ) (c : Channel)
    → (interrupts (suc r) (repeating r c)).1
      ≡ replicate r none ++ (some (c.idle_items, place c) ∷ [])
unfolding interrupts rmt_interrupt
repeats_out zero c = refl
repeats_out (suc r) c =
    ap (λ x. x.1 ∷ (interrupts (suc r) x.0).1) (repeated_once r c)
    ∙ ap (◌∷◌ none) (repeats_out r (counted c))

-- The channel with a packet that is not copied yet.
abbrev loaded : List ℕ → ℕ → Channel → Channel
loaded buffer repeats c = record c {
  data_items = converted_packet buffer;
  data_ready = true;
  data_repeat = (repeats + 1) % 256;
}

loads :
    (buffer : List ℕ) (repeats : ℕ) (c : Channel)
    → busy c ≡ false
    → data_len (length buffer) ≤ c.max_data_len
    → rmt_fill_data buffer repeats c ≡ (filled, loaded buffer repeats c)
unfolding rmt_fill_data busy
loads buffer repeats c h l = ground (arith, h, l)

copied_out :
    (buffer : List ℕ) (repeats : ℕ) (c : Channel)
    → repeats < 255
    → ◌≡◌ {A = Interrupted} (rmt_interrupt (loaded buffer repeats c)) (
      repeating repeats (record (counted c) { data_items = converted_packet buffer }),
      some (converted_packet buffer, place c),
    )
unfolding rmt_interrupt
copied_out buffer repeats c h = ground (arith, h)

-- A packet whose items the channel has room for, with fewer than 255 repeats, is filled into a
-- channel that is not busy. It is copied out by the next interrupt, and then nothing is copied for
-- as many interrupts as it has repeats; the one after them copies the idle packet.
pub rmt_fill_data-interrupts :
    (buffer : List ℕ) (repeats : ℕ) (c : Channel)
    → busy c ≡ false
    → data_len (length buffer) ≤ c.max_data_len
    → repeats < 255
    → let after = rmt_fill_data buffer repeats c in
      let place = length c.preamble_items - 1 in
      (after.0 ≡ filled)
      × ((interrupts (suc (suc repeats)) after.1).1
          ≡ some (converted_packet buffer, place)
            ∷ (replicate repeats none ++ (some (c.idle_items, place) ∷ [])))
unfolding interrupts
rmt_fill_data-interrupts buffer repeats c h l r = (
  ap (λ x. x.0) (loads buffer repeats c h l),
  ap (λ x. (interrupts (suc (suc repeats)) x.1).1) (loads buffer repeats c h l)
      ∙ ap (λ x. x.1 ∷ (interrupts (suc repeats) x.0).1) (copied_out buffer repeats c r)
      ∙ ap (◌∷◌ (some (converted_packet buffer, length c.preamble_items - 1)))
          (repeats_out repeats (record (counted c) { data_items = converted_packet buffer })),
)
