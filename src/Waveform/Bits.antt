-- ===== src/Waveform/Bits.antt =====
-- DCCWaveform.cpp: the levels of the bits.
use command_station_ex_la_bo.Waveform.{
  WaveState, Wave, interrupt2, wave_mid_1, tick, wave_high_0, wave_start, wave_pending,
}
use command_station_ex_la_bo.Prelude.{
  ℕ, zero, suc, ◌≡◌, Bool, true, false, List, [], ◌∷◌, ◌++◌, arith, if◌then◌else◌, ap, ◌∙◌, refl,
}

-- The levels of a bit: a 1 is HIGH and LOW for one half bit each, a 0 for two.
abbrev pub wave_of : Bool → List Bool
wave_of true = true ∷ false ∷ []
wave_of false = true ∷ true ∷ false ∷ false ∷ []

abbrev pub waves_of : List Bool → List Bool
waves_of [] = []
waves_of (b ∷ bs) = wave_of b ++ waves_of bs

-- The bit that an interrupt has chosen.
abbrev pub chosen : WaveState → Bool
chosen wave_mid_1 = true
chosen s = false

-- The bits of one packet after the other, as the interrupts choose them, and where that ends.
unfoldable pub bits : ℕ → Wave → List Bool × Wave
bits zero w = ([], w)
bits (suc n) w =
    let next = interrupt2 w in let rest = bits n next in (chosen next.state ∷ rest.0, rest.1)

-- The levels of so many ticks, and where they end.
unfoldable pub ticks : ℕ → Wave → List Bool × Wave
ticks zero w = ([], w)
ticks (suc n) w = let now = tick w in let rest = ticks n now.1 in (now.0 ∷ rest.0, rest.1)

-- How many ticks some bits take.
abbrev pub ticks_for : List Bool → ℕ
ticks_for [] = 0
ticks_for (true ∷ bs) = suc (suc (ticks_for bs))
ticks_for (false ∷ bs) = suc (suc (suc (suc (ticks_for bs))))

abbrev pub in_state : WaveState → Wave → Wave
in_state s w = record w { state = s }

-- An interrupt leaves one of the two states that begin a bit, and does not read the state.
interrupt2_chooses :
    (w : Wave)
    → (interrupt2 w).state ≡ (if chosen (interrupt2 w).state then wave_mid_1 else wave_high_0)
unfolding interrupt2
interrupt2_chooses w = ground arith

pub interrupt2_stateless : (s : WaveState) (w : Wave) → interrupt2 (in_state s w) ≡ interrupt2 w
unfolding interrupt2
interrupt2_stateless s w = ground arith

-- One tick more in front of others.
abbrev ticked : ℕ → Bool × Wave → List Bool × Wave
ticked n now = (now.0 ∷ (ticks n now.1).0, (ticks n now.1).1)

tick_start : (w x : Wave) → interrupt2 w ≡ x → tick (in_state wave_start w) ≡ (true, x)
unfolding tick
tick_start w x e = ap (λ x. (true, x)) (interrupt2_stateless wave_pending w ∙ e)

after_one :
    (n : ℕ) (w x : Wave)
    → interrupt2 w ≡ in_state wave_mid_1 x
    → ticks (suc (suc n)) (in_state wave_start w)
      ≡ (true ∷ false ∷ (ticks n (in_state wave_start x)).0, (ticks n (in_state wave_start x)).1)
unfolding ticks tick
after_one n w x e = ap (ticked (suc n)) (tick_start w (in_state wave_mid_1 x) e)

after_zero :
    (n : ℕ) (w x : Wave)
    → interrupt2 w ≡ in_state wave_high_0 x
    → ticks (suc (suc (suc (suc n)))) (in_state wave_start w) ≡ (
      true ∷ true ∷ false ∷ false ∷ (ticks n (in_state wave_start x)).0,
      (ticks n (in_state wave_start x)).1,
    )
unfolding ticks tick
after_zero n w x e = ap (ticked (suc (suc (suc n)))) (tick_start w (in_state wave_high_0 x) e)

-- A track that is about to begin a bit sets, from tick to tick, the levels of the bits that its interrupts choose, and comes to begin the
-- next bit.
pub ticks-bits :
    (n : ℕ) (w : Wave)
    → ticks (ticks_for (bits n w).0) (in_state wave_start w)
      ≡ (waves_of (bits n w).0, in_state wave_start (bits n w).1)
unfolding bits ticks
ticks-bits zero w = refl
ticks-bits (suc n) w = at (chosen (interrupt2 w).state) refl (ticks-bits n (interrupt2 w))
  where
    next : Wave
    next = interrupt2 w

    rest : List Bool × Wave
    rest = bits n next

    state_is :
        (b : Bool) → chosen next.state ≡ b → next.state ≡ (if b then wave_mid_1 else wave_high_0)
    state_is b e = interrupt2_chooses w ∙ ap (λ b. if b then wave_mid_1 else wave_high_0) {y = b} e

    at :
        (b : Bool)
        → chosen next.state ≡ b
        → ticks (ticks_for rest.0) (in_state wave_start next)
          ≡ (waves_of rest.0, in_state wave_start rest.1)
        → ticks (ticks_for (chosen next.state ∷ rest.0)) (in_state wave_start w)
          ≡ (waves_of (chosen next.state ∷ rest.0), in_state wave_start rest.1)
    at true e ih = rw e (
        after_one (ticks_for rest.0) w next (ap (λ s. in_state s next) (state_is true e))
        ∙ ap (λ t. (true ∷ false ∷ t.0, t.1)) ih)
    at false e ih = rw e (
        after_zero (ticks_for rest.0) w next (ap (λ s. in_state s next) (state_is false e))
        ∙ ap (λ t. (true ∷ true ∷ false ∷ false ∷ t.0, t.1)) ih)
