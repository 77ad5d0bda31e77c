-- ===== src/ProgTrack/Settling.antt =====
-- DCCACK.cpp: how long `callback` takes, and what it does to the power.
use command_station_ex_la_bo.Prelude.Int.{ℤ}
use command_station_ex_la_bo.ProgTrack.Return.{
  callback, driven, settle, postponed, elapsed, power_gap, Return, finished, LastTry, settles,
}
use command_station_ex_la_bo.ProgTrack.{Manager, after_write, after_read, waiting_100, ready}
use command_station_ex_la_bo.Prelude.{
  ℕ, ◌+◌, ◌-◌, ◌%◌, ◌^◌, ◌≤◌, ◌<◌, ◌≡◌, refl, ap, ◌∙◌, ◌⊎◌, inl, inr, true, false, ◌&&◌, ◌||◌, List,
  [], ◌∷◌, arith, inr, All, not, subst, if◌then◌else◌, Bool-cases, sym,
}

postponed_step :
    (now : ℕ) (times : List ℕ) (m m' : Manager) (v : ℤ)
    → callback now m v ≡ postponed m'
    → driven (now ∷ times) m v ≡ driven times m' v
unfolding driven
postponed_step now times m m' v e = rw (driven, e) refl

stays :
    (times : List ℕ) (m : Manager) (v : ℤ)
    → LastTry m v
    → All (λ now. settle now m v m.callback_state ≡ postponed m) times
    → driven times m v ≡ postponed m
unfolding driven
stays [] m v h w = refl
stays (now ∷ times) m v h (w, ws) =
    postponed_step now times m m v (settles now m v h ∙ w) ∙ stays times m v h ws

each : {P Q : ℕ → Type 0} (times : List ℕ) → ((now : ℕ) → P now → Q now) → All P times → All Q times
each [] f h = tt
each (now ∷ times) f (h, hs) = (f now h, each times f hs)

-- Within so many milliseconds of `since`, on a clock of 32 bits.
abbrev pub Within : ℕ → ℕ → List ℕ → Type 0
Within bound since times = All (λ now. (now + 2 ^ 32 - since) % 2 ^ 32 < bound) times

-- When no retry is to come, after a write, with a join to restore or a power to switch off: at calls of
-- the callback that all come within 100 ms of the first, the value is not given, and the power and the
-- join stay as they are.
pub power_held_after_write :
    (now : ℕ) (times : List ℕ) (m : Manager) (v : ℤ)
    → LastTry m v
    → m.callback_state ≡ after_write
    → (m.rejoin || m.auto_power_off) ≡ true
    → Within 100 now times
    → driven (now ∷ times) m v
      ≡ postponed (record m { callback_start = now; callback_state = waiting_100 })
unfolding settle
power_held_after_write now times m v h s r w =
    let m' = record m { callback_start = now; callback_state = waiting_100 } in
    postponed_step now times m m' v (settles now m v h ∙ ap (settle now m v) s ∙ ground (arith, r))
    ∙ stays times m' v h (each times (λ t b. ground (arith, b)) w)

-- When no retry is to come, with a join to restore and no power to switch off: after a read, or when 100
-- ms are over after a write, the callback takes the power off, and at calls that all come within 30
-- ms the value is not given and the power stays off.
pub power_off_before_join :
    (now : ℕ) (times : List ℕ) (m : Manager) (v : ℤ)
    → LastTry m v
    → m.rejoin ≡ true
    → m.auto_power_off ≡ false
    → (m.callback_state ≡ after_read) ⊎ ((m.callback_state ≡ waiting_100) × (100 ≤ elapsed now m))
    → Within 30 now times
    → driven (now ∷ times) m v ≡ postponed (power_gap now m)
unfolding settle
power_off_before_join now times m v h r o (inl s) w =
    postponed_step now times m (power_gap now m) v
      (settles now m v h ∙ ap (settle now m v) s ∙ ground (arith, r, o))
    ∙ stays times (power_gap now m) v h (each times (λ t b. ground (arith, b)) w)
power_off_before_join now times m v h r o (inr (s, late)) w =
    postponed_step now times m (power_gap now m) v
      (settles now m v h ∙ ap (settle now m v) s ∙ ground (arith, r, o))
    ∙ stays times (power_gap now m) v h (each times (λ t b. ground (arith, b)) w)

-- What the user finds when the value is given.
abbrev pub Given : Return → Manager → ℤ → Type 0
Given r m v =
    (m' : Manager) × (r ≡ finished m' v)
    × (m'.power ≡ not m.auto_power_off)
    × (m'.joined ≡ (m.rejoin || m.joined))

postpones :
    (now : ℕ) (times : List ℕ) (m m' m0 : Manager) (v : ℤ)
    → callback now m v ≡ postponed m'
    → Given (driven times m' v) m0 v
    → Given (driven (now ∷ times) m v) m0 v
postpones now times m m' m0 v e =
    subst (λ r. Given r m0 v) (sym (postponed_step now times m m' v e))

abbrev left : Manager → Manager
left m = record m {
  power = if m.auto_power_off then false else m.power;
  joined = if m.rejoin then true else m.joined;
}

done :
    (now : ℕ) (times : List ℕ) (m : Manager) (v : ℤ)
    → LastTry m v
    → m.callback_state ≡ ready
    → driven (now ∷ times) m v ≡ finished (left m) v
unfolding driven settle
done now times m v h s = rw (driven, settles now m v h ∙ ap (settle now m v) s) refl

from_ready :
    (now : ℕ) (times : List ℕ) (m : Manager) (v : ℤ)
    → LastTry m v
    → m.callback_state ≡ ready
    → m.power ≡ true
    → Given (driven (now ∷ times) m v) m v
from_ready now times m v h s p = (left m, done now times m v h s, ground (arith, p), ground arith)

from_gap :
    (since now now' : ℕ) (times : List ℕ) (m : Manager) (v : ℤ)
    → LastTry m v
    → m.rejoin ≡ true
    → m.auto_power_off ≡ false
    → 30 ≤ (now + 2 ^ 32 - since) % 2 ^ 32
    → Given (driven (now ∷ now' ∷ times) (power_gap since m) v) m v
unfolding settle
from_gap since now now' times m v h r o late =
    let on = record (power_gap since m) { power = true; callback_state = ready } in
    postpones now (now' ∷ times) (power_gap since m) on m v
      (settles now (power_gap since m) v h ∙ ground (arith, late))
      (from_ready now' times on v h refl refl)

-- Each time is at least 100 ms after the one before it.
abbrev pub Apart : ℕ → ℕ → Type 0
Apart earlier later = 100 ≤ (later + 2 ^ 32 - earlier) % 2 ^ 32

from_wait :
    (since t1 t2 t3 : ℕ) (m : Manager) (v : ℤ)
    → LastTry m v
    → (m.rejoin || m.auto_power_off) ≡ true
    → m.power ≡ true
    → m.callback_state ≡ waiting_100
    → m.callback_start ≡ since
    → Apart since t1
    → Apart t1 t2
    → Given (driven (t1 ∷ t2 ∷ t3 ∷ []) m v) m v
unfolding settle
from_wait since t1 t2 t3 m v h r p s f a b = elim (Bool-cases m.auto_power_off) [
  | inl o ↦
      postpones t1 (t2 ∷ t3 ∷ []) m (record m { callback_state = ready }) m v
        (settles t1 m v h ∙ ap (settle t1 m v) s ∙ ground (arith, o, a, f))
        (from_ready t2 (t3 ∷ []) (record m { callback_state = ready }) v h refl p)
  | inr o ↦
      postpones t1 (t2 ∷ t3 ∷ []) m (power_gap t1 m) m v
        (settles t1 m v h ∙ ap (settle t1 m v) s ∙ ground (arith, o, a, f))
        (from_gap t1 t2 t3 [] m v h (ground (arith, r, o)) o (omega (arith, b)))
]

-- When no retry is to come, with the power on, after a read or a write: at most four calls of the
-- callback, the second and third at least 100 ms after the one before, give the value; then the power
-- is off exactly if it was switched on for the program, and the track is joined if it was before.
pub callback_completes :
    (t0 t1 t2 t3 : ℕ) (m : Manager) (v : ℤ)
    → LastTry m v
    → m.power ≡ true
    → (m.callback_state ≡ after_read) ⊎ (m.callback_state ≡ after_write)
    → Apart t0 t1
    → Apart t1 t2
    → Given (driven (t0 ∷ t1 ∷ t2 ∷ t3 ∷ []) m v) m v
unfolding settle
callback_completes t0 t1 t2 t3 m v h p (inl s) a b =
    elim (Bool-cases (m.rejoin && not m.auto_power_off)) [
      | inl j ↦
          postpones t0 (t1 ∷ t2 ∷ t3 ∷ []) m (power_gap t0 m) m v
            (settles t0 m v h ∙ ap (settle t0 m v) s ∙ ground (arith, j))
            (from_gap t0 t1 t2 (t3 ∷ []) m v h (ground (arith, j)) (ground (arith, j))
              (omega (arith, a)))
      | inr j ↦
          postpones t0 (t1 ∷ t2 ∷ t3 ∷ []) m (record m { callback_state = ready }) m v
            (settles t0 m v h ∙ ap (settle t0 m v) s ∙ ground (arith, j))
            (from_ready t1 (t2 ∷ t3 ∷ []) (record m { callback_state = ready }) v h refl p)
    ]
callback_completes t0 t1 t2 t3 m v h p (inr s) a b =
    elim (Bool-cases (m.rejoin || m.auto_power_off)) [
      | inl j ↦
          postpones t0 (t1 ∷ t2 ∷ t3 ∷ []) m
            (record m { callback_start = t0; callback_state = waiting_100 }) m v
            (settles t0 m v h ∙ ap (settle t0 m v) s ∙ ground (arith, j))
            (from_wait t0 t1 t2 t3 (record m { callback_start = t0; callback_state = waiting_100 })
              v h j p refl refl a b)
      | inr j ↦
          postpones t0 (t1 ∷ t2 ∷ t3 ∷ []) m (record m { callback_state = ready }) m v
            (settles t0 m v h ∙ ap (settle t0 m v) s ∙ ground (arith, j))
            (from_ready t1 (t2 ∷ t3 ∷ []) (record m { callback_state = ready }) v h refl p)
    ]
