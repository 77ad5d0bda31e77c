-- ===== src/ProgTrack/Return.antt =====
-- DCCACK.cpp: `callback`, which leaves programming mode. `now` is what millis() gives.
use command_station_ex_la_bo.Prelude.Int.{ℤ, negsuc}
use command_station_ex_la_bo.ProgTrack.{
  Manager, waiting_30, CallbackState, ready, waiting_100, after_read, after_write,
}
use command_station_ex_la_bo.Prelude.{
  ℕ, zero, ◌+◌, ◌-◌, ◌%◌, ◌^◌, Bool, true, false, not, ◌&&◌, List, [], ◌∷◌, ltb, if◌then◌else◌, ◌≡◌,
  ◌≢◌, arith, refl,
}

-- The program starts again, or the callback is called again at the same entry, or the value is given.
pub data Return : Type 0 where
  retried : Manager → Return
  postponed : Manager → Return
  finished : Manager → ℤ → Return

abbrev pub is_fail : ℤ → Bool
is_fail (negsuc zero) = true
is_fail _ = false

abbrev pub elapsed : ℕ → Manager → ℕ
elapsed now m = (now + 2 ^ 32 - m.callback_start) % 2 ^ 32

-- Power off for 30 ms.
abbrev pub power_gap : ℕ → Manager → Manager
power_gap now m = record m { power = false; callback_start = now; callback_state = waiting_30 }

-- The switch on the state.
unfoldable pub settle : ℕ → Manager → ℤ → CallbackState → Return
settle now m v after_read =
    if m.rejoin && not m.auto_power_off
    then postponed (power_gap now m)
    else postponed (record m { callback_state = ready })
settle now m v after_write =
    if not m.rejoin && not m.auto_power_off
    then postponed (record m { callback_state = ready })
    else postponed (record m { callback_start = now; callback_state = waiting_100 })
settle now m v waiting_100 =
    if ltb (elapsed now m) 100
    then postponed m
    else if m.auto_power_off
    then postponed (record m { callback_state = ready })
    else postponed (power_gap now m)
settle now m v waiting_30 =
    if ltb (elapsed now m) 30
    then postponed m
    else postponed (record m { power = true; callback_state = ready })
settle now m v ready =
    finished
      (record m {
        power = if m.auto_power_off then false else m.power;
        joined = if m.rejoin then true else m.joined;
      })
      v

unfoldable pub callback : ℕ → Manager → ℤ → Return
callback now m v =
    if is_fail v && ltb 0 m.retry
    then retried (record m { retry_sum = (m.retry_sum + 1) % 65536; retry = m.retry - 1 })
    else settle now m v m.callback_state

-- The callback at each of these times, until it is done.
unfoldable pub driven : List ℕ → Manager → ℤ → Return
driven [] m v = postponed m
driven (now ∷ times) m v = elim (callback now m v) [
  | retried m' ↦ retried m'
  | postponed m' ↦ driven times m' v
  | finished m' v' ↦ finished m' v'
]

-- No retry is to come.
abbrev pub LastTry : Manager → ℤ → Type 0
LastTry m v = (is_fail v && ltb 0 m.retry) ≡ false

abbrev pub again : Manager → Manager
again m = record m { retry_sum = (m.retry_sum + 1) % 65536; retry = m.retry - 1 }

pub retries :
    (now : ℕ) (m : Manager) (v : ℤ)
    → (is_fail v && ltb 0 m.retry) ≡ true
    → callback now m v ≡ retried (again m)
unfolding callback
retries now m v h = rw h refl

pub settles :
    (now : ℕ) (m : Manager) (v : ℤ)
    → LastTry m v
    → callback now m v ≡ settle now m v m.callback_state
unfolding callback
settles now m v h = rw h refl

-- The last try is not followed by another.
pub settle_ends : (now : ℕ) (m m' : Manager) (v : ℤ) → LastTry m v → callback now m v ≢ retried m'
unfolding settle
settle_ends now m m' v h e = ground (arith, settles now m v h, e)
