-- ===== src/Dcc/Momentum.antt =====
-- DCC.cpp: momentum. A reminder moves the speed of a loco towards its target, on a scale that runs
-- from full reverse to full forward.
use command_station_ex_la_bo.Prelude.{
  ℕ, ◌+◌, ◌-◌, ◌%◌, ◌≤◌, ◌<◌, ◌≡◌, refl, ap, ◌∙◌, true, ◌&&◌, ◌||◌, arith, ltb, ◌==◌, ==_iff,
  if◌then◌else◌, bit_and, bit_or, all_below, all_below_at,
}
use command_station_ex_la_bo.Prelude.Int.{
  ℤ, pos, negsuc, ltb_ℤ, ◌+ℤ◌, ◌-ℤ◌, pos_part, neg_part, +ℤ_parts, -ℤ_parts,
}

pub normalize : ℕ → ℤ
normalize speed = if bit_and speed 0x80 == 0 then negsuc speed else pos (speed % 128)

pub dccalize : ℤ → ℕ
dccalize (pos n) = if ltb 127 n then 0xFF else bit_or n 0x80
dccalize (negsuc n) = if ltb 126 n then 0x7F else n

-- The change of the current speed by some ticks, which are not 0.
pub ramp : ℤ → ℤ → ℕ → ℤ
ramp current target ticks =
    let up = current +ℤ pos ticks in
    let down = current -ℤ pos ticks in
    if ltb_ℤ current target
    then (if ltb_ℤ target up then target else up)
    else if ltb_ℤ down target
    then target
    else down

-- Every speed code comes back from the scale.
code_table : all_below 256 (λ s. dccalize (normalize s) == s) ≡ true
unfolding all_below normalize dccalize
code_table = refl

pub dccalize-normalize : (s : ℕ) → s < 256 → dccalize (normalize s) ≡ s
dccalize-normalize s h = (==_iff _ _).0 (all_below_at 256 _ s code_table h)

-- How far apart two speeds are.
abbrev pub gap : ℤ → ℤ → ℕ
gap a b =
    (pos_part a + neg_part b - (pos_part b + neg_part a))
    + (pos_part b + neg_part a - (pos_part a + neg_part b))

-- A step closes the gap by its ticks, and stops at the target.
pub gap-ramp :
    (current target : ℤ) (ticks : ℕ)
    → gap (ramp current target ticks) target ≡ gap current target - ticks
unfolding ramp ◌+ℤ◌ ◌-ℤ◌
gap-ramp current target ticks =
    ground (arith, +ℤ_parts current (pos ticks), -ℤ_parts current (pos ticks))

-- The scale of `normalize`.
abbrev pub InScale : ℤ → Type 0
InScale a = (pos_part a ≤ 127) × (neg_part a ≤ 128)

ramp-InScale :
    (current target : ℤ) (ticks : ℕ)
    → InScale current
    → InScale target
    → InScale (ramp current target ticks)
unfolding ramp ◌+ℤ◌ ◌-ℤ◌
ramp-InScale current target ticks h k = ground arith

sign_table :
    all_below 256 (λ x.
      (bit_and x 0x80 == (if ltb x 128 then 0 else 128))
      && (ltb 127 x || (bit_or x 0x80 == x + 128)))
    ≡ true
unfolding all_below
sign_table = refl

sign : (x : ℕ) → x < 256 → bit_and x 0x80 ≡ (if ltb x 128 then 0 else 128)
sign x h = ground (
  arith,
  all_below_at 256
      (λ x.
        (bit_and x 0x80 == (if ltb x 128 then 0 else 128))
        && (ltb 127 x || (bit_or x 0x80 == x + 128)))
      x sign_table h,
)

with_sign : (x : ℕ) → x < 128 → bit_or x 0x80 ≡ x + 128
with_sign x h = ground (
  arith,
  all_below_at 256
      (λ x.
        (bit_and x 0x80 == (if ltb x 128 then 0 else 128))
        && (ltb 127 x || (bit_or x 0x80 == x + 128)))
      x sign_table (omega arith),
)

pub normalize-InScale : (s : ℕ) → s < 256 → InScale (normalize s)
unfolding normalize
normalize-InScale s h = ground (arith, sign s h)

-- On the scale the two conversions are inverse to one another.
normalize-dccalize : (a : ℤ) → InScale a → normalize (dccalize a) ≡ a
unfolding normalize dccalize
normalize-dccalize (pos n) h =
    ground (arith, with_sign n (omega arith), sign (n + 128) (omega arith))
normalize-dccalize (negsuc n) h = ground (arith, sign n (omega arith), sign 127 (omega arith))

dccalize-lt : (a : ℤ) → InScale a → dccalize a < 256
unfolding dccalize
dccalize-lt (pos n) h = ground (arith, with_sign n (omega arith))
dccalize-lt (negsuc n) h = ground arith

-- The change of a speed code by one reminder.
pub ramp_code : ℕ → ℕ → ℕ → ℕ
ramp_code target code ticks = dccalize (ramp (normalize code) (normalize target) ticks)

pub ramp_code-lt :
    (target code ticks : ℕ) → target < 256 → code < 256 → ramp_code target code ticks < 256
unfolding ramp_code
ramp_code-lt target code ticks h k =
    dccalize-lt _ (ramp-InScale _ _ ticks (normalize-InScale code k) (normalize-InScale target h))

normalize-ramp_code :
    (target code ticks : ℕ)
    → target < 256
    → code < 256
    → normalize (ramp_code target code ticks) ≡ ramp (normalize code) (normalize target) ticks
unfolding ramp_code
normalize-ramp_code target code ticks h k =
    normalize-dccalize _
      (ramp-InScale _ _ ticks (normalize-InScale code k) (normalize-InScale target h))

-- A change of a speed code by some ticks, towards a target code, closes the gap between the two by
-- just the ticks, or all of it where it is less; the codes are of one byte.
pub gap-ramp_code :
    (target code ticks : ℕ)
    → target < 256
    → code < 256
    → gap (normalize (ramp_code target code ticks)) (normalize target)
      ≡ gap (normalize code) (normalize target) - ticks
gap-ramp_code target code ticks h k =
    ap (λ a. gap a (normalize target)) (normalize-ramp_code target code ticks h k)
    ∙ gap-ramp (normalize code) (normalize target) ticks
