-- ===== src/Prelude/Binary.antt =====
-- The operations on binary digits, one digit at a time, and the words of one digit.
use Prim.Native.Nat.{ℕ, zero, suc, ◌+◌, ◌*◌, ◌/◌, ◌%◌, ◌≤◌, ◌<◌, ◌^◌, min, max}
use Prim.Native.Nat.{bit_and, bit_or, digits, bitwise, bit_or-bitwise, bit_and-bitwise}
use mathlib.Core.Path.{◌≡◌, refl, sym, ◌∙◌, ap}
use native.Mathlib.Omega.{arith}
use native.Mathlib.Nat.{two-pow-succ}

digits_enough :
    (z : ℕ → ℕ) (f : ℕ → ℕ → ℕ) (n m a b : ℕ) → a ≤ n → a ≤ m → digits z f n a b ≡ digits z f m a b
digits_enough z f zero zero a b h k = refl
digits_enough z f zero (suc m) zero b h k = refl
digits_enough z f zero (suc m) (suc a) b h k = absurd (omega arith)
digits_enough z f (suc n) zero zero b h k = refl
digits_enough z f (suc n) zero (suc a) b h k = absurd (omega arith)
digits_enough z f (suc n) (suc m) zero b h k = refl
digits_enough z f (suc n) (suc m) (suc a) b h k =
    ap (λ x. x * 2 + f (suc a % 2) (b % 2))
      (digits_enough z f n m (suc a / 2) (b / 2) (omega arith) (omega arith))

or_def : (a b : ℕ) → bit_or a b ≡ bitwise (λ b. b) max a b
or_def a b = λ i. bit_or-bitwise a b i

and_def : (a b : ℕ) → bit_and a b ≡ bitwise (λ b. zero) min a b
and_def a b = λ i. bit_and-bitwise a b i

pub or_step : (a b : ℕ) → bit_or a b ≡ bit_or (a / 2) (b / 2) * 2 + max (a % 2) (b % 2)
or_step zero b =
    or_def zero b ∙ omega arith ∙ ap (λ x. x * 2 + max 0 (b % 2)) (sym (or_def 0 (b / 2)))
or_step (suc a) b =
    or_def (suc a) b
    ∙ ap (λ x. x * 2 + max (suc a % 2) (b % 2))
        (digits_enough (λ b. b) max a (suc a / 2) (suc a / 2) (b / 2) (omega arith) (omega arith)
          ∙ sym (or_def (suc a / 2) (b / 2)))

pub and_step : (a b : ℕ) → bit_and a b ≡ bit_and (a / 2) (b / 2) * 2 + min (a % 2) (b % 2)
and_step zero b =
    and_def zero b ∙ omega arith ∙ ap (λ x. x * 2 + min 0 (b % 2)) (sym (and_def 0 (b / 2)))
and_step (suc a) b =
    and_def (suc a) b
    ∙ ap (λ x. x * 2 + min (suc a % 2) (b % 2))
        (digits_enough (λ b. zero) min a (suc a / 2) (suc a / 2) (b / 2) (omega arith) (omega arith)
          ∙ sym (and_def (suc a / 2) (b / 2)))

-- The binary digit of a number at a place.
unfoldable pub digit : ℕ → ℕ → ℕ
digit zero x = x % 2
digit (suc k) x = digit k (x / 2)

pub digit-lt : (k x : ℕ) → digit k x < 2
unfolding digit
digit-lt zero x = omega arith
digit-lt (suc k) x = digit-lt k (x / 2)

halved_or : (a b : ℕ) → bit_or a b / 2 ≡ bit_or (a / 2) (b / 2)
halved_or a b = omega (arith, or_step a b)

halved_and : (a b : ℕ) → bit_and a b / 2 ≡ bit_and (a / 2) (b / 2)
halved_and a b = omega (arith, and_step a b)

pub digit-or : (k a b : ℕ) → digit k (bit_or a b) ≡ max (digit k a) (digit k b)
unfolding digit
digit-or zero a b = omega (arith, or_step a b)
digit-or (suc k) a b = ap (digit k) (halved_or a b) ∙ digit-or k (a / 2) (b / 2)

pub digit-and : (k a b : ℕ) → digit k (bit_and a b) ≡ min (digit k a) (digit k b)
unfolding digit
digit-and zero a b = omega (arith, and_step a b)
digit-and (suc k) a b = ap (digit k) (halved_and a b) ∙ digit-and k (a / 2) (b / 2)

pub and_zero : (n a : ℕ) → a ≤ n → bit_and a 0 ≡ 0
and_zero zero a h = ap (λ a. bit_and a 0) {x = a} {y = 0} (omega (arith, h))
and_zero (suc n) a h = omega (arith, and_step a 0, and_zero n (a / 2))

power_halves : (n : ℕ) → 2 ^ suc n / 2 ≡ 2 ^ n
power_halves n = omega (arith, two-pow-succ n)

doubled : (d q p : ℕ) → p ≡ q + q → d * p ≡ d * q + d * q
doubled d q p e = rw e (omega arith)

-- A mask of one digit.
pub and_power : (k x : ℕ) → bit_and x (2 ^ k) ≡ digit k x * 2 ^ k
unfolding digit
and_power zero x = omega (arith, and_step x 1, and_zero (x / 2) (x / 2))
and_power (suc k) x =
    let low = ap (bit_and (x / 2)) (power_halves k) ∙ and_power k (x / 2) in
    omega (
      arith,
      and_step x (2 ^ suc k),
      low,
      two-pow-succ k,
      doubled (digit k (x / 2)) (2 ^ k) (2 ^ suc k) (two-pow-succ k),
    )
