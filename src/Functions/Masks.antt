-- ===== src/Functions/Masks.antt =====
-- DCC.cpp: the masks of the function words, digit by digit.
use native.Mathlib.Nat.{one-le-pow}
use command_station_ex_la_bo.Functions.{func_mask, new_set, func_unmask}
use command_station_ex_la_bo.Prelude.{
  ℕ, zero, suc, ◌*◌, ◌^◌, ◌<◌, ◌≡◌, refl, ◌∙◌, Bool, true, false, not, ◌&&◌, arith, ◌==◌,
  if◌then◌else◌, bit_and, all_below, digit, digit-or, digit-and, digit-lt, and_power, all_below_at,
}

abbrev pub bit : Bool → ℕ
bit on = if on then 1 else 0

mask_table :
    all_below 32 (λ n. all_below 32 (λ k.
      (digit k (func_mask n) == bit (k == n)) && (digit k (func_unmask n) == bit (not (k == n)))))
    ≡ true
unfolding all_below digit
mask_table = refl

masks :
    (n k : ℕ)
    → n < 32
    → k < 32
    → (digit k (func_mask n) ≡ bit (k == n)) × (digit k (func_unmask n) ≡ bit (not (k == n)))
masks n k h l =
    let row = all_below_at 32 _ n mask_table h in
    let entry = all_below_at 32 _ k row l in ground (arith, entry)

-- The new word has the function as told, and every other as it was.
pub digit-new_set :
    (x n k : ℕ) (on : Bool)
    → n < 32
    → k < 32
    → digit k (new_set x n on) ≡ (if k == n then bit on else digit k x)
digit-new_set x n k true h l =
    digit-or k x (func_mask n) ∙ ground (arith, masks n k h l, digit-lt k x)
digit-new_set x n k false h l =
    digit-and k x (func_unmask n) ∙ ground (arith, masks n k h l, digit-lt k x)

-- The test of a digit.
positive : (n : ℕ) → 0 < 2 ^ n
positive n = one-le-pow n 2 (omega arith)

pub test-digit : (x n : ℕ) → (bit_and x (func_mask n) == 0) ≡ (digit n x == 0)
test-digit x n = split (digit n x) (digit-lt n x) (and_power n x)
  where
    split : (d : ℕ) → d < 2 → bit_and x (2 ^ n) ≡ d * 2 ^ n → (bit_and x (2 ^ n) == 0) ≡ (d == 0)
    split zero h e = ground (arith, e)
    split (suc zero) h e = ground (arith, e, positive n)
    split (suc (suc d)) h e = absurd (omega arith)
