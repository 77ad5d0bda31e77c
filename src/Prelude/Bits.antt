-- ===== src/Prelude/Bits.antt =====
-- Facts about bytes that are checked on every value.
use Prim.Native.Nat.{ℕ, zero, suc, ◌<◌}
use mathlib.Core.Path.{◌≡◌}
use mathlib.Core.Bool.{Bool, true, ◌&&◌}
use native.Mathlib.Omega.{arith}

-- Whether the test succeeds from 0 up to the bound, which is left out.
unfoldable pub all_below : ℕ → (ℕ → Bool) → Bool
all_below zero test = true
all_below (suc bound) test = all_below bound test && test bound

-- A table that computes to true holds at each of its entries.
pub all_below_at :
    (bound : ℕ) (test : ℕ → Bool) (k : ℕ) → all_below bound test ≡ true → k < bound → test k ≡ true
unfolding all_below
all_below_at zero test k table inside = absurd (omega arith)
all_below_at (suc bound) test k table inside =
    let earlier = all_below_at bound test k in ground (arith, earlier)
