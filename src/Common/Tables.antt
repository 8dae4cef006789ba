-- ===== src/Common/Tables.antt =====
-- A property of all small numbers, checked by evaluation.
use Prim.Native.Nat.{ℕ, zero, suc, ◌<◌}
use mathlib.Core.Path.{◌≡◌}
use mathlib.Core.Bool.{Bool, true, ◌&&◌}
use native.Mathlib.Omega.{arith}

unfoldable pub all_below : ℕ → (ℕ → Bool) → Bool
all_below (suc bound) test = test bound && all_below bound test
all_below zero test = true

pub all_below_sound :
    (bound : ℕ) (test : ℕ → Bool) (i : ℕ) → all_below bound test ≡ true → i < bound → test i ≡ true
unfolding all_below
all_below_sound (suc bound) test i checked below = ground (arith, all_below_sound bound test i)
all_below_sound zero test i checked below = absurd (omega arith)
