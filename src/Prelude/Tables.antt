-- ===== src/Prelude/Tables.antt =====
-- Facts on all small numbers, by evaluation.
use Prim.Native.Nat.{ℕ, zero, suc, ◌<◌}
use mathlib.Core.Path.{◌≡◌}
use mathlib.Core.Bool.{Bool, true, ◌&&◌}
use native.Mathlib.Omega.{arith}

-- Whether a test holds of every number below a bound.
unfoldable pub all_below : ℕ → (ℕ → Bool) → Bool
all_below zero test = true
all_below (suc bound) test = test bound && all_below bound test

-- A number below the bound passes the test.
pub all_below_lem :
    (bound : ℕ) (test : ℕ → Bool) (x : ℕ) → x < bound → all_below bound test ≡ true → test x ≡ true
unfolding all_below
all_below_lem zero test x h table = absurd (omega arith)
all_below_lem (suc bound) test x h table = ground (arith, all_below_lem bound test x)
