-- ===== src/Base/Tables.antt =====
-- A statement about every number below a bound, by evaluation.
use Prim.Native.Nat.{ℕ, zero, suc, ◌<◌}
use mathlib.Core.Path.{◌≡◌}
use mathlib.Core.Bool.{Bool, true, ◌&&◌}
use native.Mathlib.Omega.{arith}

unfoldable pub checks_below : ℕ → (ℕ → Bool) → Bool
checks_below zero test = true
checks_below (suc top) test = checks_below top test && test top

pub true_below :
    (top : ℕ) (test : ℕ → Bool) (x : ℕ) → x < top → checks_below top test ≡ true → test x ≡ true
unfolding checks_below
true_below zero test x lt h = absurd (omega arith)
true_below (suc top) test x lt h = ground (arith, true_below top test x)
