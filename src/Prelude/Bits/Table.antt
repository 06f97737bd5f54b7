-- ===== src/Prelude/Bits/Table.antt =====
-- A statement about every byte is checked by evaluation at the 256 of them.
use Prim.Native.Nat.{ℕ, zero, suc, ◌<◌}
use mathlib.Core.Path.{◌≡◌}
use mathlib.Core.Bool.{Bool, true, ◌&&◌}
use native.Mathlib.Omega.{arith}
use librtcbase.Prelude.Tests.{◌==◌, ==_iff}

unfoldable pub every_below : ℕ → (ℕ → Bool) → Bool
every_below zero test = true
every_below (suc n) test = test n && every_below n test

pub at_below : (n : ℕ) (test : ℕ → Bool) (x : ℕ) → every_below n test ≡ true → x < n → test x ≡ true
unfolding every_below
at_below zero test x all h = absurd (omega arith)
at_below (suc n) test x all h = ground (arith, at_below n test x)

-- Two functions that agree at every number below `n` when evaluated are equal there.
pub eq_by_table :
    (n : ℕ) (f g : ℕ → ℕ) → every_below n (λ x. f x == g x) ≡ true → (x : ℕ) → x < n → f x ≡ g x
eq_by_table n f g all x h = (==_iff (f x) (g x)).0 (at_below n (λ x. f x == g x) x all h)
