-- ===== src/Prelude/Memory.antt =====
-- memcmp of as many bytes on both sides.
use Prim.Native.Nat.{ℕ}
use mathlib.Core.Path.{◌≡◌, refl, ap₂}
use mathlib.Core.Bool.{Bool, true, false, ◌&&◌, ◌||◌}
use mathlib.Core.List.{List, [], ◌∷◌}
use native.Mathlib.Omega.{arith}
use librtcbase.Prelude.Tests.{ltb, ◌==◌, ==_iff}

-- The result is 0.
unfoldable pub memcmp_eq : List ℕ → List ℕ → Bool
memcmp_eq [] [] = true
memcmp_eq (x ∷ xs) (y ∷ ys) = (x == y) && memcmp_eq xs ys
memcmp_eq _ _ = false

-- The result is negative.
unfoldable pub memcmp_lt : List ℕ → List ℕ → Bool
memcmp_lt (x ∷ xs) (y ∷ ys) = ltb x y || ((x == y) && memcmp_lt xs ys)
memcmp_lt _ _ = false

-- Bytes that compare equal are equal.
pub memcmp_eq_refl : (xs : List ℕ) → memcmp_eq xs xs ≡ true
unfolding memcmp_eq
memcmp_eq_refl [] = refl
memcmp_eq_refl (x ∷ xs) = rw ((==_iff x x).1 refl, memcmp_eq_refl xs)

and-split : {a b : Bool} → (a && b) ≡ true → (a ≡ true) × (b ≡ true)
and-split {a} {b} h = ground arith

pub memcmp_eq_sound : (xs ys : List ℕ) → memcmp_eq xs ys ≡ true → xs ≡ ys
unfolding memcmp_eq
memcmp_eq_sound [] [] h = refl
memcmp_eq_sound [] (y ∷ ys) h = ground (arith, h)
memcmp_eq_sound (x ∷ xs) [] h = ground (arith, h)
memcmp_eq_sound (x ∷ xs) (y ∷ ys) h =
    ap₂ ◌∷◌ ((==_iff x y).0 (and-split h).0) (memcmp_eq_sound xs ys (and-split h).1)
