-- ===== src/Prelude/Bits/Fields.antt =====
-- A low mask takes a remainder, and an or of disjoint fields is a sum, at every width.
use Prim.Native.Nat.{ℕ, zero, suc, ◌+◌, ◌-◌, ◌*◌, ◌/◌, ◌%◌, ◌^◌, ◌≤◌, ◌<◌, bit_and, bit_or}
use mathlib.Core.Path.{◌≡◌, ap, ap₂}
use native.Mathlib.Nat.{pow-suc, one-le-pow}
use native.Mathlib.Omega.{arith}
use librtcbase.Prelude.Bits.Digit.{bit_and_digit, bit_or_digit}

or_zero_upto : (n a : ℕ) → a ≤ n → bit_or a 0 ≡ a
or_zero_upto zero a p = let e : a ≡ 0 = omega arith in rw e
or_zero_upto (suc n) a p = omega (arith, bit_or_digit a 0, or_zero_upto n (a / 2) (omega arith))

pub bit_or-zero : (a : ℕ) → bit_or a 0 ≡ a
bit_or-zero a = or_zero_upto a a (omega arith)

and_zero_upto : (n a : ℕ) → a ≤ n → bit_and a 0 ≡ 0
and_zero_upto zero a p = let e : a ≡ 0 = omega arith in rw e
and_zero_upto (suc n) a p = omega (arith, bit_and_digit a 0, and_zero_upto n (a / 2) (omega arith))

pub bit_and-zero : (a : ℕ) → bit_and a 0 ≡ 0
bit_and-zero a = and_zero_upto a a (omega arith)

mul-pow_double : (hi k : ℕ) → hi * 2 ^ suc k ≡ 2 * (hi * 2 ^ k)
mul-pow_double hi k = omega (arith, ap (λ (t : ℕ). hi * t) (pow-suc 2 k))

mul-pow_half : (hi k : ℕ) → hi * 2 ^ suc k / 2 ≡ hi * 2 ^ k
mul-pow_half hi k = omega (arith, mul-pow_double hi k)

-- `(hi << k) | lo`, where `lo` has at most `k` bits.
pub bit_or_fields : (k hi lo : ℕ) → lo < 2 ^ k → bit_or (hi * 2 ^ k) lo ≡ hi * 2 ^ k + lo
bit_or_fields zero hi lo p =
    let e : lo ≡ 0 = omega arith in rw e (omega (arith, bit_or-zero (hi * 1)))
bit_or_fields (suc k) hi lo p = omega (
  arith,
  mul-pow_double hi k,
  bit_or_digit (hi * 2 ^ suc k) lo,
  bit_or_fields k hi (lo / 2) (omega (arith, pow-suc 2 k)),
  ap (λ t. bit_or t (lo / 2)) (mul-pow_half hi k),
)

-- The mask keeps the low field of a number split at bit `k`.
low_field : (k hi lo : ℕ) → lo < 2 ^ k → bit_and (hi * 2 ^ k + lo) (2 ^ k - 1) ≡ lo
low_field zero hi lo p = omega (arith, bit_and-zero (hi * 1 + lo))
low_field (suc k) hi lo p = omega (
  arith,
  pow-suc 2 k,
  one-le-pow k 2,
  mul-pow_double hi k,
  bit_and_digit (hi * 2 ^ suc k + lo) (2 ^ suc k - 1),
  low_field k hi (lo / 2) (omega (arith, pow-suc 2 k)),
  ap₂ bit_and halved masked,
)
  where
    halved : (hi * 2 ^ suc k + lo) / 2 ≡ hi * 2 ^ k + lo / 2
    halved = omega (arith, mul-pow_double hi k)

    masked : (2 ^ suc k - 1) / 2 ≡ 2 ^ k - 1
    masked = omega (arith, pow-suc 2 k)

-- `a & (2 ^ k - 1)`.
pub bit_and_mask : (k a : ℕ) → bit_and a (2 ^ k - 1) ≡ a % 2 ^ k
bit_and_mask k a = ground (arith, one-le-pow k 2, low_field k (a / 2 ^ k) (a % 2 ^ k))

or_comm_upto : (n a b : ℕ) → a ≤ n → b ≤ n → bit_or a b ≡ bit_or b a
or_comm_upto zero a b p q =
    let ea : a ≡ 0 = omega arith in let eb : b ≡ 0 = omega arith in rw (ea, eb)
or_comm_upto (suc n) a b p q = omega (
  arith,
  bit_or_digit a b,
  bit_or_digit b a,
  or_comm_upto n (a / 2) (b / 2) (omega arith) (omega arith),
)

pub bit_or_comm : (a b : ℕ) → bit_or a b ≡ bit_or b a
bit_or_comm a b = or_comm_upto (a + b) a b (omega arith) (omega arith)

-- Where `x` is a multiple of `2 ^ k` and `y` is below it, `|` adds.
pub bit_or_disjoint : (k x y : ℕ) → x % 2 ^ k ≡ 0 → y < 2 ^ k → bit_or x y ≡ x + y
bit_or_disjoint k x y m h =
    let whole : x ≡ x / 2 ^ k * 2 ^ k = grind arith in
    rw (← whole) at (bit_or_fields k (x / 2 ^ k) y h)

pub bit_or_disjoint_swapped : (k x y : ℕ) → x < 2 ^ k → y % 2 ^ k ≡ 0 → bit_or x y ≡ x + y
bit_or_disjoint_swapped k x y h m = omega (arith, bit_or_comm x y, bit_or_disjoint k y x m h)
