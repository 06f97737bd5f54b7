-- ===== src/Prelude/Bits/Xor.antt =====
-- Exclusive or at variables: its digits, and its group laws.
use Prim.Native.Nat.{ℕ, zero, suc, ◌+◌, ◌*◌, ◌/◌, ◌%◌, ◌^◌, ◌≤◌, ◌<◌, bit_xor}
use mathlib.Core.Path.{◌≡◌, refl, ◌∙◌, sym, ap}
use native.Mathlib.Nat.{pow-suc}
use native.Mathlib.Omega.{arith}
use librtcbase.Prelude.Bits.Digit.{bit_xor_digit}

pub bit_xor_half : (a b : ℕ) → bit_xor a b / 2 ≡ bit_xor (a / 2) (b / 2)
bit_xor_half a b = omega (arith, bit_xor_digit a b)

pub bit_xor_parity : (a b : ℕ) → bit_xor a b % 2 ≡ (a + b) % 2
bit_xor_parity a b = omega (arith, bit_xor_digit a b)

zero-xor : bit_xor 0 0 ≡ 0
zero-xor = refl

-- Each law is proved for all numbers up to a bound, by halving.
comm_upto : (n a b : ℕ) → a ≤ n → b ≤ n → bit_xor a b ≡ bit_xor b a
comm_upto zero a b p q = let ea : a ≡ 0 = omega arith in let eb : b ≡ 0 = omega arith in rw (ea, eb)
comm_upto (suc n) a b p q = omega (
  arith,
  bit_xor_digit a b,
  bit_xor_digit b a,
  comm_upto n (a / 2) (b / 2) (omega arith) (omega arith),
)

pub bit_xor_comm : (a b : ℕ) → bit_xor a b ≡ bit_xor b a
bit_xor_comm a b = comm_upto (a + b) a b (omega arith) (omega arith)

assoc_upto :
    (n a b c : ℕ) → a ≤ n → b ≤ n → c ≤ n → bit_xor (bit_xor a b) c ≡ bit_xor a (bit_xor b c)
assoc_upto zero a b c p q r =
    let ea : a ≡ 0 = omega arith in
    let eb : b ≡ 0 = omega arith in let ec : c ≡ 0 = omega arith in rw (ea, eb, ec)
assoc_upto (suc n) a b c p q r = ground (
  arith,
  bit_xor_digit (bit_xor a b) c,
  bit_xor_digit a (bit_xor b c),
  bit_xor_half a b,
  bit_xor_half b c,
  bit_xor_parity a b,
  bit_xor_parity b c,
  assoc_upto n (a / 2) (b / 2) (c / 2) (omega arith) (omega arith) (omega arith),
)

pub bit_xor_assoc : (a b c : ℕ) → bit_xor (bit_xor a b) c ≡ bit_xor a (bit_xor b c)
bit_xor_assoc a b c = assoc_upto (a + b + c) a b c (omega arith) (omega arith) (omega arith)

zero_upto : (n a : ℕ) → a ≤ n → bit_xor a 0 ≡ a
zero_upto zero a p = let e : a ≡ 0 = omega arith in rw e
zero_upto (suc n) a p = omega (arith, bit_xor_digit a 0, zero_upto n (a / 2) (omega arith))

pub bit_xor-zero : (a : ℕ) → bit_xor a 0 ≡ a
bit_xor-zero a = zero_upto a a (omega arith)

self_upto : (n a : ℕ) → a ≤ n → bit_xor a a ≡ 0
self_upto zero a p = let e : a ≡ 0 = omega arith in rw e
self_upto (suc n) a p = omega (arith, bit_xor_digit a a, self_upto n (a / 2) (omega arith))

pub bit_xor_self : (a : ℕ) → bit_xor a a ≡ 0
bit_xor_self a = self_upto a a (omega arith)

pub bit_xor_cancel : (a b : ℕ) → bit_xor (bit_xor a b) b ≡ a
bit_xor_cancel a b = rw (bit_xor_assoc, bit_xor_self, bit_xor-zero)

-- Two numbers whose exclusive or is 0 are equal.
pub eq_of_bit_xor-eq-zero : (a b : ℕ) → bit_xor a b ≡ 0 → a ≡ b
eq_of_bit_xor-eq-zero a b h =
    sym (bit_xor_cancel a b) ∙ ap (λ t. bit_xor t b) h ∙ bit_xor_comm 0 b ∙ bit_xor-zero b

pub bit_xor-lt : (k a b : ℕ) → a < 2 ^ k → b < 2 ^ k → bit_xor a b < 2 ^ k
bit_xor-lt zero a b p q =
    let ea : a ≡ 0 = omega arith in let eb : b ≡ 0 = omega arith in rw (ea, eb) (omega arith)
bit_xor-lt (suc k) a b p q = omega (
  arith,
  pow-suc 2 k,
  bit_xor_digit a b,
  bit_xor-lt k (a / 2) (b / 2) (omega (arith, pow-suc 2 k)) (omega (arith, pow-suc 2 k)),
)

-- Of a part below `2 ^ k` and a multiple of `2 ^ k` it is the sum.
pub bit_xor_fields : (k hi lo : ℕ) → lo < 2 ^ k → bit_xor lo (hi * 2 ^ k) ≡ hi * 2 ^ k + lo
bit_xor_fields zero hi lo p =
    let e : lo ≡ 0 = omega arith in
    rw e (omega (arith, bit_xor_comm 0 (hi * 1), bit_xor-zero (hi * 1)))
bit_xor_fields (suc k) hi lo p = omega (
  arith,
  double,
  bit_xor_digit lo (hi * 2 ^ suc k),
  bit_xor_fields k hi (lo / 2) (omega (arith, pow-suc 2 k)),
  ap (λ t. bit_xor (lo / 2) t) half,
)
  where
    double : hi * 2 ^ suc k ≡ 2 * (hi * 2 ^ k)
    double = omega (arith, ap (λ (t : ℕ). hi * t) (pow-suc 2 k))

    half : hi * 2 ^ suc k / 2 ≡ hi * 2 ^ k
    half = omega (arith, double)
