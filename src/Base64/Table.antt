-- ===== src/Base64/Table.antt =====
-- The two tables are inverse to each other, and the arithmetic of the bits of three bytes.
use librtcbase.Prelude.{
  ℕ, ◌+◌, ◌*◌, ◌/◌, ◌%◌, ◌^◌, ◌<◌, bit_or, Bool, true, Option, none, some, ◌==◌, ◌≡◌, refl, arith,
  ◌&&◌,
}
use librtcbase.Prelude.Bits.{at_below, every_below, bit_or_disjoint, bit_or-zero}
use librtcbase.Base64.{
  character, code, is_base64_char, code_1, code_2, code_3, code_4, byte_1, byte_2, byte_3,
}

abbrev same_code : ℕ → Bool
same_code c = code (character c) == c && is_base64_char (character c)

codes_table : every_below 64 same_code ≡ true
unfolding every_below
codes_table = refl

pub code-character : (c : ℕ) → c < 64 → code (character c) ≡ c
code-character c p = let h = at_below 64 same_code c codes_table p in ground (arith, h)

pub is_base64_char-character : (c : ℕ) → c < 64 → is_base64_char (character c) ≡ true
is_base64_char-character c p = let h = at_below 64 same_code c codes_table p in ground (arith, h)

or_2 : (x y : ℕ) → bit_or (x * 16 % 64) (y / 16 % 16) ≡ x * 16 % 64 + y / 16 % 16
or_2 x y = bit_or_disjoint 4 (x * 16 % 64) (y / 16 % 16) (omega arith) (omega arith)

or_3 : (y z : ℕ) → bit_or (y * 4 % 64) (z / 64 % 4) ≡ y * 4 % 64 + z / 64 % 4
or_3 y z = bit_or_disjoint 2 (y * 4 % 64) (z / 64 % 4) (omega arith) (omega arith)

-- The codes are below 64.
pub code_2_small : (x : ℕ) (y : Option ℕ) → code_2 x y < 64
code_2_small x none = omega arith
code_2_small x (some y) = omega (arith, or_2 x y)

pub code_3_small : (y : ℕ) (z : Option ℕ) → code_3 y z < 64
code_3_small y none = omega arith
code_3_small y (some z) = omega (arith, or_3 y z)

pub byte_1_lem : (x : ℕ) (y : Option ℕ) → x < 2 ^ 8 → byte_1 (code_1 x) (code_2 x y) ≡ x
byte_1_lem x none p =
    omega
      (arith, bit_or_disjoint 2 (code_1 x * 4) (x * 16 % 64 / 16 % 4) (omega arith) (omega arith))
byte_1_lem x (some y) p =
    let c = x * 16 % 64 + y / 16 % 16 in
    rw (or_2 x y)
      (omega (arith, bit_or_disjoint 2 (code_1 x * 4) (c / 16 % 4) (omega arith) (omega arith)))

pub byte_2_lem : (x y : ℕ) (z : Option ℕ) → y < 2 ^ 8 → byte_2 (code_2 x (some y)) (code_3 y z) ≡ y
byte_2_lem x y none p =
    let c = x * 16 % 64 + y / 16 % 16 in
    rw (or_2 x y) (
      omega
        (arith, bit_or_disjoint 4 (c % 16 * 16) (y * 4 % 64 / 4 % 16) (omega arith) (omega arith)))
byte_2_lem x y (some z) p =
    let c = x * 16 % 64 + y / 16 % 16 in
    let d = y * 4 % 64 + z / 64 % 4 in
    rw (or_2 x y, or_3 y z)
      (omega (arith, bit_or_disjoint 4 (c % 16 * 16) (d / 4 % 16) (omega arith) (omega arith)))

pub byte_3_lem : (y z : ℕ) → z < 2 ^ 8 → byte_3 (code_3 y (some z)) (code_4 z) ≡ z
byte_3_lem y z p =
    let d = y * 4 % 64 + z / 64 % 4 in
    rw (or_3 y z)
      (omega (arith, bit_or_disjoint 6 (d % 4 * 64) (z % 64) (omega arith) (omega arith)))

-- No bits are left over after one byte or two.
pub byte_2_rest : (x : ℕ) → byte_2 (code_2 x none) 0 ≡ 0
byte_2_rest x = omega (arith, bit_or-zero (x * 16 % 64 % 16 * 16))

pub byte_3_rest : (y : ℕ) → byte_3 (code_3 y none) 0 ≡ 0
byte_3_rest y = omega (arith, bit_or-zero (y * 4 % 64 % 4 * 64))
