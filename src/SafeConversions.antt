-- ===== src/SafeConversions.antt =====
-- src/safe_conversions_impl.h and src/safe_conversions.h at bool and the other integral types, of 8 to
-- 64 bits. The branches for floating point types are not modelled. A value of a type is the integer that it stands for.
pub mod Laws
use librtcbase.Prelude.{
  ℕ, zero, ◌+◌, ◌-◌, ◌*◌, ◌%◌, Bool, true, false, not, ◌&&◌, leb, if◌then◌else◌,
}
use librtcbase.Prelude.Int.{ℤ, pos, negsuc, ltb_ℤ}

pub data Width : Type 0 where
  bits8 bits16 bits32 bits64 : Width

-- sizeof.
abbrev pub size_of : Width → ℕ
size_of bits8 = 1
size_of bits16 = 2
size_of bits32 = 4
size_of bits64 = 8

-- Half the number of values of the width.
abbrev pub half : Width → ℕ
half bits8 = 128
half bits16 = 32768
half bits32 = 2147483648
half bits64 = 9223372036854775808

pub record IntType : Type 0 where
  pub width : Width
  pub is_signed : Bool

-- numeric_limits.
abbrev pub min_of : IntType → ℤ
min_of t = if t.is_signed then negsuc (half t.width - 1) else pos 0

abbrev pub max_of : IntType → ℤ
max_of t = if t.is_signed then pos (half t.width - 1) else pos (2 * half t.width - 1)

-- The value modulo the number of values of a width.
abbrev pub residue : ℕ → ℤ → ℕ
residue modulus (pos n) = n % modulus
residue modulus (negsuc n) = modulus - 1 - n % modulus

-- static_cast to an integral type.
unfoldable pub static_cast : IntType → ℤ → ℤ
static_cast t v =
    let r = residue (2 * half t.width) v in
    if t.is_signed && leb (half t.width) r then negsuc (2 * half t.width - r - 1) else pos r

-- The types of a conversion: bool, of one byte with the values 0 and 1, is one of them.
pub data Numeric : Type 0 where
  integer : IntType → Numeric
  boolean : Numeric

-- What sizeof and numeric_limits say of them.
abbrev pub bytes_of : Numeric → ℕ
bytes_of (integer t) = size_of t.width
bytes_of boolean = 1

abbrev pub has_sign : Numeric → Bool
has_sign (integer t) = t.is_signed
has_sign boolean = false

abbrev pub lowest : Numeric → ℤ
lowest (integer t) = min_of t
lowest boolean = pos 0

abbrev pub highest : Numeric → ℤ
highest (integer t) = max_of t
highest boolean = pos 1

-- static_cast to one of them; each value but 0 is `true`.
unfoldable pub cast_to : Numeric → ℤ → ℤ
unfolding static_cast
cast_to (integer t) v = static_cast t v
cast_to boolean (pos zero) = pos 0
cast_to boolean v = pos 1

pub data DstRange : Type 0 where
  overlaps_range contains_range : DstRange

abbrev pub range_if : Bool → DstRange
range_if b = if b then contains_range else overlaps_range

-- StaticRangeCheck, by the two signs.
pub static_range_check : Numeric → Numeric → DstRange
static_range_check dst src =
    if has_sign dst
    then if has_sign src
      then range_if (leb (bytes_of src * 8 - 1) (bytes_of dst * 8 - 1))
      else range_if (leb (bytes_of src * 8) (bytes_of dst * 8 - 1))
    else if has_sign src
    then overlaps_range
    else range_if (leb (bytes_of src) (bytes_of dst))

pub data RangeCheckResult : Type 0 where
  type_valid type_underflow type_overflow type_invalid : RangeCheckResult

-- BASE_NUMERIC_RANGE_CHECK_RESULT: the flags of the enum, joined by `|`.
abbrev pub range_check_result : Bool → Bool → RangeCheckResult
range_check_result true true = type_valid
range_check_result true false = type_underflow
range_check_result false true = type_overflow
range_check_result false false = type_invalid

abbrev pub leb_ℤ : ℤ → ℤ → Bool
leb_ℤ a b = not (ltb_ℤ b a)

-- RangeCheckImpl at OVERLAPS_RANGE, by the two signs.
pub check_overlapping : Numeric → Numeric → ℤ → RangeCheckResult
unfolding cast_to
check_overlapping dst src value =
    let below_max = leb_ℤ value (cast_to src (highest dst)) in
    if has_sign dst
    then if has_sign src
      then range_check_result below_max (leb_ℤ (cast_to src (lowest dst)) value)
      else if leb (bytes_of dst) (bytes_of src)
      then range_check_result below_max true
      else type_valid
    else if has_sign src
    then if leb (bytes_of src * 8 - 1) (bytes_of dst * 8)
      then range_check_result true (leb_ℤ (cast_to src (pos 0)) value)
      else range_check_result below_max (leb_ℤ (cast_to src (pos 0)) value)
    else range_check_result below_max true

pub range_check : Numeric → Numeric → ℤ → RangeCheckResult
unfolding check_overlapping static_range_check
range_check dst src value = elim (static_range_check dst src) [
  | contains_range ↦ type_valid
  | overlaps_range ↦ check_overlapping dst src value
]

abbrev pub is_valid : RangeCheckResult → Bool
is_valid type_valid = true
is_valid _ = false

pub is_value_in_range_for_numeric_type : Numeric → Numeric → ℤ → Bool
unfolding range_check
is_value_in_range_for_numeric_type dst src value = is_valid (range_check dst src value)

-- The check that the comment names is commented out.
pub checked_cast : Numeric → ℤ → ℤ
unfolding cast_to
checked_cast dst value = cast_to dst value

pub saturated_cast : Numeric → Numeric → ℤ → ℤ
unfolding range_check
saturated_cast dst src value = elim (range_check dst src value) [
  | type_valid ↦ cast_to dst value
  | type_underflow ↦ lowest dst
  | type_overflow ↦ highest dst
  | type_invalid ↦ highest dst
]
