-- ===== src/SafeCompare.antt =====
-- src/safe_compare.h: comparisons of integers of mixed signs. A value of a type is the integer that
-- it stands for; the comparison of two values of one signedness is that of the integers, since the
-- promotions of the language keep their values.
pub mod Laws
use librtcbase.Prelude.{
  ℕ, ◌+◌, Bool, true, false, not, ◌&&◌, ◌||◌, Option, none, some, ltb, ◌==◌, if◌then◌else◌,
}
use librtcbase.Prelude.Int.{ℤ, pos, negsuc, ltb_ℤ}
use librtcbase.SafeConversions.{Width, bits8, bits16, bits32, bits64, size_of, IntType, static_cast}

-- EqOp to GeOp, of RTC_SAFECMP_MAKE_OP.
pub data Op : Type 0 where
  eq_op ne_op lt_op le_op gt_op ge_op : Op

abbrev pub apply_op : Op → ℤ → ℤ → Bool
apply_op eq_op a b = not (ltb_ℤ a b) && not (ltb_ℤ b a)
apply_op ne_op a b = ltb_ℤ a b || ltb_ℤ b a
apply_op lt_op a b = ltb_ℤ a b
apply_op le_op a b = not (ltb_ℤ b a)
apply_op gt_op a b = ltb_ℤ b a
apply_op ge_op a b = not (ltb_ℤ a b)

-- LargerIntImpl: the signed type of twice the size.
abbrev pub larger_int_impl : Width → Option IntType
larger_int_impl bits8 = some (record { width = bits16; is_signed = true })
larger_int_impl bits16 = some (record { width = bits32; is_signed = true })
larger_int_impl bits32 = some (record { width = bits64; is_signed = true })
larger_int_impl bits64 = none

-- LargerInt; a pointer has 8 bytes.
abbrev pub larger_int : IntType → IntType → Option IntType
larger_int t1 t2 =
    if ltb (size_of t1.width) (size_of t2.width) || ltb (size_of t1.width) 8
    then larger_int_impl t1.width
    else none

abbrev pub make_unsigned : IntType → ℤ → ℤ
make_unsigned t v = static_cast (record t { is_signed = false }) v

-- The overloads of Cmp: signed with unsigned, and unsigned with signed.
pub cmp_signed_unsigned : Op → IntType → IntType → ℤ → ℤ → Bool
cmp_signed_unsigned op t1 t2 a b = elim (larger_int t2 t1) [
  | some larger ↦ apply_op op a (static_cast larger b)
  | none ↦
      if ltb_ℤ a (pos 0) then apply_op op (negsuc 0) (pos 0) else apply_op op (make_unsigned t1 a) b
]

pub cmp_unsigned_signed : Op → IntType → IntType → ℤ → ℤ → Bool
cmp_unsigned_signed op t1 t2 a b = elim (larger_int t1 t2) [
  | some larger ↦ apply_op op (static_cast larger a) b
  | none ↦
      if ltb_ℤ b (pos 0) then apply_op op (pos 0) (negsuc 0) else apply_op op a (make_unsigned t2 b)
]

-- Cmp, as the signs select it. SafeEq to SafeGe are its instances at the six operators.
pub cmp : Op → IntType → IntType → ℤ → ℤ → Bool
unfolding cmp_signed_unsigned cmp_unsigned_signed
cmp op t1 t2 a b =
    if t1.is_signed
    then if t2.is_signed then apply_op op a b else cmp_signed_unsigned op t1 t2 a b
    else if t2.is_signed
    then cmp_unsigned_signed op t1 t2 a b
    else apply_op op a b
