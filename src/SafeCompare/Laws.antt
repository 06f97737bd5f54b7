-- ===== src/SafeCompare/Laws.antt =====
-- The comparisons against the order of the integers.
use librtcbase.Prelude.{◌≡◌, refl, Bool, true, false, arith, ltb, ◌||◌, inl, inr, Bool-cases}
use librtcbase.Prelude.Int.{ℤ, pos, negsuc, ltb_ℤ}
use librtcbase.SafeConversions.{Width, size_of, bits8, bits16, bits32, bits64, IntType, static_cast}
use librtcbase.SafeConversions.Laws.{IsOf, cast_lem}
use librtcbase.SafeCompare.{Op, apply_op, cmp, cmp_signed_unsigned, cmp_unsigned_signed}

-- Where the values are kept by the conversion, the comparison is that of the integers.
sign_test :
    (op : Op) (a b : ℤ)
    → ltb_ℤ a (pos 0) ≡ true
    → ltb_ℤ b (pos 0) ≡ false
    → (apply_op op (negsuc 0) (pos 0) ≡ apply_op op a b)
      × (apply_op op (pos 0) (negsuc 0) ≡ apply_op op b a)
sign_test op a b p q = ground (arith, p, q)

abbrev signed : Width → IntType
signed w = record { width = w; is_signed = true }

abbrev unsigned : Width → IntType
unsigned w = record { width = w; is_signed = false }

or_true : (b : Bool) → (b || true) ≡ true
or_true b = ground arith

-- No type is wider than 64 bits.
widest : (w : Width) → (ltb 8 (size_of w) || false) ≡ false
widest w = ground arith

-- A non-negative value of a signed type is one of the unsigned type of its width.
as_unsigned :
    (w : Width) (a : ℤ)
    → IsOf (signed w) a
    → ltb_ℤ a (pos 0) ≡ false
    → static_cast (unsigned w) a ≡ a
as_unsigned w a h p = cast_lem (unsigned w) a (ground (arith, h, p))

signed-unsigned_at :
    (op : Op) (w1 w2 : Width) (a b : ℤ)
    → IsOf (signed w1) a
    → IsOf (unsigned w2) b
    → (cmp_signed_unsigned op (signed w1) (unsigned w2) a b ≡ apply_op op a b)
      × (cmp_unsigned_signed op (unsigned w2) (signed w1) b a ≡ apply_op op b a)
unfolding cmp_signed_unsigned cmp_unsigned_signed
signed-unsigned_at op w1 bits8 a b ha hb =
    rw
      (
        cmp_signed_unsigned,
        cmp_unsigned_signed,
        or_true (ltb 1 (size_of w1)),
        cast_lem (signed bits16) b (ground (arith, hb)),
      )
      (refl, refl)
signed-unsigned_at op w1 bits16 a b ha hb =
    rw
      (
        cmp_signed_unsigned,
        cmp_unsigned_signed,
        or_true (ltb 2 (size_of w1)),
        cast_lem (signed bits32) b (ground (arith, hb)),
      )
      (refl, refl)
signed-unsigned_at op w1 bits32 a b ha hb =
    rw
      (
        cmp_signed_unsigned,
        cmp_unsigned_signed,
        or_true (ltb 4 (size_of w1)),
        cast_lem (signed bits64) b (ground (arith, hb)),
      )
      (refl, refl)
signed-unsigned_at op w1 bits64 a b ha hb =
    rw (cmp_signed_unsigned, cmp_unsigned_signed, widest w1)
      (elim (Bool-cases (ltb_ℤ a (pos 0))) [
        | inl p ↦ rw p (sign_test op a b p (ground (arith, hb)))
        | inr p ↦ rw (p, as_unsigned w1 a ha p) (refl, refl)
      ])

cmp_at :
    (op : Op) (s1 s2 : Bool) (w1 w2 : Width) (a b : ℤ)
    → IsOf (record { width = w1; is_signed = s1 }) a
    → IsOf (record { width = w2; is_signed = s2 }) b
    → cmp op (record { width = w1; is_signed = s1 }) (record { width = w2; is_signed = s2 }) a b
      ≡ apply_op op a b
unfolding cmp
cmp_at op true true w1 w2 a b ha hb = refl
cmp_at op true false w1 w2 a b ha hb = (signed-unsigned_at op w1 w2 a b ha hb).0
cmp_at op false true w1 w2 a b ha hb = (signed-unsigned_at op w2 w1 b a hb ha).1
cmp_at op false false w1 w2 a b ha hb = refl

-- Each of the six comparisons, at every pair of integral types and values of these, is the
-- comparison of the integers that the values stand for.
pub cmp_lem :
    (op : Op) (t1 t2 : IntType) (a b : ℤ)
    → IsOf t1 a
    → IsOf t2 b
    → cmp op t1 t2 a b ≡ apply_op op a b
cmp_lem op t1 t2 a b ha hb = cmp_at op t1.is_signed t2.is_signed t1.width t2.width a b ha hb
