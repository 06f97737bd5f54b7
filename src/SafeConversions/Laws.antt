-- ===== src/SafeConversions/Laws.antt =====
-- The range check and the saturating cast against the order of the integers.
use librtcbase.Prelude.{
  zero, suc, ◌*◌, ◌==◌, ◌≤◌, ◌<◌, ◌≡◌, ◌↔◌, refl, inl, inr, Bool, true, false, if◌then◌else◌,
  Bool-cases, arith,
}
use librtcbase.Prelude.Int.{ℤ, pos, negsuc, ltb_ℤ, ◌≤ℤ◌}
use librtcbase.SafeConversions.{
  Width, bits8, bits16, bits32, bits64, size_of, half, IntType, min_of, max_of, static_cast,
  Numeric, integer, boolean, lowest, highest, cast_to, static_range_check, RangeCheckResult,
  type_valid, type_underflow, type_overflow, check_overlapping, range_check,
  is_value_in_range_for_numeric_type, saturated_cast,
}

-- The value is one of the type.
pub record IsOf (t : IntType) (v : ℤ) : Type 0 where
  pub above : min_of t ≤ℤ v
  pub below : v ≤ℤ max_of t

cast_at :
    (w : Width) (s : Bool) (v : ℤ)
    → (let t : IntType = record { width = w; is_signed = s } in IsOf t v → static_cast t v ≡ v)
unfolding static_cast
cast_at bits8 true v h = ground (arith, h)
cast_at bits8 false v h = ground (arith, h)
cast_at bits16 true v h = ground (arith, h)
cast_at bits16 false v h = ground (arith, h)
cast_at bits32 true v h = ground (arith, h)
cast_at bits32 false v h = ground (arith, h)
cast_at bits64 true v h = ground (arith, h)
cast_at bits64 false v h = ground (arith, h)

-- A cast keeps a value that the type has.
pub cast_lem : (t : IntType) (v : ℤ) → IsOf t v → static_cast t v ≡ v
cast_lem t v h = cast_at t.width t.is_signed v h

half_lem : (a : Width) → 1 ≤ half a
half_lem bits8 = omega arith
half_lem bits16 = omega arith
half_lem bits32 = omega arith
half_lem bits64 = omega arith

-- A wider type has at least twice the values, and the width decides it.
half_grows : (a b : Width) → size_of a < size_of b → 2 * half a ≤ half b
half_grows a b h = ground (arith, h)

half_mono : (a b : Width) → size_of a ≤ size_of b → half a ≤ half b
half_mono a b h = ground (arith, h)

-- The value is one of the type, bool or not.
pub record IsValueOf (t : Numeric) (v : ℤ) : Type 0 where
  pub above : lowest t ≤ℤ v
  pub below : v ≤ℤ highest t

cast_to_lem : (t : Numeric) (v : ℤ) → IsValueOf t v → cast_to t v ≡ v
unfolding cast_to
cast_to_lem (integer t) v h = cast_lem t v (record { above = h.above; below = h.below })
cast_to_lem boolean (pos zero) h = refl
cast_to_lem boolean (pos (suc n)) h = ground (arith, h)
cast_to_lem boolean (negsuc n) h = ground (arith, h)

-- Where the value lies, by the order of the integers.
abbrev pub place : Numeric → ℤ → RangeCheckResult
place dst v =
    if ltb_ℤ v (lowest dst)
    then type_underflow
    else if ltb_ℤ (highest dst) v
    then type_overflow
    else type_valid

-- A bool has one byte, but not all of its values.
abbrev pub is_byte_to_bool : Numeric → Numeric → Bool
is_byte_to_bool boolean (integer t) = size_of t.width == 1
is_byte_to_bool dst src = false

-- The place of a value for which the upper limit is not looked at.
abbrev pub place_byte : ℤ → RangeCheckResult
place_byte v = if ltb_ℤ v (pos 0) then type_underflow else type_valid

check_at :
    (dst src : Width) (ds ss : Bool) (v : ℤ)
    → IsOf (record { width = src; is_signed = ss }) v
    → range_check
        (integer (record { width = dst; is_signed = ds }))
        (integer (record { width = src; is_signed = ss }))
        v
      ≡ place (integer (record { width = dst; is_signed = ds })) v
unfolding range_check check_overlapping static_range_check static_cast cast_to
check_at dst src true true v h = ground (arith, h)
check_at dst src true false v h = ground (arith, h)
check_at dst src false true v h = ground (arith, h)
check_at dst src false false v h = ground (arith, h)

check_to_bool :
    (src : Width) (ss : Bool) (v : ℤ)
    → IsOf (record { width = src; is_signed = ss }) v
    → range_check boolean (integer (record { width = src; is_signed = ss })) v
      ≡ (if size_of src == 1 then place_byte v else place boolean v)
unfolding range_check check_overlapping static_range_check static_cast cast_to
check_to_bool src true v h = ground (arith, h)
check_to_bool src false v h = ground (arith, h)

check_from_bool :
    (dst : Width) (ds : Bool) (v : ℤ)
    → IsValueOf boolean v
    → range_check (integer (record { width = dst; is_signed = ds })) boolean v
      ≡ place (integer (record { width = dst; is_signed = ds })) v
unfolding range_check check_overlapping static_range_check static_cast cast_to
check_from_bool dst true v h = ground (arith, h)
check_from_bool dst false v h = ground (arith, h)

-- For every pair of types out of bool and the other integral types of 8 to 64 bits, and every value
-- of the source type, the range check says whether the value lies below, above or within the limits
-- of the destination type; but from another type of one byte to bool it takes every value above for
-- valid.
pub range_check_lem :
    (dst src : Numeric) (v : ℤ)
    → IsValueOf src v
    → range_check dst src v ≡ (if is_byte_to_bool dst src then place_byte v else place dst v)
unfolding range_check static_range_check
range_check_lem (integer d) (integer s) v h =
    check_at d.width s.width d.is_signed s.is_signed v (record { above = h.above; below = h.below })
range_check_lem boolean (integer s) v h =
    check_to_bool s.width s.is_signed v (record { above = h.above; below = h.below })
range_check_lem (integer d) boolean v h = check_from_bool d.width d.is_signed v h
range_check_lem boolean boolean v h = ground (arith, h)

-- A value above that is not found to be is cast to true, which is the limit.
saturated_byte :
    (t : IntType) (v : ℤ)
    → range_check boolean (integer t) v ≡ place_byte v
    → saturated_cast boolean (integer t) v
      ≡ (if ltb_ℤ v (pos 0) then pos 0 else if ltb_ℤ (pos 1) v then pos 1 else v)
unfolding saturated_cast cast_to
saturated_byte t (pos zero) e = rw (e, saturated_cast) (refl)
saturated_byte t (pos (suc n)) e = rw (e, saturated_cast) (ground (arith))
saturated_byte t (negsuc n) e = rw (e, saturated_cast) (ground (arith))

saturated_place :
    (dst src : Numeric) (v : ℤ)
    → range_check dst src v ≡ place dst v
    → saturated_cast dst src v ≡ (
        if ltb_ℤ v (lowest dst)
        then lowest dst
        else if ltb_ℤ (highest dst) v
        then highest dst
        else v)
unfolding saturated_cast
saturated_place dst src v e =
    rw (e, saturated_cast)
      (elim (Bool-cases (ltb_ℤ v (lowest dst))) [
        | inl p ↦ rw p refl
        | inr p ↦ elim (Bool-cases (ltb_ℤ (highest dst) v)) [
          | inl q ↦ rw (p, q) refl
          | inr q ↦ rw (p, q) (cast_to_lem dst v (ground (arith, p, q)))
        ]
      ])

saturated_at :
    (dst src : Numeric) (v : ℤ)
    → range_check dst src v ≡ (if is_byte_to_bool dst src then place_byte v else place dst v)
    → saturated_cast dst src v ≡ (
        if ltb_ℤ v (lowest dst)
        then lowest dst
        else if ltb_ℤ (highest dst) v
        then highest dst
        else v)
saturated_at (integer d) src v e = saturated_place (integer d) src v e
saturated_at boolean boolean v e = saturated_place boolean boolean v e
saturated_at boolean (integer s) v e = elim (Bool-cases (size_of s.width == 1)) [
  | inl p ↦ saturated_byte s v (ground (arith, e, p))
  | inr p ↦ saturated_place boolean (integer s) v (ground (arith, e, p))
]

module _ (dst src : Numeric) (v : ℤ) (h : IsValueOf src v) where
  -- For every pair of types, but for those of one byte to bool, and every value of the source type,
  -- is_value_in_range_for_numeric_type is true exactly when the value is one of the destination
  -- type.
  is_value_in_range_iff :
      is_byte_to_bool dst src ≡ false
      → (is_value_in_range_for_numeric_type dst src v ≡ true) ↔ IsValueOf dst v
  unfolding is_value_in_range_for_numeric_type
  is_value_in_range_iff e = rw (range_check_lem dst src v h, e) (ground arith)

  -- For every pair of types out of bool and the other integral types of 8 to 64 bits, and every
  -- value of the source type, the saturating cast gives the limit of the destination type that the
  -- value lies beyond, and the value itself if it lies within.
  pub saturated_cast_lem : saturated_cast dst src v ≡ (
      if ltb_ℤ v (lowest dst) then lowest dst else if ltb_ℤ (highest dst) v then highest dst else v)
  saturated_cast_lem = saturated_at dst src v (range_check_lem dst src v h)
