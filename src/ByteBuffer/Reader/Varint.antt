-- ===== src/ByteBuffer/Reader/Varint.antt =====
-- ByteBufferReader::read_uvarint reads the base-128 digits of a 64-bit number back.
use native.Mathlib.Nat.{mod-eq_of_lt}
use native.Mathlib.Numerals.{towards_suc}
use librtcbase.Prelude.{
  ℕ, zero, suc, ◌+◌, ◌-◌, ◌*◌, ◌/◌, ◌%◌, ◌^◌, ◌≤◌, ◌<◌, bit_and, bit_or, ◌≡◌, refl, ◌∙◌, ap, ap₂,
  true, some, List, [], ◌∷◌, ◌++◌, length, u64, arith,
}
use librtcbase.Prelude.Bits.{bit_and_mask, bit_or_disjoint_swapped}
use librtcbase.ByteBuffer.Writer.Varint.{Base128, last, more, length-Base128}
use librtcbase.ByteBuffer.Reader.{
  ByteBufferReader, Read, skip, sign_extend, read_uvarint_loop, read_uvarint,
}
use librtcbase.ByteBuffer.Reader.Laws.{
  StartsWith, StartsWith-skip, StartsWith-append, read_bytes_known,
}

pow-add_seven : (i : ℕ) → 2 ^ (i + 7) ≡ 128 * 2 ^ i
pow-add_seven i = simp towards_suc (omega arith)

mul-mod : (a p : ℕ) → 0 < p → a * p % p ≡ 0
mul-mod a p h = grind arith

-- The low seven bits of a byte read, sign-extended or not.
low_seven :
    (d : ℕ)
    → d < 128
    → (bit_and (sign_extend d) 0x7F ≡ d) × (bit_and (sign_extend (d + 128)) 0x7F ≡ d)
low_seven d h =
    (ground (arith, bit_and_mask 7 d), ground (arith, bit_and_mask 7 (d + 128 + 2 ^ 64 - 256)))

-- A digit is or-ed in above the bits read so far.
digit_sum :
    (i acc d : ℕ)
    → acc < 2 ^ i
    → acc + d * 2 ^ i < 2 ^ 64
    → bit_or acc (u64 (d * 2 ^ i)) ≡ acc + d * 2 ^ i
digit_sum i acc d h fits =
    rw (mod-eq_of_lt {n = d * 2 ^ i} {m = 2 ^ 64} (omega arith))
      (bit_or_disjoint_swapped i acc (d * 2 ^ i) h (mul-mod d (2 ^ i) (omega arith)))

skip-skip : (r : ByteBufferReader) (n : ℕ) → skip (skip r 1) n ≡ skip r (suc n)
skip-skip r n = ap (λ s. record r { start = s }) (omega arith)

-- A marked byte adds its digit and sends the loop on.
loop-round :
    (r : ByteBufferReader) (d : ℕ) (bs rest : List ℕ) (left i acc : ℕ)
    → d < 128
    → acc < 2 ^ i
    → acc + d * 2 ^ i < 2 ^ 64
    → StartsWith r ((d + 128) ∷ bs) rest
    → read_uvarint_loop (suc left) i acc r
      ≡ read_uvarint_loop left (i + 7) (acc + d * 2 ^ i) (skip r 1)
unfolding read_uvarint_loop
loop-round r d bs rest left i acc lt h fits s = ground (
  arith,
  read_bytes_known {len = 1} ((d + 128) ∷ []) (bs ++ rest)
      (StartsWith-append ((d + 128) ∷ []) bs rest s) refl,
  low_seven d lt,
  digit_sum i acc d h fits,
)

-- The number splits at its lowest digit, at any scale.
split_digit : (v i : ℕ) → v * 2 ^ i ≡ v % 128 * 2 ^ i + v / 128 * 2 ^ (i + 7)
split_digit v i =
    let whole : v ≡ v / 128 * 128 + v % 128 = omega arith in
    rw (pow-add_seven i)
      (omega (arith, ap (λ (t : ℕ). t * 2 ^ i) {x = v} {y = v / 128 * 128 + v % 128} whole))

digit_room : (d p acc : ℕ) → d < 128 → acc < p → acc + d * p < 128 * p
digit_room d p acc lt h = grind arith

loop-value :
    {v : ℕ} {bs : List ℕ}
    → Base128 v bs
    → (r : ByteBufferReader) (rest : List ℕ) (left i acc : ℕ) → length bs ≤ left
    → acc < 2 ^ i
    → acc + v * 2 ^ i < 2 ^ 64
    → StartsWith r bs rest
    → read_uvarint_loop left i acc r ≡ (some (acc + v * 2 ^ i), skip r (length bs))
loop-value (last v lt) r rest zero i acc len h fits s = absurd (omega arith)
loop-value (last v lt) r rest (suc left) i acc len h fits s =
    unfold read_uvarint_loop in
    ground (
      arith,
      read_bytes_known {len = 1} (v ∷ []) rest s refl,
      low_seven v lt,
      digit_sum i acc v h fits,
    )
loop-value (more v bs ge b) r rest zero i acc len h fits s = absurd (omega arith)
loop-value (more v bs ge b) r rest (suc left) i acc len h fits s =
    let d = v % 128 in
    loop-round r d bs rest left i acc (omega arith) h (omega (arith, split_digit v i)) s
    ∙ loop-value b (skip r 1) rest left (i + 7) (acc + d * 2 ^ i) (omega arith)
        (omega (arith, digit_room d (2 ^ i) acc (omega arith) h, pow-add_seven i))
        (omega (arith, split_digit v i)) (StartsWith-skip ((d + 128) ∷ []) bs rest s refl)
    ∙ ap₂ {C = Read ℕ} (λ n t. (some n, t)) (omega (arith, split_digit v i))
        (skip-skip r (length bs))

-- Where what remains of a valid reader begins with the base-128 digits of a number below 2 ^ 64,
-- reading a varint gives the number and skips its digits.
pub read_uvarint-Base128 :
    {v : ℕ} {bs : List ℕ} {r : ByteBufferReader} (rest : List ℕ)
    → Base128 v bs
    → v < 2 ^ 64
    → StartsWith r bs rest
    → read_uvarint r true ≡ (some v, skip r (length bs))
unfolding read_uvarint
read_uvarint-Base128 {v} {bs} {r} rest b h s =
    loop-value b r rest 10 0 0 (length-Base128 b 9 (omega arith)) (omega arith) (omega arith) s
    ∙ ap {B = Read ℕ} (λ n. (some n, skip r (length bs))) (omega arith)
