-- ===== src/ByteOrder/Laws/Gets.antt =====
-- What the `get_` accessors of src/byte_order.h read, as sums of the bytes.
use librtcbase.Prelude.{ℕ, ◌+◌, ◌*◌, ◌%◌, ◌^◌, ◌<◌, bit_or, ◌≡◌, List, ◌∷◌, arith}
use librtcbase.Prelude.Bits.{bit_or_disjoint, bit_or_disjoint_swapped}
use librtcbase.ByteOrder.{get8, get_be16, get_be32, get_be64, get_le16, get_le32, get_le64}

module _ (a b : ℕ) (rest : List ℕ) (ha : a < 256) (hb : b < 256) where
  pub get_be16_sum : get_be16 (a ∷ b ∷ rest) ≡ a * 256 + b
  unfolding get_be16 get8
  get_be16_sum = omega (arith, bit_or_disjoint 8 (a * 256) (b * 1) (omega arith) (omega arith))

  pub get_le16_sum : get_le16 (a ∷ b ∷ rest) ≡ a + b * 256
  unfolding get_le16 get8
  get_le16_sum =
      omega (arith, bit_or_disjoint_swapped 8 (a * 1) (b * 256) (omega arith) (omega arith))

-- `x | y` for the next lower field `y` of `k` bits, and for the next higher field.
lower : (k x y s t : ℕ) → x ≡ s → y ≡ t → s % 2 ^ k ≡ 0 → t < 2 ^ k → bit_or x y ≡ s + t
lower k x y s t p q m h = rw (p, q) (bit_or_disjoint k s t m h)

higher : (k x y s t : ℕ) → x ≡ s → y ≡ t → s < 2 ^ k → t % 2 ^ k ≡ 0 → bit_or x y ≡ s + t
higher k x y s t p q h m = rw (p, q) (bit_or_disjoint_swapped k s t h m)

module _ (a b c d : ℕ) (rest : List ℕ) (ha : a < 256) (hb : b < 256) (hc : c < 256)
    (hd : d < 256) where
  pub get_be32_sum : get_be32 (a ∷ b ∷ c ∷ d ∷ rest) ≡ a * 2 ^ 24 + b * 2 ^ 16 + c * 2 ^ 8 + d
  unfolding get_be32 get8
  get_be32_sum =
      lower 8 _ _ (a * 2 ^ 24 + b * 2 ^ 16 + c * 2 ^ 8) d
        (lower 16 _ _ (a * 2 ^ 24 + b * 2 ^ 16) (c * 2 ^ 8)
          (lower 24 _ _ (a * 2 ^ 24) (b * 2 ^ 16) (omega arith) (omega arith) (omega arith)
            (omega arith))
          (omega arith) (omega arith) (omega arith))
        (omega arith) (omega arith) (omega arith)

  pub get_le32_sum : get_le32 (a ∷ b ∷ c ∷ d ∷ rest) ≡ a + b * 2 ^ 8 + c * 2 ^ 16 + d * 2 ^ 24
  unfolding get_le32 get8
  get_le32_sum =
      higher 24 _ _ (a + b * 2 ^ 8 + c * 2 ^ 16) (d * 2 ^ 24)
        (higher 16 _ _ (a + b * 2 ^ 8) (c * 2 ^ 16)
          (higher 8 _ _ a (b * 2 ^ 8) (omega arith) (omega arith) (omega arith) (omega arith))
          (omega arith) (omega arith) (omega arith))
        (omega arith) (omega arith) (omega arith)

module _ (a b c d e f g h : ℕ) (rest : List ℕ) (ha : a < 256) (hb : b < 256) (hc : c < 256)
    (hd : d < 256) (he : e < 256) (hf : f < 256) (hg : g < 256) (hh : h < 256) where
  pub get_be64_sum :
      get_be64 (a ∷ b ∷ c ∷ d ∷ e ∷ f ∷ g ∷ h ∷ rest)
      ≡ a * 2 ^ 56 + b * 2 ^ 48 + c * 2 ^ 40 + d * 2 ^ 32 + e * 2 ^ 24 + f * 2 ^ 16 + g * 2 ^ 8 + h
  unfolding get_be64 get8
  get_be64_sum =
      lower 8 _ _
        (a * 2 ^ 56 + b * 2 ^ 48 + c * 2 ^ 40 + d * 2 ^ 32 + e * 2 ^ 24 + f * 2 ^ 16 + g * 2 ^ 8) h
        (lower 16 _ _ (a * 2 ^ 56 + b * 2 ^ 48 + c * 2 ^ 40 + d * 2 ^ 32 + e * 2 ^ 24 + f * 2 ^ 16)
          (g * 2 ^ 8)
          (lower 24 _ _ (a * 2 ^ 56 + b * 2 ^ 48 + c * 2 ^ 40 + d * 2 ^ 32 + e * 2 ^ 24)
            (f * 2 ^ 16)
            (lower 32 _ _ (a * 2 ^ 56 + b * 2 ^ 48 + c * 2 ^ 40 + d * 2 ^ 32) (e * 2 ^ 24)
              (lower 40 _ _ (a * 2 ^ 56 + b * 2 ^ 48 + c * 2 ^ 40) (d * 2 ^ 32)
                (lower 48 _ _ (a * 2 ^ 56 + b * 2 ^ 48) (c * 2 ^ 40)
                  (lower 56 _ _ (a * 2 ^ 56) (b * 2 ^ 48) (omega arith) (omega arith) (omega arith)
                    (omega arith))
                  (omega arith) (omega arith) (omega arith))
                (omega arith) (omega arith) (omega arith))
              (omega arith) (omega arith) (omega arith))
            (omega arith) (omega arith) (omega arith))
          (omega arith) (omega arith) (omega arith))
        (omega arith) (omega arith) (omega arith)

  pub get_le64_sum :
      get_le64 (a ∷ b ∷ c ∷ d ∷ e ∷ f ∷ g ∷ h ∷ rest)
      ≡ a + b * 2 ^ 8 + c * 2 ^ 16 + d * 2 ^ 24 + e * 2 ^ 32 + f * 2 ^ 40 + g * 2 ^ 48 + h * 2 ^ 56
  unfolding get_le64 get8
  get_le64_sum =
      higher 56 _ _ (a + b * 2 ^ 8 + c * 2 ^ 16 + d * 2 ^ 24 + e * 2 ^ 32 + f * 2 ^ 40 + g * 2 ^ 48)
        (h * 2 ^ 56)
        (higher 48 _ _ (a + b * 2 ^ 8 + c * 2 ^ 16 + d * 2 ^ 24 + e * 2 ^ 32 + f * 2 ^ 40)
          (g * 2 ^ 48)
          (higher 40 _ _ (a + b * 2 ^ 8 + c * 2 ^ 16 + d * 2 ^ 24 + e * 2 ^ 32) (f * 2 ^ 40)
            (higher 32 _ _ (a + b * 2 ^ 8 + c * 2 ^ 16 + d * 2 ^ 24) (e * 2 ^ 32)
              (higher 24 _ _ (a + b * 2 ^ 8 + c * 2 ^ 16) (d * 2 ^ 24)
                (higher 16 _ _ (a + b * 2 ^ 8) (c * 2 ^ 16)
                  (higher 8 _ _ a (b * 2 ^ 8) (omega arith) (omega arith) (omega arith)
                    (omega arith))
                  (omega arith) (omega arith) (omega arith))
                (omega arith) (omega arith) (omega arith))
              (omega arith) (omega arith) (omega arith))
            (omega arith) (omega arith) (omega arith))
          (omega arith) (omega arith) (omega arith))
        (omega arith) (omega arith) (omega arith)
