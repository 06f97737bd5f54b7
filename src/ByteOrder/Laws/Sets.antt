-- ===== src/ByteOrder/Laws/Sets.antt =====
-- The `set_` accessors of src/byte_order.h write the bytes of the number and no others, and the
-- `get_` accessors read them back.
use librtcbase.Prelude.{ℕ, ◌≤◌, ◌≡◌, List, [], ◌∷◌, ◌++◌, arith, length, drop}
use librtcbase.ByteOrder.{
  be_bytes, le_bytes, set8, set_be16, set_be32, set_be64, set_le16, set_le32, set_le64,
}

pub set_be16_lem : (m : List ℕ) (v : ℕ) → 2 ≤ length m → set_be16 m v ≡ be_bytes 2 v ++ drop 2 m
unfolding set_be16 set8 be_bytes
set_be16_lem [] v h = absurd (omega arith)
set_be16_lem (_ ∷ []) v h = absurd (omega arith)
set_be16_lem (_ ∷ _ ∷ m) v h = ground arith

pub set_le16_lem : (m : List ℕ) (v : ℕ) → 2 ≤ length m → set_le16 m v ≡ le_bytes 2 v ++ drop 2 m
unfolding set_le16 set8 le_bytes
set_le16_lem [] v h = absurd (omega arith)
set_le16_lem (_ ∷ []) v h = absurd (omega arith)
set_le16_lem (_ ∷ _ ∷ m) v h = ground arith

pub set_be32_lem : (m : List ℕ) (v : ℕ) → 4 ≤ length m → set_be32 m v ≡ be_bytes 4 v ++ drop 4 m
unfolding set_be32 set8 be_bytes
set_be32_lem (_ ∷ _ ∷ _ ∷ _ ∷ m) v h = ground arith
set_be32_lem _ v h = absurd (omega arith)

pub set_le32_lem : (m : List ℕ) (v : ℕ) → 4 ≤ length m → set_le32 m v ≡ le_bytes 4 v ++ drop 4 m
unfolding set_le32 set8 le_bytes
set_le32_lem (_ ∷ _ ∷ _ ∷ _ ∷ m) v h = ground arith
set_le32_lem _ v h = absurd (omega arith)

pub set_be64_lem : (m : List ℕ) (v : ℕ) → 8 ≤ length m → set_be64 m v ≡ be_bytes 8 v ++ drop 8 m
unfolding set_be64 set8 be_bytes
set_be64_lem (_ ∷ _ ∷ _ ∷ _ ∷ _ ∷ _ ∷ _ ∷ _ ∷ m) v h = ground arith
set_be64_lem _ v h = absurd (omega arith)

pub set_le64_lem : (m : List ℕ) (v : ℕ) → 8 ≤ length m → set_le64 m v ≡ le_bytes 8 v ++ drop 8 m
unfolding set_le64 set8 le_bytes
set_le64_lem (_ ∷ _ ∷ _ ∷ _ ∷ _ ∷ _ ∷ _ ∷ _ ∷ m) v h = ground arith
set_le64_lem _ v h = absurd (omega arith)
