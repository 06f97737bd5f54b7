-- ===== src/Crc32/Laws.antt =====
-- The table-driven update is the bit-by-bit division of RFC 1952, and works in pieces.
use native.Mathlib.Nat.{pow-suc}
use librtcbase.Prelude.{
  ℕ, zero, suc, ◌*◌, ◌/◌, ◌%◌, ◌^◌, ◌<◌, bit_and, bit_xor, ◌≡◌, ◌⊎◌, refl, ◌∙◌, ap, ap₂, sym, true,
  inl, inr, List, [], ◌∷◌, ◌++◌, get_or, ◌==◌, Bool-cases, arith, AllBytes,
}
use librtcbase.Prelude.Bits.{
  every_below, eq_by_table, bit_and_mask, bit_xor_half, bit_xor_parity, bit_xor_assoc, bit_xor-zero,
  bit_xor_cancel, bit_xor_fields,
}
use librtcbase.Crc32.{
  crc32_polynomial, table_size, zero_table, crc_bit, crc_bits, fill_table,
  ensure_crc32_table_inited, update_loop, update_crc32,
}

-- The remainder of RFC 1952: eight divisions by the polynomial after each byte is added in.
unfoldable pub remainder : ℕ → List ℕ → ℕ
remainder c [] = c
remainder c (u ∷ rest) = remainder (crc_bits 8 (bit_xor c u)) rest

abbrev pub crc32_table : List ℕ
crc32_table = fill_table table_size 0 zero_table

-- The table is the one that `{0}` gives, or filled.
abbrev pub IsTable : List ℕ → Type 0
IsTable t = (t ≡ zero_table) ⊎ (t ≡ crc32_table)

fills : ensure_crc32_table_inited zero_table ≡ crc32_table
unfolding ensure_crc32_table_inited
fills = refl

keeps : ensure_crc32_table_inited crc32_table ≡ crc32_table
unfolding ensure_crc32_table_inited
keeps = refl

ensured : (t : List ℕ) → IsTable t → ensure_crc32_table_inited t ≡ crc32_table
ensured t (inl e) = rw e fills
ensured t (inr e) = rw e keeps

table_entries : every_below 256 (λ x. get_or crc32_table x 0 == crc_bits 8 x) ≡ true
unfolding every_below fill_table crc_bits crc_bit
table_entries = refl

table_entry : (x : ℕ) → x < 256 → get_or crc32_table x 0 ≡ crc_bits 8 x
table_entry = eq_by_table 256 (λ x. get_or crc32_table x 0) (crc_bits 8) table_entries

-- What a division step sees of an exclusive or with an even number.
low_bit : (a h : ℕ) → bit_and (bit_xor a (h * 2)) 1 ≡ bit_and a 1
low_bit a h =
    omega (arith, bit_and_mask 1 (bit_xor a (h * 2)), bit_and_mask 1 a, bit_xor_parity a (h * 2))

rest_bits : (a h : ℕ) → bit_xor a (h * 2) / 2 ≡ bit_xor (a / 2) h
rest_bits a h = bit_xor_half a (h * 2) ∙ ap (bit_xor (a / 2)) (omega arith)

-- A division step passes the bits above the lowest through.
crc_bit_xor : (a h : ℕ) → crc_bit (bit_xor a (h * 2)) ≡ bit_xor (crc_bit a) h
unfolding crc_bit
crc_bit_xor a h =
    rw (low_bit a h, rest_bits a h)
      (elim (Bool-cases (bit_and a 1 == 0)) [
        | inl p ↦ rw p
        | inr p ↦ rw p (sym (bit_xor_assoc crc32_polynomial (a / 2) h))
      ])

crc_bits_xor : (k a h : ℕ) → crc_bits k (bit_xor a (h * 2 ^ k)) ≡ bit_xor (crc_bits k a) h
unfolding crc_bits
crc_bits_xor zero a h = ap (bit_xor a) (omega arith)
crc_bits_xor (suc k) a h =
    ap (λ t. crc_bits k (crc_bit (bit_xor a t))) {x = h * 2 ^ suc k} {y = h * 2 ^ k * 2}
      (omega (arith, ap (λ (t : ℕ). h * t) (pow-suc 2 k)))
    ∙ ap (crc_bits k) (crc_bit_xor a (h * 2 ^ k))
    ∙ crc_bits_xor k (crc_bit a) h

-- The bits of `c` above a byte are not changed by adding a byte in.
high_bits : (c u : ℕ) → u < 256 → bit_xor c u / 2 ^ 8 ≡ c / 2 ^ 8
high_bits c u h = ground (
  arith,
  bit_xor_half c u,
  bit_xor_half (c / 2) (u / 2),
  bit_xor_half (c / 2 / 2) (u / 2 / 2),
  bit_xor_half (c / 2 / 2 / 2) (u / 2 / 2 / 2),
  bit_xor_half (c / 2 / 2 / 2 / 2) (u / 2 / 2 / 2 / 2),
  bit_xor_half (c / 2 / 2 / 2 / 2 / 2) (u / 2 / 2 / 2 / 2 / 2),
  bit_xor_half (c / 2 / 2 / 2 / 2 / 2 / 2) (u / 2 / 2 / 2 / 2 / 2 / 2),
  bit_xor_half (c / 2 / 2 / 2 / 2 / 2 / 2 / 2) (u / 2 / 2 / 2 / 2 / 2 / 2 / 2),
  bit_xor-zero (c / 2 / 2 / 2 / 2 / 2 / 2 / 2 / 2),
)

-- One table look-up stands for eight divisions.
table_step :
    (c u : ℕ)
    → u < 256
    → bit_xor (get_or crc32_table (bit_and (bit_xor c u) 0xFF) 0) (c / 2 ^ 8)
      ≡ crc_bits 8 (bit_xor c u)
table_step c u h =
    let x = bit_xor c u in
    ap (λ n. bit_xor (get_or crc32_table n 0) (c / 2 ^ 8)) (bit_and_mask 8 x)
    ∙ ap₂ bit_xor (table_entry (x % 2 ^ 8) (omega arith)) (sym (high_bits c u h))
    ∙ sym (crc_bits_xor 8 (x % 2 ^ 8) (x / 2 ^ 8))
    ∙ ap (crc_bits 8) (bit_xor_fields 8 (x / 2 ^ 8) (x % 2 ^ 8) (omega arith) ∙ omega arith)

update_loop_lem :
    (c : ℕ) (buf : List ℕ) → AllBytes buf → update_loop crc32_table c buf ≡ remainder c buf
unfolding update_loop remainder
update_loop_lem c [] bytes = refl
update_loop_lem c (u ∷ rest) bytes =
    ap (λ t. update_loop crc32_table t rest) (table_step c u bytes.0)
    ∙ update_loop_lem (crc_bits 8 (bit_xor c u)) rest bytes.1

-- From the zeroed table of the first call or the filled one of a later call, the update over bytes
-- gives the complement of the remainder of the bitwise division that starts from the complement of
-- the start value, and leaves the filled table.
pub update_crc32_lem :
    (table : List ℕ) (start : ℕ) (buf : List ℕ)
    → IsTable table
    → AllBytes buf
    → update_crc32 table start buf
      ≡ (bit_xor (remainder (bit_xor start 0xFFFFFFFF) buf) 0xFFFFFFFF, crc32_table)
unfolding update_crc32
update_crc32_lem table start buf is_table bytes =
    rw (ensured table is_table, update_loop_lem (bit_xor start 0xFFFFFFFF) buf bytes)

remainder-append : (c : ℕ) (xs ys : List ℕ) → remainder c (xs ++ ys) ≡ remainder (remainder c xs) ys
unfolding remainder
remainder-append c [] ys = refl
remainder-append c (u ∷ xs) ys = remainder-append (crc_bits 8 (bit_xor c u)) xs ys

AllBytes-append : (xs ys : List ℕ) → AllBytes xs → AllBytes ys → AllBytes (xs ++ ys)
AllBytes-append [] ys bx by = by
AllBytes-append (x ∷ xs) ys bx by = (bx.0, AllBytes-append xs ys bx.1 by)

-- Updating with some bytes and then, from the result and the table that this leaves, with other
-- bytes gives what one update with both gives, from a zeroed or a filled table.
pub update_crc32-append :
    (table : List ℕ) (start : ℕ) (xs ys : List ℕ)
    → IsTable table
    → AllBytes xs
    → AllBytes ys
    → (let (crc, table') = update_crc32 table start xs in update_crc32 table' crc ys)
      ≡ update_crc32 table start (xs ++ ys)
update_crc32-append table start xs ys is_table bx by =
    let c = bit_xor start 0xFFFFFFFF in
    rw
      (
        update_crc32_lem table start (xs ++ ys) is_table (AllBytes-append xs ys bx by),
        update_crc32_lem table start xs is_table bx,
      )
      (update_crc32_lem crc32_table (bit_xor (remainder c xs) 0xFFFFFFFF) ys (inr refl) by
        ∙ ap (λ t. (bit_xor (remainder t ys) 0xFFFFFFFF, crc32_table))
            (bit_xor_cancel (remainder c xs) 0xFFFFFFFF)
        ∙ ap (λ t. (bit_xor t 0xFFFFFFFF, crc32_table)) (sym (remainder-append c xs ys)))
