-- ===== src/Crc32.antt =====
-- src/crc32.cpp: the table, which the first call fills, and the update over a buffer. The static
-- table is passed in and out.
pub mod Laws
use librtcbase.Prelude.{
  ℕ, zero, suc, ◌+◌, ◌-◌, ◌%◌, bit_and, bit_xor, Bool, not, List, [], ◌∷◌, get_or, set, replicate,
  ◌==◌, if◌then◌else◌, ◌>>>◌,
}

abbrev pub crc32_polynomial : ℕ
crc32_polynomial = 0xEDB88320

abbrev pub table_size : ℕ
table_size = 256

-- `static uint32_t k_crc32_table[256] = {0}`.
abbrev pub zero_table : List ℕ
zero_table = replicate table_size 0

-- One round of the inner loop.
unfoldable pub crc_bit : ℕ → ℕ
crc_bit c = if bit_and c 1 == 0 then c >>> 1 else bit_xor crc32_polynomial (c >>> 1)

unfoldable pub crc_bits : ℕ → ℕ → ℕ
crc_bits zero c = c
crc_bits (suc left) c = crc_bits left (crc_bit c)

-- The outer loop at `i`, with the rounds left.
unfoldable pub fill_table : ℕ → ℕ → List ℕ → List ℕ
fill_table zero i table = table
fill_table (suc left) i table = fill_table left (i + 1) (set table i (crc_bits 8 i))

unfoldable pub ensure_crc32_table_inited : List ℕ → List ℕ
unfolding fill_table crc_bits crc_bit
ensure_crc32_table_inited table =
    if not (get_or table (table_size - 1) 0 == 0) then table else fill_table table_size 0 table

unfoldable pub update_loop : List ℕ → ℕ → List ℕ → ℕ
update_loop table c [] = c
update_loop table c (u ∷ rest) =
    update_loop table (bit_xor (get_or table (bit_and (bit_xor c u) 0xFF) 0) (c >>> 8)) rest

-- The result and the table after the call.
unfoldable pub update_crc32 : List ℕ → ℕ → List ℕ → ℕ × List ℕ
unfolding ensure_crc32_table_inited update_loop
update_crc32 table start buf =
    let table' = ensure_crc32_table_inited table in
    (bit_xor (update_loop table' (bit_xor start 0xFFFFFFFF) buf) 0xFFFFFFFF, table')
