-- ===== src/Tests/Text.antt =====
-- Runs of src/string_encode.cpp and src/crc32.cpp.
use librtcbase.Prelude.{ℕ, ◌≡◌, inl, refl, some, List, [], ◌∷◌, length, arith, codes}
use librtcbase.StringEncode.Hex.{hex_encode, hex_encode_with_delimiter, hex_decode_with_delimiter}
use librtcbase.StringEncode.Hex.Encode.{hex_text, hex_encode_with_delimiter_lem}
use librtcbase.StringEncode.Hex.Decode.{hex_decode-hex_text}
use librtcbase.StringEncode.Split.{split, tokenize}
use librtcbase.StringEncode.Split.Pieces.{join, keep_nonempty, AllFree}
use librtcbase.StringEncode.Split.Laws.{join-split, tokenize-split}
use librtcbase.Crc32.{zero_table, update_crc32, crc_bits, crc_bit}
use librtcbase.Crc32.Laws.{crc32_table, remainder, update_crc32_lem}

hex_encode_with_delimiter_lem_example :
    hex_encode_with_delimiter (0xDE ∷ 0xAD ∷ []) b':' ≡ codes "de:ad"
unfolding hex_text hex_encode
hex_encode_with_delimiter_lem_example =
    hex_encode_with_delimiter_lem (0xDE ∷ 0xAD ∷ []) b':' (omega arith)

hex_decode-hex_text_example :
    hex_decode_with_delimiter (some (1 ∷ 2 ∷ 3 ∷ [])) (codes "de:ad") b':'
    ≡ (2, 0xDE ∷ 0xAD ∷ 3 ∷ [])
unfolding hex_text hex_encode
hex_decode-hex_text_example =
    hex_decode-hex_text b':' (0xDE ∷ 0xAD ∷ []) (1 ∷ 2 ∷ 3 ∷ []) (omega arith) (omega arith)
      (omega arith) (omega arith)

abbrev csv : List ℕ
csv = codes ",a,,bc"

join-split_example :
    (fields : List (List ℕ)) × (split csv b',' (some []) ≡ (length fields, some fields))
    × (join b',' fields ≡ csv)
    × AllFree b',' fields
join-split_example = join-split csv b',' []

tokenize-split_example :
    (fields : List (List ℕ)) × (split csv b',' (some []) ≡ (length fields, some fields))
    × (tokenize csv b',' [] ≡ (length (keep_nonempty fields), keep_nonempty fields))
tokenize-split_example = tokenize-split csv b',' [] []

update_crc32_lem_example : update_crc32 zero_table 0 (codes "123456789") ≡ (0xCBF43926, crc32_table)
unfolding remainder crc_bits crc_bit
update_crc32_lem_example =
    update_crc32_lem zero_table 0 (codes "123456789") (inl refl) (omega arith)
