-- ===== src/Tests/Encoded.antt =====
-- Runs of src/base64.cpp.
use librtcbase.Prelude.{true, false, length, some, none, [], ◌∷◌, ◌≡◌, refl, arith}
use librtcbase.Base64.{
  get_next_base64_char, encode_from_array, parse_strict, parse_any, pad_yes, pad_no, term_buffer,
  term_any, scan_code, scan_char, scan_loop, get_next_quantum, bytes_of, Decoded, is_complete,
  decode_loop, decode_with, decode_from_array,
}
use librtcbase.Base64.RoundTrip.{decode-encode}
use librtcbase.Base64.Progress.{decode_with_ends}

-- The text "Man", and "Ma" with its padding.
encode_run : encode_from_array (77 ∷ 97 ∷ 110 ∷ []) ≡ 84 ∷ 87 ∷ 70 ∷ 117 ∷ []
unfolding encode_from_array
encode_run = refl

encode_padded : encode_from_array (77 ∷ 97 ∷ []) ≡ 84 ∷ 87 ∷ 69 ∷ 61 ∷ []
unfolding encode_from_array
encode_padded = refl

-- DO_STRICT refuses a space, DO_LAX does not.
strict_run :
    decode_from_array (84 ∷ 87 ∷ 32 ∷ 70 ∷ 117 ∷ []) 21
    ≡ some (record { success = false; result = 77 ∷ []; data_used = 2 })
unfolding decode_from_array decode_with decode_loop get_next_quantum scan_loop scan_char scan_code
    bytes_of is_complete
strict_run = refl

lax_run :
    decode_from_array (84 ∷ 87 ∷ 32 ∷ 70 ∷ 117 ∷ []) 43
    ≡ some (record { success = true; result = 77 ∷ 97 ∷ 110 ∷ []; data_used = 5 })
unfolding decode_from_array decode_with decode_loop get_next_quantum scan_loop scan_char scan_code
    bytes_of is_complete
lax_run = refl

-- The character after the last one is the first, and there is none after a space.
next_char_run : (get_next_base64_char 47 ≡ some 65) × (get_next_base64_char 32 ≡ none)
unfolding get_next_base64_char
next_char_run = (refl, refl)

decode-encode_example :
    (let text = encode_from_array (1 ∷ 250 ∷ 3 ∷ 4 ∷ []) in
      decode_with parse_strict pad_yes term_buffer text
      ≡ some (record { success = true; result = 1 ∷ 250 ∷ 3 ∷ 4 ∷ []; data_used = length text }))
decode-encode_example =
    decode-encode parse_strict pad_yes term_buffer (1 ∷ 250 ∷ 3 ∷ 4 ∷ []) refl
      (omega arith, (omega arith, (omega arith, (omega arith, _))))

decode_with_ends_example :
    (d : Decoded) × (decode_with parse_any pad_no term_any (61 ∷ 61 ∷ 84 ∷ []) ≡ some d)
decode_with_ends_example = decode_with_ends parse_any pad_no term_any (61 ∷ 61 ∷ 84 ∷ [])
