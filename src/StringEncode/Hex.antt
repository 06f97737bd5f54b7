-- ===== src/StringEncode/Hex.antt =====
-- hex_encode, hex_decode and the functions with a delimiter of src/string_encode.cpp. A buffer is
-- the list of its bytes, and a function that fills one returns the count and the buffer.
pub mod Encode
pub mod Decode
use librtcbase.Prelude.{
  ℕ, ◌+◌, ◌-◌, ◌*◌, ◌/◌, bit_and, bit_or, Bool, true, false, not, ◌&&◌, ◌||◌, Option, none, some,
  List, [], ◌∷◌, length, take, replicate, get_or, set, ltb, leb, ◌==◌, if◌then◌else◌, u8, ◌<<<◌,
  ◌>>>◌, codes, mul_size, add_size,
}

abbrev pub hex_digits : List ℕ
hex_digits = codes "0123456789abcdef"

unfoldable pub hex_encode : ℕ → ℕ
hex_encode val = if ltb val 16 then get_or hex_digits val 0 else b'!'

-- `none` is false, with `*val` left alone.
unfoldable pub hex_decode : ℕ → Option ℕ
hex_decode ch =
    if leb b'0' ch && leb ch b'9'
    then some (ch - b'0')
    else if leb b'A' ch && leb ch b'Z'
    then some (ch - b'A' + 10)
    else if leb b'a' ch && leb ch b'z'
    then some (ch - b'a' + 10)
    else none

abbrev pub is_empty : List ℕ → Bool
is_empty [] = true
is_empty (x ∷ xs) = false

-- No delimiter is written after the last byte. The delimiter 0 is none.
abbrev pub put_delimiter : ℕ → List ℕ → ℕ → List ℕ → ℕ × List ℕ
put_delimiter delimiter rest bufpos buffer =
    if not (delimiter == 0) && not (is_empty rest)
    then (bufpos + 1, set buffer bufpos delimiter)
    else (bufpos, buffer)

-- The loop over `src[srcpos..]`, and the zero written after it.
pub encode_loop : ℕ → List ℕ → ℕ → List ℕ → ℕ × List ℕ
encode_loop delimiter [] bufpos buffer = (bufpos, set buffer bufpos 0)
encode_loop delimiter (ch ∷ rest) bufpos buffer =
    let b1 = set buffer bufpos (hex_encode (bit_and (ch >>> 4) 0xF)) in
    let b2 = set b1 (bufpos + 1) (hex_encode (bit_and ch 0xF)) in
    let (pos, b3) = put_delimiter delimiter rest (bufpos + 2) b2 in
    encode_loop delimiter rest pos b3

-- `none` is a null buffer.
pub hex_encode_to_buffer : Option (List ℕ) → List ℕ → ℕ → ℕ × List ℕ
hex_encode_to_buffer none src delimiter = (0, [])
hex_encode_to_buffer (some buffer) src delimiter =
    let needed =
      if not (delimiter == 0)
      then mul_size (length src) 3
      else add_size (mul_size (length src) 2) 1 in
    if length buffer == 0
    then (0, buffer)
    else if ltb (length buffer) needed
    then (0, buffer)
    else encode_loop delimiter src 0 buffer

-- The overload that returns a string; its stack array is modelled as zeros.
pub hex_encode_with_delimiter : List ℕ → ℕ → List ℕ
hex_encode_with_delimiter source delimiter =
    let (count, buffer) =
      hex_encode_to_buffer (some (replicate (mul_size (length source) 3) 0)) source delimiter in
    if not (length source == 0) && leb count 0 then [] else take count buffer

pub hex_encode_string : List ℕ → List ℕ
hex_encode_string source = hex_encode_with_delimiter source 0

-- Both digits of a byte, or `none` if either is refused.
unfoldable pub decode_pair : ℕ → ℕ → Option ℕ
unfolding hex_decode
decode_pair c1 c2 = elim (hex_decode c1) [
  | none ↦ none
  | some h1 ↦ elim (hex_decode c2) [ none ↦ none | some h2 ↦ some (u8 (bit_or (h1 <<< 4) h2)) ]
]

-- The loop over `source[srcpos..]`. An odd character, a refused digit and a wrong delimiter
-- return 0. A delimiter is looked for only where more than one character is left.
pub decode_loop : ℕ → List ℕ → ℕ → List ℕ → ℕ × List ℕ
decode_loop d [] bufpos buffer = (bufpos, buffer)
decode_loop d (c1 ∷ []) bufpos buffer = (0, buffer)
decode_loop d (c1 ∷ c2 ∷ []) bufpos buffer = elim (decode_pair c1 c2) [
  | none ↦ (0, buffer)
  | some b ↦ (bufpos + 1, set buffer bufpos b)
]
decode_loop d (c1 ∷ c2 ∷ c3 ∷ []) bufpos buffer = elim (decode_pair c1 c2) [
  | none ↦ (0, buffer)
  | some b ↦ (0, set buffer bufpos b)
]
decode_loop d (c1 ∷ c2 ∷ c3 ∷ c4 ∷ more) bufpos buffer = elim (decode_pair c1 c2) [
  | none ↦ (0, buffer)
  | some b ↦ elim (d == 0) [
    | true ↦ decode_loop d (c3 ∷ c4 ∷ more) (bufpos + 1) (set buffer bufpos b)
    | false ↦ elim (c3 == d) [
      | true ↦ decode_loop d (c4 ∷ more) (bufpos + 1) (set buffer bufpos b)
      | false ↦ (0, set buffer bufpos b)
    ]
  ]
]

pub hex_decode_with_delimiter : Option (List ℕ) → List ℕ → ℕ → ℕ × List ℕ
hex_decode_with_delimiter none source delimiter = (0, [])
hex_decode_with_delimiter (some buffer) source delimiter =
    let needed =
      if not (delimiter == 0) then add_size (length source) 1 / 3 else length source / 2 in
    if length buffer == 0
    then (0, buffer)
    else if ltb (length buffer) needed
    then (0, buffer)
    else decode_loop delimiter source 0 buffer
