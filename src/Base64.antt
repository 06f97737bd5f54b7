-- ===== src/Base64.antt =====
-- src/base64.cpp. Text and data are lists of bytes. The flags are a number, whose three parts are
-- taken out of it as the masks do. An index outside of a table is the value 0, which no code reaches.
pub mod Table
pub mod Quantum
pub mod RoundTrip
pub mod Progress
use librtcbase.Prelude.{
  ℕ, ◌+◌, ◌-◌, ◌*◌, ◌%◌, ◌/◌, bit_or, Bool, true, false, not, ◌&&◌, ◌||◌, Option, none, some, List,
  [], ◌∷◌, ◌++◌, ◌==◌, leb, ltb, if◌then◌else◌, suc, zero, length, get_elem?, get_or, set, u8, drop,
}

abbrev pub k_pad : ℕ
k_pad = 61

abbrev pub pd : ℕ
pd = 253

abbrev pub sp : ℕ
sp = 254

abbrev pub il : ℕ
il = 255

abbrev pub base64_table : List ℕ
base64_table =
    65 ∷ 66 ∷ 67 ∷ 68 ∷ 69 ∷ 70 ∷ 71 ∷ 72 ∷ 73 ∷ 74 ∷ 75 ∷ 76 ∷ 77 ∷ 78 ∷ 79 ∷ 80 ∷ 81 ∷ 82 ∷ 83
    ∷ 84 ∷ 85 ∷ 86 ∷ 87 ∷ 88 ∷ 89 ∷ 90 ∷ 97 ∷ 98 ∷ 99 ∷ 100 ∷ 101 ∷ 102 ∷ 103 ∷ 104 ∷ 105 ∷ 106
    ∷ 107 ∷ 108 ∷ 109 ∷ 110 ∷ 111 ∷ 112 ∷ 113 ∷ 114 ∷ 115 ∷ 116 ∷ 117 ∷ 118 ∷ 119 ∷ 120 ∷ 121 ∷ 122
    ∷ 48 ∷ 49 ∷ 50 ∷ 51 ∷ 52 ∷ 53 ∷ 54 ∷ 55 ∷ 56 ∷ 57 ∷ 43 ∷ 47 ∷ []

abbrev pub decode_table : List ℕ
decode_table =
    255 ∷ 255 ∷ 255 ∷ 255 ∷ 255 ∷ 255 ∷ 255 ∷ 255 ∷ 255 ∷ 254 ∷ 254 ∷ 254 ∷ 254 ∷ 254 ∷ 255 ∷ 255
    ∷ 255 ∷ 255 ∷ 255 ∷ 255 ∷ 255 ∷ 255 ∷ 255 ∷ 255 ∷ 255 ∷ 255 ∷ 255 ∷ 255 ∷ 255 ∷ 255 ∷ 255 ∷ 255
    ∷ 254 ∷ 255 ∷ 255 ∷ 255 ∷ 255 ∷ 255 ∷ 255 ∷ 255 ∷ 255 ∷ 255 ∷ 255 ∷ 62 ∷ 255 ∷ 255 ∷ 255 ∷ 63
    ∷ 52 ∷ 53 ∷ 54 ∷ 55 ∷ 56 ∷ 57 ∷ 58 ∷ 59 ∷ 60 ∷ 61 ∷ 255 ∷ 255 ∷ 255 ∷ 253 ∷ 255 ∷ 255 ∷ 255 ∷ 0
    ∷ 1 ∷ 2 ∷ 3 ∷ 4 ∷ 5 ∷ 6 ∷ 7 ∷ 8 ∷ 9 ∷ 10 ∷ 11 ∷ 12 ∷ 13 ∷ 14 ∷ 15 ∷ 16 ∷ 17 ∷ 18 ∷ 19 ∷ 20 ∷ 21
    ∷ 22 ∷ 23 ∷ 24 ∷ 25 ∷ 255 ∷ 255 ∷ 255 ∷ 255 ∷ 255 ∷ 255 ∷ 26 ∷ 27 ∷ 28 ∷ 29 ∷ 30 ∷ 31 ∷ 32 ∷ 33
    ∷ 34 ∷ 35 ∷ 36 ∷ 37 ∷ 38 ∷ 39 ∷ 40 ∷ 41 ∷ 42 ∷ 43 ∷ 44 ∷ 45 ∷ 46 ∷ 47 ∷ 48 ∷ 49 ∷ 50 ∷ 51 ∷ 255
    ∷ 255 ∷ 255 ∷ 255 ∷ 255 ∷ 255 ∷ 255 ∷ 255 ∷ 255 ∷ 255 ∷ 255 ∷ 255 ∷ 255 ∷ 255 ∷ 255 ∷ 255 ∷ 255
    ∷ 255 ∷ 255 ∷ 255 ∷ 255 ∷ 255 ∷ 255 ∷ 255 ∷ 255 ∷ 255 ∷ 255 ∷ 255 ∷ 255 ∷ 255 ∷ 255 ∷ 255 ∷ 255
    ∷ 255 ∷ 255 ∷ 255 ∷ 255 ∷ 255 ∷ 255 ∷ 255 ∷ 255 ∷ 255 ∷ 255 ∷ 255 ∷ 255 ∷ 255 ∷ 255 ∷ 255 ∷ 255
    ∷ 255 ∷ 255 ∷ 255 ∷ 255 ∷ 255 ∷ 255 ∷ 255 ∷ 255 ∷ 255 ∷ 255 ∷ 255 ∷ 255 ∷ 255 ∷ 255 ∷ 255 ∷ 255
    ∷ 255 ∷ 255 ∷ 255 ∷ 255 ∷ 255 ∷ 255 ∷ 255 ∷ 255 ∷ 255 ∷ 255 ∷ 255 ∷ 255 ∷ 255 ∷ 255 ∷ 255 ∷ 255
    ∷ 255 ∷ 255 ∷ 255 ∷ 255 ∷ 255 ∷ 255 ∷ 255 ∷ 255 ∷ 255 ∷ 255 ∷ 255 ∷ 255 ∷ 255 ∷ 255 ∷ 255 ∷ 255
    ∷ 255 ∷ 255 ∷ 255 ∷ 255 ∷ 255 ∷ 255 ∷ 255 ∷ 255 ∷ 255 ∷ 255 ∷ 255 ∷ 255 ∷ 255 ∷ 255 ∷ 255 ∷ 255
    ∷ 255 ∷ 255 ∷ 255 ∷ 255 ∷ 255 ∷ 255 ∷ 255 ∷ 255 ∷ 255 ∷ 255 ∷ 255 ∷ 255 ∷ 255 ∷ 255 ∷ 255 ∷ 255
    ∷ 255 ∷ 255 ∷ 255 ∷ 255 ∷ []

abbrev pub character : ℕ → ℕ
character c = get_or base64_table c 0

abbrev pub code : ℕ → ℕ
code ch = get_or decode_table ch 255

abbrev pub is_base64_char : ℕ → Bool
is_base64_char ch =
    (leb 65 ch && leb ch 90)
    || (leb 97 ch && leb ch 122)
    || (leb 48 ch && leb ch 57)
    || (ch == 43)
    || (ch == 47)

unfoldable pub is_base64_encoded : List ℕ → Bool
is_base64_encoded [] = true
is_base64_encoded (ch ∷ str) =
    let rest = is_base64_encoded str in if not (is_base64_char ch) then false else rest

-- The position of a character in the table, as strchr has it; the zero byte is found at the end.
abbrev pub find_char : ℕ → List ℕ → Option ℕ
find_char ch [] = if ch == 0 then some 0 else none
find_char ch (c ∷ cs) =
    let rest = find_char ch cs in
    if ch == c then some 0 else elim rest [ none ↦ none | some i ↦ some (suc i) ]

unfoldable pub get_next_base64_char : ℕ → Option ℕ
get_next_base64_char ch = elim (find_char ch base64_table) [
  | none ↦ none
  | some i ↦ some (get_or base64_table (suc i) (get_or base64_table 0 0))
]

-- The four values of c in a round, with the bytes that are there.
abbrev pub code_1 : ℕ → ℕ
code_1 x = x / 4 % 64

abbrev pub code_2 : ℕ → Option ℕ → ℕ
code_2 x none = x * 16 % 64
code_2 x (some y) = bit_or (x * 16 % 64) (y / 16 % 16)

abbrev pub code_3 : ℕ → Option ℕ → ℕ
code_3 y none = y * 4 % 64
code_3 y (some z) = bit_or (y * 4 % 64) (z / 64 % 4)

abbrev pub code_4 : ℕ → ℕ
code_4 z = z % 64

-- The rounds of the loop, on the bytes from `i` on.
unfoldable pub encode_from_array : List ℕ → List ℕ
encode_from_array [] = []
encode_from_array (x ∷ []) = character (code_1 x) ∷ character (code_2 x none) ∷ k_pad ∷ k_pad ∷ []
encode_from_array (x ∷ (y ∷ [])) =
    character (code_1 x) ∷ character (code_2 x (some y)) ∷ character (code_3 y none) ∷ k_pad ∷ []
encode_from_array (x ∷ (y ∷ (z ∷ rest))) =
    character (code_1 x)
    ∷ character (code_2 x (some y))
    ∷ character (code_3 y (some z))
    ∷ character (code_4 z)
    ∷ encode_from_array rest

pub data Parse : Type 0 where
  parse_strict parse_white parse_any : Parse

pub data Pad : Type 0 where
  pad_yes pad_any pad_no : Pad

pub data Term : Type 0 where
  term_buffer term_char term_any : Term

-- The parts of the flags, 1 to 3 of each field of two bits; `none` is a part that is 0.
abbrev pub parse_of : ℕ → Option Parse
parse_of (suc zero) = some parse_strict
parse_of (suc (suc zero)) = some parse_white
parse_of (suc (suc (suc zero))) = some parse_any
parse_of _ = none

abbrev pub pad_of : ℕ → Option Pad
pad_of (suc zero) = some pad_yes
pad_of (suc (suc zero)) = some pad_any
pad_of (suc (suc (suc zero))) = some pad_no
pad_of _ = none

abbrev pub term_of : ℕ → Option Term
term_of (suc zero) = some term_buffer
term_of (suc (suc zero)) = some term_char
term_of (suc (suc (suc zero))) = some term_any
term_of _ = none

abbrev pub is_any_parse : Parse → Bool
is_any_parse parse_any = true
is_any_parse p = false

abbrev pub is_strict : Parse → Bool
is_strict parse_strict = true
is_strict p = false

-- The locals of get_next_quantum, with the position that it has come to.
pub record Scan : Type 0 where
  pub dpos : ℕ
  pub byte_len : ℕ
  pub pad_len : ℕ
  pub pad_start : ℕ
  pub qbuf : List ℕ

-- One round of the loop, on the entry of the table; `none` is a break.
unfoldable pub scan_code : Parse → Bool → ℕ → Scan → Option Scan
scan_code parse illegal_pads q s =
    let s1 = record s { qbuf = set s.qbuf s.byte_len q } in
    let next = some (record s1 { dpos = suc s.dpos }) in
    let unless_any = if not (is_any_parse parse) then none else next in
    if q == il || (illegal_pads && q == pd)
    then unless_any
    else if q == sp
    then if is_strict parse then none else next
    else if q == pd
    then if ltb s.byte_len 2
      then unless_any
      else if leb 4 (s.byte_len + s.pad_len)
      then unless_any
      else some (record s1 {
        dpos = suc s.dpos;
        pad_len = suc s.pad_len;
        pad_start = if s.pad_len == 0 then s.dpos else s.pad_start;
      })
    else if ltb 0 s.pad_len && not (is_any_parse parse)
    then none
    else some (record s1 { dpos = suc s.dpos; pad_len = 0; byte_len = suc s.byte_len })

unfoldable pub scan_char : Parse → Bool → ℕ → Scan → Option Scan
scan_char parse illegal_pads ch s = scan_code parse illegal_pads (code ch) s

-- The loop, on the data from `dpos` on.
unfoldable pub scan_loop : Parse → Bool → List ℕ → Scan → Scan
unfolding scan_char
scan_loop parse illegal_pads [] s = s
scan_loop parse illegal_pads (ch ∷ data_left) s =
    if leb 4 s.byte_len then s else elim (scan_char parse illegal_pads ch s) [
      | none ↦ s
      | some s' ↦ scan_loop parse illegal_pads data_left s'
    ]

-- The loop that clears the rest of qbuf.
abbrev pub clear_from : ℕ → List ℕ → List ℕ
clear_from n [] = []
clear_from zero (q ∷ qs) = 0 ∷ clear_from zero qs
clear_from (suc n) (q ∷ qs) = q ∷ clear_from n qs

pub record NextQuantum : Type 0 where
  pub qlen : ℕ
  pub bytes : List ℕ
  pub padded : Bool
  pub position : ℕ

unfoldable pub get_next_quantum : Parse → Bool → List ℕ → ℕ → NextQuantum
unfolding scan_loop
get_next_quantum parse illegal_pads data_left dpos =
    let s = scan_loop parse illegal_pads data_left (record {
      dpos = dpos;
      byte_len = 0;
      pad_len = 0;
      pad_start = 0;
      qbuf = 0 ∷ 0 ∷ 0 ∷ 0 ∷ [];
    }) in
    let padded = 4 == s.byte_len + s.pad_len in
    record {
      qlen = s.byte_len;
      bytes = clear_from s.byte_len s.qbuf;
      padded = padded;
      position = if not padded && ltb 0 s.pad_len then s.pad_start else s.dpos;
    }

-- The bytes of a quantum, as they are cast to unsigned char.
abbrev pub byte_1 : ℕ → ℕ → ℕ
byte_1 q0 q1 = u8 (bit_or (q0 * 4) (q1 / 16 % 4))

abbrev pub byte_2 : ℕ → ℕ → ℕ
byte_2 q1 q2 = bit_or (q1 % 16 * 16) (q2 / 4 % 16)

abbrev pub byte_3 : ℕ → ℕ → ℕ
byte_3 q2 q3 = bit_or (q2 % 4 * 64) q3

-- What a quantum gives, and the value of c after it, whose bits are left.
unfoldable pub bytes_of : ℕ → List ℕ → List ℕ × ℕ
bytes_of qlen q =
    let b1 = byte_1 (get_or q 0 0) (get_or q 1 0) in
    let b2 = byte_2 (get_or q 1 0) (get_or q 2 0) in
    let b3 = byte_3 (get_or q 2 0) (get_or q 3 0) in
    if ltb qlen 2
    then ([], b1)
    else if ltb qlen 3
    then (b1 ∷ [], b2)
    else if ltb qlen 4
    then (b1 ∷ b2 ∷ [], b3)
    else (b1 ∷ b2 ∷ b3 ∷ [], 0)

pub record Decoded : Type 0 where
  pub success : Bool
  pub result : List ℕ
  pub data_used : ℕ

abbrev pub is_term_any : Term → Bool
is_term_any term_any = true
is_term_any t = false

abbrev pub is_term_buffer : Term → Bool
is_term_buffer term_buffer = true
is_term_buffer t = false

abbrev pub is_pad_yes : Pad → Bool
is_pad_yes pad_yes = true
is_pad_yes p = false

abbrev pub is_pad_no : Pad → Bool
is_pad_no pad_no = true
is_pad_no p = false

-- No bits are left over, and the padding is there if it has to be.
unfoldable pub is_complete : Term → Pad → ℕ → Bool → Bool
is_complete term pad c padded =
    not (not (is_term_any term) && not (c == 0)) && not (is_pad_yes pad && not padded)

-- The loop of the decoder, from a position on, and how it went; `none` is no fuel.
unfoldable pub decode_loop : ℕ → Parse → Pad → Term → List ℕ → ℕ → Option Decoded
decode_loop zero parse pad term text dpos = none
decode_loop (suc fuel) parse pad term text dpos =
    let q = get_next_quantum parse (is_pad_no pad) (drop dpos text) dpos in
    let (found, c) = bytes_of q.qlen q.bytes in
    if leb (length text) dpos
    then some (record { success = true; result = []; data_used = dpos })
    else if ltb q.qlen 4
    then some (record {
      success = is_complete term pad c q.padded;
      result = found;
      data_used = q.position;
    })
    else elim (decode_loop fuel parse pad term text q.position) [
      | none ↦ none
      | some d ↦ some (record d { result = found ++ d.result })
    ]

unfoldable pub decode_with : Parse → Pad → Term → List ℕ → Option Decoded
unfolding decode_loop
decode_with parse pad term text = elim (decode_loop (suc (length text)) parse pad term text 0) [
  | none ↦ none
  | some d ↦ some (record d {
    success = d.success && not (is_term_buffer term && not (d.data_used == length text));
  })
]

-- decode_from_array: whether it returns true, the result and data_used. A result that is not touched
-- is empty here.
unfoldable pub decode_from_array : List ℕ → ℕ → Option Decoded
unfolding decode_with
decode_from_array text flags =
    let refused = some (record { success = false; result = []; data_used = 0 }) in
    if ltb 63 flags then refused else elim (parse_of (flags % 4)) [
      | none ↦ refused
      | some parse ↦ elim (pad_of (flags / 4 % 4)) [
        | none ↦ refused
        | some pad ↦ elim (term_of (flags / 16)) [
          | none ↦ refused
          | some term ↦ decode_with parse pad term text
        ]
      ]
    ]
