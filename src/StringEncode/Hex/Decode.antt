-- ===== src/StringEncode/Hex/Decode.antt =====
-- Decoding hexadecimal text: the round trip, what a digit is to the code, and the failures.
use librtcbase.Prelude.{
  ℕ, ◌+◌, ◌*◌, ◌≤◌, ◌<◌, ◌^◌, ◌≡◌, refl, ◌∙◌, ap, ap₂, sym, Bool, true, false, inl, inr, Option,
  none, some, List, [], ◌∷◌, ◌++◌, append_assoc, length, length-append, drop, set, ◌==◌, ◌&&◌,
  Bool-cases, ==_iff, arith, AllBytes,
}
use librtcbase.Prelude.Bits.{every_below, at_below}
use librtcbase.StringEncode.Hex.{hex_encode, decode_pair, decode_loop, hex_decode_with_delimiter}
use librtcbase.StringEncode.Hex.Encode.{
  high_digit, low_digit, hex_text, length-hex_text, set-append,
}

abbrev decodes_to : Option ℕ → ℕ → Bool
decodes_to none b = false
decodes_to (some x) b = x == b

pair_table : every_below 256 (λ b. decodes_to (decode_pair (high_digit b) (low_digit b)) b) ≡ true
unfolding every_below decode_pair hex_encode
pair_table = refl

decodes_to_eq : (o : Option ℕ) (b : ℕ) → decodes_to o b ≡ true → o ≡ some b
decodes_to_eq none b h = cc
decodes_to_eq (some x) b h = ground arith

-- The digits of a byte decode to it.
decode-digits : (b : ℕ) → b < 256 → decode_pair (high_digit b) (low_digit b) ≡ some b
decode-digits b h =
    decodes_to_eq (decode_pair (high_digit b) (low_digit b)) b
      (at_below 256 (λ b. decodes_to (decode_pair (high_digit b) (low_digit b)) b) b pair_table h)

-- The text of a byte and more begins with the byte's digits.
hex_text-cons :
    (d c : ℕ) (rest : List ℕ)
    → (more : List ℕ) × (hex_text d (c ∷ rest) ≡ high_digit c ∷ low_digit c ∷ more)
unfolding hex_text
hex_text-cons d c [] = ([], refl)
hex_text-cons d c (c' ∷ rest) = (_, refl)

module _ (d c1 c2 b n : ℕ) (buffer : List ℕ) (pair : decode_pair c1 c2 ≡ some b) where
  decode_last : decode_loop d (c1 ∷ c2 ∷ []) n buffer ≡ (n + 1, set buffer n b)
  unfolding decode_loop
  decode_last = ground (arith, pair)

  decode_plain :
      (c3 c4 : ℕ) (more : List ℕ)
      → (d == 0) ≡ true
      → decode_loop d (c1 ∷ c2 ∷ c3 ∷ c4 ∷ more) n buffer
        ≡ decode_loop d (c3 ∷ c4 ∷ more) (n + 1) (set buffer n b)
  unfolding decode_loop
  decode_plain c3 c4 more p = rw (pair, p, decode_loop)

  decode_delimited :
      (c3 c4 : ℕ) (more : List ℕ)
      → (d == 0) ≡ false
      → c3 ≡ d
      → decode_loop d (c1 ∷ c2 ∷ c3 ∷ c4 ∷ more) n buffer
        ≡ decode_loop d (c4 ∷ more) (n + 1) (set buffer n b)
  unfolding decode_loop
  decode_delimited c3 c4 more p e =
      let same : (c3 == d) ≡ true = (==_iff c3 d).1 e in rw (pair, p, same, decode_loop)

-- After the text of the first byte the loop goes on with the text of the others.
decode_rest :
    (d ch c : ℕ) (rest buffer : List ℕ) (n : ℕ)
    → ch < 256
    → decode_loop d (hex_text d (ch ∷ c ∷ rest)) n buffer
      ≡ decode_loop d (hex_text d (c ∷ rest)) (n + 1) (set buffer n ch)
unfolding hex_text
decode_rest d ch c rest buffer n h =
    let (more, shape) = hex_text-cons d c rest in
    elim (Bool-cases (d == 0)) [
      | inl p ↦ rw (p, shape) (decode_plain d _ _ ch n buffer (decode-digits ch h) _ _ more p)
      | inr p ↦
          rw (p, shape)
            (decode_delimited d _ _ ch n buffer (decode-digits ch h) d (high_digit c)
              (low_digit c ∷ more) p refl)
    ]

decode_loop_lem :
    (d : ℕ) (src done tail : List ℕ) {n : ℕ}
    → AllBytes src
    → n ≡ length done
    → length src ≤ length tail
    → decode_loop d (hex_text d src) n (done ++ tail)
      ≡ (n + length src, done ++ (src ++ drop (length src) tail))
decode_loop_lem d [] done tail {n} bytes e fits =
    unfold decode_loop hex_text in ap (λ a. (a, done ++ tail)) (omega arith)
decode_loop_lem d (ch ∷ src) done [] bytes e fits = absurd (omega arith)
decode_loop_lem d (ch ∷ []) done (t ∷ tail) {n} bytes e fits =
    unfold hex_text in
    decode_last d _ _ ch n (done ++ t ∷ tail) (decode-digits ch bytes.0)
    ∙ ap (λ b. (n + 1, b)) (set-append done t ch tail e)
decode_loop_lem d (ch ∷ c ∷ rest) done (t ∷ tail) {n} bytes e fits =
    decode_rest d ch c rest (done ++ t ∷ tail) n bytes.0
    ∙ ap (decode_loop d (hex_text d (c ∷ rest)) (n + 1))
        (set-append done t ch tail e ∙ sym (append_assoc done (ch ∷ []) tail))
    ∙ decode_loop_lem d (c ∷ rest) (done ++ ch ∷ []) tail bytes.1
        (omega (arith, length-append done (ch ∷ []))) (omega arith)
    ∙ ap₂ {C = ℕ × List ℕ} (λ a b. (a, b)) (omega arith)
        (append_assoc done (ch ∷ []) ((c ∷ rest) ++ drop (length (c ∷ rest)) tail))

-- Decoding the text of some bytes (of a length whose triple is below 2 ^ 64), with any delimiter or
-- the delimiter 0 for none, into a non-empty buffer that they fit in, gives their count and the
-- bytes, and keeps the rest of the buffer.
pub hex_decode-hex_text :
    (d : ℕ) (src buffer : List ℕ)
    → AllBytes src
    → length src ≤ length buffer
    → 0 < length buffer
    → length src * 3 < 2 ^ 64
    → hex_decode_with_delimiter (some buffer) (hex_text d src) d
      ≡ (length src, src ++ drop (length src) buffer)
unfolding hex_decode_with_delimiter
hex_decode-hex_text d src buffer bytes fits room small = elim (Bool-cases (d == 0)) [
  | inl p ↦
      ground
        (arith, p, (length-hex_text d src).0 p, decode_loop_lem d src [] buffer bytes refl fits)
  | inr p ↦
      ground
        (arith, p, (length-hex_text d src).1 p, decode_loop_lem d src [] buffer bytes refl fits)
]

and-split : {a b : Bool} → (a && b) ≡ true → (a ≡ true) × (b ≡ true)
and-split {a} {b} h = ground arith

abbrev same_result : ℕ → Bool
same_result k =
    decodes_to (decode_pair b'0' (b'g' + k)) (16 + k)
    && decodes_to (decode_pair b'1' (hex_encode k)) (16 + k)

collision_table : every_below 16 same_result ≡ true
unfolding every_below decode_pair hex_encode
collision_table = refl

-- For k below 16, the pair of the digit 0 and the letter k places after g decodes, to the byte that
-- the digit 1 and the digit of k decode to.
pub decode_pair_past_f :
    (k : ℕ)
    → k < 16
    → (decode_pair b'0' (b'g' + k) ≡ some (16 + k))
      × (decode_pair b'1' (hex_encode k) ≡ some (16 + k))
decode_pair_past_f k h =
    let both = at_below 16 same_result k collision_table h in
    (decodes_to_eq _ (16 + k) ((and-split both).0), decodes_to_eq _ (16 + k) ((and-split both).1))
