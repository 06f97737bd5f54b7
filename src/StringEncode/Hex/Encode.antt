-- ===== src/StringEncode/Hex/Encode.antt =====
-- Hexadecimal text, against its description.
use librtcbase.Prelude.{
  ℕ, suc, ◌+◌, ◌-◌, ◌*◌, ◌/◌, ◌%◌, ◌^◌, ◌≤◌, ◌<◌, ◌≡◌, refl, ◌∙◌, ap, ap₂, sym, bit_and, true,
  false, inl, inr, some, List, [], ◌∷◌, ◌++◌, append_assoc, length, length-append, length-replicate,
  take-append, drop, replicate, set, ◌==◌, if◌then◌else◌, Bool-cases, arith, ◌>>>◌, mul_size,
}
use librtcbase.Prelude.Bits.{bit_and_mask}
use librtcbase.StringEncode.Hex.{
  hex_encode, put_delimiter, encode_loop, hex_encode_to_buffer, hex_encode_with_delimiter,
}

-- The two digits of a byte.
abbrev pub high_digit : ℕ → ℕ
high_digit ch = hex_encode (ch / 16 % 16)

abbrev pub low_digit : ℕ → ℕ
low_digit ch = hex_encode (ch % 16)

-- The text of some bytes, with a delimiter between two of them unless it is 0.
unfoldable pub hex_text : ℕ → List ℕ → List ℕ
hex_text d [] = []
hex_text d (ch ∷ []) = high_digit ch ∷ low_digit ch ∷ []
hex_text d (ch ∷ c ∷ rest) =
    let more = hex_text d (c ∷ rest) in
    high_digit ch ∷ low_digit ch ∷ (if d == 0 then more else d ∷ more)

pub length-hex_text :
    (d : ℕ) (src : List ℕ)
    → ((d == 0) ≡ true → length (hex_text d src) ≡ length src * 2)
      × ((d == 0) ≡ false → length (hex_text d src) ≡ length src * 3 - 1)
unfolding hex_text
length-hex_text d [] = (λ e. refl, λ e. refl)
length-hex_text d (ch ∷ []) = (λ e. refl, λ e. refl)
length-hex_text d (ch ∷ c ∷ rest) = (
  λ e. rw e (omega (arith, (length-hex_text d (c ∷ rest)).0 e)),
  λ e. rw e (omega (arith, (length-hex_text d (c ∷ rest)).1 e)),
)

-- The code's masks give the digits.
digits_masked :
    (ch : ℕ)
    → (hex_encode (bit_and (ch >>> 4) 0xF) ≡ high_digit ch)
      × (hex_encode (bit_and ch 0xF) ≡ low_digit ch)
digits_masked ch = (ap hex_encode (bit_and_mask 4 (ch / 16)), ap hex_encode (bit_and_mask 4 ch))

pub set-append :
    (done : List ℕ) (x v : ℕ) (tail : List ℕ) {n : ℕ}
    → n ≡ length done
    → set (done ++ x ∷ tail) n v ≡ done ++ v ∷ tail
set-append [] x v tail e = rw e
set-append (y ∷ done) x v tail e = rw e (ap (λ t. y ∷ t) (set-append done x v tail refl))

-- Two stores behind what is written.
set_two :
    (done : List ℕ) (x y a b : ℕ) (tail : List ℕ) {n : ℕ}
    → n ≡ length done
    → set (set (done ++ x ∷ y ∷ tail) n a) (n + 1) b ≡ (done ++ a ∷ b ∷ []) ++ tail
set_two done x y a b tail {n} e =
    ap (λ t. set t (n + 1) b) (set-append done x a (y ∷ tail) e)
    ∙ ap (λ t. set t (n + 1) b) (sym (append_assoc done (a ∷ []) (y ∷ tail)))
    ∙ set-append (done ++ a ∷ []) y b tail (omega (arith, length-append done (a ∷ [])))
    ∙ append_assoc done (a ∷ []) (b ∷ tail)
    ∙ sym (append_assoc done (a ∷ b ∷ []) tail)

-- One round of the loop in front of at least two bytes of buffer.
encode_round :
    (d ch : ℕ) (rest done : List ℕ) (x y : ℕ) (tail : List ℕ) {n : ℕ}
    → n ≡ length done
    → encode_loop d (ch ∷ rest) n (done ++ x ∷ y ∷ tail) ≡ (
        let (pos, b) =
          put_delimiter d rest (n + 2) ((done ++ high_digit ch ∷ low_digit ch ∷ []) ++ tail) in
        encode_loop d rest pos b)
unfolding encode_loop
encode_round d ch rest done x y tail {n} e = rw (
  (digits_masked ch).0,
  (digits_masked ch).1,
  set_two done x y (high_digit ch) (low_digit ch) tail e,
)

-- What the loop leaves: the text behind what was there, and a zero.
abbrev pub encoded : ℕ → List ℕ → List ℕ → List ℕ → List ℕ
encoded d src done tail = done ++ (hex_text d src ++ 0 ∷ drop (suc (length (hex_text d src))) tail)

-- The text of the rest, regrouped behind the digits of the first byte and its delimiter.
regroup :
    (done front text last : List ℕ)
    → (done ++ front) ++ (text ++ last) ≡ done ++ ((front ++ text) ++ last)
regroup done front text last = simp append_assoc

regroup_one :
    (done front : List ℕ) (d : ℕ) (tail : List ℕ)
    → (done ++ front) ++ d ∷ tail ≡ (done ++ (front ++ d ∷ [])) ++ tail
regroup_one done front d tail = simp append_assoc

last_bytes :
    (d n : ℕ) (done : List ℕ) (z : ℕ) (tail : List ℕ)
    → n ≡ length done
    → (let (pos, b) = put_delimiter d [] n (done ++ z ∷ tail) in encode_loop d [] pos b)
      ≡ (n, done ++ 0 ∷ tail)
unfolding encode_loop
last_bytes d n done z tail e = elim (Bool-cases (d == 0)) [
  | inl p ↦ rw p (ap (λ b. (n, b)) (set-append done z 0 tail e))
  | inr p ↦ rw p (ap (λ b. (n, b)) (set-append done z 0 tail e))
]

encode_loop_lem :
    (d : ℕ) (src done tail : List ℕ) {n : ℕ}
    → n ≡ length done
    → length (hex_text d src) < length tail
    → encode_loop d src n (done ++ tail) ≡ (n + length (hex_text d src), encoded d src done tail)
unfolding hex_text
encode_loop_lem d [] done [] e fits = absurd (omega arith)
encode_loop_lem d [] done (t ∷ tail) {n} e fits =
    unfold encode_loop in
    ap₂ {C = ℕ × List ℕ} (λ a b. (a, b)) (omega arith) (set-append done t 0 tail e)
encode_loop_lem d (ch ∷ []) done [] e fits = absurd (omega arith)
encode_loop_lem d (ch ∷ []) done (x ∷ []) e fits = absurd (omega arith)
encode_loop_lem d (ch ∷ []) done (x ∷ y ∷ []) e fits = absurd (omega arith)
encode_loop_lem d (ch ∷ []) done (x ∷ y ∷ z ∷ tail) {n} e fits =
    encode_round d ch [] done x y (z ∷ tail) e
    ∙ last_bytes d (n + 2) (done ++ high_digit ch ∷ low_digit ch ∷ []) z tail
        (omega (arith, length-append done (high_digit ch ∷ low_digit ch ∷ [])))
    ∙ ap (λ b. (n + 2, b)) (append_assoc done (high_digit ch ∷ low_digit ch ∷ []) (0 ∷ tail))
encode_loop_lem d (ch ∷ c ∷ rest) done [] e fits = absurd (omega arith)
encode_loop_lem d (ch ∷ c ∷ rest) done (x ∷ []) e fits = absurd (omega arith)
encode_loop_lem d (ch ∷ c ∷ rest) done (x ∷ y ∷ []) e fits = elim (Bool-cases (d == 0)) [
  | inl p ↦ absurd (omega arith)
  | inr p ↦ absurd (omega arith)
]
encode_loop_lem d (ch ∷ c ∷ rest) done (x ∷ y ∷ z ∷ tail) {n} e fits = elim (Bool-cases (d == 0)) [
  | inl p ↦
      let front = high_digit ch ∷ low_digit ch ∷ [] in
      let text = hex_text d (c ∷ rest) in
      encode_round d ch (c ∷ rest) done x y (z ∷ tail) e
      ∙ rw p (
          encode_loop_lem d (c ∷ rest) (done ++ front) (z ∷ tail)
            (omega (arith, length-append done front)) (omega (arith, rw p at fits))
          ∙ ap₂ {C = ℕ × List ℕ} (λ a b. (a, b)) (omega arith)
              (regroup done front text (0 ∷ drop (length text) tail)))
  | inr p ↦
      let front = high_digit ch ∷ low_digit ch ∷ [] in
      let front' = high_digit ch ∷ low_digit ch ∷ d ∷ [] in
      let text = hex_text d (c ∷ rest) in
      encode_round d ch (c ∷ rest) done x y (z ∷ tail) e
      ∙ rw p (
          ap (encode_loop d (c ∷ rest) (n + 2 + 1)) (
            set-append (done ++ front) z d tail (omega (arith, length-append done front))
            ∙ regroup_one done front d tail)
          ∙ encode_loop_lem d (c ∷ rest) (done ++ front') tail
              (omega (arith, length-append done front')) (omega (arith, rw p at fits))
          ∙ ap₂ {C = ℕ × List ℕ} (λ a b. (a, b)) (omega arith)
              (regroup done front' text (0 ∷ drop (suc (length text)) tail)))
]

-- Into a buffer with room for the text and a zero, the text is written with the zero behind it,
-- the rest of the buffer is kept, and the text's length is returned; into a smaller buffer
-- nothing is written and 0 is returned.
pub hex_encode_to_buffer_lem :
    (buffer src : List ℕ) (d : ℕ)
    → length src * 3 < 2 ^ 64
    → 0 < length src
    → let text = hex_text d src in
      (length text < length buffer
        → hex_encode_to_buffer (some buffer) src d
          ≡ (length text, text ++ 0 ∷ drop (suc (length text)) buffer))
      × (length buffer ≤ length text → hex_encode_to_buffer (some buffer) src d ≡ (0, buffer))
unfolding hex_encode_to_buffer
hex_encode_to_buffer_lem buffer src d small some_bytes = elim (Bool-cases (d == 0)) [
  | inl p ↦
      let len = (length-hex_text d src).0 p in
      (
        λ fits. ground (arith, p, len, encode_loop_lem d src [] buffer refl fits),
        λ full. ground (arith, p, len),
      )
  | inr p ↦
      let len = (length-hex_text d src).1 p in
      (
        λ fits. ground (arith, p, len, encode_loop_lem d src [] buffer refl fits),
        λ full. ground (arith, p, len),
      )
]

text_fits :
    (d : ℕ) (src : List ℕ)
    → 0 < length src
    → (0 < length (hex_text d src)) × (length (hex_text d src) < length src * 3)
text_fits d src h = elim (Bool-cases (d == 0)) [
  | inl p ↦ omega (arith, (length-hex_text d src).0 p)
  | inr p ↦ omega (arith, (length-hex_text d src).1 p)
]

-- For a source whose length times 3 is below 2 ^ 64, the function that returns a string gives two
-- hexadecimal digits for each byte, with the delimiter between two bytes unless it is 0.
pub hex_encode_with_delimiter_lem :
    (source : List ℕ) (d : ℕ)
    → length source * 3 < 2 ^ 64
    → hex_encode_with_delimiter source d ≡ hex_text d source
unfolding hex_encode_with_delimiter
hex_encode_with_delimiter_lem [] d fits = unfold hex_encode_to_buffer hex_text in refl
hex_encode_with_delimiter_lem (c ∷ rest) d fits = rw to_buffer (
    ground (
      arith,
      text_fits d source (omega arith),
      take-append (hex_text d source) (0 ∷ drop (suc (length (hex_text d source))) stack) refl,
    ))
  where
    source : List ℕ
    source = c ∷ rest

    stack : List ℕ
    stack = replicate (mul_size (length source) 3) 0

    to_buffer : hex_encode_to_buffer (some stack) source d ≡ (
      length (hex_text d source),
      hex_text d source ++ 0 ∷ drop (suc (length (hex_text d source))) stack,
    )
    to_buffer = (hex_encode_to_buffer_lem stack source d fits (omega arith)).0 (
        omega (
          arith,
          text_fits d source (omega arith),
          length-replicate {A = ℕ} (mul_size (length source) 3) 0,
        ))
