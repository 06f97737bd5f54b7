-- ===== src/Random/Strings.antt =====
-- The form of random text, whatever bytes the generator fills in.
use librtcbase.Prelude.{
  ℕ, zero, suc, ◌+◌, ◌%◌, ◌≤◌, ◌≡◌, refl, ap, ◌∙◌, true, Bool, some, Option, List, [], ◌∷◌, ◌++◌,
  length, append-nil, length-slice, map, get_or, slice, drop, replicate, arith, ◌==◌, ◌||◌, leb,
  ◌&&◌,
}
use mathlib.Core.Path.{subst}
use librtcbase.Prelude.Bits.{every_below, at_below}
use librtcbase.Random.{
  random_string_from, create_random_string, create_random_uuid, uuid_of, hex_of, base64_table,
  hex_table, uuid_digit17,
}

-- The base64 alphabet.
abbrev is_base64 : ℕ → Bool
is_base64 c =
    (leb b'A' c && leb c b'Z')
    || (leb b'a' c && leb c b'z')
    || (leb b'0' c && leb c b'9')
    || (c == b'+')
    || (c == b'/')

abbrev All : (ℕ → Bool) → List ℕ → Type 0
All test [] = Unit {0}
All test (c ∷ cs) = (test c ≡ true) × All test cs

table_test : every_below 64 (λ i. is_base64 (get_or base64_table i 0)) ≡ true
unfolding every_below
table_test = refl

length-map : (f : ℕ → ℕ) (xs : List ℕ) → length (map f xs) ≡ length xs
length-map f [] = refl
length-map f (x ∷ xs) = ap suc (length-map f xs)

map-All : (xs : List ℕ) → All is_base64 (map (λ b. get_or base64_table (b % 64) 0) xs)
map-All [] = tt
map-All (x ∷ xs) = (
  at_below 64 (λ i. is_base64 (get_or base64_table i 0)) (x % 64) table_test (omega arith),
  map-All xs,
)

-- If the generator of bytes fills in as many bytes as asked for, create_random_string gives a text
-- of that length, each of its characters one of the base64 alphabet.
create_random_string_lem :
    (generate : ℕ → Option (List ℕ)) (len : ℕ) (bytes : List ℕ)
    → generate len ≡ some bytes
    → length bytes ≡ len
    → (text : List ℕ) × (create_random_string generate len ≡ some text)
      × (length text ≡ len)
      × All is_base64 text
unfolding create_random_string random_string_from
create_random_string_lem generate len bytes filled e = (
  map (λ b. get_or base64_table (b % 64) 0) bytes,
  rw (filled, random_string_from),
  length-map _ bytes ∙ e,
  map-All bytes,
)

abbrev pub is_hex : ℕ → Bool
is_hex c = (leb b'0' c && leb c b'9') || (leb b'a' c && leb c b'f')

abbrev pub is_dash : ℕ → Bool
is_dash c = c == b'-'

-- The text has a character for each test, and passes it.
abbrev pub Matches : List (ℕ → Bool) → List ℕ → Type 0
Matches [] [] = Unit {0}
Matches (test ∷ tests) (c ∷ cs) = (test c ≡ true) × Matches tests cs
Matches _ _ = ⊥

-- xxxxxxxx-xxxx-4xxx-yxxx-xxxxxxxxxxxx, where y is one of 8, 9, a and b.
abbrev pub uuid_form : List (ℕ → Bool)
uuid_form =
    replicate 8 is_hex
    ++ (is_dash ∷ [])
    ++ replicate 4 is_hex
    ++ (is_dash ∷ (λ c. c == b'4') ∷ [])
    ++ replicate 3 is_hex
    ++ (is_dash ∷ (λ c. (leb b'8' c && leb c b'9') || (leb b'a' c && leb c b'b')) ∷ [])
    ++ replicate 3 is_hex
    ++ (is_dash ∷ [])
    ++ replicate 12 is_hex

hex_test : every_below 16 (λ i. is_hex (get_or hex_table i 0)) ≡ true
unfolding every_below
hex_test = refl

abbrev digit17 : ℕ → Bool
digit17 i =
    let c = get_or uuid_digit17 i 0 in (leb b'8' c && leb c b'9') || (leb b'a' c && leb c b'b')

digit17_test : every_below 4 digit17 ≡ true
unfolding every_below
digit17_test = refl

-- In front of a text that matches.
hex_of-Matches :
    (bytes : List ℕ) (n : ℕ) (tests : List (ℕ → Bool)) (text : List ℕ)
    → length bytes ≡ n
    → Matches tests text
    → Matches (replicate n is_hex ++ tests) (hex_of bytes ++ text)
hex_of-Matches [] zero tests text e m = m
hex_of-Matches [] (suc n) tests text e m = absurd (omega (arith, e))
hex_of-Matches (b ∷ bytes) zero tests text e m = absurd (omega (arith, e))
hex_of-Matches (b ∷ bytes) (suc n) tests text e m = (
  at_below 16 (λ i. is_hex (get_or hex_table i 0)) (b % 16) hex_test (omega arith),
  hex_of-Matches bytes n tests text (omega (arith, e)) m,
)

part :
    (bytes : List ℕ) (start n : ℕ) (tests : List (ℕ → Bool)) (text : List ℕ)
    → start + n ≤ length bytes
    → Matches tests text
    → Matches (replicate n is_hex ++ tests) (hex_of (slice bytes start n) ++ text)
part bytes start n tests text fits =
    hex_of-Matches (slice bytes start n) n tests text (length-slice bytes start n fits)

uuid_of-Matches : (bytes : List ℕ) → length bytes ≡ 31 → Matches uuid_form (uuid_of bytes)
unfolding uuid_of
uuid_of-Matches bytes e =
    let digit = at_below 4 digit17 (get_or bytes 15 0 % 4) digit17_test (omega arith) in
    let last =
      subst (Matches (replicate 12 is_hex)) (append-nil _)
        (part bytes 19 12 [] [] (omega (arith, e)) tt) in
    let text4 : List ℕ = b'-' ∷ hex_of (slice bytes 19 12) in
    let text3 : List ℕ =
      b'-' ∷ get_or uuid_digit17 (get_or bytes 15 0 % 4) 0 ∷ (hex_of (slice bytes 16 3) ++ text4) in
    let text2 : List ℕ = b'-' ∷ b'4' ∷ (hex_of (slice bytes 12 3) ++ text3) in
    let text1 : List ℕ = b'-' ∷ (hex_of (slice bytes 8 4) ++ text2) in
    let m4 : Matches (drop 23 uuid_form) text4 = (refl, last) in
    let m3 : Matches (drop 18 uuid_form) text3 =
      (refl, (digit, part bytes 16 3 (drop 23 uuid_form) text4 (omega (arith, e)) m4)) in
    let m2 : Matches (drop 13 uuid_form) text2 =
      (refl, (refl, part bytes 12 3 (drop 18 uuid_form) text3 (omega (arith, e)) m3)) in
    let m1 : Matches (drop 8 uuid_form) text1 =
      (refl, part bytes 8 4 (drop 13 uuid_form) text2 (omega (arith, e)) m2) in
    part bytes 0 8 (drop 8 uuid_form) text1 (omega (arith, e)) m1

-- If the generator of bytes fills in the 31 bytes asked for, create_random_uuid gives a text of the
-- form of a version 4 UUID: groups of 8, 4, 4, 4 and 12 hexadecimal digits with dashes between
-- them, the third group starting with 4 and the fourth with 8, 9, a or b.
pub create_random_uuid_lem :
    (generate : ℕ → Option (List ℕ)) (bytes : List ℕ)
    → generate 31 ≡ some bytes
    → length bytes ≡ 31
    → (text : List ℕ) × (create_random_uuid generate ≡ some text) × Matches uuid_form text
unfolding create_random_uuid
create_random_uuid_lem generate bytes filled e =
    (uuid_of bytes, rw (filled, create_random_uuid), uuid_of-Matches bytes e)
