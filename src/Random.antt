-- ===== src/Random.antt =====
-- src/random.h and src/random.cpp: the xorshift generator, its integer ranges, and random text over
-- a generator of bytes that the library takes from OpenSSL, a parameter here. Floating point is not
-- modelled.
pub mod Output
pub mod Ranges
pub mod Strings
use librtcbase.Prelude.{
  ℕ, ◌+◌, ◌-◌, ◌*◌, ◌%◌, ◌^◌, bit_xor, Bool, true, false, not, Option, none, some, List, [], ◌∷◌,
  ◌++◌, map, get_or, slice, ◌==◌, if◌then◌else◌, u32, u64, ◌<<<◌, ◌>>>◌, codes,
}
use librtcbase.Prelude.Int.{ℤ, pos, negsuc, ◌+ℤ◌, ◌-ℤ◌}
use librtcbase.SafeConversions.{IntType, bits32, residue, static_cast}

pub record Random : Type 0 where
  pub state : ℕ

abbrev pub construct : ℕ → Random
construct seed = record { state = seed }

-- The three steps of the generator.
pub scramble : ℕ → ℕ
scramble s =
    let s1 = bit_xor s (s >>> 12) in let s2 = bit_xor s1 (u64 (s1 <<< 25)) in bit_xor s2 (s2 >>> 27)

pub next_output : Random → ℕ × Random
unfolding scramble
next_output r = let s = scramble r.state in (u64 (s * 2685821657736338717), record { state = s })

-- `rand(uint32_t t)`.
pub rand : Random → ℕ → ℕ × Random
unfolding next_output
rand r t = let (out, r') = next_output r in (u32 (u64 (u32 out * (t + 1)) >>> 32), r')

-- `rand(uint32_t low, uint32_t high)`.
pub rand_between : Random → ℕ → ℕ → ℕ × Random
unfolding rand
rand_between r low high =
    let (out, r') = rand r (u32 (high + 2 ^ 32 - low)) in (u32 (out + low), r')

abbrev int32 : IntType
int32 = record { width = bits32; is_signed = true }

-- `rand(int32_t low, int32_t high)`: the difference is taken in 64 bits and cut to 32.
pub rand_signed : Random → ℤ → ℤ → ℤ × Random
unfolding rand
rand_signed r low high =
    let (out, r') = rand r (residue (2 ^ 32) (high -ℤ low)) in
    (static_cast int32 (pos out +ℤ low), r')

pub rand_bool : Random → Bool × Random
unfolding rand_between
rand_bool r = let (out, r') = rand_between r 0 1 in (out == 1, r')

abbrev pub base64_table : List ℕ
base64_table = codes "ABCDEFGHIJKLMNOPQRSTUVWXYZabcdefghijklmnopqrstuvwxyz0123456789+/"

abbrev pub hex_table : List ℕ
hex_table = codes "0123456789abcdef"

abbrev pub uuid_digit17 : List ℕ
uuid_digit17 = codes "89ab"

abbrev pub hex_of : List ℕ → List ℕ
hex_of bytes = map (λ b. get_or hex_table (b % 16) 0) bytes

-- The text of a UUID, from 31 bytes.
pub uuid_of : List ℕ → List ℕ
uuid_of bytes =
    let tail4 = b'-' ∷ hex_of (slice bytes 19 12) in
    let tail3 =
      b'-' ∷ get_or uuid_digit17 (get_or bytes 15 0 % 4) 0 ∷ (hex_of (slice bytes 16 3) ++ tail4) in
    let tail2 = b'-' ∷ b'4' ∷ (hex_of (slice bytes 12 3) ++ tail3) in
    let tail1 = b'-' ∷ (hex_of (slice bytes 8 4) ++ tail2) in hex_of (slice bytes 0 8) ++ tail1

-- `generate` fills that many bytes or fails.
module _ (generate : ℕ → Option (List ℕ)) where
  -- The static overload, with the size of the table; `none` is false.
  pub random_string_from : ℕ → List ℕ → ℕ → Option (List ℕ)
  random_string_from len table table_size =
      if not (256 % table_size == 0) then none else elim (generate len) [
        | none ↦ none
        | some bytes ↦ some (map (λ b. get_or table (b % table_size) 0) bytes)
      ]

  pub create_random_string : ℕ → Option (List ℕ)
  unfolding random_string_from
  create_random_string len = random_string_from len base64_table 64

  -- The result of `generate` is not looked at; `none` stands for bytes that it did not fill.
  pub create_random_uuid : Option (List ℕ)
  unfolding uuid_of
  create_random_uuid = elim (generate 31) [ none ↦ none | some bytes ↦ some (uuid_of bytes) ]
