-- ===== src/ByteOrder.antt =====
-- src/byte_order.h: numbers in memory, most or least significant byte first, and the conversions
-- between host and network order.
-- A `void*` is the list of the bytes from it on. A uint8_t is a number below 256.
pub mod Laws
use librtcbase.Prelude.{
  ℕ, zero, suc, ◌+◌, ◌*◌, ◌/◌, ◌%◌, ◌^◌, bit_or, Bool, List, [], ◌∷◌, ◌++◌, set, get_or, replicate,
  ◌==◌, ◌<<<◌, ◌>>>◌, u8, u16, u32, u64,
}

-- The byte order of the machine that the library runs on.
pub data Host : Type 0 where
  little_endian big_endian : Host

-- The `n` bytes of a number, least significant first.
unfoldable pub le_bytes : ℕ → ℕ → List ℕ
le_bytes zero v = []
le_bytes (suc n) v = (v % 256) ∷ le_bytes n (v / 256)

unfoldable pub le_value : List ℕ → ℕ
le_value [] = 0
le_value (b ∷ bs) = b + 256 * le_value bs

-- The same, most significant first.
unfoldable pub be_bytes : ℕ → ℕ → List ℕ
be_bytes zero v = []
be_bytes (suc n) v = be_bytes n (v / 256) ++ (v % 256) ∷ []

unfoldable pub be_value : ℕ → List ℕ → ℕ
be_value high [] = high
be_value high (b ∷ bs) = be_value (high * 256 + b) bs

-- The object representation of an unsigned integer of `n` bytes (`reinterpret_cast<char*>(&v)`),
-- and the integer that such bytes represent.
unfoldable pub store : Host → ℕ → ℕ → List ℕ
unfolding le_bytes be_bytes
store little_endian n v = le_bytes n v
store big_endian n v = be_bytes n v

unfoldable pub load : Host → List ℕ → ℕ
unfolding le_value be_value
load little_endian bs = le_value bs
load big_endian bs = be_value 0 bs

unfoldable pub set8 : List ℕ → ℕ → ℕ → List ℕ
set8 memory offset v = set memory offset v

unfoldable pub get8 : List ℕ → ℕ → ℕ
get8 memory offset = get_or memory offset 0

pub set_be16 : List ℕ → ℕ → List ℕ
set_be16 m v = set8 (set8 m 0 (u8 (v >>> 8))) 1 (u8 (v >>> 0))

unfoldable pub set_be32 : List ℕ → ℕ → List ℕ
set_be32 m v =
    set8 (set8 (set8 (set8 m 0 (u8 (v >>> 24))) 1 (u8 (v >>> 16))) 2 (u8 (v >>> 8))) 3
      (u8 (v >>> 0))

pub set_be64 : List ℕ → ℕ → List ℕ
set_be64 m v =
    let m1 = set8 m 0 (u8 (v >>> 56)) in
    let m2 = set8 m1 1 (u8 (v >>> 48)) in
    let m3 = set8 m2 2 (u8 (v >>> 40)) in
    let m4 = set8 m3 3 (u8 (v >>> 32)) in
    let m5 = set8 m4 4 (u8 (v >>> 24)) in
    let m6 = set8 m5 5 (u8 (v >>> 16)) in
    let m7 = set8 m6 6 (u8 (v >>> 8)) in set8 m7 7 (u8 (v >>> 0))

pub get_be16 : List ℕ → ℕ
get_be16 m = u16 (bit_or (get8 m 0 <<< 8) (get8 m 1 <<< 0))

unfoldable pub get_be32 : List ℕ → ℕ
get_be32 m =
    bit_or (bit_or (bit_or (u32 (get8 m 0 <<< 24)) (u32 (get8 m 1 <<< 16))) (u32 (get8 m 2 <<< 8)))
      (u32 (get8 m 3 <<< 0))

pub get_be64 : List ℕ → ℕ
get_be64 m =
    let v2 = bit_or (u64 (get8 m 0 <<< 56)) (u64 (get8 m 1 <<< 48)) in
    let v3 = bit_or v2 (u64 (get8 m 2 <<< 40)) in
    let v4 = bit_or v3 (u64 (get8 m 3 <<< 32)) in
    let v5 = bit_or v4 (u64 (get8 m 4 <<< 24)) in
    let v6 = bit_or v5 (u64 (get8 m 5 <<< 16)) in
    let v7 = bit_or v6 (u64 (get8 m 6 <<< 8)) in bit_or v7 (u64 (get8 m 7 <<< 0))

pub set_le16 : List ℕ → ℕ → List ℕ
set_le16 m v = set8 (set8 m 0 (u8 (v >>> 0))) 1 (u8 (v >>> 8))

pub set_le32 : List ℕ → ℕ → List ℕ
set_le32 m v =
    set8 (set8 (set8 (set8 m 0 (u8 (v >>> 0))) 1 (u8 (v >>> 8))) 2 (u8 (v >>> 16))) 3
      (u8 (v >>> 24))

pub set_le64 : List ℕ → ℕ → List ℕ
set_le64 m v =
    let m1 = set8 m 0 (u8 (v >>> 0)) in
    let m2 = set8 m1 1 (u8 (v >>> 8)) in
    let m3 = set8 m2 2 (u8 (v >>> 16)) in
    let m4 = set8 m3 3 (u8 (v >>> 24)) in
    let m5 = set8 m4 4 (u8 (v >>> 32)) in
    let m6 = set8 m5 5 (u8 (v >>> 40)) in
    let m7 = set8 m6 6 (u8 (v >>> 48)) in set8 m7 7 (u8 (v >>> 56))

pub get_le16 : List ℕ → ℕ
get_le16 m = u16 (bit_or (get8 m 0 <<< 0) (get8 m 1 <<< 8))

pub get_le32 : List ℕ → ℕ
get_le32 m =
    bit_or (bit_or (bit_or (u32 (get8 m 0 <<< 0)) (u32 (get8 m 1 <<< 8))) (u32 (get8 m 2 <<< 16)))
      (u32 (get8 m 3 <<< 24))

pub get_le64 : List ℕ → ℕ
get_le64 m =
    let v2 = bit_or (u64 (get8 m 0 <<< 0)) (u64 (get8 m 1 <<< 8)) in
    let v3 = bit_or v2 (u64 (get8 m 2 <<< 16)) in
    let v4 = bit_or v3 (u64 (get8 m 3 <<< 24)) in
    let v5 = bit_or v4 (u64 (get8 m 4 <<< 32)) in
    let v6 = bit_or v5 (u64 (get8 m 5 <<< 40)) in
    let v7 = bit_or v6 (u64 (get8 m 6 <<< 48)) in bit_or v7 (u64 (get8 m 7 <<< 56))

-- The first byte of the int 1.
unfoldable pub is_host_big_endian : Host → Bool
unfolding store be_bytes le_bytes
is_host_big_endian host = 0 == get_or (store host 4 1) 0 0

-- The bytes of the uninitialised `result` are all overwritten.
pub host_to_network16 : Host → ℕ → ℕ
host_to_network16 host n = load host (set_be16 (replicate 2 0) n)

unfoldable pub host_to_network32 : Host → ℕ → ℕ
host_to_network32 host n = load host (set_be32 (replicate 4 0) n)

pub host_to_network64 : Host → ℕ → ℕ
host_to_network64 host n = load host (set_be64 (replicate 8 0) n)

pub network_to_host16 : Host → ℕ → ℕ
network_to_host16 host n = get_be16 (store host 2 n)

unfoldable pub network_to_host32 : Host → ℕ → ℕ
network_to_host32 host n = get_be32 (store host 4 n)

pub network_to_host64 : Host → ℕ → ℕ
network_to_host64 host n = get_be64 (store host 8 n)
