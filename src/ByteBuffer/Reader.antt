-- ===== src/ByteBuffer/Reader.antt =====
-- ByteBufferReader of src/byte_buffer.cpp. A read returns what goes through the out-pointer, if
-- it returns true, beside the reader after the call. `has_val` says that the out-pointer is not
-- null. A `char` is signed, as on the platforms of the README.
pub mod Laws
pub mod Bounds
pub mod Numbers
pub mod Varint
use librtcbase.Prelude.{
  ℕ, zero, suc, ◌+◌, ◌-◌, ◌^◌, bit_and, bit_or, Bool, true, false, not, ◌||◌, Option, none, some,
  List, ◌++◌, get_or, slice, write_at, ltb, if◌then◌else◌, u64, ◌<<<◌, add_size, sub_size,
}
use librtcbase.ByteOrder.{
  Host, store, load, network_to_host16, network_to_host32, network_to_host64, is_host_big_endian,
}
use librtcbase.ByteBuffer.Writer.{ByteOrder, is_network, ByteBufferWriter, contents, writer_length}

pub record ByteBufferReader : Type 0 where
  pub byte_order : ByteOrder
  pub bytes : List ℕ
  pub size : ℕ
  pub start : ℕ
  pub end : ℕ

pub construct : ByteOrder → List ℕ → ℕ → ByteBufferReader
construct o bytes len = record { byte_order = o; bytes = bytes; size = len; start = 0; end = len }

-- `ByteBufferReader(const ByteBufferWriter& buf)`.
pub of_writer : ByteBufferWriter → ByteBufferReader
of_writer w = construct w.byte_order (contents w) (writer_length w)

abbrev pub reader_length : ByteBufferReader → ℕ
reader_length r = sub_size r.end r.start

-- `data()`, up to `length()`.
abbrev pub remaining : ByteBufferReader → List ℕ
remaining r = slice r.bytes r.start (sub_size r.end r.start)

abbrev pub skip : ByteBufferReader → ℕ → ByteBufferReader
skip r len = record r { start = add_size r.start len }

-- What a call leaves in the out-pointer, if it returns true, and the reader after it.
abbrev pub Read : Type 0 → Type 0
Read A = Option A × ByteBufferReader

pub read_bytes : ByteBufferReader → ℕ → Read (List ℕ)
read_bytes r len =
    if ltb (reader_length r) len then (none, r) else (some (slice r.bytes r.start len), skip r len)

pub consume : ByteBufferReader → ℕ → Bool × ByteBufferReader
consume r size = if ltb (reader_length r) size then (false, r) else (true, skip r size)

-- `val->append(...)`.
pub read_string : ByteBufferReader → Bool → List ℕ → ℕ → Read (List ℕ)
read_string r has_val val len =
    if not has_val
    then (none, r)
    else if ltb (reader_length r) len
    then (none, r)
    else (some (val ++ slice r.bytes r.start len), skip r len)

pub read_uint8 : ByteBufferReader → Bool → Read ℕ
read_uint8 r has_val =
    if not has_val
    then (none, r)
    else let (bs, r') = read_bytes r 1 in
      elim bs [ none ↦ (none, r') | some v ↦ (some (get_or v 0 0), r') ]

module _ (host : Host) where
  -- The three widths that read straight into a variable, with the conversion of the width.
  abbrev read_number : ℕ → (ℕ → ℕ) → ByteBufferReader → Bool → Read ℕ
  read_number n to_host r has_val =
      if not has_val
      then (none, r)
      else let (bs, r') = read_bytes r n in
        elim bs [
          | none ↦ (none, r')
          | some v ↦
              (some (if is_network r.byte_order then to_host (load host v) else load host v), r')
        ]

  pub read_uint16 : ByteBufferReader → Bool → Read ℕ
  read_uint16 = read_number 2 (network_to_host16 host)

  pub read_uint32 : ByteBufferReader → Bool → Read ℕ
  read_uint32 = read_number 4 (network_to_host32 host)

  pub read_uint64 : ByteBufferReader → Bool → Read ℕ
  read_uint64 = read_number 8 (network_to_host64 host)

  pub read_uint24 : ByteBufferReader → Bool → Read ℕ
  read_uint24 r has_val =
      if not has_val
      then (none, r)
      else let read_into = if is_network r.byte_order || is_host_big_endian host then 1 else 0 in
        let (bs, r') = read_bytes r 3 in
        elim bs [
          | none ↦ (none, r')
          | some bytes ↦
              let v = load host (write_at (store host 4 0) read_into bytes) in
              (some (if is_network r.byte_order then network_to_host32 host v else v), r')
        ]

-- `static_cast<uint64_t>(byte)` of a signed char.
abbrev pub sign_extend : ℕ → ℕ
sign_extend byte = if ltb byte 128 then byte else byte + 2 ^ 64 - 256

-- The loop at bit `i`, with the rounds left until `i` is 64 or more.
pub read_uvarint_loop : ℕ → ℕ → ℕ → ByteBufferReader → Read ℕ
read_uvarint_loop zero i v r = (none, r)
read_uvarint_loop (suc left) i v r =
    let (bs, r') = read_bytes r 1 in
    elim bs [
      | none ↦ (none, r')
      | some bytes ↦
          let byte = sign_extend (get_or bytes 0 0) in
          let v' = bit_or v (u64 (bit_and byte 0x7F <<< i)) in
          let rest = read_uvarint_loop left (i + 7) v' r' in
          if ltb byte 0x80 then (some v', r') else rest
    ]

-- `for (int i = 0; i < 64; i += 7)` runs at most ten rounds.
pub read_uvarint : ByteBufferReader → Bool → Read ℕ
read_uvarint r has_val = if not has_val then (none, r) else read_uvarint_loop 10 0 0 r
