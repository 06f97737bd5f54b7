-- ===== src/ByteBuffer/Writer.antt =====
-- ByteBufferWriter of src/byte_buffer.cpp. A pointer into `_bytes` is an index. Storage from
-- `new char[]` is modelled as zeros; nothing below depends on them. A size_t wraps at 2 ^ 64.
pub mod Laws
pub mod Numbers
pub mod Varint
use mathlib.Core.WellFounded.{Acc}
use mathlib.Core.Logic.{dite}
use librtcbase.Prelude.{
  ℕ, ◌/◌, ◌<◌, min, max, bit_or, Bool, true, false, ◌||◌, Option, none, some, List, [], ◌∷◌, length,
  take, replicate, slice, write_at, ltb, leb, if◌then◌else◌, u8, ◌>>>◌, add_size, sub_size,
  mul_size, arith,
}
use librtcbase.Prelude.Order.{lt_wf}
use native.Mathlib.Decide.{dec_lt}
use librtcbase.ByteOrder.{
  Host, store, host_to_network16, host_to_network32, host_to_network64, is_host_big_endian,
}

pub data ByteOrder : Type 0 where
  order_network order_host : ByteOrder

abbrev pub is_network : ByteOrder → Bool
is_network order_network = true
is_network order_host = false

pub record ByteBufferWriter : Type 0 where
  pub byte_order : ByteOrder
  pub bytes : List ℕ
  pub size : ℕ
  pub start : ℕ
  pub end : ℕ

abbrev pub default_size : ℕ
default_size = 4096

-- `none` is the NULL pointer; `bytes` points to `len` bytes.
pub construct : ByteOrder → Option (List ℕ) → ℕ → ByteBufferWriter
construct o none len = record {
  byte_order = o;
  bytes = replicate len 0;
  size = len;
  start = 0;
  end = 0;
}
construct o (some bytes) len = record {
  byte_order = o;
  bytes = write_at (replicate len 0) 0 (take len bytes);
  size = len;
  start = 0;
  end = len;
}

module _ (w : ByteBufferWriter) where
  open w use {bytes, size, start, end}

  -- `data()`, up to `length()`.
  abbrev pub contents : List ℕ
  contents = slice bytes start (sub_size end start)

  abbrev pub writer_length : ℕ
  writer_length = sub_size end start

  abbrev pub capacity : ℕ
  capacity = sub_size size start

  pub resize : ℕ → ByteBufferWriter
  resize new_size =
      let len = min (sub_size end start) new_size in
      if leb new_size size
      then record w { bytes = write_at bytes 0 (slice bytes start len); start = 0; end = len }
      else let bigger = max new_size (mul_size 3 size / 2) in
        record w {
          bytes = write_at (replicate bigger 0) 0 (slice bytes start len);
          size = bigger;
          start = 0;
          end = len;
        }

  pub clear : ByteBufferWriter
  clear = record w { bytes = replicate size 0; start = 0; end = 0 }

-- The test at the head of `reserve_write_buffer`.
pub make_room : ByteBufferWriter → ℕ → ByteBufferWriter
make_room w len =
    let needed = add_size (writer_length w) len in
    if ltb (capacity w) needed then resize w needed else w

-- The pointer returned is the index of the old end.
pub reserve_write_buffer : ByteBufferWriter → ℕ → ℕ × ByteBufferWriter
reserve_write_buffer w len =
    let w' = make_room w len in (w'.end, record w' { end = add_size w'.end len })

pub write_bytes : ByteBufferWriter → List ℕ → ByteBufferWriter
write_bytes w val =
    let (start, w') = reserve_write_buffer w (length val) in
    record w' { bytes = write_at w'.bytes start val }

pub write_string : ByteBufferWriter → List ℕ → ByteBufferWriter
write_string w val = write_bytes w val

pub write_uint8 : ByteBufferWriter → ℕ → ByteBufferWriter
write_uint8 w val = write_bytes w (val ∷ [])

module _ (host : Host) where
  pub write_uint16 : ByteBufferWriter → ℕ → ByteBufferWriter
  write_uint16 w val =
      let v = if is_network w.byte_order then host_to_network16 host val else val in
      write_bytes w (store host 2 v)

  pub write_uint24 : ByteBufferWriter → ℕ → ByteBufferWriter
  write_uint24 w val =
      let v = if is_network w.byte_order then host_to_network32 host val else val in
      let start = if is_network w.byte_order || is_host_big_endian host then 1 else 0 in
      write_bytes w (slice (store host 4 v) start 3)

  pub write_uint32 : ByteBufferWriter → ℕ → ByteBufferWriter
  write_uint32 w val =
      let v = if is_network w.byte_order then host_to_network32 host val else val in
      write_bytes w (store host 4 v)

  pub write_uint64 : ByteBufferWriter → ℕ → ByteBufferWriter
  write_uint64 w val =
      let v = if is_network w.byte_order then host_to_network64 host val else val in
      write_bytes w (store host 8 v)

pub shr-lt : (val : ℕ) → 127 < val → val >>> 7 < val
shr-lt val h = omega arith

-- `while (val >= 0x80)`; each round divides `val` by 128.
pub uvarint_loop : ByteBufferWriter → (val : ℕ) → Acc ◌<◌ val → ByteBufferWriter
uvarint_loop w val (Acc.intro _ smaller) =
    dite (dec_lt 127 val)
      (λ h.
        uvarint_loop (write_bytes w (u8 (bit_or (u8 val) 0x80) ∷ [])) (val >>> 7)
          (smaller (val >>> 7) (shr-lt val h)))
      (λ _. write_bytes w (u8 val ∷ []))

pub write_uvarint : ByteBufferWriter → ℕ → ByteBufferWriter
unfolding uvarint_loop lt_wf dec_lt
write_uvarint w val = uvarint_loop w val (lt_wf.apply val)
