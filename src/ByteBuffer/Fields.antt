-- ===== src/ByteBuffer/Fields.antt =====
-- A message of fields written one after the other and read back in the same order: a client of
-- the writer and the reader of src/byte_buffer.cpp.
pub mod RoundTrip
use librtcbase.Prelude.{
  ℕ, ◌+◌, ◌^◌, ◌≤◌, ◌<◌, ◌≡◌, refl, ◌∙◌, ap, sym, true, Option, none, some, List, [], ◌∷◌, ◌++◌,
  map, length, length-append, append-nil, arith,
}
use librtcbase.ByteOrder.{Host}
use librtcbase.ByteBuffer.Writer.{
  ByteOrder, ByteBufferWriter, contents, write_uint8, write_uint16, write_uint24, write_uint32,
  write_uint64, write_uvarint, write_string,
}
use librtcbase.ByteBuffer.Writer.Laws
use librtcbase.ByteBuffer.Writer.Laws.{
  Appends, Appends-trans, write_bytes-Appends, writer_length_lem, length-contents,
}
use librtcbase.ByteBuffer.Writer.Numbers.{
  number_bytes, length-number_bytes, write_number-Appends, write_uint8-Appends,
}
use librtcbase.ByteBuffer.Writer.Varint.{Base128, length-Base128, write_uvarint-Encoded}
use librtcbase.ByteBuffer.Reader.{
  ByteBufferReader, Read, skip, of_writer, read_uint8, read_uint16, read_uint24, read_uint32,
  read_uint64, read_uvarint, read_string,
}
use librtcbase.ByteBuffer.Reader.Laws.{
  StartsWith, StartsWith-skip, StartsWith-append, construct-IsValid, read_string_known,
}
use librtcbase.ByteBuffer.Reader.Numbers.{
  read_uint8_lem, read_uint16_lem, read_uint24_lem, read_uint32_lem, read_uint64_lem,
}
use librtcbase.ByteBuffer.Reader.Varint.{read_uvarint-Base128}

pub data Field : Type 0 where
  uint8 uint16 uint24 uint32 uint64 uvarint : ℕ → Field
  text : List ℕ → Field

-- What a reader has to know of a field in advance.
pub data Shape : Type 0 where
  uint8 uint16 uint24 uint32 uint64 uvarint : Shape
  text : ℕ → Shape

abbrev pub shape : Field → Shape
shape (Field.uint8 v) = Shape.uint8
shape (Field.uint16 v) = Shape.uint16
shape (Field.uint24 v) = Shape.uint24
shape (Field.uint32 v) = Shape.uint32
shape (Field.uint64 v) = Shape.uint64
shape (Field.uvarint v) = Shape.uvarint
shape (Field.text s) = Shape.text (length s)

-- The value fits the width of the field.
abbrev pub InRange : Field → Type 0
InRange (Field.uint8 v) = v < 2 ^ 8
InRange (Field.uint16 v) = v < 2 ^ 16
InRange (Field.uint24 v) = v < 2 ^ 24
InRange (Field.uint32 v) = v < 2 ^ 32
InRange (Field.uint64 v) = v < 2 ^ 64
InRange (Field.uvarint v) = v < 2 ^ 64
InRange (Field.text s) = length s < 2 ^ 64

abbrev pub AllInRange : List Field → Type 0
AllInRange [] = Unit {0}
AllInRange (f ∷ fs) = InRange f × AllInRange fs

-- At most this many bytes are written.
abbrev pub room : List Field → ℕ
room [] = 0
room (Field.text s ∷ fs) = length s + room fs
room (_ ∷ fs) = 10 + room fs

abbrev pub number : (ℕ → Field) → Read ℕ → Read Field
number make (none, r) = (none, r)
number make (some v, r) = (some (make v), r)

module _ (host : Host) where
  pub write_field : ByteBufferWriter → Field → ByteBufferWriter
  write_field w (Field.uint8 v) = write_uint8 w v
  write_field w (Field.uint16 v) = write_uint16 host w v
  write_field w (Field.uint24 v) = write_uint24 host w v
  write_field w (Field.uint32 v) = write_uint32 host w v
  write_field w (Field.uint64 v) = write_uint64 host w v
  write_field w (Field.uvarint v) = write_uvarint w v
  write_field w (Field.text s) = write_string w s

  pub write_fields : ByteBufferWriter → List Field → ByteBufferWriter
  write_fields w [] = w
  write_fields w (f ∷ fs) = write_fields (write_field w f) fs

  pub read_field : ByteBufferReader → Shape → Read Field
  read_field r Shape.uint8 = number Field.uint8 (read_uint8 r true)
  read_field r Shape.uint16 = number Field.uint16 (read_uint16 host r true)
  read_field r Shape.uint24 = number Field.uint24 (read_uint24 host r true)
  read_field r Shape.uint32 = number Field.uint32 (read_uint32 host r true)
  read_field r Shape.uint64 = number Field.uint64 (read_uint64 host r true)
  read_field r Shape.uvarint = number Field.uvarint (read_uvarint r true)
  read_field r (Shape.text len) =
      let (s, r') = read_string r true [] len in
      elim s [ none ↦ (none, r') | some s ↦ (some (Field.text s), r') ]

  -- The fields read, or `none` at the first read that fails.
  pub read_fields : ByteBufferReader → List Shape → Option (List Field)
  read_fields r [] = some []
  read_fields r (s ∷ ss) =
      let (f, r') = read_field r s in
      let rest = read_fields r' ss in
      elim f [ none ↦ none | some f ↦ elim rest [ none ↦ none | some fs ↦ some (f ∷ fs) ] ]
