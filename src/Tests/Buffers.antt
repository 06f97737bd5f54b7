-- ===== src/Tests/Buffers.antt =====
-- Runs of src/byte_buffer.cpp, src/buffer.h and src/buffer_queue.cpp.
use librtcbase.Prelude.{leb, ℕ, ◌≡◌, ap, true, some, List, [], ◌∷◌, length, map, arith, codes}
use librtcbase.ByteOrder.{little_endian, big_endian}
use librtcbase.ByteBuffer.Writer
use librtcbase.ByteBuffer.Writer.{
  ByteBufferWriter, order_network, order_host, contents, capacity, resize, write_bytes,
  write_uint16, write_uint24, write_uint32, write_uint64, write_uvarint,
}
use librtcbase.ByteBuffer.Writer.Laws
use librtcbase.ByteBuffer.Writer.Laws.{Appends, resize_lem, write_bytes-Appends}
use librtcbase.ByteBuffer.Writer.Numbers.{number_bytes, write_number-Appends}
use librtcbase.ByteBuffer.Writer.Varint.{Encoded, write_uvarint-Encoded}
use librtcbase.ByteBuffer.Reader
use librtcbase.ByteBuffer.Reader.{
  ByteBufferReader, of_writer, remaining, skip, read_bytes, consume, read_string, read_uvarint,
}
use librtcbase.ByteBuffer.Reader.Laws.{StartsWith}
use librtcbase.ByteBuffer.Reader.Bounds.{
  first_bytes, bytes_after, append_to, reader_after, read_lem,
}
use librtcbase.ByteBuffer.Fields.{Field, shape, write_fields, read_fields}
use librtcbase.ByteBuffer.Fields.RoundTrip.{read_fields-write_fields}

abbrev new_writer : ByteBufferWriter
new_writer = Writer.construct order_network (some []) 0

abbrev message : List Field
message =
    Field.uint16 0x1234
    ∷ Field.uvarint 300
    ∷ Field.text (codes "rtc")
    ∷ Field.uint24 0xABCDEF
    ∷ Field.uint64 1
    ∷ []

read_fields-write_fields_example :
    read_fields little_endian
      (of_writer (write_fields little_endian new_writer message))
      (map shape message)
    ≡ some message
read_fields-write_fields_example =
    read_fields-write_fields little_endian new_writer message
      ((Writer.Laws.construct-IsValid order_network [] (omega arith)).0)
      ((Writer.Laws.construct-IsValid order_network [] (omega arith)).1) (omega arith) (omega arith)

-- A writer that holds three bytes.
abbrev rtc : List ℕ
rtc = codes "rtc"

abbrev rtc_writer : ByteBufferWriter
rtc_writer = Writer.construct order_network (some rtc) 3

rtc-IsValid : Writer.Laws.IsValid rtc_writer
rtc-IsValid = (Writer.Laws.construct-IsValid order_network rtc (omega arith)).0

rtc-contents : contents rtc_writer ≡ rtc
rtc-contents = (Writer.Laws.construct-IsValid order_network rtc (omega arith)).1

write_number-Appends_example :
    Appends rtc_writer
      (number_bytes big_endian rtc_writer.byte_order 2 0x12345678)
      (write_uint16 big_endian rtc_writer 0x12345678)
    × Appends rtc_writer
        (number_bytes big_endian rtc_writer.byte_order 3 0x12345678)
        (write_uint24 big_endian rtc_writer 0x12345678)
    × Appends rtc_writer
        (number_bytes big_endian rtc_writer.byte_order 4 0x12345678)
        (write_uint32 big_endian rtc_writer 0x12345678)
    × Appends rtc_writer
        (number_bytes big_endian rtc_writer.byte_order 8 0x12345678)
        (write_uint64 big_endian rtc_writer 0x12345678)
write_number-Appends_example =
    write_number-Appends big_endian rtc_writer 0x12345678 rtc-IsValid
      (omega (arith, ap length rtc-contents))

write_uvarint-Encoded_example : Encoded rtc_writer 300 (write_uvarint rtc_writer 300)
write_uvarint-Encoded_example =
    write_uvarint-Encoded rtc_writer 300 rtc-IsValid (omega arith)
      (omega (arith, ap length rtc-contents))

-- A reader in front of the digits of 300 and another byte.
abbrev digits_reader : ByteBufferReader
digits_reader = Reader.construct order_network (0xAC ∷ 2 ∷ 7 ∷ []) 3

digits_ahead : StartsWith digits_reader (0xAC ∷ 2 ∷ []) (7 ∷ [])
digits_ahead =
    let made = Reader.Laws.construct-IsValid order_network (0xAC ∷ 2 ∷ 7 ∷ []) (omega arith) in
    record { valid = made.0; split = made.1 }

write_bytes-Appends_example :
    Appends rtc_writer (codes "base") (write_bytes rtc_writer (codes "base"))
write_bytes-Appends_example =
    write_bytes-Appends rtc_writer (codes "base") rtc-IsValid
      (omega (arith, ap length rtc-contents))

-- All three bytes are read.
read_lem_example :
    (read_bytes digits_reader 3
      ≡ (first_bytes 3 (remaining digits_reader), reader_after 3 digits_reader))
    × (consume digits_reader 3
        ≡ (leb 3 (length (remaining digits_reader)), reader_after 3 digits_reader))
    × (read_string digits_reader true [] 3
        ≡ (append_to [] (first_bytes 3 (remaining digits_reader)), reader_after 3 digits_reader))
    × (remaining (reader_after 3 digits_reader) ≡ bytes_after 3 (remaining digits_reader))
    × Reader.Laws.IsValid (reader_after 3 digits_reader)
read_lem_example = read_lem 3 digits_ahead.valid true []
