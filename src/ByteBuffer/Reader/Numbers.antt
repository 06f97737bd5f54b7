-- ===== src/ByteBuffer/Reader/Numbers.antt =====
-- ByteBufferReader: each `read_uint` gives back the number whose bytes come next.
use librtcbase.Prelude.{
  ℕ, ◌^◌, ◌<◌, ◌≡◌, refl, sym, true, some, List, [], ◌∷◌, write_at, arith, if◌then◌else◌,
}
use librtcbase.ByteOrder.{
  Host, little_endian, big_endian, store, load, is_host_big_endian, network_to_host16,
  network_to_host32, network_to_host64,
}
use librtcbase.ByteOrder.Laws.Network.{
  load-store16, load-store32, load-store64, network_to_host16-load, network_to_host32-load,
  network_to_host64-load,
}
use librtcbase.ByteBuffer.Writer.{ByteOrder, order_network, order_host, is_network}
use librtcbase.ByteBuffer.Writer.Numbers.{
  number_bytes, length-number_bytes, skipped, store-order_host,
}
use librtcbase.ByteBuffer.Reader.{
  ByteBufferReader, skip, read_uint8, read_uint16, read_uint24, read_uint32, read_uint64,
}
use librtcbase.ByteBuffer.Reader.Laws.{StartsWith, read_bytes_known}

-- What the conversion makes of the bytes of a number, in the order of the buffer.
value16 :
    (host : Host) (o : ByteOrder) (v : ℕ)
    → v < 2 ^ 16
    → let n = load host (number_bytes host o 2 v) in
      (if is_network o then network_to_host16 host n else n) ≡ v
value16 host order_network v h = unfold number_bytes in network_to_host16-load host v h
value16 host order_host v h = rw (← store-order_host) (load-store16 host v h)

value32 :
    (host : Host) (o : ByteOrder) (v : ℕ)
    → v < 2 ^ 32
    → let n = load host (number_bytes host o 4 v) in
      (if is_network o then network_to_host32 host n else n) ≡ v
value32 host order_network v h = unfold number_bytes in network_to_host32-load host v h
value32 host order_host v h = rw (← store-order_host) (load-store32 host v h)

value64 :
    (host : Host) (o : ByteOrder) (v : ℕ)
    → v < 2 ^ 64
    → let n = load host (number_bytes host o 8 v) in
      (if is_network o then network_to_host64 host n else n) ≡ v
value64 host order_network v h = unfold number_bytes in network_to_host64-load host v h
value64 host order_host v h = rw (← store-order_host) (load-store64 host v h)

-- Three bytes read into a zeroed word are the word's representation.
padded24 :
    (host : Host) (o : ByteOrder) (v : ℕ)
    → v < 2 ^ 24
    → write_at (store host 4 0) (skipped host o) (number_bytes host o 3 v) ≡ number_bytes host o 4 v
unfolding store number_bytes is_host_big_endian
padded24 little_endian order_network v h = ground arith
padded24 big_endian order_network v h = ground arith
padded24 little_endian order_host v h = ground arith
padded24 big_endian order_host v h = ground arith

module _ (host : Host) {r : ByteBufferReader} (v : ℕ) (rest : List ℕ) where
  pub read_uint16_lem :
      v < 2 ^ 16
      → StartsWith r (number_bytes host r.byte_order 2 v) rest
      → read_uint16 host r true ≡ (some v, skip r 2)
  unfolding read_uint16
  read_uint16_lem h s =
      let sizes = length-number_bytes host r.byte_order v in
      ground
        (arith, read_bytes_known {len = 2} _ rest s (sym sizes.0), value16 host r.byte_order v h)

  pub read_uint24_lem :
      v < 2 ^ 24
      → StartsWith r (number_bytes host r.byte_order 3 v) rest
      → read_uint24 host r true ≡ (some v, skip r 3)
  unfolding read_uint24
  read_uint24_lem h s =
      let sizes = length-number_bytes host r.byte_order v in
      ground (
        arith,
        read_bytes_known {len = 3} _ rest s (sym sizes.1),
        padded24 host r.byte_order v h,
        value32 host r.byte_order v (omega arith),
      )

  pub read_uint32_lem :
      v < 2 ^ 32
      → StartsWith r (number_bytes host r.byte_order 4 v) rest
      → read_uint32 host r true ≡ (some v, skip r 4)
  unfolding read_uint32
  read_uint32_lem h s =
      let sizes = length-number_bytes host r.byte_order v in
      ground
        (arith, read_bytes_known {len = 4} _ rest s (sym sizes.2), value32 host r.byte_order v h)

  pub read_uint64_lem :
      v < 2 ^ 64
      → StartsWith r (number_bytes host r.byte_order 8 v) rest
      → read_uint64 host r true ≡ (some v, skip r 8)
  unfolding read_uint64
  read_uint64_lem h s =
      let sizes = length-number_bytes host r.byte_order v in
      ground
        (arith, read_bytes_known {len = 8} _ rest s (sym sizes.3), value64 host r.byte_order v h)

pub read_uint8_lem :
    {r : ByteBufferReader} (v : ℕ) (rest : List ℕ)
    → StartsWith r (v ∷ []) rest
    → read_uint8 r true ≡ (some v, skip r 1)
unfolding read_uint8
read_uint8_lem v rest s = ground (arith, read_bytes_known {len = 1} _ rest s refl)
