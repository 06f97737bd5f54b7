-- ===== src/ByteBuffer/Writer/Numbers.antt =====
-- ByteBufferWriter: the bytes that each `write_uint` appends.
use librtcbase.Prelude.{
  ℕ, ◌+◌, ◌^◌, ◌<◌, ◌≡◌, refl, List, [], ◌∷◌, length, slice, arith, if◌then◌else◌, ◌||◌,
}
use librtcbase.ByteOrder.{
  Host, little_endian, big_endian, store, be_bytes, le_bytes, host_to_network16, host_to_network32,
  host_to_network64, is_host_big_endian,
}
use librtcbase.ByteOrder.Laws.Network.{
  store-host_to_network16, store-host_to_network32, store-host_to_network64,
}
use librtcbase.ByteBuffer.Writer.{
  ByteOrder, order_network, order_host, is_network, ByteBufferWriter, contents, write_uint8,
  write_uint16, write_uint24, write_uint32, write_uint64,
}
use librtcbase.ByteBuffer.Writer.Laws.{IsValid, Appends, write_bytes-Appends}

-- The `n` bytes of a number in network order, or in that of the host.
unfoldable pub number_bytes : Host → ByteOrder → ℕ → ℕ → List ℕ
number_bytes host order_network n v = be_bytes n v
number_bytes big_endian order_host n v = be_bytes n v
number_bytes little_endian order_host n v = le_bytes n v

pub length-number_bytes :
    (host : Host) (o : ByteOrder) (v : ℕ)
    → (length (number_bytes host o 2 v) ≡ 2)
      × (length (number_bytes host o 3 v) ≡ 3)
      × (length (number_bytes host o 4 v) ≡ 4)
      × (length (number_bytes host o 8 v) ≡ 8)
unfolding number_bytes be_bytes le_bytes
length-number_bytes host order_network v = (refl, refl, refl, refl)
length-number_bytes big_endian order_host v = (refl, refl, refl, refl)
length-number_bytes little_endian order_host v = (refl, refl, refl, refl)

pub store-order_host : (host : Host) (n v : ℕ) → store host n v ≡ number_bytes host order_host n v
unfolding number_bytes store
store-order_host little_endian n v = refl
store-order_host big_endian n v = refl

module _ (host : Host) where
  bytes16 :
      (o : ByteOrder) (v : ℕ)
      → store host 2 (if is_network o then host_to_network16 host v else v)
        ≡ number_bytes host o 2 v
  bytes16 order_network v = unfold number_bytes in store-host_to_network16 host v
  bytes16 order_host v = store-order_host host 2 v

  bytes32 :
      (o : ByteOrder) (v : ℕ)
      → store host 4 (if is_network o then host_to_network32 host v else v)
        ≡ number_bytes host o 4 v
  bytes32 order_network v = unfold number_bytes in store-host_to_network32 host v
  bytes32 order_host v = store-order_host host 4 v

  bytes64 :
      (o : ByteOrder) (v : ℕ)
      → store host 8 (if is_network o then host_to_network64 host v else v)
        ≡ number_bytes host o 8 v
  bytes64 order_network v = unfold number_bytes in store-host_to_network64 host v
  bytes64 order_host v = store-order_host host 8 v

abbrev pub skipped : Host → ByteOrder → ℕ
skipped host o = if is_network o || is_host_big_endian host then 1 else 0

-- Of four bytes, those of the low 24 bits.
bytes24 :
    (host : Host) (o : ByteOrder) (v : ℕ)
    → slice (number_bytes host o 4 v) (skipped host o) 3 ≡ number_bytes host o 3 v
unfolding number_bytes be_bytes le_bytes is_host_big_endian
bytes24 host order_network v = refl
bytes24 big_endian order_host v = refl
bytes24 little_endian order_host v = refl

-- On a host of either byte order, writing a number of 16, 24, 32 or 64 bits to a valid writer with
-- 8 bytes to spare below 2 ^ 64 keeps it valid and its byte order, and appends the low 2, 3, 4 or 8
-- bytes of the number, in network order or in the order of the host as the writer says.
pub write_number-Appends :
    (host : Host) (w : ByteBufferWriter) (v : ℕ)
    → IsValid w
    → length (contents w) + 8 < 2 ^ 64
    → Appends w (number_bytes host w.byte_order 2 v) (write_uint16 host w v)
      × Appends w (number_bytes host w.byte_order 3 v) (write_uint24 host w v)
      × Appends w (number_bytes host w.byte_order 4 v) (write_uint32 host w v)
      × Appends w (number_bytes host w.byte_order 8 v) (write_uint64 host w v)
unfolding write_uint16 write_uint24 write_uint32 write_uint64
write_number-Appends host w v valid fits =
    let o = w.byte_order in
    let sizes = length-number_bytes host o v in
    (
      rw (bytes16 host o v) (write_bytes-Appends w _ valid (omega (arith, sizes))),
      rw (bytes32 host o v, bytes24 host o v)
          (write_bytes-Appends w _ valid (omega (arith, sizes))),
      rw (bytes32 host o v) (write_bytes-Appends w _ valid (omega (arith, sizes))),
      rw (bytes64 host o v) (write_bytes-Appends w _ valid (omega (arith, sizes))),
    )

pub write_uint8-Appends :
    (w : ByteBufferWriter) (v : ℕ)
    → IsValid w
    → length (contents w) + 1 < 2 ^ 64
    → Appends w (v ∷ []) (write_uint8 w v)
unfolding write_uint8
write_uint8-Appends w v valid fits = write_bytes-Appends w (v ∷ []) valid (omega arith)
