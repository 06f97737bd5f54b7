-- ===== src/Streams.antt =====
-- write_all of src/stream.cpp, and the BIO on a stream of src/openssl_stream_adapter.cpp. The stream is
-- a function of the bytes it is given (or of how many are asked for) and of its own state.
pub mod WriteAll
use librtcbase.Prelude.{
  ℕ, ◌+◌, ◌-◌, ◌%◌, ◌^◌, Bool, true, false, Option, none, some, List, [], ◌∷◌, ◌++◌, ◌==◌, leb, ltb,
  if◌then◌else◌, suc, zero, length, take, drop,
}
use librtcbase.Prelude.Int.{ℤ, pos, negsuc}

pub data StreamResult : Type 0 where
  sr_error sr_success sr_block sr_eos : StreamResult

abbrev pub is_success : StreamResult → Bool
is_success sr_success = true
is_success r = false

module _ {Stream : Type 0} (write : List ℕ → Stream → StreamResult × ℕ × Stream) where
  -- The loop of write_all, on the data that is left; `none` is no fuel. The second part is how much
  -- has been written.
  unfoldable pub write_loop : ℕ → List ℕ → ℕ → Stream → Option (StreamResult × ℕ × Stream)
  write_loop zero data_left total_written s = none
  write_loop (suc fuel) data_left total_written s =
      let (result, current_written, s1) = write data_left s in
      let rest =
        write_loop fuel (drop current_written data_left) (total_written + current_written) s1 in
      if length data_left == 0
      then some (sr_success, total_written, s)
      else if is_success result
      then rest
      else some (result, total_written, s1)

  unfoldable pub write_all : List ℕ → Stream → Option (StreamResult × ℕ × Stream)
  unfolding write_loop
  write_all bytes s = write_loop (suc (length bytes)) bytes 0 s

-- The members of a BIO that the methods use, and its retry flags.
pub record Bio : Type 0 where
  pub shutdown : Bool
  pub init : Bool
  pub num : ℕ
  pub retry_read : Bool
  pub retry_write : Bool

unfoldable pub stream_new : Bio → Bio
stream_new b = record b { shutdown = false; init = true; num = 0 }

abbrev pub clear_retry_flags : Bio → Bio
clear_retry_flags b = record b { retry_read = false; retry_write = false }

-- The casts of a size to an int; a stream that is asked for an int gives no more.
module _ {Stream : Type 0} where
  -- `none` is a buffer that is null. The bytes go to the buffer.
  unfoldable pub stream_read :
      (ℕ → Stream → StreamResult × List ℕ × Stream)
      → Option ℕ
      → Bio
      → Stream
      → ℤ × List ℕ × Bio × Stream
  stream_read read none b s = (negsuc 0, [], b, s)
  stream_read read (some outl) b s =
      let (result, bytes, s1) = read outl s in
      let b1 = clear_retry_flags b in
      elim result [
        | sr_success ↦ (pos (length bytes), bytes, b1, s1)
        | sr_eos ↦ (negsuc 0, [], record b1 { num = 1 }, s1)
        | sr_block ↦ (negsuc 0, [], record b1 { retry_read = true }, s1)
        | sr_error ↦ (negsuc 0, [], b1, s1)
      ]

  unfoldable pub stream_write :
      (List ℕ → Stream → StreamResult × ℕ × Stream)
      → Option (List ℕ)
      → Bio
      → Stream
      → ℤ × Bio × Stream
  stream_write write none b s = (negsuc 0, b, s)
  stream_write write (some bytes) b s =
      let (result, written, s1) = write bytes s in
      let b1 = clear_retry_flags b in
      elim result [
        | sr_success ↦ (pos written, b1, s1)
        | sr_block ↦ (negsuc 0, record b1 { retry_write = true }, s1)
        | _ ↦ (negsuc 0, b1, s1)
      ]

pub data Control : Type 0 where
  bio_reset bio_eof bio_wpending bio_pending bio_flush bio_query_mtu other_control : Control

unfoldable pub stream_ctrl : Bio → Control → ℕ
stream_ctrl b bio_eof = b.num
stream_ctrl b bio_flush = 1
stream_ctrl b bio_query_mtu = 1200
stream_ctrl b _ = 0
