-- ===== src/Tests/Numbers.antt =====
-- Runs of src/byte_order.h, src/time_utils.cpp, src/safe_conversions.h and src/safe_compare.h.
use librtcbase.Prelude.{
  ℕ, ◌≡◌, ◌≢◌, ◌%◌, ◌^◌, ◌↔◌, true, false, List, [], ◌∷◌, replicate, map, arith,
}
use librtcbase.Prelude.Int.{pos, negsuc}
use librtcbase.ByteOrder.{
  little_endian, be_bytes, store, host_to_network16, host_to_network32, host_to_network64,
  network_to_host16, network_to_host32, network_to_host64,
}
use librtcbase.ByteOrder.Laws.Network.{network_order}
use librtcbase.TimeUtils.{tm_to_seconds, handler_init}
use librtcbase.TimeUtils.Calendar.{
  InRange, tm_to_seconds_iff, moment, days_before_year, days_before_month, tm_to_seconds_lem,
}
use librtcbase.TimeUtils.Unwrap.{unwrap_all, unwrap_all_lem}
use librtcbase.SafeConversions.{
  integer, boolean, type_valid, IntType, bits8, bits64, range_check, type_overflow, saturated_cast,
}
use librtcbase.SafeConversions.Laws.{range_check_lem, saturated_cast_lem}
use librtcbase.SafeCompare.{lt_op, cmp}
use librtcbase.SafeCompare.Laws.{cmp_lem}

abbrev memory : List ℕ
memory = replicate 8 0xEE

network_order_example :
    (store little_endian 2 (host_to_network16 little_endian 0x1234) ≡ 0x12 ∷ 0x34 ∷ [])
    × (store little_endian 4 (host_to_network32 little_endian 1) ≡ 0 ∷ 0 ∷ 0 ∷ 1 ∷ [])
    × (store little_endian 8 (host_to_network64 little_endian 1) ≡ be_bytes 8 1)
    × (network_to_host16 little_endian (host_to_network16 little_endian 0x1234) ≡ 0x1234)
    × (network_to_host32 little_endian (host_to_network32 little_endian 1) ≡ 1)
    × (network_to_host64 little_endian (host_to_network64 little_endian 1) ≡ 1)
unfolding be_bytes
network_order_example =
    network_order little_endian 0x1234 1 1 (omega arith) (omega arith) (omega arith)

-- The ninth of September 2001, 01:46:40.
tm_to_seconds_lem_example : tm_to_seconds (moment 31 8 8 1 46 40) ≡ pos 1000000000
unfolding days_before_year days_before_month
tm_to_seconds_lem_example =
    tm_to_seconds_lem 31 8 8 1 46 40 (omega arith) (omega arith) (omega arith) (omega arith)
      (omega arith) (omega arith)

-- The thirtieth of February is refused.
tm_to_seconds_iff_example :
    (tm_to_seconds (moment 31 1 29 0 0 0) ≢ negsuc 0) ↔ InRange (moment 31 1 29 0 0 0)
tm_to_seconds_iff_example = tm_to_seconds_iff (moment 31 1 29 0 0 0) (omega arith)

-- Forwards over a wrap, and back before it.
abbrev wrapping : List ℕ
wrapping = 0x100000005 ∷ 0xFFFFFFFE ∷ 0x100000010 ∷ []

unwrap_all_lem_example :
    unwrap_all handler_init (map (λ t. t % 2 ^ 32) (0xFFFFFFF0 ∷ wrapping))
    ≡ map pos (0xFFFFFFF0 ∷ wrapping)
unwrap_all_lem_example = unwrap_all_lem 0xFFFFFFF0 wrapping (omega arith) (omega arith)

abbrev uint64 : IntType
uint64 = record { width = bits64; is_signed = false }

abbrev int8 : IntType
int8 = record { width = bits8; is_signed = true }

range_check_lem_example : range_check (integer int8) (integer uint64) (pos 200) ≡ type_overflow
range_check_lem_example = range_check_lem (integer int8) (integer uint64) (pos 200) (omega arith)

-- 2 as a uint8_t is found to be a bool.
two_as_bool :
    range_check boolean (integer (record { width = bits8; is_signed = false })) (pos 2) ≡ type_valid
two_as_bool =
    range_check_lem boolean (integer (record { width = bits8; is_signed = false })) (pos 2)
      (omega arith)

saturated_cast_lem_example : saturated_cast (integer int8) (integer uint64) (pos 200) ≡ pos 127
saturated_cast_lem_example =
    saturated_cast_lem (integer int8) (integer uint64) (pos 200) (omega arith)

cmp_lem_example : cmp lt_op int8 uint64 (negsuc 0) (pos 1) ≡ true
cmp_lem_example = cmp_lem lt_op int8 uint64 (negsuc 0) (pos 1) (omega arith) (omega arith)
