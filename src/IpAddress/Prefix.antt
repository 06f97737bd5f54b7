-- ===== src/IpAddress/Prefix.antt =====
-- Masks made by truncation, and the count of their bits.
use librtcbase.Prelude.{ℕ, ◌≤◌, ◌≡◌, refl, true, replicate, ◌==◌, arith}
use librtcbase.Prelude.Bits.{every_below, eq_by_table}
use librtcbase.Prelude.Int.{pos}
use librtcbase.ByteOrder.{
  Host, little_endian, big_endian, load, store, host_to_network32, network_to_host32, le_bytes,
  be_bytes, le_value, be_value, set_be32, get_be32, get8, set8,
}
use librtcbase.IpAddress.{
  IpAddress, inet, inet6, truncate_ip, truncate_v6, truncate_word, count_ip_mask_bits, count_word,
  count_zeroes, first_partial,
}

abbrev pub all_ones4 : IpAddress
all_ones4 = inet (replicate 4 0xFF)

abbrev pub all_ones6 : IpAddress
all_ones6 = inet6 (replicate 16 0xFF)

counted : Host → IpAddress → ℕ → ℕ
counted host ones n = count_ip_mask_bits host (truncate_ip host ones (pos n))

-- Every length is checked by evaluation.
every_length :
    (host : Host)
    → (every_below 33 (λ n. counted host all_ones4 n == n) ≡ true)
      × (every_below 129 (λ n. counted host all_ones6 n == n) ≡ true)
unfolding every_below counted truncate_ip truncate_v6 truncate_word count_ip_mask_bits count_word
    count_zeroes first_partial load store host_to_network32 network_to_host32 le_bytes be_bytes
    le_value be_value set_be32 get_be32 get8 set8
every_length little_endian = (refl, refl)
every_length big_endian = (refl, refl)

-- On a host of either byte order, the address of all ones truncated to at most 32 bits in IPv4, or
-- to at most 128 in IPv6, has as many mask bits counted as it was truncated to.
pub count_ip_mask_bits-truncate_ip :
    (host : Host) (m n : ℕ)
    → m ≤ 32
    → n ≤ 128
    → (count_ip_mask_bits host (truncate_ip host all_ones4 (pos m)) ≡ m)
      × (count_ip_mask_bits host (truncate_ip host all_ones6 (pos n)) ≡ n)
unfolding counted
count_ip_mask_bits-truncate_ip host m n hm hn = (
  eq_by_table 33 (counted host all_ones4) (λ k. k) (every_length host).0 m (omega arith),
  eq_by_table 129 (counted host all_ones6) (λ k. k) (every_length host).1 n (omega arith),
)
