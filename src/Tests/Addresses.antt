-- ===== src/Tests/Addresses.antt =====
-- Runs of src/ipaddress.cpp.
use librtcbase.Prelude.{ℕ, ◌≡◌, List, [], ◌∷◌, ltb, ◌==◌, arith}
use librtcbase.Prelude.Int.{pos}
use librtcbase.ByteOrder.{little_endian, big_endian}
use librtcbase.IpAddress.{inet, equals, less, truncate_ip, count_ip_mask_bits}
use librtcbase.IpAddress.Order.{rank, order_lem}
use librtcbase.IpAddress.Prefix.{all_ones4, all_ones6, count_ip_mask_bits-truncate_ip}

abbrev home : List ℕ
home = 192 ∷ 168 ∷ 0 ∷ 1 ∷ []

abbrev router : List ℕ
router = 192 ∷ 168 ∷ 0 ∷ 254 ∷ []

order_lem_example :
    (equals (inet home) (inet router) ≡ (rank (inet home) == rank (inet router)))
    × (less little_endian (inet home) (inet router) ≡ ltb (rank (inet home)) (rank (inet router)))
order_lem_example = order_lem little_endian (inet home) (inet router) (omega arith) (omega arith)

count_ip_mask_bits-truncate_ip_example :
    (count_ip_mask_bits big_endian (truncate_ip big_endian all_ones4 (pos 20)) ≡ 20)
    × (count_ip_mask_bits big_endian (truncate_ip big_endian all_ones6 (pos 77)) ≡ 77)
count_ip_mask_bits-truncate_ip_example =
    count_ip_mask_bits-truncate_ip big_endian 20 77 (omega arith) (omega arith)
