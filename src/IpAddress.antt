-- ===== src/IpAddress.antt =====
-- src/ipaddress.cpp: addresses, their order and classification, truncation to a prefix, and the
-- length of a mask. An in_addr and an in6_addr are their bytes in memory, in network order. Text
-- (inet_ntop, inet_pton, streams, DNS) is not modelled.
pub mod Order
pub mod Prefix
use librtcbase.Prelude.{
  memcmp_eq, memcmp_lt, ℕ, zero, suc, ◌+◌, ◌-◌, ◌*◌, ◌/◌, ◌%◌, ◌^◌, bit_and, bit_or, Bool, true,
  false, not, ◌&&◌, ◌||◌, List, [], ◌∷◌, ◌++◌, take, drop, replicate, get_or, slice, ltb, leb, ◌==◌,
  if◌then◌else◌, u32, ◌<<<◌, ◌>>>◌,
}
use librtcbase.Prelude.Int.{ℤ, pos, negsuc}
use librtcbase.ByteOrder.{Host, store, load, host_to_network32, network_to_host32}

-- `_family` with the member of the union that it selects.
pub data IpAddress : Type 0 where
  unspec : IpAddress
  inet : List ℕ → IpAddress
  inet6 : List ℕ → IpAddress

-- The union is cleared before an in_addr is put into it.
abbrev pub ipv6_address : IpAddress → List ℕ
ipv6_address unspec = replicate 16 0
ipv6_address (inet bytes) = bytes ++ replicate 12 0
ipv6_address (inet6 bytes) = bytes

abbrev pub of_host_order : Host → ℕ → IpAddress
of_host_order host n = inet (store host 4 (host_to_network32 host n))

abbrev pub to_host_order : Host → List ℕ → ℕ
to_host_order host bytes = network_to_host32 host (load host bytes)

pub equals : IpAddress → IpAddress → Bool
equals (inet a) (inet b) = memcmp_eq a b
equals (inet6 a) (inet6 b) = memcmp_eq a b
equals unspec unspec = true
equals _ _ = false

pub less : Host → IpAddress → IpAddress → Bool
less host unspec unspec = false
less host unspec _ = true
less host (inet a) (inet6 b) = true
less host (inet a) (inet b) = ltb (to_host_order host a) (to_host_order host b)
less host (inet6 a) (inet6 b) = memcmp_lt a b
less host _ _ = false

pub greater : Host → IpAddress → IpAddress → Bool
greater host a b = not (equals a b) && not (less host a b)

pub address_size : IpAddress → ℕ
address_size unspec = 0
address_size (inet bytes) = 4
address_size (inet6 bytes) = 16

-- The prefixes: the bytes that differ from 0, filled up.
abbrev pub filled : List ℕ → List ℕ
filled bytes = take 16 (bytes ++ replicate 16 0)

abbrev pub v4_mapped_prefix : List ℕ
v4_mapped_prefix = filled (replicate 10 0 ++ (0xFF ∷ 0xFF ∷ []))

abbrev pub prefix_6to4 : List ℕ
prefix_6to4 = filled (0x20 ∷ 0x02 ∷ [])

abbrev pub teredo_prefix : List ℕ
teredo_prefix = filled (0x20 ∷ 0x01 ∷ [])

abbrev pub v4_compatibility_prefix : List ℕ
v4_compatibility_prefix = filled []

abbrev pub prefix_6bone : List ℕ
prefix_6bone = filled (0x3f ∷ 0xfe ∷ [])

abbrev pub in6addr_loopback : List ℕ
in6addr_loopback = replicate 15 0 ++ (1 ∷ [])

pub ip_is_helper : IpAddress → List ℕ → ℕ → Bool
ip_is_helper ip tomatch length =
    memcmp_eq (take (length >>> 3) (ipv6_address ip)) (take (length >>> 3) tomatch)

abbrev pub byte_of : IpAddress → ℕ → ℕ
byte_of ip i = get_or (ipv6_address ip) i 0

pub ip_is_v4_mapped : IpAddress → Bool
unfolding ip_is_helper
ip_is_v4_mapped ip = ip_is_helper ip v4_mapped_prefix 96

abbrev pub extract_mapped_address : List ℕ → List ℕ
extract_mapped_address bytes = slice bytes 12 4

pub normalized : IpAddress → IpAddress
normalized (inet6 bytes) =
    if ip_is_v4_mapped (inet6 bytes) then inet (extract_mapped_address bytes) else inet6 bytes
normalized ip = ip

pub as_ipv6_address : IpAddress → IpAddress
as_ipv6_address (inet bytes) = inet6 (take 12 v4_mapped_prefix ++ bytes)
as_ipv6_address ip = ip

pub is_private_v4 : ℕ → Bool
is_private_v4 ip =
    (ip >>> 24 == 127)
    || (ip >>> 24 == 10)
    || (ip >>> 20 == bit_or (172 <<< 4) 1)
    || (ip >>> 16 == bit_or (192 <<< 8) 168)
    || (ip >>> 16 == bit_or (169 <<< 8) 254)

pub ip_is_any : Host → IpAddress → Bool
unfolding equals
ip_is_any host unspec = false
ip_is_any host (inet bytes) = equals (inet bytes) (of_host_order host 0)
ip_is_any host (inet6 bytes) =
    equals (inet6 bytes) (inet6 (replicate 16 0)) || equals (inet6 bytes) (inet6 v4_mapped_prefix)

pub ip_is_loopback : Host → IpAddress → Bool
unfolding equals
ip_is_loopback host unspec = false
ip_is_loopback host (inet bytes) = equals (inet bytes) (of_host_order host 0x7F000001)
ip_is_loopback host (inet6 bytes) = equals (inet6 bytes) (inet6 in6addr_loopback)

pub ip_is_link_local : IpAddress → Bool
ip_is_link_local ip = (byte_of ip 0 == 0xFE) && (byte_of ip 1 == 0x80)

pub ip_is_private : Host → IpAddress → Bool
unfolding is_private_v4 ip_is_link_local ip_is_loopback
ip_is_private host unspec = false
ip_is_private host (inet bytes) = is_private_v4 (to_host_order host bytes)
ip_is_private host (inet6 bytes) =
    ip_is_link_local (inet6 bytes) || ip_is_loopback host (inet6 bytes)

pub ip_is_mac_based : IpAddress → Bool
ip_is_mac_based ip =
    not (bit_and (byte_of ip 8) 0x02 == 0) && (byte_of ip 11 == 0xFF) && (byte_of ip 12 == 0xFE)

pub ip_is_site_local : IpAddress → Bool
ip_is_site_local ip = (byte_of ip 0 == 0xFE) && (bit_and (byte_of ip 1) 0xC0 == 0xC0)

pub ip_is_ula : IpAddress → Bool
ip_is_ula ip = bit_and (byte_of ip 0) 0xFE == 0xFC

pub ip_is_6bone : IpAddress → Bool
unfolding ip_is_helper
ip_is_6bone ip = ip_is_helper ip prefix_6bone 16

pub ip_is_6to4 : IpAddress → Bool
unfolding ip_is_helper
ip_is_6to4 ip = ip_is_helper ip prefix_6to4 16

pub ip_is_teredo : IpAddress → Bool
unfolding ip_is_helper
ip_is_teredo ip = ip_is_helper ip teredo_prefix 32

pub ip_is_v4_compatibility : IpAddress → Bool
unfolding ip_is_helper
ip_is_v4_compatibility ip = ip_is_helper ip v4_compatibility_prefix 96

abbrev pub ip_is_unspec : IpAddress → Bool
ip_is_unspec unspec = true
ip_is_unspec _ = false

pub ip_address_precedence : Host → IpAddress → ℕ
unfolding ip_is_loopback ip_is_ula ip_is_v4_mapped ip_is_6bone ip_is_6to4 ip_is_teredo
    ip_is_v4_compatibility ip_is_site_local
ip_address_precedence host unspec = 0
ip_address_precedence host (inet bytes) = 30
ip_address_precedence host (inet6 bytes) =
    let ip = inet6 bytes in
    if ip_is_loopback host ip
    then 60
    else if ip_is_ula ip
    then 50
    else if ip_is_v4_mapped ip
    then 30
    else if ip_is_6to4 ip
    then 20
    else if ip_is_teredo ip
    then 10
    else if ip_is_v4_compatibility ip || ip_is_site_local ip || ip_is_6bone ip
    then 1
    else 40

-- `0xFFFFFFFF << n`, cut to 32 bits.
abbrev pub mask_of : ℕ → ℕ
mask_of n = u32 (0xFFFFFFFF <<< n)

-- One of the four words, number `i`, in the loop over the words of an IPv6 address.
pub truncate_word : Host → ℕ → ℕ → ℕ → List ℕ → List ℕ
truncate_word host position inner_mask i word =
    if i == position
    then store host 4 (host_to_network32 host (bit_and (to_host_order host word) inner_mask))
    else if ltb position i
    then replicate 4 0
    else word

pub truncate_v6 : Host → List ℕ → ℕ → List ℕ
unfolding truncate_word
truncate_v6 host bytes length =
    let position = length / 32 in
    let inner_mask = mask_of (32 - (length - position * 32)) in
    truncate_word host position inner_mask 0 (slice bytes 0 4)
    ++ truncate_word host position inner_mask 1 (slice bytes 4 4)
    ++ truncate_word host position inner_mask 2 (slice bytes 8 4)
    ++ truncate_word host position inner_mask 3 (slice bytes 12 4)

pub truncate_ip : Host → IpAddress → ℤ → IpAddress
unfolding truncate_v6
truncate_ip host ip (negsuc n) = unspec
truncate_ip host unspec (pos length) = unspec
truncate_ip host (inet bytes) (pos length) =
    if ltb 31 length
    then inet bytes
    else if length == 0
    then of_host_order host 0
    else inet (
        store host 4
          (host_to_network32 host (bit_and (to_host_order host bytes) (mask_of (32 - length)))))
truncate_ip host (inet6 bytes) (pos length) =
    if ltb 127 length
    then inet6 bytes
    else if length == 0
    then inet6 (replicate 16 0)
    else inet6 (truncate_v6 host bytes length)

-- The index of the first word, from `i` on, that is not all ones, with `left` words to go.
unfoldable pub first_partial : Host → ℕ → ℕ → List ℕ → ℕ
first_partial host zero i bytes = i
first_partial host (suc left) i bytes =
    let rest = first_partial host left (i + 1) bytes in
    if load host (slice bytes (4 * i) 4) == 0xFFFFFFFF then rest else i

-- The zeros below the lowest set bit of a word.
pub count_zeroes : ℕ → ℕ
count_zeroes word =
    let lowest = bit_and word (u32 (0xFFFFFFFF - word + 1)) in
    let drop_if = λ (mask by : ℕ). if bit_and lowest mask == 0 then 0 else by in
    32
    - (if lowest == 0 then 0 else 1)
    - drop_if 0x0000FFFF 16
    - drop_if 0x00FF00FF 8
    - drop_if 0x0F0F0F0F 4
    - drop_if 0x33333333 2
    - drop_if 0x55555555 1

-- The end of the count, from the word to count and the bits before it.
pub count_word : ℕ → ℕ → ℕ
unfolding count_zeroes
count_word bits word = if word == 0 then bits else bits + (32 - count_zeroes word)

pub count_ip_mask_bits : Host → IpAddress → ℕ
unfolding count_word first_partial
count_ip_mask_bits host unspec = 0
count_ip_mask_bits host (inet bytes) = count_word 0 (to_host_order host bytes)
count_ip_mask_bits host (inet6 bytes) =
    let i = first_partial host 4 0 bytes in
    count_word (i * 32) (if ltb i 4 then to_host_order host (slice bytes (4 * i) 4) else 0)
