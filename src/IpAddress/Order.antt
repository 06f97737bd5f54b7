-- ===== src/IpAddress/Order.antt =====
-- The comparisons of addresses, and the way between the two families.
use librtcbase.Prelude.{
  memcmp_eq, memcmp_lt, ℕ, ◌+◌, ◌*◌, ◌^◌, ◌≤◌, ◌<◌, ◌≡◌, ◌↔◌, ◌⊎◌, refl, ap, ◌∙◌, true, List, [],
  ◌∷◌, length, take_all_le, ltb, ◌==◌, arith, AllBytes,
}
use librtcbase.ByteOrder.{Host, be_bytes, be_value, load, network_to_host32}
use librtcbase.ByteOrder.Laws.Network.{network_to_host32-load}
use librtcbase.IpAddress.{
  IpAddress, unspec, inet, inet6, equals, less, to_host_order, normalized, as_ipv6_address,
  ip_is_v4_mapped, ip_is_helper, is_private_v4,
}

-- An address of a family has the bytes of that family.
abbrev pub IsAddress : IpAddress → Type 0
IsAddress unspec = Unit {0}
IsAddress (inet bytes) = (length bytes ≡ 4) × AllBytes bytes
IsAddress (inet6 bytes) = (length bytes ≡ 16) × AllBytes bytes

-- The number that an address is, the unspecified one before all IPv4 and these before all IPv6.
pub rank : IpAddress → ℕ
unfolding be_value
rank unspec = 0
rank (inet bytes) = 1 + be_value 0 bytes
rank (inet6 bytes) = 1 + 2 ^ 32 + be_value 0 bytes

be_value-lt :
    (xs ys : List ℕ) (g h : ℕ)
    → length xs ≡ length ys
    → AllBytes xs
    → g < h
    → be_value g xs < be_value h ys
unfolding be_value
be_value-lt [] [] g h len bx lt = lt
be_value-lt [] (y ∷ ys) g h len bx lt = absurd (omega (arith, len))
be_value-lt (x ∷ xs) [] g h len bx lt = absurd (omega (arith, len))
be_value-lt (x ∷ xs) (y ∷ ys) g h len bx lt =
    be_value-lt xs ys (g * 256 + x) (h * 256 + y) (omega (arith, len)) bx.1 (omega (arith, bx))

memcmp_lt_lem :
    (xs ys : List ℕ) (g : ℕ)
    → length xs ≡ length ys
    → AllBytes xs
    → AllBytes ys
    → memcmp_lt xs ys ≡ ltb (be_value g xs) (be_value g ys)
unfolding memcmp_lt be_value
memcmp_lt_lem [] [] g len bx by = ground arith
memcmp_lt_lem [] (y ∷ ys) g len bx by = absurd (omega (arith, len))
memcmp_lt_lem (x ∷ xs) [] g len bx by = absurd (omega (arith, len))
memcmp_lt_lem (x ∷ xs) (y ∷ ys) g len bx by = ground (
  arith,
  memcmp_lt_lem xs ys (g * 256 + x) (omega (arith, len)) bx.1 by.1,
  be_value-lt xs ys (g * 256 + x) (g * 256 + y) (omega (arith, len)) bx.1,
  be_value-lt ys xs (g * 256 + y) (g * 256 + x) (omega (arith, len)) by.1,
)

memcmp_eq_lem :
    (xs ys : List ℕ) (g : ℕ)
    → length xs ≡ length ys
    → AllBytes xs
    → AllBytes ys
    → memcmp_eq xs ys ≡ (be_value g xs == be_value g ys)
unfolding memcmp_eq be_value
memcmp_eq_lem [] [] g len bx by = ground arith
memcmp_eq_lem [] (y ∷ ys) g len bx by = absurd (omega (arith, len))
memcmp_eq_lem (x ∷ xs) [] g len bx by = absurd (omega (arith, len))
memcmp_eq_lem (x ∷ xs) (y ∷ ys) g len bx by = ground (
  arith,
  memcmp_eq_lem xs ys (g * 256 + x) (omega (arith, len)) bx.1 by.1,
  be_value-lt xs ys (g * 256 + x) (g * 256 + y) (omega (arith, len)) bx.1,
  be_value-lt ys xs (g * 256 + y) (g * 256 + x) (omega (arith, len)) by.1,
)

-- Four bytes, as the host reads and converts them.
to_host_order_lem :
    (host : Host) (bytes : List ℕ)
    → length bytes ≡ 4
    → AllBytes bytes
    → to_host_order host bytes ≡ be_value 0 bytes
to_host_order_lem host [] len all = absurd (omega (arith, len))
to_host_order_lem host (a ∷ []) len all = absurd (omega (arith, len))
to_host_order_lem host (a ∷ b ∷ []) len all = absurd (omega (arith, len))
to_host_order_lem host (a ∷ b ∷ c ∷ []) len all = absurd (omega (arith, len))
to_host_order_lem host (a ∷ b ∷ c ∷ d ∷ e ∷ rest) len all = absurd (omega (arith, len))
to_host_order_lem host (a ∷ b ∷ c ∷ d ∷ []) len all =
    ap (λ t. network_to_host32 host (load host t)) {y = be_bytes 4 value}
      (unfold be_bytes be_value in ground (arith, all))
    ∙ network_to_host32-load host value (unfold be_value in omega (arith, all))
  where
    value : ℕ
    value = be_value 0 (a ∷ b ∷ c ∷ d ∷ [])

be_value-bound : (bytes : List ℕ) → length bytes ≡ 4 → AllBytes bytes → be_value 0 bytes < 2 ^ 32
unfolding be_value
be_value-bound [] len all = omega arith
be_value-bound (a ∷ []) len all = absurd (omega (arith, len))
be_value-bound (a ∷ b ∷ []) len all = absurd (omega (arith, len))
be_value-bound (a ∷ b ∷ c ∷ []) len all = absurd (omega (arith, len))
be_value-bound (a ∷ b ∷ c ∷ d ∷ e ∷ rest) len all = absurd (omega (arith, len))
be_value-bound (a ∷ b ∷ c ∷ d ∷ []) len all = omega (arith, all)

-- On well-formed addresses and a host of either byte order, `==` is equality and `<` the order of
-- the ranks, where the unspecified address is 0, an IPv4 address is 1 more than its number, and an
-- IPv6 address is 2 ^ 32 + 1 more than its number.
pub order_lem :
    (host : Host) (a b : IpAddress)
    → IsAddress a
    → IsAddress b
    → (equals a b ≡ (rank a == rank b)) × (less host a b ≡ ltb (rank a) (rank b))
unfolding equals less rank
order_lem host unspec unspec ha hb = ground arith
order_lem host unspec (inet b) ha hb = ground arith
order_lem host unspec (inet6 b) ha hb = ground arith
order_lem host (inet a) unspec ha hb = ground arith
order_lem host (inet a) (inet b) ha hb = ground (
  arith,
  memcmp_eq_lem a b 0 (omega (arith, ha, hb)) ha.1 hb.1,
  to_host_order_lem host a ha.0 ha.1,
  to_host_order_lem host b hb.0 hb.1,
)
order_lem host (inet a) (inet6 b) ha hb = ground (arith, be_value-bound a ha.0 ha.1)
order_lem host (inet6 a) unspec ha hb = ground arith
order_lem host (inet6 a) (inet b) ha hb = ground (arith, be_value-bound b hb.0 hb.1)
order_lem host (inet6 a) (inet6 b) ha hb = ground (
  arith,
  memcmp_eq_lem a b 0 (omega (arith, ha, hb)) ha.1 hb.1,
  memcmp_lt_lem a b 0 (omega (arith, ha, hb)) ha.1 hb.1,
)

-- An IPv4 address of four bytes, mapped to IPv6, is recognised as mapped, and normalizing gives it
-- back.
pub normalized-as_ipv6_address :
    (bytes : List ℕ)
    → length bytes ≡ 4
    → (ip_is_v4_mapped (as_ipv6_address (inet bytes)) ≡ true)
      × (normalized (as_ipv6_address (inet bytes)) ≡ inet bytes)
unfolding normalized as_ipv6_address ip_is_v4_mapped ip_is_helper memcmp_eq
normalized-as_ipv6_address bytes len = (refl, ap inet (take_all_le bytes 4 (omega (arith, len))))

-- A 32-bit IPv4 address, in host order, counts as private exactly when it is in 10/8, 127/8,
-- 169.254/16, 172.16/12 or 192.168/16.
pub is_private_v4_iff :
    (ip : ℕ)
    → ip < 2 ^ 32
    → (is_private_v4 ip ≡ true)
      ↔ ((0x0A000000 ≤ ip) × (ip ≤ 0x0AFFFFFF))
        ⊎ ((0x7F000000 ≤ ip) × (ip ≤ 0x7FFFFFFF))
        ⊎ ((0xA9FE0000 ≤ ip) × (ip ≤ 0xA9FEFFFF))
        ⊎ ((0xAC100000 ≤ ip) × (ip ≤ 0xAC1FFFFF))
        ⊎ ((0xC0A80000 ≤ ip) × (ip ≤ 0xC0A8FFFF))
unfolding is_private_v4
is_private_v4_iff ip h = ground arith
