-- ===== src/ByteOrder/Laws/Network.antt =====
-- The conversions of src/byte_order.h, on a host of either byte order.
use librtcbase.Prelude.{
  ℕ, ◌^◌, ◌<◌, ◌≤◌, ◌≡◌, ◌∙◌, ap, sym, List, [], ◌++◌, arith, length, drop, append-nil,
}
use librtcbase.ByteOrder.{
  Host, little_endian, big_endian, be_bytes, le_bytes, be_value, le_value, store, load, set_be16,
  set_be32, set_be64, set_le16, set_le32, set_le64, get_be16, get_be32, get_be64, get_le16,
  get_le32, get_le64, host_to_network16, host_to_network32, host_to_network64, network_to_host16,
  network_to_host32, network_to_host64,
}
use librtcbase.ByteOrder.Laws.Gets.{
  get_be16_sum, get_be32_sum, get_be64_sum, get_le16_sum, get_le32_sum, get_le64_sum,
}
use librtcbase.ByteOrder.Laws.Sets.{
  set_be16_lem, set_be32_lem, set_be64_lem, set_le16_lem, set_le32_lem, set_le64_lem,
}

module _ (v : ℕ) (rest : List ℕ) where
  pub get-be_bytes16 : v < 2 ^ 16 → get_be16 (be_bytes 2 v ++ rest) ≡ v
  unfolding be_bytes
  get-be_bytes16 h = get_be16_sum _ _ _ (omega arith) (omega arith) ∙ omega arith

  pub get-le_bytes16 : v < 2 ^ 16 → get_le16 (le_bytes 2 v ++ rest) ≡ v
  unfolding le_bytes
  get-le_bytes16 h = get_le16_sum _ _ _ (omega arith) (omega arith) ∙ omega arith

  pub get-be_bytes32 : v < 2 ^ 32 → get_be32 (be_bytes 4 v ++ rest) ≡ v
  unfolding be_bytes
  get-be_bytes32 h =
      get_be32_sum _ _ _ _ _ (omega arith) (omega arith) (omega arith) (omega arith) ∙ omega arith

  pub get-le_bytes32 : v < 2 ^ 32 → get_le32 (le_bytes 4 v ++ rest) ≡ v
  unfolding le_bytes
  get-le_bytes32 h =
      get_le32_sum _ _ _ _ _ (omega arith) (omega arith) (omega arith) (omega arith) ∙ omega arith

  pub get-be_bytes64 : v < 2 ^ 64 → get_be64 (be_bytes 8 v ++ rest) ≡ v
  unfolding be_bytes
  get-be_bytes64 h =
      get_be64_sum _ _ _ _ _ _ _ _ _ (omega arith) (omega arith) (omega arith) (omega arith)
        (omega arith) (omega arith) (omega arith) (omega arith)
      ∙ omega arith

  pub get-le_bytes64 : v < 2 ^ 64 → get_le64 (le_bytes 8 v ++ rest) ≡ v
  unfolding le_bytes
  get-le_bytes64 h =
      get_le64_sum _ _ _ _ _ _ _ _ _ (omega arith) (omega arith) (omega arith) (omega arith)
        (omega arith) (omega arith) (omega arith) (omega arith)
      ∙ omega arith

-- Over a memory of at least 8 bytes every getter gives back the number that the setter of its width
-- and byte order wrote, if it fits the width.
pub get-set_inverse :
    (m : List ℕ) (a b c : ℕ)
    → 8 ≤ length m
    → a < 2 ^ 16
    → b < 2 ^ 32
    → c < 2 ^ 64
    → (get_be16 (set_be16 m a) ≡ a)
      × (get_be32 (set_be32 m b) ≡ b)
      × (get_be64 (set_be64 m c) ≡ c)
      × (get_le16 (set_le16 m a) ≡ a)
      × (get_le32 (set_le32 m b) ≡ b)
      × (get_le64 (set_le64 m c) ≡ c)
get-set_inverse m a b c fits ha hb hc = (
  ap get_be16 (set_be16_lem m a (omega arith)) ∙ get-be_bytes16 a (drop 2 m) ha,
  ap get_be32 (set_be32_lem m b (omega arith)) ∙ get-be_bytes32 b (drop 4 m) hb,
  ap get_be64 (set_be64_lem m c (omega arith)) ∙ get-be_bytes64 c (drop 8 m) hc,
  ap get_le16 (set_le16_lem m a (omega arith)) ∙ get-le_bytes16 a (drop 2 m) ha,
  ap get_le32 (set_le32_lem m b (omega arith)) ∙ get-le_bytes32 b (drop 4 m) hb,
  ap get_le64 (set_le64_lem m c (omega arith)) ∙ get-le_bytes64 c (drop 8 m) hc,
)

-- Storing what the host loads from the bytes of a number gives the bytes back.
store-load16 : (host : Host) (v : ℕ) → store host 2 (load host (be_bytes 2 v)) ≡ be_bytes 2 v
unfolding store load be_bytes le_bytes be_value le_value
store-load16 little_endian v = ground arith
store-load16 big_endian v = ground arith

store-load32 : (host : Host) (v : ℕ) → store host 4 (load host (be_bytes 4 v)) ≡ be_bytes 4 v
unfolding store load be_bytes le_bytes be_value le_value
store-load32 little_endian v = ground arith
store-load32 big_endian v = ground arith

store-load64 : (host : Host) (v : ℕ) → store host 8 (load host (be_bytes 8 v)) ≡ be_bytes 8 v
unfolding store load be_bytes le_bytes be_value le_value
store-load64 little_endian v = ground arith
store-load64 big_endian v = ground arith

pub store-host_to_network16 :
    (host : Host) (v : ℕ) → store host 2 (host_to_network16 host v) ≡ be_bytes 2 v
unfolding host_to_network16
store-host_to_network16 host v =
    ap (λ t. store host 2 (load host t)) (set_be16_lem _ v (omega arith) ∙ append-nil _)
    ∙ store-load16 host v

pub store-host_to_network32 :
    (host : Host) (v : ℕ) → store host 4 (host_to_network32 host v) ≡ be_bytes 4 v
unfolding host_to_network32
store-host_to_network32 host v =
    ap (λ t. store host 4 (load host t)) (set_be32_lem _ v (omega arith) ∙ append-nil _)
    ∙ store-load32 host v

pub store-host_to_network64 :
    (host : Host) (v : ℕ) → store host 8 (host_to_network64 host v) ≡ be_bytes 8 v
unfolding host_to_network64
store-host_to_network64 host v =
    ap (λ t. store host 8 (load host t)) (set_be64_lem _ v (omega arith) ∙ append-nil _)
    ∙ store-load64 host v

-- On a host of either byte order, a number of 16, 32 or 64 bits converted to network order is
-- stored most significant byte first, and the conversion back gives the number.
pub network_order :
    (host : Host) (a b c : ℕ)
    → a < 2 ^ 16
    → b < 2 ^ 32
    → c < 2 ^ 64
    → (store host 2 (host_to_network16 host a) ≡ be_bytes 2 a)
      × (store host 4 (host_to_network32 host b) ≡ be_bytes 4 b)
      × (store host 8 (host_to_network64 host c) ≡ be_bytes 8 c)
      × (network_to_host16 host (host_to_network16 host a) ≡ a)
      × (network_to_host32 host (host_to_network32 host b) ≡ b)
      × (network_to_host64 host (host_to_network64 host c) ≡ c)
unfolding network_to_host16 network_to_host32 network_to_host64
network_order host a b c ha hb hc = (
  store-host_to_network16 host a,
  store-host_to_network32 host b,
  store-host_to_network64 host c,
  ap get_be16 (store-host_to_network16 host a ∙ sym (append-nil _)) ∙ get-be_bytes16 a [] ha,
  ap get_be32 (store-host_to_network32 host b ∙ sym (append-nil _)) ∙ get-be_bytes32 b [] hb,
  ap get_be64 (store-host_to_network64 host c ∙ sym (append-nil _)) ∙ get-be_bytes64 c [] hc,
)

-- A host reads its own representation of a number as the number.
pub load-store16 : (host : Host) (v : ℕ) → v < 2 ^ 16 → load host (store host 2 v) ≡ v
unfolding store load
load-store16 little_endian v h = omega arith
load-store16 big_endian v h = omega arith

pub load-store24 : (host : Host) (v : ℕ) → v < 2 ^ 24 → load host (store host 3 v) ≡ v
unfolding store load
load-store24 little_endian v h = omega arith
load-store24 big_endian v h = omega arith

pub load-store32 : (host : Host) (v : ℕ) → v < 2 ^ 32 → load host (store host 4 v) ≡ v
unfolding store load
load-store32 little_endian v h = omega arith
load-store32 big_endian v h = omega arith

pub load-store64 : (host : Host) (v : ℕ) → v < 2 ^ 64 → load host (store host 8 v) ≡ v
unfolding store load
load-store64 little_endian v h = omega arith
load-store64 big_endian v h = omega arith

-- A host that loads the bytes of a number in network order and converts gets the number.
pub network_to_host16-load :
    (host : Host) (v : ℕ) → v < 2 ^ 16 → network_to_host16 host (load host (be_bytes 2 v)) ≡ v
unfolding network_to_host16
network_to_host16-load host v h =
    ap get_be16 (store-load16 host v ∙ sym (append-nil _)) ∙ get-be_bytes16 v [] h

pub network_to_host32-load :
    (host : Host) (v : ℕ) → v < 2 ^ 32 → network_to_host32 host (load host (be_bytes 4 v)) ≡ v
unfolding network_to_host32
network_to_host32-load host v h =
    ap get_be32 (store-load32 host v ∙ sym (append-nil _)) ∙ get-be_bytes32 v [] h

pub network_to_host64-load :
    (host : Host) (v : ℕ) → v < 2 ^ 64 → network_to_host64 host (load host (be_bytes 8 v)) ≡ v
unfolding network_to_host64
network_to_host64-load host v h =
    ap get_be64 (store-load64 host v ∙ sym (append-nil _)) ∙ get-be_bytes64 v [] h
