-- ===== src/MessageDigest.antt =====
-- src/message_digest.cpp: digests and HMAC over the interface MessageDigest of src/message_digest.h.
pub mod Hmac
use librtcbase.Prelude.{
  ℕ, ◌-◌, ◌≤◌, ◌<◌, bit_xor, Bool, Option, none, some, List, [], ◌∷◌, ◌++◌, ltb, if◌then◌else◌,
  length, map, replicate, ◌≡◌,
}

-- A digest with its state. `finish` writes nothing and returns 0 if there is no room for the digest,
-- which is `none`.
pub record MessageDigest (State : Type 0) : Type 0 where
  pub size : ℕ
  pub update : List ℕ → State → State
  pub finish : ℕ → State → Option (List ℕ) × State

-- What the interface promises: a state has taken in some bytes; update takes in more; finish gives
-- the hash of them if there is room and begins again, and does nothing if there is none.
pub record IsDigest {State : Type 0} (d : MessageDigest State) : Type 1 where
  pub Holds : State → List ℕ → Type 0
  pub hash : List ℕ → List ℕ
  pub length-hash : (xs : List ℕ) → length (hash xs) ≡ d.size
  pub update-Holds : (s : State) (xs ys : List ℕ) → Holds s xs → Holds (d.update ys s) (xs ++ ys)
  pub finish-hash :
      (n : ℕ) (s : State) (xs : List ℕ)
      → Holds s xs
      → d.size ≤ n
      → (d.finish n s).0 ≡ some (hash xs)
  pub finish-Holds :
      (n : ℕ) (s : State) (xs : List ℕ) → Holds s xs → d.size ≤ n → Holds (d.finish n s).1 []
  pub finish_short : (n : ℕ) (s : State) → n < d.size → d.finish n s ≡ (none, s)

abbrev pub k_block_size : ℕ
k_block_size = 64

module _ {State : Type 0} (d : MessageDigest State) where
  unfoldable pub compute_digest : List ℕ → ℕ → State → Option (List ℕ) × State
  compute_digest input out_len s = d.finish out_len (d.update input s)

  -- What finish leaves in a buffer of zeros.
  abbrev pub written : Option (List ℕ) → List ℕ
  written none = replicate d.size 0
  written (some digest) = digest

  -- The key in a block, and the digest after it.
  unfoldable pub block_key : List ℕ → State → List ℕ × State
  unfolding compute_digest
  block_key key s =
      let (digest, s1) = compute_digest key k_block_size s in
      if ltb k_block_size (length key)
      then (written digest ++ replicate (k_block_size - d.size) 0, s1)
      else (key ++ replicate (k_block_size - length key) 0, s)

  -- The function for a digest; 0 is `none`.
  unfoldable pub compute_hmac : List ℕ → List ℕ → ℕ → State → Option (List ℕ) × State
  unfolding block_key
  compute_hmac key input out_len s =
      let (new_key, s1) = block_key key s in
      let o_pad = map (bit_xor 92) new_key in
      let i_pad = map (bit_xor 54) new_key in
      let (inner, s2) = d.finish d.size (d.update input (d.update i_pad s1)) in
      if ltb 32 d.size
      then (none, s)
      else d.finish out_len (d.update (written inner) (d.update o_pad s2))
