-- ===== src/MessageDigest/Hmac.antt =====
-- compute_hmac is the HMAC of RFC 2104.
use librtcbase.Prelude.{
  ℕ, ◌-◌, ◌≤◌, bit_xor, false, some, List, [], ◌++◌, ltb, if◌then◌else◌, length, map, replicate,
  ◌≡◌, refl, arith, Bool-cases, inl, inr,
}
use librtcbase.MessageDigest.{MessageDigest, IsDigest, compute_digest, block_key, compute_hmac}

module _ {State : Type 0} (d : MessageDigest State) (laws : IsDigest d) where
  open laws use {Holds, hash, length-hash, update-Holds, finish-hash, finish-Holds, finish_short}

  -- The key, or its hash if it is longer than a block, with zeros up to a block.
  abbrev pub padded_key : List ℕ → List ℕ
  padded_key key =
      let k = if ltb 64 (length key) then hash key else key in k ++ replicate (64 - length k) 0

  -- H(K XOR opad, H(K XOR ipad, text)).
  abbrev pub hmac : List ℕ → List ℕ → List ℕ
  hmac key text =
      hash (map (bit_xor 92) (padded_key key) ++ hash (map (bit_xor 54) (padded_key key) ++ text))

  block_key_lem :
      (key : List ℕ) (s : State)
      → d.size ≤ 32
      → Holds s []
      → ((block_key d key s).0 ≡ padded_key key) × Holds (block_key d key s).1 []
  unfolding block_key compute_digest
  block_key_lem key s p h =
      let taken = update-Holds s [] key h in
      let digest = finish-hash 64 (d.update key s) key taken (omega (arith, p)) in
      let begun = finish-Holds 64 (d.update key s) key taken (omega (arith, p)) in
      elim (Bool-cases (ltb 64 (length key))) [
        | inl q ↦ (rw (q, digest, length-hash key) refl, rw (q) begun)
        | inr q ↦ (rw (q) refl, rw (q) h)
      ]

  -- For a digest that keeps the promises of its interface, has taken in nothing, has a size of at
  -- most 32 bytes and room for its result: compute_hmac gives the HMAC of RFC 2104 of the key and
  -- the text, for keys of any length, and leaves the digest as it was at the start.
  pub compute_hmac_lem :
      (key text : List ℕ) (out_len : ℕ) (s : State)
      → d.size ≤ 32
      → d.size ≤ out_len
      → Holds s []
      → ((compute_hmac d key text out_len s).0 ≡ some (hmac key text))
        × Holds (compute_hmac d key text out_len s).1 []
  unfolding compute_hmac
  compute_hmac_lem key text out_len s p q h =
      let (k, h1) = block_key_lem key s p h in
      let s1 = (block_key d key s).1 in
      let i_pad = map (bit_xor 54) (padded_key key) in
      let o_pad = map (bit_xor 92) (padded_key key) in
      let taken = update-Holds (d.update i_pad s1) i_pad text (update-Holds s1 [] i_pad h1) in
      let inner =
        finish-hash d.size (d.update text (d.update i_pad s1)) (i_pad ++ text) taken
          (omega arith) in
      let s2 = (d.finish d.size (d.update text (d.update i_pad s1))).1 in
      let h2 =
        finish-Holds d.size (d.update text (d.update i_pad s1)) (i_pad ++ text) taken
          (omega arith) in
      let digest = hash (i_pad ++ text) in
      let outer = update-Holds (d.update o_pad s2) o_pad digest (update-Holds s2 [] o_pad h2) in
      let s3 = d.update digest (d.update o_pad s2) in
      let small : ltb 32 d.size ≡ false = ground (arith, p) in
      (
        rw (small, k, inner) (finish-hash out_len s3 (o_pad ++ digest) outer q),
        rw (small, k, inner) (finish-Holds out_len s3 (o_pad ++ digest) outer q),
      )
