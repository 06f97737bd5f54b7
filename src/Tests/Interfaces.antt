-- ===== src/Tests/Interfaces.antt =====
-- HMAC and write_all with a small digest and a small stream, and two optionals.
use librtcbase.Prelude.{
  ℕ, ◌+◌, ◌%◌, min, true, false, some, none, Option, List, [], ◌∷◌, ◌++◌, ltb, if◌then◌else◌,
  length, take, ◌≡◌, refl, arith, ap, ◌==◌, Bool-cases, inl, inr,
}
use librtcbase.MessageDigest.{MessageDigest, IsDigest, compute_hmac}
use librtcbase.MessageDigest.Hmac.{hmac, compute_hmac_lem}
use librtcbase.Optional.{assign, move_assign, swap, equals}
use librtcbase.Optional.Lifetime.{optional_of, moved_from, same_option, optionals_lem}
use librtcbase.Streams.{StreamResult, sr_success, sr_block, is_success, write_all, write_loop}
use librtcbase.Streams.WriteAll.{IsStream, write_all_lem}

abbrev sum : List ℕ → ℕ
sum [] = 0
sum (x ∷ xs) = x + sum xs

-- The sum and the length of the bytes.
abbrev checksum : List ℕ → List ℕ
checksum xs = (sum xs % 256) ∷ (length xs % 256) ∷ []

abbrev small_digest : MessageDigest (List ℕ)
small_digest = record {
  size = 2;
  update = λ xs s. s ++ xs;
  finish = λ n s. if ltb n 2 then (none, s) else (some (checksum s), []);
}

abbrev small_laws : IsDigest small_digest
small_laws = record {
  Holds = λ s xs. s ≡ xs;
  hash = checksum;
  length-hash = λ xs. refl;
  update-Holds = λ s xs ys h. ap (λ z. z ++ ys) h;
  finish-hash = λ n s xs h p.
      let e : ltb n 2 ≡ false = ground (arith, p) in rw (e) (ap (λ z. some (checksum z)) h);
  finish-Holds = λ n s xs h p. let e : ltb n 2 ≡ false = ground (arith, p) in rw (e) refl;
  finish_short = λ n s p. let e : ltb n 2 ≡ true = ground (arith, p) in rw (e) refl;
}

compute_hmac_lem_example :
    ((compute_hmac small_digest (1 ∷ 2 ∷ []) (3 ∷ []) 4 []).0
      ≡ some (hmac small_digest small_laws (1 ∷ 2 ∷ []) (3 ∷ [])))
    × IsDigest.Holds small_laws (compute_hmac small_digest (1 ∷ 2 ∷ []) (3 ∷ []) 4 []).1 []
compute_hmac_lem_example =
    compute_hmac_lem small_digest small_laws (1 ∷ 2 ∷ []) (3 ∷ []) 4 [] (omega arith) (omega arith)
      refl

-- A stream that takes two bytes at a time, and blocks when it has more than four.
abbrev narrow : List ℕ → List ℕ → StreamResult × ℕ × List ℕ
narrow xs s =
    if ltb 4 (length s)
    then (sr_block, 0, s)
    else (sr_success, min 2 (length xs), s ++ take (min 2 (length xs)) xs)

narrow_success :
    (xs s : List ℕ)
    → is_success (narrow xs s).0 ≡ true
    → (narrow xs s).2 ≡ s ++ take (narrow xs s).1 xs
narrow_success xs s h = elim (Bool-cases (ltb 4 (length s))) [
  | inl p ↦ ground (arith, h, p)
  | inr p ↦ rw (p) refl
]

abbrev narrow_laws : IsStream narrow
narrow_laws = record {
  taken = λ s. s;
  progress = λ xs s p h. (ground (arith, p, h), ground (arith, p, h));
  success = λ xs s h. narrow_success xs s h;
  failure = λ xs s h. ground (arith, h);
}

narrow_run :
    write_all narrow (1 ∷ 2 ∷ 3 ∷ 4 ∷ 5 ∷ 6 ∷ 7 ∷ 8 ∷ []) []
    ≡ some (sr_block, 6, 1 ∷ 2 ∷ 3 ∷ 4 ∷ 5 ∷ 6 ∷ [])
unfolding write_all write_loop
narrow_run = refl

write_all_lem_example :
    (r : StreamResult × ℕ × List ℕ) × ((write_all narrow (1 ∷ 2 ∷ 3 ∷ []) [] ≡ some r)
      × ((r.2 ≡ [] ++ take r.1 (1 ∷ 2 ∷ 3 ∷ [])) × (is_success r.0 ≡ true → r.1 ≡ 3)))
write_all_lem_example = write_all_lem narrow narrow_laws (1 ∷ 2 ∷ 3 ∷ []) []

abbrev five : Option ℕ
five = some 5

abbrev husk : ℕ → ℕ
husk n = 0

optionals_lem_example :
    (assign (optional_of none) (optional_of five) ≡ some (optional_of five))
    × (move_assign husk (optional_of none) (optional_of five)
        ≡ some (optional_of five, optional_of (moved_from husk five)))
    × (swap (optional_of none) (optional_of five) ≡ some (optional_of five, optional_of none))
    × (equals ◌==◌ (optional_of none) (optional_of five) ≡ some (same_option ◌==◌ none five))
optionals_lem_example = optionals_lem none five husk ◌==◌
