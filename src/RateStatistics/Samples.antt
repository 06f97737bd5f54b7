-- ===== src/RateStatistics/Samples.antt =====
-- Samples as pairs of a time and a count.
use librtcbase.Prelude.{
  ◌&&◌, ℕ, ◌+◌, ◌≤◌, Bool, true, false, List, [], ◌∷◌, ◌==◌, leb, ltb, if◌then◌else◌, suc, length,
  ◌≡◌, refl, arith, Bool-cases, inl, inr, ap,
}
use librtcbase.RateStatistics.{Bucket, empty_bucket}

abbrev pub Samples : Type 0
Samples = List (ℕ × ℕ)

abbrev pub total : Samples → ℕ
total [] = 0
total ((t, c) ∷ rest) = c + total rest

-- The samples that are not older than a time, and what there is at one time.
abbrev pub from_time : ℕ → Samples → Samples
from_time now [] = []
from_time now ((t, c) ∷ rest) =
    let kept = from_time now rest in if leb now t then (t, c) ∷ kept else kept

abbrev pub sum_at : ℕ → Samples → ℕ
sum_at now [] = 0
sum_at now ((t, c) ∷ rest) = let s = sum_at now rest in if now == t then c + s else s

abbrev pub number_at : ℕ → Samples → ℕ
number_at now [] = 0
number_at now ((t, c) ∷ rest) = let n = number_at now rest in if now == t then suc n else n

abbrev pub bucket_at : ℕ → Samples → Bucket
bucket_at now s = record { sum = sum_at now s; samples = number_at now s }

-- Every sample has a time from `low` to before `high`.
abbrev pub are_within : ℕ → ℕ → Samples → Bool
are_within low high [] = true
are_within low high ((t, c) ∷ rest) =
    let r = are_within low high rest in leb low t && ltb t high && r

pub from_time-from_time :
    (a b : ℕ) (s : Samples) → a ≤ b → from_time b (from_time a s) ≡ from_time b s
from_time-from_time a b [] p = refl
from_time-from_time a b ((t, c) ∷ rest) p = ground (arith, p, from_time-from_time a b rest p)

pub from_time_all :
    (now high : ℕ) (s : Samples) → are_within now high s ≡ true → from_time now s ≡ s
from_time_all now high [] p = refl
from_time_all now high ((t, c) ∷ rest) p =
    ground (arith, p, from_time_all now high rest (ground (arith, p)))

pub are_within_weaken :
    (low low' high high' : ℕ) (s : Samples)
    → low' ≤ low
    → high ≤ high'
    → are_within low high s ≡ true
    → are_within low' high' s ≡ true
are_within_weaken low low' high high' [] p q h = refl
are_within_weaken low low' high high' ((t, c) ∷ rest) p q h =
    ground (arith, p, q, h, are_within_weaken low low' high high' rest p q (ground (arith, h)))

pub are_within-from_time :
    (low high now : ℕ) (s : Samples)
    → are_within low high s ≡ true
    → are_within now high (from_time now s) ≡ true
are_within-from_time low high now [] p = refl
are_within-from_time low high now ((t, c) ∷ rest) p =
    ground (arith, p, are_within-from_time low high now rest (ground (arith, p)))

-- What is taken away with the oldest time.
pub total-from_time :
    (now high : ℕ) (s : Samples)
    → are_within now high s ≡ true
    → total s ≡ sum_at now s + total (from_time (suc now) s)
total-from_time now high [] p = refl
total-from_time now high ((t, c) ∷ rest) p = elim (Bool-cases (now == t)) [
  | inl q ↦ ground (arith, p, q, total-from_time now high rest (ground (arith, p)))
  | inr q ↦ ground (arith, p, q, total-from_time now high rest (ground (arith, p)))
]

pub length-from_time :
    (now high : ℕ) (s : Samples)
    → are_within now high s ≡ true
    → length s ≡ number_at now s + length (from_time (suc now) s)
length-from_time now high [] p = refl
length-from_time now high ((t, c) ∷ rest) p = elim (Bool-cases (now == t)) [
  | inl q ↦ ground (arith, p, q, length-from_time now high rest (ground (arith, p)))
  | inr q ↦ ground (arith, p, q, length-from_time now high rest (ground (arith, p)))
]

pub bucket_at-from_time :
    (now later : ℕ) (s : Samples)
    → now ≤ later
    → bucket_at later (from_time now s) ≡ bucket_at later s
bucket_at-from_time now later [] p = refl
bucket_at-from_time now later ((t, c) ∷ rest) p =
    let k = bucket_at-from_time now later rest p in
    let a : sum_at later (from_time now rest) ≡ sum_at later rest = ap (λ b. b.sum) k in
    let b : number_at later (from_time now rest) ≡ number_at later rest = ap (λ b. b.samples) k in
    elim (Bool-cases (leb now t)) [
      | inl q ↦ elim (Bool-cases (later == t)) [
        | inl r ↦ rw (q, r, a, b) refl
        | inr r ↦ rw (q, r, a, b) refl
      ]
      | inr q ↦ let r : (later == t) ≡ false = ground (arith, p, q) in rw (q, r, a, b) refl
    ]

pub bucket_at_outside :
    (low high now : ℕ) (s : Samples)
    → are_within low high s ≡ true
    → high ≤ now
    → bucket_at now s ≡ empty_bucket
bucket_at_outside low high now [] p q = refl
bucket_at_outside low high now ((t, c) ∷ rest) p q =
    let k = bucket_at_outside low high now rest (ground (arith, p)) q in
    let r : (now == t) ≡ false = ground (arith, p, q) in rw (r) k

pub length-from_time_le : (now : ℕ) (s : Samples) → length (from_time now s) ≤ length s
length-from_time_le now [] = omega arith
length-from_time_le now ((t, c) ∷ rest) = ground (arith, length-from_time_le now rest)

pub total-from_time_le : (now : ℕ) (s : Samples) → total (from_time now s) ≤ total s
total-from_time_le now [] = omega arith
total-from_time_le now ((t, c) ∷ rest) = ground (arith, total-from_time_le now rest)
