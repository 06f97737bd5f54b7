-- ===== src/Random/Ranges.antt =====
-- The integer ranges of the generator, whatever it puts out.
use native.Mathlib.Nat.{mul-lt-mul_of_pos_right}
use librtcbase.Prelude.{ℕ, ◌+◌, ◌-◌, ◌*◌, ◌^◌, ◌≤◌, ◌<◌, ◌≡◌, arith, u32, u64, ◌>>>◌}
use librtcbase.Prelude.Int.{ℤ, pos, ◌+ℤ◌, ◌-ℤ◌, ◌≤ℤ◌, +ℤ_parts, int_laws, pos_part, neg_part}
use librtcbase.SafeConversions.{residue}
use librtcbase.SafeConversions.Laws.{IsOf, cast_lem}
use librtcbase.Random.{Random, next_output, rand, rand_between, rand_signed, int32}

scaled : (x t : ℕ) → x < 2 ^ 32 → t < 2 ^ 32 → u32 (u64 (x * (t + 1)) >>> 32) ≤ t
scaled x t hx ht =
    let below : x * (t + 1) < 2 ^ 32 * (t + 1) = mul-lt-mul_of_pos_right hx (omega arith) in
    omega (arith, below)

-- A number of the range from 0.
pub rand_lem : (r : Random) (t : ℕ) → t < 2 ^ 32 → (rand r t).0 ≤ t
unfolding rand
rand_lem r t h = scaled (u32 (next_output r).0) t (omega arith) h

-- For unsigned bounds of 32 bits in order, the number drawn lies between them, from any state of
-- the generator.
pub rand_between_lem :
    (r : Random) (low high : ℕ)
    → low ≤ high
    → high < 2 ^ 32
    → (low ≤ (rand_between r low high).0) × ((rand_between r low high).0 ≤ high)
unfolding rand_between
rand_between_lem r low high h small =
    let below = rand_lem r (u32 (high + 2 ^ 32 - low)) (omega arith) in omega (arith, below)

-- The difference of two values in order is kept by the cut to 32 bits.
difference :
    (low high : ℤ)
    → IsOf int32 low
    → IsOf int32 high
    → low ≤ℤ high
    → (residue (2 ^ 32) (high -ℤ low) < 2 ^ 32)
      × (residue (2 ^ 32) (high -ℤ low) + pos_part low + neg_part high
          ≡ neg_part low + pos_part high)
unfolding ◌-ℤ◌
difference low high hl hh h = ground (arith, hl, hh, h)

-- For signed bounds of 32 bits in order, the number drawn lies between them, from any state of the
-- generator.
pub rand_signed_lem :
    (r : Random) (low high : ℤ)
    → IsOf int32 low
    → IsOf int32 high
    → low ≤ℤ high
    → (low ≤ℤ (rand_signed r low high).0) × ((rand_signed r low high).0 ≤ℤ high)
unfolding rand_signed
rand_signed_lem r low high hl hh h =
    let d = residue (2 ^ 32) (high -ℤ low) in
    let exact = difference low high hl hh h in
    let out = (rand r d).0 in
    let below : out ≤ d = rand_lem r d exact.0 in
    let inside : (low ≤ℤ pos out +ℤ low) × (pos out +ℤ low ≤ℤ high) =
      omega (int_laws, below, exact, +ℤ_parts (pos out) low) in
    let kept = cast_lem int32 (pos out +ℤ low) (omega (int_laws, inside, hl, hh)) in rw kept inside
