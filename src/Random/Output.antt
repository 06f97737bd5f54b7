-- ===== src/Random/Output.antt =====
-- The generator never leaves the nonzero states, and never puts out zero.
use librtcbase.Prelude.{ℕ, ◌^◌, ◌<◌, bit_xor, ◌≢◌, arith, u64, ◌<<<◌, ◌>>>◌}
use librtcbase.Prelude.Bits.{eq_of_bit_xor-eq-zero, bit_xor-lt}
use librtcbase.Random.{Random, scramble, next_output}

left_step : (s : ℕ) → s < 2 ^ 64 → s ≢ 0 → bit_xor s (u64 (s <<< 25)) ≢ 0
left_step s small h e = absurd (omega (arith, h, eq_of_bit_xor-eq-zero s (u64 (s <<< 25)) e))

-- The state after the three steps.
scramble_lem : (s : ℕ) → s < 2 ^ 64 → s ≢ 0 → (scramble s < 2 ^ 64) × (scramble s ≢ 0)
unfolding scramble
scramble_lem s small h =
    let s1 = bit_xor s (s >>> 12) in
    let s2 = bit_xor s1 (u64 (s1 <<< 25)) in
    let small1 : s1 < 2 ^ 64 = bit_xor-lt 64 s (s >>> 12) small (omega arith) in
    let small2 : s2 < 2 ^ 64 = bit_xor-lt 64 s1 (u64 (s1 <<< 25)) small1 (omega arith) in
    let nonzero1 : s1 ≢ 0 = λ e. absurd (omega (arith, h, eq_of_bit_xor-eq-zero s (s >>> 12) e)) in
    let nonzero2 : s2 ≢ 0 = left_step s1 small1 nonzero1 in
    (
      bit_xor-lt 64 s2 (s2 >>> 27) small2 (omega arith),
      λ e. absurd (omega (arith, nonzero2, eq_of_bit_xor-eq-zero s2 (s2 >>> 27) e)),
    )

-- From a nonzero state of 64 bits the generator puts out a nonzero number of 64 bits, and its next
-- state is again nonzero and of 64 bits.
pub next_output_lem :
    (r : Random)
    → r.state < 2 ^ 64
    → r.state ≢ 0
    → (let (out, r') = next_output r in
        (out ≢ 0) × (out < 2 ^ 64) × (r'.state ≢ 0) × (r'.state < 2 ^ 64))
unfolding next_output
next_output_lem r small h =
    let s = scramble_lem r.state small h in (omega (arith, s), omega arith, s.1, s.0)
