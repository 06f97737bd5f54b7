-- ===== src/RateStatistics/Ring.antt =====
-- The buckets are a ring of the samples that the statistics hold, one bucket for each time.
use librtcbase.Prelude.{
  ℕ, ◌+◌, ◌-◌, ◌≤◌, ◌<◌, ◌^◌, true, false, ◌==◌, leb, ltb, if◌then◌else◌, suc, length, u32,
  add_size, sub_size, ◌≡◌, arith, Bool-cases, inl, inr, ap, ◌∙◌, sym,
}
use librtcbase.RateStatistics.{RateStatistics, erase_oldest}
use librtcbase.RateStatistics.Samples.{
  Samples, total, from_time, sum_at, number_at, bucket_at, are_within, are_within_weaken,
  are_within-from_time, total-from_time, length-from_time, bucket_at-from_time, bucket_at_outside,
}

abbrev pub wrap : ℕ → ℕ → ℕ
wrap max i = if leb max i then i - max else i

pub record IsRing (r : RateStatistics) (s : Samples) : Type 0 where
  pub positive : 0 < r.current_window_size_ms
  pub bounded : r.current_window_size_ms ≤ r.max_window_size_ms
  pub small : r.max_window_size_ms ≤ 2 ^ 31
  pub index : r.oldest_index < r.max_window_size_ms
  pub accumulated : r.accumulated_count ≡ total s
  pub total_small : total s < 2 ^ 64
  pub number : r.num_samples ≡ length s
  pub number_small : length s < 2 ^ 64
  pub within : are_within r.oldest_time (r.oldest_time + r.max_window_size_ms) s ≡ true
  pub unused : r.oldest_time ≡ 0 → length s ≡ 0
  pub contents :
      (k : ℕ)
      → k < r.max_window_size_ms
      → r.buckets (wrap r.max_window_size_ms (r.oldest_index + k)) ≡ bucket_at (r.oldest_time + k) s

pub u32_small : (n : ℕ) → n < 2 ^ 32 → u32 n ≡ n
u32_small n p = omega arith

pub add_size_small : (a b : ℕ) → a + b < 2 ^ 64 → add_size a b ≡ a + b
add_size_small a b p = omega arith

sub_size_small : (a b : ℕ) → b ≤ a → a < 2 ^ 64 → sub_size a b ≡ a - b
sub_size_small a b p q = omega arith

pub same_refl : (n : ℕ) → (n == n) ≡ true
same_refl n = ground (arith)

-- The oldest bucket is the one at the index.
oldest_bucket :
    (r : RateStatistics) (s : Samples)
    → IsRing r s
    → r.buckets r.oldest_index ≡ bucket_at r.oldest_time s
oldest_bucket r s h =
    let inside : wrap r.max_window_size_ms (r.oldest_index + 0) ≡ r.oldest_index =
      ground (arith, h.index) in
    let start : r.oldest_time + 0 ≡ r.oldest_time = omega arith in
    ap r.buckets (sym inside)
    ∙ (h.contents 0 (omega (arith, h.index)) ∙ ap (λ t. bucket_at t s) start)

-- The index of the next round, from the next bucket on.
wrap-next :
    (max i k : ℕ)
    → i < max
    → suc k < max
    → (wrap max ((if leb max (suc i) then 0 else suc i) + k) ≡ wrap max (i + suc k))
      × ((wrap max (i + suc k) == i) ≡ false)
wrap-next max i k p q = elim (Bool-cases (leb max (suc i))) [
  | inl c ↦ rw (c) (ground (arith, p, q, c), ground (arith, p, q, c))
  | inr c ↦ rw (c) (ground (arith, p, q, c), ground (arith, p, q, c))
]

wrap-last :
    (max i k : ℕ)
    → i < max
    → suc k ≡ max
    → wrap max ((if leb max (suc i) then 0 else suc i) + k) ≡ i
wrap-last max i k p q = elim (Bool-cases (leb max (suc i))) [
  | inl c ↦ rw (c) (ground (arith, p, q, c))
  | inr c ↦ rw (c) (ground (arith, p, q, c))
]

next_contents :
    (r : RateStatistics) (s : Samples)
    → IsRing r s
    → (k : ℕ) → k < r.max_window_size_ms
    → (erase_oldest r).buckets (wrap r.max_window_size_ms ((erase_oldest r).oldest_index + k))
      ≡ bucket_at (suc r.oldest_time + k) (from_time (suc r.oldest_time) s)
next_contents r s h k p =
    let max = r.max_window_size_ms in
    let next : u32 (suc r.oldest_index) ≡ suc r.oldest_index =
      u32_small (suc r.oldest_index) (omega (arith, h.index, h.small)) in
    let kept = from_time (suc r.oldest_time) s in
    elim (Bool-cases (ltb (suc k) max)) [
      | inl c ↦
          let (same, other) = wrap-next max r.oldest_index k h.index (ground (arith, c)) in
          let later : r.oldest_time + suc k ≡ suc r.oldest_time + k = omega arith in
          let there =
            h.contents (suc k) (ground (arith, c))
            ∙ (ap (λ t. bucket_at t s) later
                ∙ sym (
                    bucket_at-from_time (suc r.oldest_time) (suc r.oldest_time + k) s
                      (omega arith))) in
          rw (next, same, other) there
      | inr c ↦
          let last = wrap-last max r.oldest_index k h.index (ground (arith, c, p)) in
          let outside =
            bucket_at_outside (suc r.oldest_time) (r.oldest_time + max) (suc r.oldest_time + k) kept
              (are_within-from_time r.oldest_time (r.oldest_time + max) (suc r.oldest_time) s
                h.within)
              (ground (arith, c, p)) in
          rw (next, last, same_refl r.oldest_index) (sym outside)
    ]

pub erase_oldest-IsRing :
    (r : RateStatistics) (s : Samples)
    → IsRing r s
    → IsRing (erase_oldest r) (from_time (suc r.oldest_time) s)
erase_oldest-IsRing r s h =
    let max = r.max_window_size_ms in
    let oldest = oldest_bucket r s h in
    let next : u32 (suc r.oldest_index) ≡ suc r.oldest_index =
      u32_small (suc r.oldest_index) (omega (arith, h.index, h.small)) in
    let kept = from_time (suc r.oldest_time) s in
    let t = total-from_time r.oldest_time (r.oldest_time + max) s h.within in
    let l = length-from_time r.oldest_time (r.oldest_time + max) s h.within in
    record {
      positive = h.positive;
      bounded = h.bounded;
      small = h.small;
      index = rw (next) (ground (arith, h.index));
      accumulated =
          ap (λ b. sub_size r.accumulated_count b.sum) oldest
          ∙ (sub_size_small r.accumulated_count (sum_at r.oldest_time s)
                (omega (arith, h.accumulated, t)) (omega (arith, h.accumulated, h.total_small))
              ∙ omega (arith, h.accumulated, t));
      total_small = omega (arith, t, h.total_small);
      number =
          ap (λ b. sub_size r.num_samples b.samples) oldest
          ∙ (sub_size_small r.num_samples (number_at r.oldest_time s) (omega (arith, h.number, l))
                (omega (arith, h.number, h.number_small))
              ∙ omega (arith, h.number, l));
      number_small = omega (arith, l, h.number_small);
      within =
          are_within_weaken (suc r.oldest_time) (suc r.oldest_time) (r.oldest_time + max)
            (suc r.oldest_time + max) kept (omega arith) (omega arith)
            (are_within-from_time r.oldest_time (r.oldest_time + max) (suc r.oldest_time) s
              h.within);
      unused = λ p. ground (arith, p);
      contents = next_contents r s h;
    }
