-- ===== src/RateStatistics/Window.antt =====
-- The statistics hold the samples of the window, and no other.
use librtcbase.Prelude.{
  ℕ, ◌+◌, ◌-◌, ◌≤◌, ◌<◌, ◌^◌, false, [], ◌∷◌, ◌==◌, leb, ltb, if◌then◌else◌, suc, zero, length, u32,
  add_size, ◌≡◌, refl, arith, Bool-cases, inl, inr, ap, ◌∙◌, sym,
}
use mathlib.Core.Path.{subst}
use librtcbase.RateStatistics.{
  Bucket, RateStatistics, is_initialized, set_bucket, erase_oldest, erase_loop, erase_old,
  add_sample, update,
}
use librtcbase.RateStatistics.Samples.{
  Samples, total, from_time, sum_at, number_at, bucket_at, from_time-from_time, from_time_all,
  are_within_weaken, length-from_time_le, total-from_time_le,
}
use librtcbase.RateStatistics.Ring.{
  u32_small, add_size_small, IsRing, same_refl, wrap, IsRing, same_refl, erase_oldest-IsRing,
}

nil_of_length : (s : Samples) → length s ≡ 0 → s ≡ []
nil_of_length [] p = refl
nil_of_length (x ∷ xs) p = let q : ⊥ = ground (arith, p) in elim q [ ]

-- With no samples any time can be the oldest.
no_samples :
    (r : RateStatistics) (s : Samples) (oldest : ℕ)
    → IsRing r s
    → length s ≡ 0
    → IsRing (record r { oldest_time = oldest }) (from_time oldest s)
no_samples r s oldest h p =
    let nil = nil_of_length s p in
    let a = h.accumulated ∙ ap total nil in
    let n = h.number ∙ ap length nil in
    rw (nil) (record {
      positive = h.positive;
      bounded = h.bounded;
      small = h.small;
      index = h.index;
      accumulated = a;
      total_small = omega arith;
      number = n;
      number_small = omega arith;
      within = refl;
      unused = λ q. refl;
      contents = λ k q. h.contents k q ∙ ap (bucket_at (r.oldest_time + k)) nil;
    })

erase_loop_lem :
    (n : ℕ) (r : RateStatistics) (s : Samples)
    → IsRing r s
    → IsRing
        (record (erase_loop n r) { oldest_time = r.oldest_time + n })
        (from_time (r.oldest_time + n) s)
unfolding erase_loop
erase_loop_lem zero r s h =
    let start : r.oldest_time + 0 ≡ r.oldest_time = omega arith in
    rw (start, from_time_all r.oldest_time (r.oldest_time + r.max_window_size_ms) s h.within) h
erase_loop_lem (suc n) r s h =
    let rest =
      erase_loop_lem n (erase_oldest r) (from_time (suc r.oldest_time) s)
        (erase_oldest-IsRing r s h) in
    let later : suc r.oldest_time + n ≡ r.oldest_time + suc n = omega arith in
    let kept : from_time (suc r.oldest_time + n) (from_time (suc r.oldest_time) s)
        ≡ from_time (suc r.oldest_time + n) s =
      from_time-from_time (suc r.oldest_time) (suc r.oldest_time + n) s (omega arith) in
    elim (Bool-cases (r.num_samples == 0)) [
      | inl p ↦ rw (p) (no_samples r s (r.oldest_time + suc n) h (ground (arith, p, h.number)))
      | inr p ↦ rw (p) (
          subst
            (λ t.
              IsRing (record (erase_loop n (erase_oldest r)) { oldest_time = t }) (from_time t s))
            later (rw (sym kept) rest))
    ]

-- The oldest time that a window at a time has.
abbrev pub window_start : RateStatistics → ℕ → ℕ
window_start r now_ms = suc now_ms - r.current_window_size_ms

pub erase_old_lem :
    (now_ms : ℕ) (r : RateStatistics) (s : Samples)
    → IsRing r s
    → IsRing (erase_old now_ms r) (from_time (window_start r now_ms) s)
unfolding erase_old
erase_old_lem now_ms r s h =
    let start = window_start r now_ms in
    elim (Bool-cases (is_initialized r)) [
      | inl p ↦ elim (Bool-cases (leb start r.oldest_time)) [
        | inl q ↦
            rw
              (
                p,
                q,
                from_time_all start (r.oldest_time + r.max_window_size_ms) s (
                    are_within_weaken r.oldest_time start (r.oldest_time + r.max_window_size_ms)
                      (r.oldest_time + r.max_window_size_ms) s (ground (arith, q)) (omega arith)
                      h.within),
              )
              h
        | inr q ↦
            let n = start - r.oldest_time in
            let e : r.oldest_time + n ≡ start = ground (arith, q) in
            rw (p, q)
              (subst (λ t. IsRing (record (erase_loop n r) { oldest_time = t }) (from_time t s)) e
                (erase_loop_lem n r s h))
      ]
      | inr p ↦
          let nil = nil_of_length s (h.unused (ground (arith, p))) in
          rw (p, nil) (subst (IsRing r) nil h)
    ]

wrap-injective :
    (max i j k : ℕ)
    → i < max
    → j < max
    → k < max
    → (wrap max (i + j) == wrap max (i + k)) ≡ (j == k)
wrap-injective max i j k p q r = elim (Bool-cases (leb max (i + j))) [
  | inl a ↦ elim (Bool-cases (leb max (i + k))) [
    | inl b ↦ rw (a, b) (ground (arith, p, q, r, a, b))
    | inr b ↦ rw (a, b) (ground (arith, p, q, r, a, b))
  ]
  | inr a ↦ elim (Bool-cases (leb max (i + k))) [
    | inl b ↦ rw (a, b) (ground (arith, p, q, r, a, b))
    | inr b ↦ rw (a, b) (ground (arith, p, q, r, a, b))
  ]
]

-- The bucket that a sample goes to.
abbrev added : ℕ → Bucket → Bucket
added count b = record { sum = add_size b.sum count; samples = add_size b.samples 1 }

sum_at_le : (now : ℕ) (s : Samples) → sum_at now s ≤ total s
sum_at_le now [] = omega arith
sum_at_le now ((t, c) ∷ rest) = ground (arith, sum_at_le now rest)

number_at_le : (now : ℕ) (s : Samples) → number_at now s ≤ length s
number_at_le now [] = omega arith
number_at_le now ((t, c) ∷ rest) = ground (arith, number_at_le now rest)

added-bucket_at :
    (now count : ℕ) (s : Samples)
    → total s + count < 2 ^ 64
    → length s + 1 < 2 ^ 64
    → added count (bucket_at now s) ≡ bucket_at now ((now, count) ∷ s)
added-bucket_at now count s p q =
    let a = add_size_small (sum_at now s) count (omega (arith, p, sum_at_le now s)) in
    let b = add_size_small (number_at now s) 1 (omega (arith, q, number_at_le now s)) in
    let c : sum_at now s + count ≡ count + sum_at now s = omega arith in
    let d : number_at now s + 1 ≡ suc (number_at now s) = omega arith in
    rw (same_refl now, a, b, c, d) refl

added_contents :
    (count now : ℕ) (r : RateStatistics) (s : Samples)
    → IsRing r s
    → r.oldest_time ≤ now
    → now < r.oldest_time + r.max_window_size_ms
    → total s + count < 2 ^ 64
    → length s + 1 < 2 ^ 64
    → (k : ℕ) → k < r.max_window_size_ms
    → (let index = wrap r.max_window_size_ms (r.oldest_index + (now - r.oldest_time)) in
        set_bucket r.buckets index
          (added count (r.buckets index))
          (wrap r.max_window_size_ms (r.oldest_index + k))
        ≡ bucket_at (r.oldest_time + k) ((now, count) ∷ s))
added_contents count now r s h p q t l k e =
    let max = r.max_window_size_ms in
    let offset = now - r.oldest_time in
    let here : r.oldest_time + offset ≡ now = omega (arith, p) in
    let same = wrap-injective max r.oldest_index k offset h.index e (omega (arith, p, q)) in
    elim (Bool-cases (k == offset)) [
      | inl c ↦
          let there : now ≡ r.oldest_time + k = ground (arith, c, here) in
          let old = h.contents offset (omega (arith, p, q)) ∙ ap (λ x. bucket_at x s) here in
          rw (same, c)
            (ap (added count) old
              ∙ (added-bucket_at now count s t l ∙ ap (λ x. bucket_at x ((now, count) ∷ s)) there))
      | inr c ↦
          let other : (r.oldest_time + k == now) ≡ false = ground (arith, c, p) in
          rw (same, c, other) (h.contents k e)
    ]

add_sample-IsRing :
    (count now : ℕ) (r : RateStatistics) (s : Samples)
    → IsRing r s
    → 0 < r.oldest_time
    → r.oldest_time ≤ now
    → now < r.oldest_time + r.max_window_size_ms
    → total s + count < 2 ^ 64
    → length s + 1 < 2 ^ 64
    → IsRing (add_sample count now r) ((now, count) ∷ s)
unfolding add_sample
add_sample-IsRing count now r s h z p q t l =
    let max = r.max_window_size_ms in
    let offset = now - r.oldest_time in
    let o : u32 offset ≡ offset = u32_small offset (omega (arith, p, q, h.small)) in
    let i : u32 (r.oldest_index + offset) ≡ r.oldest_index + offset =
      u32_small (r.oldest_index + offset) (omega (arith, p, q, h.small, h.index)) in
    let here : r.oldest_time + offset ≡ now = omega (arith, p) in
    rw (o, i)
      (record {
        positive = h.positive;
        bounded = h.bounded;
        small = h.small;
        index = h.index;
        accumulated =
            add_size_small r.accumulated_count count (omega (arith, h.accumulated, t))
            ∙ omega (arith, h.accumulated);
        total_small = omega (arith, t);
        number =
            add_size_small r.num_samples 1 (omega (arith, h.number, l)) ∙ omega (arith, h.number);
        number_small = omega (arith, l);
        within = ground (arith, p, q, h.within);
        unused = λ e. ground (arith, e, z);
        contents = added_contents count now r s h p q t l;
      })

-- What erase_old leaves as it is, and the oldest time after it.
erase_loop_frame :
    (n : ℕ) (r : RateStatistics)
    → ((erase_loop n r).max_window_size_ms ≡ r.max_window_size_ms)
      × ((erase_loop n r).current_window_size_ms ≡ r.current_window_size_ms)
unfolding erase_loop
erase_loop_frame zero r = (refl, refl)
erase_loop_frame (suc n) r =
    let rest = erase_loop_frame n (erase_oldest r) in
    (ground (arith, rest.0), ground (arith, rest.1))

pub erase_old_frame :
    (now_ms : ℕ) (r : RateStatistics)
    → ((erase_old now_ms r).max_window_size_ms ≡ r.max_window_size_ms)
      × ((erase_old now_ms r).current_window_size_ms ≡ r.current_window_size_ms)
unfolding erase_old
erase_old_frame now_ms r =
    let rest = erase_loop_frame (window_start r now_ms - r.oldest_time) r in
    (ground (arith, rest.0), ground (arith, rest.1))

pub erase_old-oldest_time :
    (now_ms : ℕ) (r : RateStatistics)
    → (erase_old now_ms r).oldest_time ≡ (
        if r.oldest_time == 0
        then 0
        else if leb (window_start r now_ms) r.oldest_time
        then r.oldest_time
        else window_start r now_ms)
unfolding erase_old
erase_old-oldest_time now_ms r = ground (arith)

-- An update at a time that is not before the oldest, with sums below 2 ^ 64, leaves the buckets a
-- ring of the new sample and of the samples that were held and are in the window that ends at it.
pub update_lem :
    (count now_ms : ℕ) (r : RateStatistics) (s : Samples)
    → IsRing r s
    → r.oldest_time ≤ now_ms
    → 0 < now_ms
    → total s + count < 2 ^ 64
    → length s + 1 < 2 ^ 64
    → IsRing (update count now_ms r) ((now_ms, count) ∷ from_time (window_start r now_ms) s)
unfolding update
update_lem count now_ms r s h p z t l =
    let kept = from_time (window_start r now_ms) s in
    let r1 = erase_old now_ms r in
    let h1 = erase_old_lem now_ms r s h in
    let frame = erase_old_frame now_ms r in
    let oldest = erase_old-oldest_time now_ms r in
    let t1 : total kept + count < 2 ^ 64 =
      omega (arith, t, total-from_time_le (window_start r now_ms) s) in
    let l1 : length kept + 1 < 2 ^ 64 =
      omega (arith, l, length-from_time_le (window_start r now_ms) s) in
    let in_time : ltb now_ms r.oldest_time ≡ false = ground (arith, p) in
    elim (Bool-cases (r1.oldest_time == 0)) [
      | inl c ↦
          let r2 = record r1 { oldest_time = now_ms } in
          let nil = nil_of_length kept (h1.unused (ground (arith, c))) in
          let h2 : IsRing r2 kept =
            subst (IsRing r2) (ap (from_time now_ms) nil ∙ sym nil)
              (no_samples r1 kept now_ms h1 (ap length nil)) in
          rw (in_time, c)
            (add_sample-IsRing count now_ms r2 kept h2 z (omega arith)
              (omega (arith, h1.positive, h1.bounded)) t1 l1)
      | inr c ↦
          let after : r1.oldest_time ≤ now_ms = ground (arith, oldest, p, h.positive) in
          let inside : now_ms < r1.oldest_time + r1.max_window_size_ms =
            ground (arith, oldest, c, frame, h.bounded, h.positive) in
          rw (in_time, c)
            (add_sample-IsRing count now_ms r1 kept h1 (ground (arith, c)) after inside t1 l1)
    ]
