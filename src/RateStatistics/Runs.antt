-- ===== src/RateStatistics/Runs.antt =====
-- A whole run of the statistics on a clock that does not go back, and the rate.
use librtcbase.Prelude.{
  ℕ, ◌+◌, ◌-◌, ◌≤◌, ◌<◌, ◌^◌, Bool, true, false, ◌&&◌, ◌||◌, none, some, [], ◌∷◌, ◌==◌, leb, ltb,
  if◌then◌else◌, suc, length, ◌≡◌, refl, arith, Bool-cases, inl, inr, ap, ◌∙◌,
}
use mathlib.Core.Path.{subst}
use librtcbase.RateStatistics.{
  RateStatistics, construct, erase_old, add_sample, update, rate, set_window_size,
}
use librtcbase.RateStatistics.Samples.{
  Samples, total, from_time, from_time-from_time, length-from_time_le, total-from_time_le,
}
use librtcbase.RateStatistics.Ring.{IsRing, IsRing}
use librtcbase.RateStatistics.Window.{
  window_start, erase_old_lem, erase_old_frame, erase_old-oldest_time, update_lem,
}

pub construct-IsRing :
    (window_size_ms : ℕ)
    → 0 < window_size_ms
    → window_size_ms ≤ 2 ^ 31
    → IsRing (construct window_size_ms) []
unfolding construct
construct-IsRing window_size_ms p q = record {
  positive = p;
  bounded = omega arith;
  small = q;
  index = p;
  accumulated = refl;
  total_small = omega arith;
  number = refl;
  number_small = omega arith;
  within = refl;
  unused = λ e. refl;
  contents = λ k e. refl;
}

-- The rate is that of the total of the samples in the window over the time since the oldest, and is
-- not there if no sample is in the window, if that time is one millisecond or less, or if a single
-- sample has not been there for a whole window; the statistics keep the samples of the window.
pub rate_lem :
    (round : ℕ → ℕ → ℕ) (now_ms : ℕ) (r : RateStatistics) (s : Samples)
    → IsRing r s
    → (let kept = from_time (window_start r now_ms) s in
        let active = suc now_ms - (erase_old now_ms r).oldest_time in
        (IsRing (rate round now_ms r).1 kept)
        × ((rate round now_ms r).0 ≡ (
            if length kept == 0
              || leb active 1
              || (leb (length kept) 1 && ltb active r.current_window_size_ms)
            then none
            else some (round (total kept) active))))
unfolding rate
rate_lem round now_ms r s h =
    let h1 = erase_old_lem now_ms r s h in
    let frame = erase_old_frame now_ms r in (h1, rw (h1.number, h1.accumulated, frame.1) refl)

-- x
pub set_window_size_lem :
    (window_size_ms now_ms : ℕ) (r : RateStatistics) (s : Samples)
    → IsRing r s
    → (let result = set_window_size window_size_ms now_ms r in
        (result.0 ≡ true → IsRing result.1 (from_time (suc now_ms - window_size_ms) s))
        × (result.0 ≡ false → result.1 ≡ r))
unfolding set_window_size
set_window_size_lem window_size_ms now_ms r s h =
    let r1 = record r { current_window_size_ms = window_size_ms } in
    elim (Bool-cases (window_size_ms == 0 || ltb r.max_window_size_ms window_size_ms)) [
      | inl p ↦ rw (p) (λ e. ground (arith, e), λ e. refl)
      | inr p ↦
          let h1 : IsRing r1 s = record {
            positive = ground (arith, p);
            bounded = ground (arith, p);
            small = h.small;
            index = h.index;
            accumulated = h.accumulated;
            total_small = h.total_small;
            number = h.number;
            number_small = h.number_small;
            within = h.within;
            unused = h.unused;
            contents = h.contents;
          } in
          rw (p) (λ e. erase_old_lem now_ms r1 s h1, λ e. ground (arith, e))
    ]

-- The updates one after the other, and all the samples so far, the last one first.
unfoldable pub update_all : Samples → RateStatistics → RateStatistics
unfolding update
update_all [] r = r
update_all ((now, count) ∷ rest) r = update_all rest (update count now r)

abbrev pub history : Samples → Samples → Samples
history [] past = past
history ((now, count) ∷ rest) past = history rest ((now, count) ∷ past)

abbrev pub last_time : ℕ → Samples → ℕ
last_time low [] = low
last_time low ((now, count) ∷ rest) = last_time now rest

-- The clock does not go back.
abbrev pub is_clock : ℕ → Samples → Bool
is_clock low [] = true
is_clock low ((now, count) ∷ rest) = let r = is_clock now rest in leb low now && r

update_frame :
    (count now : ℕ) (r : RateStatistics)
    → r.oldest_time ≤ now
    → 0 < r.current_window_size_ms
    → ((update count now r).max_window_size_ms ≡ r.max_window_size_ms)
      × (((update count now r).current_window_size_ms ≡ r.current_window_size_ms)
          × ((update count now r).oldest_time ≤ now))
unfolding update add_sample
update_frame count now r p z =
    let frame = erase_old_frame now r in
    let oldest = erase_old-oldest_time now r in
    (ground (arith, frame.0), (ground (arith, frame.1), ground (arith, oldest, p, z)))

update_all-IsRing :
    (low max : ℕ) (samples past : Samples) (r : RateStatistics)
    → IsRing r (from_time (suc low - max) past)
    → r.max_window_size_ms ≡ max
    → r.current_window_size_ms ≡ max
    → r.oldest_time ≤ low
    → 0 < low
    → is_clock low samples ≡ true
    → total samples + total past < 2 ^ 64
    → length samples + length past < 2 ^ 64
    → IsRing
        (update_all samples r)
        (from_time (suc (last_time low samples) - max) (history samples past))
unfolding update_all
update_all-IsRing low max [] past r h m c o z k t l = h
update_all-IsRing low max ((now, count) ∷ rest) past r h m c o z k t l =
    let kept = from_time (suc low - max) past in
    let later : low ≤ now = ground (arith, k) in
    let r1 = update count now r in
    let frame = update_frame count now r (omega (arith, o, later)) h.positive in
    let h1 : IsRing r1 ((now, count) ∷ from_time (window_start r now) kept) =
      update_lem count now r kept h (omega (arith, o, later)) (omega (arith, z, later))
        (omega (arith, t, total-from_time_le (suc low - max) past))
        (omega (arith, l, length-from_time_le (suc low - max) past)) in
    let start : window_start r now ≡ suc now - max = ap (λ w. suc now - w) c in
    let merged : from_time (window_start r now) kept ≡ from_time (suc now - max) past =
      ap (λ w. from_time w kept) start
      ∙ from_time-from_time (suc low - max) (suc now - max) past (omega (arith, later)) in
    let fresh : leb (suc now - max) now ≡ true = ground (arith, c, h.positive) in
    let h2 : IsRing r1 (from_time (suc now - max) ((now, count) ∷ past)) =
      rw (fresh) (subst (λ x. IsRing r1 ((now, count) ∷ x)) merged h1) in
    update_all-IsRing now max rest ((now, count) ∷ past) r1 h2 (frame.0 ∙ m) (frame.1.0 ∙ c)
      frame.1.1 (omega (arith, z, later)) (ground (arith, k)) (omega (arith, t)) (omega (arith, l))

-- On a clock that does not go back, for a window of 1 to 2 ^ 31 ms, with sums and numbers below 2 ^
-- 64: after updates of new statistics, the accumulated count and the number of samples are those of
-- the samples in the window that ends at the last update.
pub update_all-window :
    (window_size_ms : ℕ) (samples : Samples)
    → 0 < window_size_ms
    → window_size_ms ≤ 2 ^ 31
    → is_clock window_size_ms samples ≡ true
    → total samples < 2 ^ 64
    → length samples < 2 ^ 64
    → (let r = update_all samples (construct window_size_ms) in
        let kept =
          from_time
            (suc (last_time window_size_ms samples) - window_size_ms)
            (history samples []) in
        (r.accumulated_count ≡ total kept) × (r.num_samples ≡ length kept))
unfolding construct
update_all-window window_size_ms samples p q k t l =
    let h =
      update_all-IsRing window_size_ms window_size_ms samples [] (construct window_size_ms)
        (construct-IsRing window_size_ms p q) refl refl (omega arith) p k (omega (arith, t))
        (omega (arith, l)) in
    (h.accumulated, h.number)
