-- ===== src/Tests/Measures.antt =====
-- Runs of the median filter and of the rate statistics.
use librtcbase.Prelude.{
  ℕ, ◌-◌, ◌≤◌, ◌/◌, ◌*◌, Option, none, some, [], ◌∷◌, ◌≡◌, refl, length, arith, suc, leb, ltb, ◌==◌,
  ◌||◌, ◌&&◌, if◌then◌else◌,
}
use librtcbase.Filters.{
  reset, upper_bound, lower_bound, update_percentile_iterator, insert, erase_position, erase,
  MovingMedianFilter, new_median, drop_oldest, insert_sample, get_filtered_value,
}
use librtcbase.Filters.Sorted.{count}
use librtcbase.Filters.Median.{latest, insert_all, IsAtRank, insert_all-median}
use librtcbase.RateStatistics
use librtcbase.RateStatistics.{RateStatistics, update, rate}
use librtcbase.RateStatistics.Samples.{Samples, total, from_time}
use librtcbase.RateStatistics.Ring.{IsRing}
use librtcbase.RateStatistics.Window.{window_start, update_lem}
use librtcbase.RateStatistics.Runs.{
  construct-IsRing, rate_lem, update_all, history, last_time, update_all-window,
}

-- The product with 0.5, and with 0.
abbrev half : ℕ → ℕ
half n = n / 2

half_le : (n : ℕ) → half n ≤ n
half_le n = omega arith

abbrev value_of : Option MovingMedianFilter → Option ℕ
value_of none = none
value_of (some m) = get_filtered_value m

-- The median of the last three of 9, 1, 8, 2, 7.
median_run : value_of (insert_all half (9 ∷ 1 ∷ 8 ∷ 2 ∷ 7 ∷ []) (new_median 3)) ≡ some 7
unfolding insert_all insert_sample drop_oldest new_median insert erase erase_position
    update_percentile_iterator upper_bound lower_bound reset
median_run = refl

insert_all-median_example :
    (m : MovingMedianFilter) × ((insert_all half (9 ∷ 1 ∷ 8 ∷ 2 ∷ 7 ∷ []) (new_median 3) ≡ some m)
      × IsAtRank half (latest 3 (9 ∷ 1 ∷ 8 ∷ 2 ∷ 7 ∷ [])) (get_filtered_value m))
insert_all-median_example =
    insert_all-median half 3 (9 ∷ 1 ∷ 8 ∷ 2 ∷ 7 ∷ []) half_le (omega arith) (omega arith)

-- The samples at 100, 101 and 103 ms of a window of 3 ms, whose times begin at 3.
abbrev samples : Samples
samples = (103, 5) ∷ (104, 6) ∷ (106, 7) ∷ []

rate_run :
    (rate
      (λ count window. count * 8000 / window)
      106
      (update_all samples (RateStatistics.construct 3))).0
    ≡ some 34666
unfolding rate update_all update RateStatistics.erase_old RateStatistics.erase_loop
    RateStatistics.add_sample RateStatistics.construct
rate_run = refl

update_all-window_example :
    (let r = update_all samples (RateStatistics.construct 3) in
      let kept = from_time (suc (last_time 3 samples) - 3) (history samples []) in
      (r.accumulated_count ≡ total kept) × (r.num_samples ≡ length kept))
update_all-window_example =
    update_all-window 3 samples (omega arith) (omega arith) refl (omega arith) (omega arith)

abbrev one_update : RateStatistics
one_update = update 5 103 (RateStatistics.construct 3)

one_update-IsRing :
    IsRing one_update ((103, 5) ∷ from_time (window_start (RateStatistics.construct 3) 103) [])
unfolding RateStatistics.construct
one_update-IsRing =
    update_lem 5 103 (RateStatistics.construct 3) []
      (construct-IsRing 3 (omega arith) (omega arith)) (omega arith) (omega arith) (omega arith)
      (omega arith)

one_oldest : one_update.oldest_time ≤ 104
unfolding update RateStatistics.erase_old RateStatistics.add_sample RateStatistics.construct
one_oldest = omega arith

abbrev half_rate : ℕ → ℕ → ℕ
half_rate count window = count / window

update_lem_example :
    IsRing
      (update 6 104 one_update)
      ((104, 6) ∷ from_time (window_start one_update 104) ((103, 5) ∷ []))
update_lem_example =
    update_lem 6 104 one_update ((103, 5) ∷ []) one_update-IsRing one_oldest (omega arith)
      (omega arith) (omega arith)

rate_lem_example :
    (let kept = from_time (window_start one_update 104) ((103, 5) ∷ []) in
      let active = suc 104 - (RateStatistics.erase_old 104 one_update).oldest_time in
      (IsRing (rate half_rate 104 one_update).1 kept)
      × ((rate half_rate 104 one_update).0 ≡ (
          if length kept == 0
            || leb active 1
            || (leb (length kept) 1 && ltb active one_update.current_window_size_ms)
          then none
          else some (half_rate (total kept) active))))
rate_lem_example = rate_lem half_rate 104 one_update ((103, 5) ∷ []) one_update-IsRing
