-- ===== src/RateStatistics.antt =====
-- src/rate_statistics.cpp. A time is counted from -_max_window_size_ms, which stands for no time, so
-- that a clock that is not negative is at least the largest window; a count of bytes or samples wraps
-- around at 64 bits, an index at 32. What the product with the scale is rounded to is a parameter.
pub mod Samples
pub mod Ring
pub mod Window
pub mod Runs
use librtcbase.Prelude.{
  ℕ, ◌+◌, ◌-◌, Bool, true, false, not, ◌&&◌, ◌||◌, Option, none, some, ◌==◌, leb, ltb,
  if◌then◌else◌, suc, zero, u32, add_size, sub_size,
}

pub record Bucket : Type 0 where
  pub sum : ℕ
  pub samples : ℕ

abbrev pub empty_bucket : Bucket
empty_bucket = record { sum = 0; samples = 0 }

pub record RateStatistics : Type 0 where
  pub buckets : ℕ → Bucket
  pub accumulated_count : ℕ
  pub num_samples : ℕ
  pub oldest_time : ℕ
  pub oldest_index : ℕ
  pub max_window_size_ms : ℕ
  pub current_window_size_ms : ℕ

unfoldable pub construct : ℕ → RateStatistics
construct window_size_ms = record {
  buckets = λ i. empty_bucket;
  accumulated_count = 0;
  num_samples = 0;
  oldest_time = 0;
  oldest_index = 0;
  max_window_size_ms = window_size_ms;
  current_window_size_ms = window_size_ms;
}

abbrev pub is_initialized : RateStatistics → Bool
is_initialized r = not (r.oldest_time == 0)

abbrev pub set_bucket : (ℕ → Bucket) → ℕ → Bucket → ℕ → Bucket
set_bucket buckets index b i = if i == index then b else buckets i

-- The body of the loop of erase_old.
abbrev pub erase_oldest : RateStatistics → RateStatistics
erase_oldest r =
    let oldest_bucket = r.buckets r.oldest_index in
    let next = u32 (suc r.oldest_index) in
    record r {
      accumulated_count = sub_size r.accumulated_count oldest_bucket.sum;
      num_samples = sub_size r.num_samples oldest_bucket.samples;
      buckets = set_bucket r.buckets r.oldest_index empty_bucket;
      oldest_index = if leb r.max_window_size_ms next then 0 else next;
      oldest_time = suc r.oldest_time;
    }

-- The loop; the number is by how much the oldest time is below the new one.
unfoldable pub erase_loop : ℕ → RateStatistics → RateStatistics
erase_loop zero r = r
erase_loop (suc n) r =
    let rest = erase_loop n (erase_oldest r) in if r.num_samples == 0 then r else rest

unfoldable pub erase_old : ℕ → RateStatistics → RateStatistics
unfolding erase_loop
erase_old now_ms r =
    let new_oldest_time = suc now_ms - r.current_window_size_ms in
    let erased = erase_loop (new_oldest_time - r.oldest_time) r in
    if not (is_initialized r)
    then r
    else if leb new_oldest_time r.oldest_time
    then r
    else record erased { oldest_time = new_oldest_time }

abbrev clear_loop : ℕ → (ℕ → Bucket) → ℕ → Bucket
clear_loop zero buckets = buckets
clear_loop (suc n) buckets = set_bucket (clear_loop n buckets) n empty_bucket

unfoldable pub reset : RateStatistics → RateStatistics
reset r = record r {
  buckets = clear_loop r.max_window_size_ms r.buckets;
  accumulated_count = 0;
  num_samples = 0;
  oldest_time = 0;
  oldest_index = 0;
  current_window_size_ms = r.max_window_size_ms;
}

-- The end of update: the bucket of a time that is not before the oldest.
unfoldable pub add_sample : ℕ → ℕ → RateStatistics → RateStatistics
add_sample count now_ms r =
    let now_offset = u32 (now_ms - r.oldest_time) in
    let sum = u32 (r.oldest_index + now_offset) in
    let index = if leb r.max_window_size_ms sum then sum - r.max_window_size_ms else sum in
    let b = r.buckets index in
    let b' : Bucket = record { sum = add_size b.sum count; samples = add_size b.samples 1 } in
    record r {
      buckets = set_bucket r.buckets index b';
      accumulated_count = add_size r.accumulated_count count;
      num_samples = add_size r.num_samples 1;
    }

unfoldable pub update : ℕ → ℕ → RateStatistics → RateStatistics
unfolding erase_old add_sample
update count now_ms r =
    let r1 = erase_old now_ms r in
    let r2 = if not (is_initialized r1) then record r1 { oldest_time = now_ms } else r1 in
    if ltb now_ms r.oldest_time then r else add_sample count now_ms r2

-- `round` is the cast of the count times the scale over the window, plus a half.
unfoldable pub rate : (ℕ → ℕ → ℕ) → ℕ → RateStatistics → Option ℕ × RateStatistics
unfolding erase_old
rate round now_ms r =
    let r1 = erase_old now_ms r in
    let active_window_size = suc now_ms - r1.oldest_time in
    (
      if r1.num_samples == 0
            || leb active_window_size 1
            || (leb r1.num_samples 1 && ltb active_window_size r1.current_window_size_ms)
          then none
          else some (round r1.accumulated_count active_window_size),
      r1,
    )

unfoldable pub set_window_size : ℕ → ℕ → RateStatistics → Bool × RateStatistics
unfolding erase_old
set_window_size window_size_ms now_ms r =
    if window_size_ms == 0 || ltb r.max_window_size_ms window_size_ms
    then (false, r)
    else (true, erase_old now_ms (record r { current_window_size_ms = window_size_ms }))
