-- ===== src/Filters.antt =====
-- src/percentile_filter.h and src/moving_median_filter.h, for values with a total order, here numbers.
-- A std::multiset is a list in order, an iterator of it is a position, and the end is its length.
-- `none` is a read of the element at the end. `rank` is the cast of the product of the percentile and
-- a size to an integer, which is not more than the size for a percentile of at most 1.
pub mod Sorted
pub mod Percentile
pub mod Median
use librtcbase.Prelude.{
  ℕ, ◌+◌, ◌-◌, Bool, true, false, not, ◌&&◌, ◌||◌, Option, none, some, List, [], ◌∷◌, ◌++◌, ◌==◌,
  leb, ltb, if◌then◌else◌, suc, zero, length, get_elem?,
}

pub record PercentileFilter : Type 0 where
  pub set : List ℕ
  pub percentile_it : ℕ
  pub percentile_index : ℕ

unfoldable pub reset : PercentileFilter
reset = record { set = []; percentile_it = 0; percentile_index = 0 }

-- The position at which a multiset inserts, and the position of the first element that is not less.
unfoldable pub upper_bound : ℕ → List ℕ → ℕ
upper_bound value [] = 0
upper_bound value (x ∷ xs) = let rest = upper_bound value xs in if ltb value x then 0 else suc rest

unfoldable pub lower_bound : ℕ → List ℕ → ℕ
lower_bound value [] = 0
lower_bound value (x ∷ xs) = let rest = lower_bound value xs in if ltb x value then suc rest else 0

abbrev pub insert_at : ℕ → ℕ → List ℕ → List ℕ
insert_at zero value xs = value ∷ xs
insert_at (suc n) value [] = value ∷ []
insert_at (suc n) value (x ∷ xs) = x ∷ insert_at n value xs

abbrev pub erase_at : ℕ → List ℕ → List ℕ
erase_at n [] = []
erase_at zero (x ∷ xs) = xs
erase_at (suc n) (x ∷ xs) = x ∷ erase_at n xs

module _ (rank : ℕ → ℕ) where
  unfoldable pub update_percentile_iterator : PercentileFilter → PercentileFilter
  update_percentile_iterator f =
      let index = rank (length f.set - 1) in
      if length f.set == 0 then f else record f {
        percentile_it = f.percentile_it + index - f.percentile_index;
        percentile_index = index;
      }

  -- The iterator stays at its element.
  unfoldable pub insert : ℕ → PercentileFilter → Option PercentileFilter
  unfolding update_percentile_iterator upper_bound
  insert value f =
      let position = upper_bound value f.set in
      let it = if leb position f.percentile_it then suc f.percentile_it else f.percentile_it in
      let set = insert_at position value f.set in
      if length set == 1
      then some (
          update_percentile_iterator
            (record { set = set; percentile_it = 0; percentile_index = 0 }))
      else elim (get_elem? set it) [
        | none ↦ none
        | some x ↦ some (
            update_percentile_iterator (record {
              set = set;
              percentile_it = it;
              percentile_index = if ltb value x then suc f.percentile_index else f.percentile_index;
            }))
      ]

  -- The erasure of a value that is there, at `position`.
  unfoldable pub erase_position : ℕ → ℕ → PercentileFilter → Option PercentileFilter
  unfolding update_percentile_iterator
  erase_position value position f =
      let set = erase_at position f.set in
      let it = if ltb position f.percentile_it then f.percentile_it - 1 else f.percentile_it in
      if position == f.percentile_it
      then some (update_percentile_iterator (record f { set = set }))
      else elim (get_elem? set it) [
        | none ↦ none
        | some x ↦ some (
            update_percentile_iterator (record {
              set = set;
              percentile_it = it;
              percentile_index = if leb value x then f.percentile_index - 1 else f.percentile_index;
            }))
      ]

  unfoldable pub erase : ℕ → PercentileFilter → Option (Bool × PercentileFilter)
  unfolding erase_position lower_bound
  erase value f =
      let position = lower_bound value f.set in
      elim (get_elem? f.set position) [
        | none ↦ some (false, f)
        | some x ↦
            if not (x == value)
            then some (false, f)
            else elim (erase_position value position f) [ none ↦ none | some f' ↦ some (true, f') ]
      ]

abbrev pub get_percentile_value : PercentileFilter → Option ℕ
get_percentile_value f = if length f.set == 0 then some 0 else get_elem? f.set f.percentile_it

pub record MovingMedianFilter : Type 0 where
  pub percentile_filter : PercentileFilter
  pub samples : List ℕ
  pub samples_stored : ℕ
  pub window_size : ℕ

unfoldable pub new_median : ℕ → MovingMedianFilter
unfolding reset
new_median window_size = record {
  percentile_filter = reset;
  samples = [];
  samples_stored = 0;
  window_size = window_size;
}

unfoldable pub reset_median : MovingMedianFilter → MovingMedianFilter
unfolding reset
reset_median m = record m { percentile_filter = reset; samples = []; samples_stored = 0 }

-- front and pop_front of the samples; `none` is the front of no samples.
unfoldable pub drop_oldest : (ℕ → ℕ) → MovingMedianFilter → Option MovingMedianFilter
unfolding erase
drop_oldest rank m = elim m.samples [
  | [] ↦ none
  | oldest ∷ rest ↦ elim (erase rank oldest m.percentile_filter) [
    | none ↦ none
    | some (found, f) ↦
        some (record m {
          percentile_filter = f;
          samples = rest;
          samples_stored = m.samples_stored - 1;
        })
  ]
]

unfoldable pub insert_sample : (ℕ → ℕ) → ℕ → MovingMedianFilter → Option MovingMedianFilter
unfolding insert drop_oldest
insert_sample rank value m = elim (insert rank value m.percentile_filter) [
  | none ↦ none
  | some f ↦
      let m1 = record m {
        percentile_filter = f;
        samples = m.samples ++ (value ∷ []);
        samples_stored = suc m.samples_stored;
      } in
      if ltb m1.window_size m1.samples_stored then drop_oldest rank m1 else some m1
]

abbrev pub get_filtered_value : MovingMedianFilter → Option ℕ
get_filtered_value m = get_percentile_value m.percentile_filter
