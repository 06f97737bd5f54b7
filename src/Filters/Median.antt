-- ===== src/Filters/Median.antt =====
-- The moving median filter holds the latest samples, and gives their median.
use librtcbase.Prelude.{
  ℕ, ◌+◌, ◌-◌, ◌≤◌, ◌<◌, true, false, Option, none, some, List, [], ◌∷◌, ◌++◌, ◌==◌, leb, ltb,
  if◌then◌else◌, suc, zero, length, get_elem?, drop, drop-add, drop-nil, length-drop, append-nil,
  length-append, append_assoc, ◌≡◌, refl, arith, Bool-cases, inl, inr, ap, ◌∙◌, sym,
}
use mathlib.Core.Path.{subst}
use librtcbase.Filters.{
  reset, MovingMedianFilter, new_median, drop_oldest, insert_sample, get_filtered_value,
}
use librtcbase.Filters.Sorted.{is_sorted_from, count, is_sorted_from, one_if}
use librtcbase.Filters.Percentile.{
  get_percentile_value_lem, IsValid, reset-IsValid, insert_lem, erase_lem, get_percentile_value_lem,
}

-- The set holds the samples, of which there are as many as are stored, and not more than the window.
pub record IsFiltering (rank : ℕ → ℕ) (m : MovingMedianFilter) : Type 0 where
  pub filter : IsValid rank m.percentile_filter
  pub same_length : length m.percentile_filter.set ≡ length m.samples
  pub same_values : (y : ℕ) → count y m.percentile_filter.set ≡ count y m.samples
  pub stored : m.samples_stored ≡ length m.samples

new_median-IsFiltering :
    (rank : ℕ → ℕ) (window_size : ℕ) → IsFiltering rank (new_median window_size)
unfolding new_median reset
new_median-IsFiltering rank window_size = record {
  filter = reset-IsValid rank;
  same_length = refl;
  same_values = λ y. refl;
  stored = refl;
}

count-push :
    (y value : ℕ) (xs : List ℕ) → count y (xs ++ (value ∷ [])) ≡ one_if (y == value) + count y xs
count-push y value [] = ground (arith)
count-push y value (x ∷ xs) = ground (arith, count-push y value xs)

-- The latest `window_size` of the values.
abbrev pub latest : ℕ → List ℕ → List ℕ
latest window_size values = drop (length values - window_size) values

drop-append_le : (n : ℕ) (xs ys : List ℕ) → n ≤ length xs → drop n (xs ++ ys) ≡ drop n xs ++ ys
drop-append_le zero xs ys p = refl
drop-append_le (suc n) [] ys p = elim p [ ]
drop-append_le (suc n) (x ∷ xs) ys p = drop-append_le n xs ys (omega arith)

not_empty :
    (xs : List ℕ) (value : ℕ)
    → (x : ℕ) × ((rest : List ℕ) × ((xs ++ (value ∷ []) ≡ x ∷ rest)
          × (rest ≡ drop 1 (xs ++ (value ∷ [])))))
not_empty [] value = (value, ([], (refl, refl)))
not_empty (x ∷ xs) value = (x, (xs ++ (value ∷ []), (refl, refl)))

count-head : (x : ℕ) (xs : List ℕ) → 0 < count x (x ∷ xs)
count-head x xs = ground (arith)

-- The samples after one more: the oldest goes if there are more than the window.
abbrev pushed : ℕ → ℕ → List ℕ → List ℕ
pushed window_size value samples =
    if ltb window_size (suc (length samples))
    then drop 1 (samples ++ (value ∷ []))
    else samples ++ (value ∷ [])

pushed-latest :
    (window_size value : ℕ) (past : List ℕ)
    → pushed window_size value (latest window_size past) ≡ latest window_size (past ++ (value ∷ []))
pushed-latest window_size value past =
    let n = length past in
    let k = length-drop (n - window_size) past in
    let total : length (past ++ (value ∷ [])) ≡ n + 1 = length-append past (value ∷ []) in
    let tail : drop (n - window_size) (past ++ (value ∷ []))
        ≡ latest window_size past ++ (value ∷ []) =
      drop-append_le (n - window_size) past (value ∷ []) (omega arith) in
    elim (Bool-cases (leb window_size n)) [
      | inl p ↦
          let full : ltb window_size (suc (length (latest window_size past))) ≡ true =
            ground (arith, p, k) in
          let more : length (past ++ (value ∷ [])) - window_size ≡ (n - window_size) + 1 =
            ground (arith, p, total) in
          rw (full) (
            ap (drop 1) (sym tail)
            ∙ (sym (drop-add (n - window_size) 1 (past ++ (value ∷ [])))
                ∙ ap (λ i. drop i (past ++ (value ∷ []))) (sym more)))
      | inr p ↦
          let room : ltb window_size (suc (length (latest window_size past))) ≡ false =
            ground (arith, p, k) in
          let none : length (past ++ (value ∷ [])) - window_size ≡ n - window_size =
            ground (arith, p, total) in
          rw (room) (sym tail ∙ ap (λ i. drop i (past ++ (value ∷ []))) (sym none))
    ]

-- The values one after the other.
unfoldable pub insert_all : (ℕ → ℕ) → List ℕ → MovingMedianFilter → Option MovingMedianFilter
unfolding insert_sample
insert_all rank [] m = some m
insert_all rank (value ∷ rest) m = elim (insert_sample rank value m) [
  | none ↦ none
  | some m' ↦ insert_all rank rest m'
]

module _ (rank : ℕ → ℕ) (bounded : (n : ℕ) → rank n ≤ n) where
  drop_oldest_lem :
      (oldest : ℕ) (rest : List ℕ) (m : MovingMedianFilter)
      → m.samples ≡ oldest ∷ rest
      → IsFiltering rank m
      → (m' : MovingMedianFilter) × ((drop_oldest rank m ≡ some m')
          × (IsFiltering rank m' × ((m'.samples ≡ rest) × (m'.window_size ≡ m.window_size))))
  unfolding drop_oldest
  drop_oldest_lem oldest rest m s h =
      let there : 0 < count oldest m.percentile_filter.set =
        subst (λ k. 0 < k) (sym (h.same_values oldest ∙ ap (count oldest) s))
          (count-head oldest rest) in
      let (f', (e, (v, (shorter, counts)))) =
        erase_lem rank bounded oldest m.percentile_filter h.filter there in
      let longer : length m.samples ≡ suc (length rest) = ap length s in
      let same = h.same_length in
      let stored = h.stored in
      let value_counts : (y : ℕ) → count y f'.set ≡ count y rest =
        (λ y. ground (arith, counts y, h.same_values y, ap (count y) s)) in
      let m' : MovingMedianFilter = record m {
        percentile_filter = f';
        samples = rest;
        samples_stored = m.samples_stored - 1;
      } in
      (
        m',
        (
          rw (s, drop_oldest, e) refl,
          (
            record {
              filter = v;
              same_length = omega arith;
              same_values = value_counts;
              stored = omega arith;
            },
            (refl, refl),
          ),
        ),
      )

  insert_sample_lem :
      (value : ℕ) (m : MovingMedianFilter)
      → IsFiltering rank m
      → (m' : MovingMedianFilter) × ((insert_sample rank value m ≡ some m')
          × (IsFiltering rank m'
              × ((m'.samples ≡ pushed m.window_size value m.samples)
                  × (m'.window_size ≡ m.window_size))))
  unfolding insert_sample
  insert_sample_lem value m h =
      let (f, (e, (v, (longer, counts)))) =
        insert_lem rank bounded value m.percentile_filter h.filter in
      let samples = m.samples ++ (value ∷ []) in
      let m1 : MovingMedianFilter = record m {
        percentile_filter = f;
        samples = samples;
        samples_stored = suc m.samples_stored;
      } in
      let same = h.same_length in
      let stored = h.stored in
      let total : length samples ≡ length m.samples + 1 = length-append m.samples (value ∷ []) in
      let h1 : IsFiltering rank m1 = record {
        filter = v;
        same_length = omega arith;
        same_values = λ y. ground (arith, counts y, h.same_values y, count-push y value m.samples);
        stored = omega arith;
      } in
      elim (Bool-cases (ltb m.window_size (suc (length m.samples)))) [
        | inl p ↦
            let full : ltb m.window_size (suc m.samples_stored) ≡ true = rw (stored) p in
            let (oldest, (rest, (s, d))) = not_empty m.samples value in
            let (m2, (e2, (h2, (s2, w2)))) = drop_oldest_lem oldest rest m1 s h1 in
            (m2, (rw (e, insert_sample, full, e2) refl, (h2, (rw (p) (s2 ∙ d), w2))))
        | inr p ↦
            let room : ltb m.window_size (suc m.samples_stored) ≡ false = rw (stored) p in
            (m1, (rw (e, insert_sample, room) refl, (h1, (rw (p) refl, refl))))
      ]

  insert_all-latest :
      (past values : List ℕ) (m : MovingMedianFilter)
      → IsFiltering rank m
      → m.samples ≡ latest m.window_size past
      → (m' : MovingMedianFilter) × ((insert_all rank values m ≡ some m')
          × (IsFiltering rank m' × (m'.samples ≡ latest m.window_size (past ++ values))))
  unfolding insert_all
  insert_all-latest past [] m h s =
      (m, (refl, (h, s ∙ ap (latest m.window_size) (sym (append-nil past)))))
  insert_all-latest past (value ∷ rest) m h s =
      let (m1, (e1, (h1, (s1, w1)))) = insert_sample_lem value m h in
      let s2 : m1.samples ≡ latest m1.window_size (past ++ (value ∷ [])) =
        s1
        ∙ (ap (pushed m.window_size value) s
            ∙ (pushed-latest m.window_size value past
                ∙ ap (λ w. latest w (past ++ (value ∷ []))) (sym w1))) in
      let (m2, (e2, (h2, s3))) = insert_all-latest (past ++ (value ∷ [])) rest m1 h1 s2 in
      (
        m2,
        (
          rw (e1, insert_all) e2,
          (
            h2,
            s3
                ∙ (ap (λ w. latest w ((past ++ (value ∷ [])) ++ rest)) w1
                    ∙ ap (latest m.window_size) (append_assoc past (value ∷ []) rest)),
          ),
        ),
      )

-- The value at a rank of some values: the values in order, and the element at the rank.
pub IsAtRank : (ℕ → ℕ) → List ℕ → Option ℕ → Type 0
IsAtRank rank values result =
    (sorted : List ℕ) × ((is_sorted_from 0 sorted ≡ true)
      × (((y : ℕ) → count y sorted ≡ count y values)
          × (result ≡ get_elem? sorted (rank (length values - 1)))))

-- For a rank that is at most the number it is given, a window that is not empty and one value or
-- more: inserting the values into a new filter succeeds, and the filtered value is the element at
-- the rank of the latest values of the window, put in order.
pub insert_all-median :
    (rank : ℕ → ℕ) (window_size : ℕ) (values : List ℕ)
    → ((n : ℕ) → rank n ≤ n)
    → 0 < window_size
    → 0 < length values
    → (m : MovingMedianFilter) × ((insert_all rank values (new_median window_size) ≡ some m)
        × IsAtRank rank (latest window_size values) (get_filtered_value m))
unfolding IsAtRank new_median
insert_all-median rank window_size values bounded p q =
    let (m, (e, (h, s))) =
      insert_all-latest rank bounded [] values (new_median window_size)
        (new_median-IsFiltering rank window_size) (sym (drop-nil (0 - window_size))) in
    let f = m.percentile_filter in
    let k = length-drop (length values - window_size) values in
    let same : length f.set ≡ length (latest window_size values) = h.same_length ∙ ap length s in
    let full : (length f.set == 0) ≡ false = ground (arith, p, q, same, k) in
    (
      m,
      (
        e,
        (
          f.set,
          (
            h.filter.sorted,
            (
              (λ y. h.same_values y ∙ ap (count y) s),
              (get_percentile_value_lem rank bounded f h.filter full
                  ∙ ap (λ n. get_elem? f.set (rank (n - 1))) same),
            ),
          ),
        ),
      ),
    )
