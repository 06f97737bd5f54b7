-- ===== src/Filters/Percentile.antt =====
-- The percentile filter keeps its iterator at the element of its rank.
use librtcbase.Prelude.{
  ℕ, ◌+◌, ◌-◌, ◌≤◌, ◌<◌, true, false, some, List, [], ◌∷◌, ◌==◌, leb, ltb, if◌then◌else◌, suc, zero,
  length, get_elem?, ◌≡◌, refl, arith, Bool-cases, Option-cases, inl, inr, ap, ◌∙◌, sym,
}
use librtcbase.Filters.{
  PercentileFilter, reset, upper_bound, lower_bound, insert_at, erase_at,
  update_percentile_iterator, insert, erase_position, erase, get_percentile_value,
}
use librtcbase.Filters.Sorted.{
  count, is_sorted_from, one_if, insert_at-sorted, count-insert_at, length-insert_at,
  get_elem?-insert_at, upper_bound-before, erase_at-sorted, count-erase_at, length-erase_at,
  get_elem?-erase_at, lower_bound-before, lower_bound-found,
}

-- The set is in order; the index is that of the iterator, and of the rank unless the set is empty.
pub record IsValid (rank : ℕ → ℕ) (f : PercentileFilter) : Type 0 where
  pub sorted : is_sorted_from 0 f.set ≡ true
  pub index : f.percentile_it ≡ f.percentile_index
  pub ranked : f.percentile_it ≡ (if length f.set == 0 then 0 else rank (length f.set - 1))

pub reset-IsValid : (rank : ℕ → ℕ) → IsValid rank reset
unfolding reset
reset-IsValid rank = record { sorted = refl; index = refl; ranked = refl }

pub get_elem?-in : (xs : List ℕ) (i : ℕ) → i < length xs → (x : ℕ) × (get_elem? xs i ≡ some x)
get_elem?-in [] i p = elim p [ ]
get_elem?-in (x ∷ xs) zero p = (x, refl)
get_elem?-in (x ∷ xs) (suc i) p = get_elem?-in xs i (omega arith)

pub get_elem?-below : (xs : List ℕ) (i x : ℕ) → get_elem? xs i ≡ some x → i < length xs
get_elem?-below [] i x p = ground (arith, p)
get_elem?-below (y ∷ ys) zero x p = omega arith
get_elem?-below (y ∷ ys) (suc i) x p = let rest = get_elem?-below ys i x p in omega arith

same_refl : (n : ℕ) → (n == n) ≡ true
same_refl n = ground (arith)

update-set : (rank : ℕ → ℕ) (f : PercentileFilter) → (update_percentile_iterator rank f).set ≡ f.set
unfolding update_percentile_iterator
update-set rank f = ground (arith)

module _ (rank : ℕ → ℕ) (bounded : (n : ℕ) → rank n ≤ n) where
  update-IsValid :
      (f : PercentileFilter)
      → is_sorted_from 0 f.set ≡ true
      → f.percentile_it ≡ f.percentile_index
      → (length f.set ≡ 0 → f.percentile_it ≡ 0)
      → IsValid rank (update_percentile_iterator rank f)
  unfolding update_percentile_iterator
  update-IsValid f s i z = elim (Bool-cases (length f.set == 0)) [
    | inl p ↦ rw (p) (record { sorted = s; index = i; ranked = ground (arith, p, z) })
    | inr p ↦ rw (p) (record { sorted = s; index = omega arith; ranked = ground (arith, p, i) })
  ]

  -- The iterator of a set that is not empty is at an element.
  it-below :
      (f : PercentileFilter)
      → IsValid rank f
      → (length f.set == 0) ≡ false
      → f.percentile_it < length f.set
  it-below f v p = let b = bounded (length f.set - 1) in ground (arith, v.ranked, p, b)

  -- x
  pub insert_lem :
      (value : ℕ) (f : PercentileFilter)
      → IsValid rank f
      → (f' : PercentileFilter) × ((insert rank value f ≡ some f')
          × (IsValid rank f'
              × ((length f'.set ≡ suc (length f.set))
                  × ((y : ℕ) → count y f'.set ≡ one_if (y == value) + count y f.set))))
  unfolding insert
  insert_lem value f v =
      let n = upper_bound value f.set in
      let xs = insert_at n value f.set in
      let b = leb n f.percentile_it in
      let it = if b then suc f.percentile_it else f.percentile_it in
      let longer : length xs ≡ suc (length f.set) = length-insert_at n value f.set in
      let sorted = insert_at-sorted 0 value f.set (omega arith) v.sorted in
      let counts : (y : ℕ) → count y xs ≡ one_if (y == value) + count y f.set =
        (λ y. count-insert_at y n value f.set) in
      let first : PercentileFilter = record { set = xs; percentile_it = 0; percentile_index = 0 } in
      let moved : PercentileFilter = record {
        set = xs;
        percentile_it = it;
        percentile_index = it;
      } in
      elim (Bool-cases (length f.set == 0)) [
        | inl p ↦
            let one : (length xs == 1) ≡ true = ground (arith, p, longer) in
            (
              update_percentile_iterator rank first,
              (
                rw (one) refl,
                (
                  update-IsValid first sorted refl (λ q. refl),
                  (
                    ap length (update-set rank first) ∙ longer,
                    λ y. ap (count y) (update-set rank first) ∙ counts y,
                  ),
                ),
              ),
            )
        | inr p ↦
            let one : (length xs == 1) ≡ false = ground (arith, p, longer) in
            let (x, e) = get_elem?-in f.set f.percentile_it (it-below f v p) in
            let found : get_elem? xs it ≡ some x =
              get_elem?-insert_at n f.percentile_it value f.set (it-below f v p) ∙ e in
            let before : ltb value x ≡ b =
              upper_bound-before 0 value f.percentile_it x f.set v.sorted e in
            (
              update_percentile_iterator rank moved,
              (
                rw (one, found, before, sym v.index) refl,
                (
                  update-IsValid moved sorted refl (λ q. ground (arith, longer, q)),
                  (
                    ap length (update-set rank moved) ∙ longer,
                    λ y. ap (count y) (update-set rank moved) ∙ counts y,
                  ),
                ),
              ),
            )
      ]

  erase_position_lem :
      (value : ℕ) (f : PercentileFilter)
      → IsValid rank f
      → get_elem? f.set (lower_bound value f.set) ≡ some value
      → (let n = lower_bound value f.set in
          (f' : PercentileFilter) × ((erase_position rank value n f ≡ some f')
            × (IsValid rank f' × (f'.set ≡ erase_at n f.set))))
  unfolding erase_position
  erase_position_lem value f v there =
      let n = lower_bound value f.set in
      let xs = erase_at n f.set in
      let it = if ltb n f.percentile_it then f.percentile_it - 1 else f.percentile_it in
      let shorter : length f.set ≡ suc (length xs) = length-erase_at n value f.set there in
      let sorted = erase_at-sorted 0 n f.set v.sorted in
      let full : (length f.set == 0) ≡ false = ground (arith, shorter) in
      let below = it-below f v full in
      let followed : PercentileFilter = record f { set = xs } in
      let moved : PercentileFilter = record {
        set = xs;
        percentile_it = it;
        percentile_index = it;
      } in
      elim (Bool-cases (n == f.percentile_it)) [
        | inl p ↦
            let at_end : length xs ≡ 0 → f.percentile_it ≡ 0 = (λ q. omega arith) in
            (
              update_percentile_iterator rank followed,
              (
                rw (p) refl,
                (update-IsValid followed sorted v.index at_end, update-set rank followed),
              ),
            )
        | inr p ↦
            let (x, e) = get_elem?-in f.set f.percentile_it below in
            let found : get_elem? xs it ≡ some x =
              get_elem?-erase_at n f.percentile_it f.set p ∙ e in
            let before : leb value x ≡ ltb n f.percentile_it =
              lower_bound-before 0 value f.percentile_it x f.set v.sorted e p in
            (
              update_percentile_iterator rank moved,
              (
                rw (p, found, before, sym v.index) refl,
                (
                  update-IsValid moved sorted refl (λ q. ground (arith, below, shorter, q)),
                  update-set rank moved,
                ),
              ),
            )
      ]

  -- x
  pub erase_lem :
      (value : ℕ) (f : PercentileFilter)
      → IsValid rank f
      → 0 < count value f.set
      → (f' : PercentileFilter) × ((erase rank value f ≡ some (true, f'))
          × (IsValid rank f'
              × ((length f.set ≡ suc (length f'.set))
                  × ((y : ℕ) → count y f.set ≡ one_if (y == value) + count y f'.set))))
  unfolding erase
  erase_lem value f v p =
      let n = lower_bound value f.set in
      let there = lower_bound-found 0 value f.set v.sorted p in
      let (f', (e, (v', same))) = erase_position_lem value f v there in
      (
        f',
        (
          rw (there, erase, same_refl value, e) refl,
          (
            v',
            (
              length-erase_at n value f.set there ∙ ap (λ s. suc (length s)) (sym same),
              λ y.
                  count-erase_at y n value f.set there
                  ∙ ap (λ s. one_if (y == value) + count y s) (sym same),
            ),
          ),
        ),
      )

  -- x
  pub erase_absent :
      (value : ℕ) (f : PercentileFilter)
      → count value f.set ≡ 0
      → erase rank value f ≡ some (false, f)
  unfolding erase
  erase_absent value f p = elim (Option-cases (get_elem? f.set (lower_bound value f.set))) [
    | inl q ↦ rw (q, erase) refl
    | inr (x, q) ↦
        let other : (x == value) ≡ false =
          ground (arith, p, count-erase_at value (lower_bound value f.set) x f.set q) in
        rw (q, erase, other) refl
  ]

  -- The percentile value is the element of the set at the rank.
  pub get_percentile_value_lem :
      (f : PercentileFilter)
      → IsValid rank f
      → (length f.set == 0) ≡ false
      → get_percentile_value f ≡ get_elem? f.set (rank (length f.set - 1))
  get_percentile_value_lem f v p = ground (arith, v.ranked, p)
