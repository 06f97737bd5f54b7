-- ===== src/Filters/Sorted.antt =====
-- Lists in order, with the positions at which a multiset inserts and erases.
use librtcbase.Prelude.{
  ℕ, ◌+◌, ◌-◌, ◌≤◌, ◌<◌, Bool, true, false, ◌&&◌, some, List, [], ◌∷◌, ◌==◌, leb, ltb,
  if◌then◌else◌, suc, zero, length, get_elem?, ◌≡◌, refl, arith, Bool-cases, inl, inr, ap,
}
use librtcbase.Filters.{upper_bound, lower_bound, insert_at, erase_at}

abbrev pub count : ℕ → List ℕ → ℕ
count y [] = 0
count y (x ∷ xs) = let rest = count y xs in if y == x then suc rest else rest

-- In order, and not below `low`.
abbrev pub is_sorted_from : ℕ → List ℕ → Bool
is_sorted_from low [] = true
is_sorted_from low (x ∷ xs) = let rest = is_sorted_from x xs in leb low x && rest

abbrev pub one_if : Bool → ℕ
one_if true = 1
one_if false = 0

pub insert_at-sorted :
    (low value : ℕ) (xs : List ℕ)
    → low ≤ value
    → is_sorted_from low xs ≡ true
    → is_sorted_from low (insert_at (upper_bound value xs) value xs) ≡ true
unfolding upper_bound
insert_at-sorted low value [] p h = ground (arith, p)
insert_at-sorted low value (x ∷ xs) p h = elim (Bool-cases (ltb value x)) [
  | inl q ↦ ground (arith, p, q, h)
  | inr q ↦
      ground (arith, p, q, h, insert_at-sorted x value xs (ground (arith, q)) (ground (arith, h)))
]

pub count-insert_at :
    (y n value : ℕ) (xs : List ℕ)
    → count y (insert_at n value xs) ≡ one_if (y == value) + count y xs
count-insert_at y zero value xs = ground (arith)
count-insert_at y (suc n) value [] = ground (arith)
count-insert_at y (suc n) value (x ∷ xs) = ground (arith, count-insert_at y n value xs)

pub length-insert_at : (n value : ℕ) (xs : List ℕ) → length (insert_at n value xs) ≡ suc (length xs)
length-insert_at zero value xs = refl
length-insert_at (suc n) value [] = refl
length-insert_at (suc n) value (x ∷ xs) = ap suc (length-insert_at n value xs)

-- An element stays what it is when another one is inserted before it or after it.
pub get_elem?-insert_at :
    (n i value : ℕ) (xs : List ℕ)
    → i < length xs
    → get_elem? (insert_at n value xs) (if leb n i then suc i else i) ≡ get_elem? xs i
get_elem?-insert_at n i value [] p = elim p [ ]
get_elem?-insert_at zero i value (x ∷ xs) p = ground (arith)
get_elem?-insert_at (suc n) zero value (x ∷ xs) p = ground (arith)
get_elem?-insert_at (suc n) (suc i) value (x ∷ xs) p = elim (Bool-cases (leb n i)) [
  | inl q ↦ ground (arith, q, get_elem?-insert_at n i value xs (omega arith))
  | inr q ↦ ground (arith, q, get_elem?-insert_at n i value xs (omega arith))
]

sorted-get_elem? :
    (low i x : ℕ) (xs : List ℕ) → is_sorted_from low xs ≡ true → get_elem? xs i ≡ some x → low ≤ x
sorted-get_elem? low i x [] h p = ground (arith, p)
sorted-get_elem? low zero x (y ∷ ys) h p = ground (arith, h, p)
sorted-get_elem? low (suc i) x (y ∷ ys) h p =
    let b = sorted-get_elem? y i x ys (ground (arith, h)) p in ground (arith, h, b)

-- A value is below an element exactly if it is inserted before it.
pub upper_bound-before :
    (low value i x : ℕ) (xs : List ℕ)
    → is_sorted_from low xs ≡ true
    → get_elem? xs i ≡ some x
    → ltb value x ≡ leb (upper_bound value xs) i
unfolding upper_bound
upper_bound-before low value i x [] h p = ground (arith, p)
upper_bound-before low value zero x (y ∷ ys) h p = ground (arith, p)
upper_bound-before low value (suc i) x (y ∷ ys) h p =
    let b = sorted-get_elem? y i x ys (ground (arith, h)) p in
    let rest = upper_bound-before y value i x ys (ground (arith, h)) p in ground (arith, b, rest)

pub erase_at-sorted :
    (low n : ℕ) (xs : List ℕ)
    → is_sorted_from low xs ≡ true
    → is_sorted_from low (erase_at n xs) ≡ true
erase_at-sorted low n [] h = refl
erase_at-sorted low zero (x ∷ []) h = refl
erase_at-sorted low zero (x ∷ (y ∷ ys)) h = ground (arith, h)
erase_at-sorted low (suc n) (x ∷ xs) h =
    ground (arith, h, erase_at-sorted x n xs (ground (arith, h)))

pub count-erase_at :
    (y n value : ℕ) (xs : List ℕ)
    → get_elem? xs n ≡ some value
    → count y xs ≡ one_if (y == value) + count y (erase_at n xs)
count-erase_at y n value [] p = ground (arith, p)
count-erase_at y zero value (x ∷ xs) p = ground (arith, p)
count-erase_at y (suc n) value (x ∷ xs) p = ground (arith, count-erase_at y n value xs p)

pub length-erase_at :
    (n value : ℕ) (xs : List ℕ)
    → get_elem? xs n ≡ some value
    → length xs ≡ suc (length (erase_at n xs))
length-erase_at n value [] p = ground (arith, p)
length-erase_at zero value (x ∷ xs) p = refl
length-erase_at (suc n) value (x ∷ xs) p = ap suc (length-erase_at n value xs p)

pub get_elem?-erase_at :
    (n i : ℕ) (xs : List ℕ)
    → (n == i) ≡ false
    → get_elem? (erase_at n xs) (if ltb n i then i - 1 else i) ≡ get_elem? xs i
get_elem?-erase_at n i [] p = ground (arith)
get_elem?-erase_at zero zero (x ∷ xs) p = ground (arith, p)
get_elem?-erase_at zero (suc i) (x ∷ xs) p = ground (arith)
get_elem?-erase_at (suc n) zero (x ∷ xs) p = ground (arith)
get_elem?-erase_at (suc n) (suc zero) (x ∷ xs) p =
    ground (arith, p, get_elem?-erase_at n zero xs (ground (arith, p)))
get_elem?-erase_at (suc n) (suc (suc i)) (x ∷ xs) p =
    ground (arith, p, get_elem?-erase_at n (suc i) xs (ground (arith, p)))

-- A value is not above an element, other than its first place, exactly if its first place is before.
pub lower_bound-before :
    (low value i x : ℕ) (xs : List ℕ)
    → is_sorted_from low xs ≡ true
    → get_elem? xs i ≡ some x
    → (lower_bound value xs == i) ≡ false
    → leb value x ≡ ltb (lower_bound value xs) i
unfolding lower_bound
lower_bound-before low value i x [] h p q = ground (arith, p)
lower_bound-before low value zero x (y ∷ ys) h p q = ground (arith, p, q)
lower_bound-before low value (suc i) x (y ∷ ys) h p q =
    let b = sorted-get_elem? y i x ys (ground (arith, h)) p in
    elim (Bool-cases (ltb y value)) [
      | inl r ↦ ground (
        arith,
        b,
        r,
        q,
        lower_bound-before y value i x ys (ground (arith, h)) p (ground (arith, q, r)),
      )
      | inr r ↦ ground (arith, b, r)
    ]

count-below :
    (low value : ℕ) (xs : List ℕ) → value < low → is_sorted_from low xs ≡ true → count value xs ≡ 0
count-below low value [] p h = refl
count-below low value (x ∷ xs) p h =
    let q : value < x = ground (arith, p, h) in
    ground (arith, q, count-below x value xs q (ground (arith, h)))

-- A value that is there is found.
pub lower_bound-found :
    (low value : ℕ) (xs : List ℕ)
    → is_sorted_from low xs ≡ true
    → 0 < count value xs
    → get_elem? xs (lower_bound value xs) ≡ some value
unfolding lower_bound
lower_bound-found low value [] h p = elim p [ ]
lower_bound-found low value (x ∷ xs) h p =
    let none_below : value < x → count value xs ≡ 0 =
      (λ q. count-below x value xs q (ground (arith, h))) in
    elim (Bool-cases (ltb x value)) [
      | inl q ↦
          ground (arith, q, lower_bound-found x value xs (ground (arith, h)) (ground (arith, p, q)))
      | inr q ↦ ground (arith, p, q, none_below)
    ]
