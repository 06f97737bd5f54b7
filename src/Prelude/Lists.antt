-- ===== src/Prelude/Lists.antt =====
-- Lists measured and indexed by native numbers, under the library's names.
use Prim.Native.Nat.{ℕ, zero, suc, ◌+◌, ◌-◌, ◌≤◌, ◌<◌, min}
use mathlib.Core.Path.{◌≡◌, refl, ap, ap₂, ◌∙◌, sym}
use mathlib.Core.Logic.{◌≢◌}
use mathlib.Core.List.{List, [], ◌∷◌, ◌++◌, map}
use mathlib.Core.Option.{Option, none, some}
use native.Mathlib.Omega.{arith}

module _ {ℓ} {A : Type ℓ} where
  abbrev pub length : List A → ℕ
  length [] = 0
  length (x ∷ xs) = suc (length xs)

  abbrev pub get_elem? : List A → ℕ → Option A
  get_elem? [] i = none
  get_elem? (x ∷ xs) zero = some x
  get_elem? (x ∷ xs) (suc i) = get_elem? xs i

  -- A write out of bounds changes nothing.
  abbrev pub set : List A → ℕ → A → List A
  set [] i v = []
  set (x ∷ xs) zero v = v ∷ xs
  set (x ∷ xs) (suc i) v = x ∷ set xs i v

  pub length-append : (xs ys : List A) → length (xs ++ ys) ≡ length xs + length ys
  length-append [] ys = omega arith
  length-append (x ∷ xs) ys = omega (arith, length-append xs ys)

module _ {ℓ} {A : Type ℓ} where
  pub length-set : (xs : List A) (i : ℕ) (v : A) → length (set xs i v) ≡ length xs
  length-set [] i v = refl
  length-set (x ∷ xs) zero v = refl
  length-set (x ∷ xs) (suc i) v = ap suc (length-set xs i v)

  pub get_elem?-set_self :
      (xs : List A) (i : ℕ) (v : A) → i < length xs → get_elem? (set xs i v) i ≡ some v
  get_elem?-set_self [] i v h = elim h [ ]
  get_elem?-set_self (x ∷ xs) zero v h = refl
  get_elem?-set_self (x ∷ xs) (suc i) v h = get_elem?-set_self xs i v (omega arith)

  pub get_elem?-set_ne :
      (xs : List A) {i j : ℕ} (v : A) → i ≢ j → get_elem? (set xs i v) j ≡ get_elem? xs j
  get_elem?-set_ne [] v h = refl
  get_elem?-set_ne (x ∷ xs) {i = zero} {j = zero} v h = absurd (h refl)
  get_elem?-set_ne (x ∷ xs) {i = zero} {j = suc j} v h = refl
  get_elem?-set_ne (x ∷ xs) {i = suc i} {j = zero} v h = refl
  get_elem?-set_ne (x ∷ xs) {i = suc i} {j = suc j} v h = get_elem?-set_ne xs v (λ e. h (ap suc e))

module _ {ℓ} {A : Type ℓ} where
  abbrev pub get_or : List A → ℕ → A → A
  get_or [] i d = d
  get_or (x ∷ xs) zero d = x
  get_or (x ∷ xs) (suc i) d = get_or xs i d

  abbrev pub take : ℕ → List A → List A
  take zero xs = []
  take (suc n) [] = []
  take (suc n) (x ∷ xs) = x ∷ take n xs

  abbrev pub drop : ℕ → List A → List A
  drop zero xs = xs
  drop (suc n) [] = []
  drop (suc n) (x ∷ xs) = drop n xs

  abbrev pub replicate : ℕ → A → List A
  replicate zero a = []
  replicate (suc n) a = a ∷ replicate n a

  pub take-append-drop : (n : ℕ) (xs : List A) → take n xs ++ drop n xs ≡ xs
  take-append-drop zero xs = refl
  take-append-drop (suc n) [] = refl
  take-append-drop (suc n) (x ∷ xs) = rw (take-append-drop n xs)

  pub take_append_drop : (n : ℕ) (xs : List A) → take n xs ++ drop n xs ≡ xs
  take_append_drop zero xs = refl
  take_append_drop (suc n) [] = refl
  take_append_drop (suc n) (x ∷ xs) = ap (x ∷◌) (take_append_drop n xs)

  pub length-take : (n : ℕ) (xs : List A) → length (take n xs) ≡ min n (length xs)
  length-take zero xs = omega arith
  length-take (suc n) [] = omega arith
  length-take (suc n) (x ∷ xs) = omega (arith, length-take n xs)

  pub length-drop : (n : ℕ) (xs : List A) → length (drop n xs) ≡ length xs - n
  length-drop zero xs = omega arith
  length-drop (suc n) [] = omega arith
  length-drop (suc n) (x ∷ xs) = omega (arith, length-drop n xs)

  pub length-replicate : (n : ℕ) (a : A) → length (replicate n a) ≡ n
  length-replicate zero a = refl
  length-replicate (suc n) a = ap suc (length-replicate n a)

  pub length-map {κ} : {B : Type κ} (xs : List A) (f : A → B) → length (map f xs) ≡ length xs
  length-map [] f = refl
  length-map (x ∷ xs) f = ap suc (length-map xs f)

pub take-nil {ℓ} : {A : Type ℓ} (n : ℕ) → take {A = A} n [] ≡ []
take-nil zero = refl
take-nil (suc n) = refl

pub drop-nil {ℓ} : {A : Type ℓ} (n : ℕ) → drop {A = A} n [] ≡ []
drop-nil zero = refl
drop-nil (suc n) = refl

-- Pieces of a memory block, and writes into it.
module _ {ℓ} {A : Type ℓ} where
  -- The `n` elements from index `i` on.
  abbrev pub slice : List A → ℕ → ℕ → List A
  slice xs i n = take n (drop i xs)

  -- `memcpy(mem + off, vals, length vals)`.
  abbrev pub write_at : List A → ℕ → List A → List A
  write_at mem off vals = take off mem ++ (vals ++ drop (off + length vals) mem)

  pub take-append : (xs ys : List A) {n : ℕ} → n ≡ length xs → take n (xs ++ ys) ≡ xs
  take-append [] ys e = rw e
  take-append (x ∷ xs) ys e = rw e (ap (λ t. x ∷ t) (take-append xs ys refl))

  pub drop-append : (xs ys : List A) {n : ℕ} → n ≡ length xs → drop n (xs ++ ys) ≡ ys
  drop-append [] ys e = rw e
  drop-append (x ∷ xs) ys e = rw e (drop-append xs ys refl)

  pub take_all : (xs : List A) {n : ℕ} → n ≡ length xs → take n xs ≡ xs
  take_all [] e = rw e
  take_all (x ∷ xs) e = rw e (ap (λ t. x ∷ t) (take_all xs refl))

  pub take_all_le : (xs : List A) (n : ℕ) → length xs ≤ n → take n xs ≡ xs
  take_all_le [] n h = take-nil n
  take_all_le (x ∷ xs) zero h = absurd (omega arith)
  take_all_le (x ∷ xs) (suc n) h = ap (λ t. x ∷ t) (take_all_le xs n (omega arith))

  pub drop_all : (xs : List A) {n : ℕ} → length xs ≡ n → drop n xs ≡ []
  drop_all [] e = rw (← e)
  drop_all (x ∷ xs) e = rw (← e) (drop_all xs refl)

  pub take-take : (n : ℕ) (xs : List A) {m : ℕ} → n ≤ m → take n (take m xs) ≡ take n xs
  take-take zero xs h = refl
  take-take (suc n) xs {m = zero} h = absurd (omega arith)
  take-take (suc n) [] {m = suc m} h = refl
  take-take (suc n) (x ∷ xs) {m = suc m} h = ap (λ t. x ∷ t) (take-take n xs (omega arith))

  pub drop-take : (n m : ℕ) (xs : List A) → drop n (take (n + m) xs) ≡ take m (drop n xs)
  drop-take zero m xs = ap (λ k. take k xs) (omega arith)
  drop-take (suc n) m [] = ap (drop (suc n)) (take-nil (suc n + m)) ∙ sym (take-nil m)
  drop-take (suc n) m (x ∷ xs) =
      ap (λ k. drop (suc n) (take k (x ∷ xs))) {x = suc n + m} {y = suc (n + m)} (omega arith)
      ∙ drop-take n m xs

  pub take-add : (n m : ℕ) (xs : List A) → take (n + m) xs ≡ take n xs ++ take m (drop n xs)
  take-add zero m xs = ap (λ k. take k xs) (omega arith)
  take-add (suc n) m [] = take-nil (suc n + m) ∙ sym (take-nil m)
  take-add (suc n) m (x ∷ xs) =
      ap (λ k. take k (x ∷ xs)) {x = suc n + m} {y = suc (n + m)} (omega arith)
      ∙ ap (λ t. x ∷ t) (take-add n m xs)

  pub drop-add : (n m : ℕ) (xs : List A) → drop (n + m) xs ≡ drop m (drop n xs)
  drop-add zero m xs = ap (λ k. drop k xs) (omega arith)
  drop-add (suc n) m [] = drop-nil (suc n + m) ∙ sym (drop-nil m)
  drop-add (suc n) m (x ∷ xs) =
      ap (λ k. drop k (x ∷ xs)) {x = suc n + m} {y = suc (n + m)} (omega arith) ∙ drop-add n m xs

  pub length-slice : (xs : List A) (i n : ℕ) → i + n ≤ length xs → length (slice xs i n) ≡ n
  length-slice xs i n h = omega (arith, length-take n (drop i xs), length-drop i xs)

  -- A write inside the block keeps its length.
  pub length-write_at :
      (mem : List A) (off : ℕ) (vals : List A)
      → off + length vals ≤ length mem
      → length (write_at mem off vals) ≡ length mem
  length-write_at mem off vals h = omega (
    arith,
    length-append (take off mem) (vals ++ drop (off + length vals) mem),
    length-append vals (drop (off + length vals) mem),
    length-take off mem,
    length-drop (off + length vals) mem,
  )

  -- A write at the end of a piece extends the piece by what is written.
  pub slice-write_at :
      (mem : List A) (start n : ℕ) (vals : List A) (end : ℕ)
      → start + n ≡ end
      → end ≤ length mem
      → slice (write_at mem end vals) start (n + length vals) ≡ slice mem start n ++ vals
  slice-write_at mem zero n vals end e h =
      take-add n (length vals) (write_at mem end vals)
      ∙ ap₂ ◌++◌ (take-append (take end mem) _ fits ∙ ap (λ k. take k mem) (omega arith))
          (ap (take (length vals)) (drop-append (take end mem) _ fits) ∙ take-append vals _ refl)
    where
      fits : n ≡ length (take end mem)
      fits = omega (arith, length-take end mem)
  slice-write_at [] (suc i) n vals zero e h = absurd (omega arith)
  slice-write_at [] (suc i) n vals (suc end) e h = absurd (omega arith)
  slice-write_at (x ∷ mem) (suc i) n vals zero e h = absurd (omega arith)
  slice-write_at (x ∷ mem) (suc i) n vals (suc end) e h =
      ap (λ k. take (n + length vals) (drop i (take end mem ++ (vals ++ drop k (x ∷ mem)))))
        {x = suc end + length vals} {y = suc (end + length vals)} (omega arith)
      ∙ slice-write_at mem i n vals end (omega arith) (omega arith)
