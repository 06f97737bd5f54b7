-- ===== src/Buffer/Laws.antt =====
-- BufferT: its invariant, and what each operation does to the elements that the buffer holds.
use librtcbase.Prelude.{
  memcmp_eq, memcmp_eq_sound, memcmp_eq_refl, ℕ, ◌+◌, ◌/◌, ◌^◌, ◌≤◌, ◌<◌, max, ◌≡◌, ◌↔◌, refl, sym,
  ap, ap₂, ◌∙◌, inl, inr, Bool, true, false, List, [], ◌++◌, length, take, drop, replicate, slice,
  write_at, leb, ◌==◌, if◌then◌else◌, ==_iff, Bool-cases, tests, add_size, arith, some, none,
  length-write_at, length-replicate, length-take, length-slice, slice-write_at, take-append,
  drop-append, take-add, take-take,
}
use librtcbase.Buffer.{
  Buffer, cells, contents, of_size, of_data, equals, ensure_capacity_with_headroom, append_data,
  set_data, set_size, append_data_with, clear, on_moved_from, move_from, is_consistent,
}

-- The storage has the capacity's length, and the elements lie in it.
pub record IsValid (b : Buffer) : Type 0 where
  pub whole : length (cells b.storage) ≡ b.capacity
  pub within : b.size ≤ b.capacity
  pub addressable : b.capacity < 2 ^ 64

pub length-contents : {b : Buffer} → IsValid b → length (contents b) ≡ b.size
length-contents {b} v = omega (arith, v, length-take b.size (cells b.storage))

-- A valid buffer meets the precondition that the source states for its methods.
pub is_consistent_lem : (b : Buffer) → IsValid b → is_consistent b ≡ true
unfolding is_consistent
is_consistent_lem b v = elim b.storage [ none ↦ ground (arith, v) | some mem ↦ ground (arith, v) ]

module _ (b : Buffer) (n : ℕ) (headroom : Bool) (v : IsValid b) (fits : n < 2 ^ 64) where
  abbrev bigger : ℕ
  bigger = if headroom then max n (add_size b.capacity (b.capacity / 2)) else n

  bigger_lem : (n ≤ bigger) × (bigger < 2 ^ 64)
  bigger_lem = ground arith

  record Room (b' : Buffer) : Type 0 where
    valid : IsValid b'
    same_size : b'.size ≡ b.size
    same : contents b' ≡ contents b
    room : n ≤ b'.capacity

  grown :
      leb n b.capacity ≡ false
      → Room (record b {
        storage = some (write_at (replicate bigger 0) 0 (take b.size (cells b.storage)));
        capacity = bigger;
      })
  grown p = record {
    valid = omega (
      arith,
      bigger_lem,
      small,
      len,
      length-write_at (replicate bigger 0) 0 (contents b),
      length-replicate {A = ℕ} bigger 0,
    );
    same_size = refl;
    same =
        ap (λ k. take k (write_at (replicate bigger 0) 0 (contents b))) (sym len)
        ∙ take-append (contents b) _ refl;
    room = bigger_lem.0;
  }
    where
      len : length (contents b) ≡ b.size
      len = length-contents v

      small : b.size ≤ n
      small = ground (arith, p, v)

  ensure-Room : Room (ensure_capacity_with_headroom b n headroom)
  unfolding ensure_capacity_with_headroom
  ensure-Room = elim (Bool-cases (leb n b.capacity)) [
    | inl p ↦ rw p (record { valid = v; same_size = refl; same = refl; room = omega (tests, p) })
    | inr p ↦ rw p (grown p)
  ]

-- Asking a valid buffer for a capacity below 2 ^ 64, with or without headroom, keeps it valid and
-- its elements, and makes its capacity at least as large.
pub ensure_capacity_lem :
    (b : Buffer) (n : ℕ) (headroom : Bool)
    → IsValid b
    → n < 2 ^ 64
    → IsValid (ensure_capacity_with_headroom b n headroom)
      × (contents (ensure_capacity_with_headroom b n headroom) ≡ contents b)
      × (n ≤ (ensure_capacity_with_headroom b n headroom).capacity)
ensure_capacity_lem b n headroom v fits =
    let r = ensure-Room b n headroom v fits in (r.valid, r.same, r.room)

-- Elements written at the size of a buffer with room for them are appended.
module _ (b : Buffer) (v : IsValid b) (elements : List ℕ)
    (room : b.size + length elements ≤ b.capacity) where
  abbrev written : Buffer
  written = record b {
    storage = some (write_at (cells b.storage) b.size elements);
    size = b.size + length elements;
  }

  written-IsValid : IsValid written
  written-IsValid = omega (arith, v, room, length-write_at (cells b.storage) b.size elements)

  contents-written : contents written ≡ contents b ++ elements
  contents-written =
      slice-write_at (cells b.storage) 0 b.size elements b.size (omega arith) (omega (arith, v))

-- Appending to a valid buffer keeps it valid and leaves its elements with the new ones behind them,
-- if the new size is below 2 ^ 64.
pub append_data_lem :
    (b : Buffer) (elements : List ℕ)
    → IsValid b
    → b.size + length elements < 2 ^ 64
    → IsValid (append_data b elements)
      × (contents (append_data b elements) ≡ contents b ++ elements)
unfolding append_data
append_data_lem b elements v fits =
    let r = ensure-Room b (add_size b.size (length elements)) true v (omega arith) in
    let b' = ensure_capacity_with_headroom b (add_size b.size (length elements)) true in
    let eq : add_size b.size (length elements) ≡ b'.size + length elements = omega (arith, r) in
    let room : b'.size + length elements ≤ b'.capacity = omega (arith, r) in
    (
      omega (arith, eq, written-IsValid b' r.valid elements room),
      ap (λ k. take k (write_at (cells b'.storage) b'.size elements)) eq
          ∙ contents-written b' r.valid elements room
          ∙ ap (λ t. t ++ elements) r.same,
    )

-- Setting the data keeps the invariant and leaves exactly the new elements.
pub set_data_lem :
    (b : Buffer) (elements : List ℕ)
    → IsValid b
    → length elements < 2 ^ 64
    → IsValid (set_data b elements) × (contents (set_data b elements) ≡ elements)
unfolding set_data
set_data_lem b elements v fits = append_data_lem (clear b) elements (omega (arith, v)) (omega arith)

-- Two valid buffers compare equal exactly when they hold the same elements.
pub equals_iff :
    (a b : Buffer) → IsValid a → IsValid b → (equals a b ≡ true) ↔ (contents a ≡ contents b)
unfolding equals
equals_iff a b va vb = elim (Bool-cases (a.size == b.size)) [
  | inl p ↦
      rw (p, (==_iff a.size b.size).0 p)
        (memcmp_eq_sound _ _, λ h. ap (memcmp_eq _) (sym h) ∙ memcmp_eq_refl _)
  | inr p ↦ rw p (
    λ h. ground (arith, h),
    λ h. ground (arith, p, ap length h, length-contents va, length-contents vb),
  )
]

-- A buffer built from elements, at any capacity asked for, is valid and holds them.
pub of_data_lem :
    (elements : List ℕ) (capacity : ℕ)
    → length elements < 2 ^ 64
    → capacity < 2 ^ 64
    → IsValid (of_data elements capacity) × (contents (of_data elements capacity) ≡ elements)
unfolding of_data of_size
of_data_lem elements capacity h k = (
  omega (
    arith,
    length-replicate {A = ℕ} (max (length elements) capacity) 0,
    length-write_at (replicate (max (length elements) capacity) 0) 0 elements,
  ),
  take-append elements _ refl,
)

-- Moving from a valid buffer, with or without NDEBUG, gives a valid buffer with its elements; what
-- is left is consistent exactly under NDEBUG, and clearing it makes it a valid empty buffer.
pub move_from_lem :
    (ndebug : Bool) (b : Buffer)
    → IsValid b
    → (let (target, rest) = move_from ndebug b in
        IsValid target
        × (contents target ≡ contents b)
        × IsValid (clear rest)
        × (contents (clear rest) ≡ [])
        × (is_consistent rest ≡ ndebug))
unfolding move_from on_moved_from is_consistent
move_from_lem true b v = (ground (arith, v), refl, ground arith, refl, refl)
move_from_lem false b v = (ground (arith, v), refl, ground arith, refl, refl)

-- The first `w` of the elements written behind the first `n` of the memory.
take-write_at :
    (mem : List ℕ) (n : ℕ) (view : List ℕ) (w : ℕ)
    → n ≤ length mem
    → w ≤ length view
    → take (n + w) (write_at mem n view) ≡ take n mem ++ take w view
take-write_at mem n view w h k =
    take-add n w (write_at mem n view)
    ∙ ap₂ ◌++◌ (take-append (take n mem) _ len) (
        ap (take w) (drop-append (take n mem) _ len)
        ∙ sym (take-take w (view ++ drop (n + length view) mem) k)
        ∙ ap (take w) (take-append view _ refl))
  where
    len : n ≡ length (take n mem)
    len = omega (arith, length-take n mem)

module _ (b : Buffer) (max_elements : ℕ) (setter : List ℕ → ℕ × List ℕ) (v : IsValid b)
    (fits : b.size + max_elements < 2 ^ 64)
    (keeps : (view : List ℕ)
      → length view ≡ max_elements
      → (length (setter view).1 ≡ max_elements) × ((setter view).0 ≤ max_elements)) where
  -- If a setter, given a view of the length asked for, leaves a view of that length and writes no
  -- more elements than it, and the size with that length is below 2 ^ 64, then appending to a valid
  -- buffer through the setter returns the count that the setter returned for a view of that length,
  -- keeps the buffer valid, and puts that many of the first elements of the view it left behind
  -- those of the buffer.
  pub append_data_with_lem :
      (view : List ℕ) × (length view ≡ max_elements)
      × ((append_data_with b max_elements setter).0 ≡ (setter view).0)
      × IsValid (append_data_with b max_elements setter).1
      × (contents (append_data_with b max_elements setter).1
          ≡ contents b ++ take (setter view).0 (setter view).1)
  unfolding append_data_with set_size
  append_data_with_lem = (
    view,
    viewed,
    refl,
    omega (arith, r, kept, length-write_at (cells b'.storage) b.size (setter view).1),
    ap (λ k. take k (write_at (cells b'.storage) b.size (setter view).1)) (omega (arith, kept))
        ∙ take-write_at (cells b'.storage) b.size (setter view).1 (setter view).0
            (omega (arith, r, v)) (omega (arith, kept))
        ∙ ap (λ t. t ++ take (setter view).0 (setter view).1)
            (ap (λ k. take k (cells b'.storage)) (sym r.same_size) ∙ r.same),
  )
    where
      b' : Buffer
      b' = ensure_capacity_with_headroom b (add_size b.size max_elements) true

      r : Room b (add_size b.size max_elements) true v (omega arith) b'
      r = ensure-Room b (add_size b.size max_elements) true v (omega arith)

      view : List ℕ
      view = slice (cells b'.storage) b.size max_elements

      viewed : length view ≡ max_elements
      viewed = length-slice (cells b'.storage) b.size max_elements (omega (arith, r))

      kept : (length (setter view).1 ≡ max_elements) × ((setter view).0 ≤ max_elements)
      kept = keeps view viewed

pub of_size-IsValid :
    (n capacity : ℕ) → n < 2 ^ 64 → capacity < 2 ^ 64 → IsValid (of_size n capacity)
unfolding of_size
of_size-IsValid n capacity h k = omega (arith, length-replicate {A = ℕ} (max n capacity) 0)
