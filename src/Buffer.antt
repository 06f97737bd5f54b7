-- ===== src/Buffer.antt =====
-- BufferT of src/buffer.h at the element type uint8_t. The unique_ptr is `none` for nullptr; storage
-- from `new T[]` is modelled as zeros, on which nothing below depends. A size_t wraps at 2 ^ 64.
pub mod Laws
use librtcbase.Prelude.{
  memcmp_eq, ℕ, ◌/◌, max, Bool, true, false, not, ◌&&◌, ◌||◌, Option, none, some, List, [], ◌∷◌,
  length, take, replicate, slice, write_at, leb, ◌==◌, if◌then◌else◌, add_size,
}

pub record Buffer : Type 0 where
  pub size : ℕ
  pub capacity : ℕ
  pub storage : Option (List ℕ)

-- The storage that a pointer leads to.
abbrev pub cells : Option (List ℕ) → List ℕ
cells none = []
cells (some mem) = mem

-- The elements that the buffer holds.
abbrev pub contents : Buffer → List ℕ
contents b = take b.size (cells b.storage)

abbrev pub empty_buffer : Buffer
empty_buffer = record { size = 0; capacity = 0; storage = none }

pub of_size : ℕ → ℕ → Buffer
of_size size capacity = record {
  size = size;
  capacity = max size capacity;
  storage = some (replicate (max size capacity) 0);
}

pub of_data : List ℕ → ℕ → Buffer
unfolding of_size
of_data elements capacity =
    let b = of_size (length elements) capacity in
    record b { storage = some (write_at (cells b.storage) 0 elements) }

abbrev pub is_empty : Buffer → Bool
is_empty b = b.size == 0

pub equals : Buffer → Buffer → Bool
equals a b =
    if not (a.size == b.size)
    then false
    else memcmp_eq (take a.size (cells a.storage)) (take a.size (cells b.storage))

pub ensure_capacity_with_headroom : Buffer → ℕ → Bool → Buffer
ensure_capacity_with_headroom b capacity extra_headroom =
    if leb capacity b.capacity
    then b
    else let new_capacity =
        if extra_headroom then max capacity (add_size b.capacity (b.capacity / 2)) else capacity in
      record b {
        storage = some (write_at (replicate new_capacity 0) 0 (take b.size (cells b.storage)));
        capacity = new_capacity;
      }

pub ensure_capacity : Buffer → ℕ → Buffer
ensure_capacity b capacity = ensure_capacity_with_headroom b capacity false

pub append_data : Buffer → List ℕ → Buffer
append_data b elements =
    let new_size = add_size b.size (length elements) in
    let b' = ensure_capacity_with_headroom b new_size true in
    record b' { storage = some (write_at (cells b'.storage) b'.size elements); size = new_size }

pub set_data : Buffer → List ℕ → Buffer
set_data b elements = append_data (record b { size = 0 }) elements

pub set_size : Buffer → ℕ → Buffer
set_size b size = let b' = ensure_capacity_with_headroom b size true in record b' { size = size }

-- The setter is given the cells of its view, and returns the number of elements it wrote with the
-- cells as it leaves them.
pub append_data_with : Buffer → ℕ → (List ℕ → ℕ × List ℕ) → ℕ × Buffer
append_data_with b max_elements setter =
    let b' = set_size b (add_size b.size max_elements) in
    let (written, view) = setter (slice (cells b'.storage) b.size max_elements) in
    (
      written,
      record b' {
        storage = some (write_at (cells b'.storage) b.size view);
        size = add_size b.size written;
      },
    )

pub set_data_with : Buffer → ℕ → (List ℕ → ℕ × List ℕ) → ℕ × Buffer
set_data_with b max_elements setter = append_data_with (record b { size = 0 }) max_elements setter

abbrev pub clear : Buffer → Buffer
clear b = record b { size = 0 }

-- The buffer moved from has lost its pointer. `ndebug` says whether NDEBUG is defined.
pub on_moved_from : Bool → Buffer → Buffer
on_moved_from ndebug b = record { size = if ndebug then 0 else 1; capacity = 0; storage = none }

-- Move assignment and construction: the target, and what is left of the source.
pub move_from : Bool → Buffer → Buffer × Buffer
move_from ndebug b =
    (record { size = b.size; capacity = b.capacity; storage = b.storage }, on_moved_from ndebug b)

abbrev pub swap : Buffer → Buffer → Buffer × Buffer
swap a b = (b, a)

abbrev pub is_present : Option (List ℕ) → Bool
is_present none = false
is_present (some mem) = true

pub is_consistent : Buffer → Bool
is_consistent b = (is_present b.storage || (b.capacity == 0)) && leb b.size b.capacity
