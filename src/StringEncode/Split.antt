-- ===== src/StringEncode/Split.antt =====
-- split, tokenize and tokenize_first of src/string_encode.cpp. The loops walk over the source and
-- keep the index `i` of the next character and the index `last` of the field's first.
pub mod Pieces
pub mod Laws
pub mod FirstToken
use librtcbase.Prelude.{
  ℕ, zero, suc, ◌+◌, ◌-◌, Bool, true, false, not, Option, none, some, List, [], ◌∷◌, ◌++◌, length,
  take, drop, slice, ◌==◌, if◌then◌else◌,
}

module _ (source : List ℕ) (delimiter : ℕ) where
  -- The list is `source[i..]`.
  pub split_loop : List ℕ → ℕ → ℕ → List (List ℕ) → List (List ℕ)
  split_loop [] i last fields = fields ++ slice source last (length source - last) ∷ []
  split_loop (c ∷ cs) i last fields =
      split_loop cs (i + 1) (if c == delimiter then i + 1 else last)
        (if c == delimiter then fields ++ slice source last (i - last) ∷ [] else fields)

  pub tokenize_loop : List ℕ → ℕ → ℕ → List (List ℕ) → List (List ℕ)
  tokenize_loop [] i last fields =
      if not (last == length source)
      then fields ++ slice source last (length source - last) ∷ []
      else fields
  tokenize_loop (c ∷ cs) i last fields =
      tokenize_loop cs (i + 1) (if c == delimiter then i + 1 else last) (
        if c == delimiter
        then (if not (i == last) then fields ++ slice source last (i - last) ∷ [] else fields)
        else fields)

-- The count returned and the fields; `none` is a null pointer.
pub split : List ℕ → ℕ → Option (List (List ℕ)) → ℕ × Option (List (List ℕ))
split source delimiter none = (0, none)
split source delimiter (some fields) =
    let out = split_loop source delimiter source 0 0 [] in (length out, some out)

pub tokenize : List ℕ → ℕ → List (List ℕ) → ℕ × List (List ℕ)
tokenize source delimiter fields =
    let out = tokenize_loop source delimiter source 0 0 [] in (length out, out)

-- The index that `source.find(delimiter)` gives, counted from `i`; `none` is npos.
pub find_from : ℕ → ℕ → List ℕ → Option ℕ
find_from delimiter i [] = none
find_from delimiter i (c ∷ cs) =
    let rest = find_from delimiter (i + 1) cs in if c == delimiter then some i else rest

-- The index at which `while (source[right_pos] == delimiter)` stops, over `source[right_pos..]`.
-- At the end `source[right_pos]` is 0; `none` is a read behind that.
pub skip_from : ℕ → ℕ → List ℕ → Option ℕ
skip_from delimiter i [] = if 0 == delimiter then none else some i
skip_from delimiter i (c ∷ cs) =
    let rest = skip_from delimiter (i + 1) cs in if c == delimiter then rest else some i

-- What tokenize_first does: it returns false, it returns true with the token and the rest, or it
-- reads out of range.
pub data First : Type 0 where
  not_found : First
  found : List ℕ → List ℕ → First
  fault : First

pub tokenize_first : List ℕ → ℕ → First
tokenize_first source delimiter = elim (find_from delimiter 0 source) [
  | none ↦ not_found
  | some left_pos ↦ elim (skip_from delimiter (left_pos + 1) (drop (left_pos + 1) source)) [
    | none ↦ fault
    | some right_pos ↦ found (slice source 0 left_pos) (drop right_pos source)
  ]
]
