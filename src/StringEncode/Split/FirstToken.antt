-- ===== src/StringEncode/Split/FirstToken.antt =====
-- tokenize_first: what it finds, and when it does not.
use librtcbase.Prelude.{
  ℕ, suc, ◌+◌, ◌≡◌, ◌≢◌, ◌⊎◌, refl, ◌∙◌, ap, sym, false, inl, inr, none, some, List, [], ◌∷◌, ◌++◌,
  append_assoc, length, length-append, length-replicate, replicate, drop, slice, ◌==◌, Bool-cases,
  ==_iff, arith, take-append, drop-append, drop-add,
}
use librtcbase.StringEncode.Split.{find_from, skip_from, not_found, found, tokenize_first}
use librtcbase.StringEncode.Split.Pieces.{Free}

-- A delimiter behind a free front, at an index counted from `i`.
record Found (d i : ℕ) (cs : List ℕ) : Type 0 where
  front : List ℕ
  back : List ℕ
  split : cs ≡ front ++ d ∷ back
  free : Free d front
  index : find_from d i cs ≡ some (i + length front)

find-cases : (d i : ℕ) (cs : List ℕ) → ((find_from d i cs ≡ none) × Free d cs) ⊎ Found d i cs
unfolding find_from
find-cases d i [] = inl (refl, tt)
find-cases d i (c ∷ cs) = elim (Bool-cases (c == d)) [
  | inl p ↦ inr (record {
    front = [];
    back = cs;
    split = ap (λ x. x ∷ cs) ((==_iff c d).0 p);
    free = tt;
    index = rw p (ap some (omega arith));
  })
  | inr p ↦ elim (find-cases d (i + 1) cs) [
    | inl none_found ↦ inl (rw p none_found.0, (p, none_found.1))
    | inr f ↦ inr (record {
      front = c ∷ f.front;
      back = f.back;
      split = ap (λ t. c ∷ t) f.split;
      free = (p, f.free);
      index = rw p (f.index ∙ ap some (omega arith));
    })
  ]
]

-- A text that does not go on with the delimiter.
abbrev pub StartsFree : ℕ → List ℕ → Type 0
StartsFree d [] = Unit {0}
StartsFree d (c ∷ cs) = (c == d) ≡ false

record Skipped (d i : ℕ) (cs : List ℕ) : Type 0 where
  count : ℕ
  rest : List ℕ
  split : cs ≡ replicate count d ++ rest
  stops : StartsFree d rest
  index : skip_from d i cs ≡ some (i + count)

skip-Skipped : (d i : ℕ) (cs : List ℕ) → d ≢ 0 → Skipped d i cs
unfolding skip_from
skip-Skipped d i [] nonzero = record {
  count = 0;
  rest = [];
  split = refl;
  stops = tt;
  index = ground arith;
}
skip-Skipped d i (c ∷ cs) nonzero = elim (Bool-cases (c == d)) [
  | inl p ↦
      let s = skip-Skipped d (i + 1) cs nonzero in
      record {
        count = suc s.count;
        rest = s.rest;
        split = ap (λ x. x ∷ cs) ((==_iff c d).0 p) ∙ ap (λ t. d ∷ t) s.split;
        stops = s.stops;
        index = rw p (s.index ∙ ap some (omega arith));
      }
  | inr p ↦ record {
    count = 0;
    rest = c ∷ cs;
    split = refl;
    stops = p;
    index = rw p (ap some (omega arith));
  }
]

module _ (source : List ℕ) (d : ℕ) (f : Found d 0 source)
    (s : Skipped d (length f.front + 1) f.back) where
  token_part : slice source 0 (length f.front) ≡ f.front
  token_part = rw f.split (take-append f.front (d ∷ f.back) refl)

  back_part : drop (length f.front + 1) source ≡ f.back
  back_part = rw f.split (
      ap (λ t. drop (length f.front + 1) t) (sym (append_assoc f.front (d ∷ []) f.back))
      ∙ drop-append (f.front ++ d ∷ []) f.back (omega (arith, length-append f.front (d ∷ []))))

  rest_part : drop (length f.front + 1 + s.count) source ≡ s.rest
  rest_part =
      drop-add (length f.front + 1) s.count source
      ∙ ap (drop s.count) (back_part ∙ s.split)
      ∙ drop-append (replicate s.count d) s.rest (sym (length-replicate s.count d))

  found_at : tokenize_first source d ≡ found f.front s.rest
  unfolding tokenize_first
  found_at = ground (
    arith,
    f.index,
    s.index,
    ap (λ n. skip_from d (n + 1) (drop (n + 1) source)) {x = 0 + length f.front}
        {y = length f.front} (omega arith),
    ap (λ t. skip_from d (length f.front + 1) t) back_part,
    token_part,
    ap (λ n. slice source 0 n) {x = 0 + length f.front} {y = length f.front} (omega arith),
    rest_part,
  )

-- With a delimiter other than the zero byte: either the source holds no delimiter and
-- tokenize_first returns false, or it returns a token without the delimiter and a rest that does
-- not begin with it, and the source is the token, one or more delimiters, and the rest.
pub tokenize_first_lem :
    (source : List ℕ) (d : ℕ)
    → d ≢ 0
    → ((tokenize_first source d ≡ not_found) × Free d source)
      ⊎ ((token : List ℕ) × (count : ℕ) × (rest : List ℕ) × (tokenize_first source d
            ≡ found token rest)
          × (source ≡ token ++ (replicate (suc count) d ++ rest))
          × Free d token
          × StartsFree d rest)
tokenize_first_lem source d nonzero = elim (find-cases d 0 source) [
  | inl none_found ↦ inl (unfold tokenize_first in rw (none_found.0, tokenize_first), none_found.1)
  | inr f ↦
      let s = skip-Skipped d (length f.front + 1) f.back nonzero in
      inr (
        f.front,
        s.count,
        s.rest,
        found_at source d f s,
        f.split ∙ ap (λ t. f.front ++ d ∷ t) s.split,
        f.free,
        s.stops,
      )
]
