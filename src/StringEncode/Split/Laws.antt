-- ===== src/StringEncode/Split/Laws.antt =====
-- Splitting, against its description: the pieces between the delimiters.
use librtcbase.Prelude.{
  ℕ, ◌+◌, ◌-◌, ◌≡◌, refl, ◌∙◌, ap, sym, inl, inr, not, Option, some, List, [], ◌∷◌, ◌++◌,
  append-nil, append_assoc, length, length-append, take, slice, ◌==◌, if◌then◌else◌, Bool-cases,
  arith, take-append, drop-append,
}
use librtcbase.StringEncode.Split.Pieces.{
  pieces, join, keep_nonempty, AllFree, join-pieces, pieces-join, pieces-AllFree,
}
use librtcbase.StringEncode.Split.{split_loop, tokenize_loop, split, tokenize}

-- The source is what lies before the current piece, the piece so far, and what is left to read.
module _ (d : ℕ) where
  piece_of :
      (before current cs source : List ℕ) {last n : ℕ}
      → source ≡ before ++ (current ++ cs)
      → last ≡ length before
      → n ≡ length current
      → slice source last n ≡ current
  piece_of before current cs source e el en =
      rw e (ap (take _) (drop-append before (current ++ cs) el) ∙ take-append current cs en)

  -- A step within a piece, and a step over a delimiter.
  regroup_in :
      (before current cs : List ℕ) (c : ℕ)
      → before ++ (current ++ c ∷ cs) ≡ before ++ ((current ++ c ∷ []) ++ cs)
  regroup_in before current cs c = simp append_assoc

  regroup_over :
      (before current cs : List ℕ) (c : ℕ)
      → before ++ (current ++ c ∷ cs) ≡ (before ++ (current ++ c ∷ [])) ++ cs
  regroup_over before current cs c = simp append_assoc

  length_over :
      (before current : List ℕ) (c : ℕ)
      → length (before ++ (current ++ c ∷ [])) ≡ length before + length current + 1
  length_over before current c =
      omega (arith, length-append before (current ++ c ∷ []), length-append current (c ∷ []))

  split_loop_lem :
      (before current cs source : List ℕ) (i last : ℕ) (fields : List (List ℕ))
      → source ≡ before ++ (current ++ cs)
      → last ≡ length before
      → i ≡ last + length current
      → split_loop source d cs i last fields ≡ fields ++ pieces d current cs
  unfolding split_loop pieces
  split_loop_lem before current [] source i last fields e el ei =
      ap (λ p. fields ++ p ∷ [])
        (piece_of before current [] source e el (
          omega
            (arith, ap length e, length-append before (current ++ []), length-append current [])))
  split_loop_lem before current (c ∷ cs) source i last fields e el ei = elim (Bool-cases (c == d)) [
    | inl p ↦ rw p (
        split_loop_lem (before ++ (current ++ c ∷ [])) [] cs source (i + 1) (i + 1) _
          (e ∙ regroup_over before current cs c) (omega (arith, length_over before current c))
          (omega arith)
        ∙ ap (λ q. (fields ++ q ∷ []) ++ pieces d [] cs)
            (piece_of before current (c ∷ cs) source e el (omega arith))
        ∙ append_assoc fields (current ∷ []) (pieces d [] cs))
    | inr p ↦ rw p (
        split_loop_lem before (current ++ c ∷ []) cs source (i + 1) last fields
          (e ∙ regroup_in before current cs c) el (omega (arith, length-append current (c ∷ []))))
  ]

  -- A piece is dropped exactly if the indices of its ends are the same.
  kept :
      (fields : List (List ℕ)) (current : List ℕ) (i last : ℕ)
      → i ≡ last + length current
      → (if not (i == last) then fields ++ current ∷ [] else fields)
        ≡ fields ++ keep_nonempty (current ∷ [])
  kept fields [] i last e = ground (arith, append-nil fields)
  kept fields (c ∷ current) i last e = ground arith

  kept_at_end :
      (fields : List (List ℕ)) (current : List ℕ) (i last : ℕ)
      → i ≡ last + length current
      → (if not (last == i) then fields ++ current ∷ [] else fields)
        ≡ fields ++ keep_nonempty (current ∷ [])
  kept_at_end fields [] i last e = ground (arith, append-nil fields)
  kept_at_end fields (c ∷ current) i last e = ground arith

  keep_nonempty-cons :
      (p : List ℕ) (ps : List (List ℕ))
      → keep_nonempty (p ∷ ps) ≡ keep_nonempty (p ∷ []) ++ keep_nonempty ps
  keep_nonempty-cons [] ps = refl
  keep_nonempty-cons (c ∷ p) ps = refl

  tokenize_loop_lem :
      (before current cs source : List ℕ) (i last : ℕ) (fields : List (List ℕ))
      → source ≡ before ++ (current ++ cs)
      → last ≡ length before
      → i ≡ last + length current
      → tokenize_loop source d cs i last fields ≡ fields ++ keep_nonempty (pieces d current cs)
  unfolding tokenize_loop pieces
  tokenize_loop_lem before current [] source i last fields e el ei =
      let len : length source ≡ last + length current =
        omega
          (arith, ap length e, length-append before (current ++ []), length-append current []) in
      rw (piece_of before current [] source {n = length source - last} e el (omega arith))
        (kept_at_end fields current (length source) last len)
  tokenize_loop_lem before current (c ∷ cs) source i last fields e el ei =
      elim (Bool-cases (c == d)) [
        | inl p ↦
            rw (p, piece_of before current (c ∷ cs) source {n = i - last} e el (omega arith))
              (tokenize_loop_lem (before ++ (current ++ c ∷ [])) [] cs source (i + 1) (i + 1) _
                  (e ∙ regroup_over before current cs c)
                  (omega (arith, length_over before current c)) (omega arith)
                ∙ ap (λ t. t ++ keep_nonempty (pieces d [] cs)) (kept fields current i last ei)
                ∙ append_assoc fields (keep_nonempty (current ∷ []))
                    (keep_nonempty (pieces d [] cs))
                ∙ ap (λ t. fields ++ t) (sym (keep_nonempty-cons current (pieces d [] cs))))
        | inr p ↦ rw p (
            tokenize_loop_lem before (current ++ c ∷ []) cs source (i + 1) last fields
              (e ∙ regroup_in before current cs c) el
              (omega (arith, length-append current (c ∷ []))))
      ]

abbrev pub fields_of : List ℕ → ℕ → List (List ℕ)
fields_of source d = pieces d [] source

split_lem :
    (source : List ℕ) (d : ℕ) (old : List (List ℕ))
    → split source d (some old) ≡ (length (fields_of source d), some (fields_of source d))
unfolding split
split_lem source d old =
    ap {B = ℕ × Option (List (List ℕ))} (λ fs. (length fs, some fs))
      (split_loop_lem d [] [] source source 0 0 [] refl refl (omega arith))

-- Splitting any source returns the number of the fields and the fields, whatever the vector held
-- before; joined with the delimiter they are the source, and none of them holds the delimiter.
pub join-split :
    (source : List ℕ) (d : ℕ) (old : List (List ℕ))
    → (fields : List (List ℕ)) × (split source d (some old) ≡ (length fields, some fields))
      × (join d fields ≡ source)
      × AllFree d fields
join-split source d old = (
  fields_of source d,
  split_lem source d old,
  join-pieces d [] source,
  pieces-AllFree d [] source tt,
)

-- One or more fields without the delimiter, joined with it, are given back with their number by
-- splitting.
pub split-join :
    (d : ℕ) (p : List ℕ) (ps old : List (List ℕ))
    → AllFree d (p ∷ ps)
    → split (join d (p ∷ ps)) d (some old) ≡ (length (p ∷ ps), some (p ∷ ps))
split-join d p ps old free =
    split_lem (join d (p ∷ ps)) d old
    ∙ ap {B = ℕ × Option (List (List ℕ))} (λ fs. (length fs, some fs)) (pieces-join d p ps free)

-- Tokenizing gives the fields that splitting gives less the empty ones, in order, and their number.
pub tokenize-split :
    (source : List ℕ) (d : ℕ) (old old' : List (List ℕ))
    → (fields : List (List ℕ)) × (split source d (some old) ≡ (length fields, some fields))
      × (tokenize source d old' ≡ (length (keep_nonempty fields), keep_nonempty fields))
unfolding tokenize
tokenize-split source d old old' = (
  fields_of source d,
  split_lem source d old,
  ap {B = ℕ × List (List ℕ)} (λ fs. (length fs, fs))
      (tokenize_loop_lem d [] [] source source 0 0 [] refl refl (omega arith)),
)
