-- ===== src/StringEncode/Split/Pieces.antt =====
-- The pieces between the delimiters of a text: what splitting means, and that joining undoes it.
use librtcbase.Prelude.{
  ℕ, ◌≡◌, refl, ◌∙◌, ap, ap₂, sym, true, false, inl, inr, List, [], ◌∷◌, ◌++◌, append-nil,
  append_assoc, ◌==◌, if◌then◌else◌, Bool-cases, ==_iff,
}

-- The pieces of a text after the piece `current` has been read so far.
unfoldable pub pieces : ℕ → List ℕ → List ℕ → List (List ℕ)
pieces d current [] = current ∷ []
pieces d current (c ∷ cs) =
    let more = pieces d [] cs in
    let longer = pieces d (current ++ c ∷ []) cs in if c == d then current ∷ more else longer

pub join : ℕ → List (List ℕ) → List ℕ
join d [] = []
join d (p ∷ []) = p
join d (p ∷ q ∷ ps) = p ++ d ∷ join d (q ∷ ps)

abbrev pub keep_nonempty : List (List ℕ) → List (List ℕ)
keep_nonempty [] = []
keep_nonempty ([] ∷ ps) = keep_nonempty ps
keep_nonempty ((c ∷ p) ∷ ps) = (c ∷ p) ∷ keep_nonempty ps

-- No piece holds the delimiter.
abbrev pub Free : ℕ → List ℕ → Type 0
Free d [] = Unit {0}
Free d (c ∷ p) = ((c == d) ≡ false) × Free d p

abbrev pub AllFree : ℕ → List (List ℕ) → Type 0
AllFree d [] = Unit {0}
AllFree d (p ∷ ps) = Free d p × AllFree d ps

pieces-shape :
    (d : ℕ) (current cs : List ℕ)
    → (p : List ℕ) × (ps : List (List ℕ)) × (pieces d current cs ≡ p ∷ ps)
unfolding pieces
pieces-shape d current [] = (current, [], refl)
pieces-shape d current (c ∷ cs) = elim (Bool-cases (c == d)) [
  | inl p ↦ (current, pieces d [] cs, rw p)
  | inr p ↦ rw p (pieces-shape d (current ++ c ∷ []) cs)
]

join-cons :
    (d : ℕ) (current cs : List ℕ)
    → join d (current ∷ pieces d [] cs) ≡ current ++ d ∷ join d (pieces d [] cs)
unfolding join
join-cons d current cs = let (p, ps, e) = pieces-shape d [] cs in rw e

pub join-pieces : (d : ℕ) (current cs : List ℕ) → join d (pieces d current cs) ≡ current ++ cs
unfolding pieces
join-pieces d current [] = unfold join in sym (append-nil current)
join-pieces d current (c ∷ cs) = elim (Bool-cases (c == d)) [
  | inl p ↦ rw p (
      join-cons d current cs
      ∙ ap₂ (λ x t. current ++ x ∷ t) (sym ((==_iff c d).0 p)) (join-pieces d [] cs))
  | inr p ↦ rw p (join-pieces d (current ++ c ∷ []) cs ∙ append_assoc current (c ∷ []) cs)
]

-- A free piece is read through to the delimiter, or to the end.
pieces-Free :
    (d : ℕ) (current p cs : List ℕ)
    → Free d p
    → pieces d current (p ++ cs) ≡ pieces d (current ++ p) cs
unfolding pieces
pieces-Free d current [] cs free = rw append-nil
pieces-Free d current (c ∷ p) cs free = rw free.0 (
    pieces-Free d (current ++ c ∷ []) p cs free.1
    ∙ ap (λ t. pieces d t cs) (append_assoc current (c ∷ []) p))

delimiter_ends : (d : ℕ) (p cs : List ℕ) → pieces d p (d ∷ cs) ≡ p ∷ pieces d [] cs
unfolding pieces
delimiter_ends d p cs = let same : (d == d) ≡ true = (==_iff d d).1 refl in rw same

pub pieces-join :
    (d : ℕ) (p : List ℕ) (ps : List (List ℕ))
    → AllFree d (p ∷ ps)
    → pieces d [] (join d (p ∷ ps)) ≡ p ∷ ps
unfolding join
pieces-join d p [] free =
    ap (pieces d []) (sym (append-nil p)) ∙ pieces-Free d [] p [] free.0 ∙ unfold pieces in refl
pieces-join d p (q ∷ ps) free =
    pieces-Free d [] p (d ∷ join d (q ∷ ps)) free.0
    ∙ delimiter_ends d p (join d (q ∷ ps))
    ∙ ap (λ t. p ∷ t) (pieces-join d q ps free.1)

Free-append : (d : ℕ) (p q : List ℕ) → Free d p → Free d q → Free d (p ++ q)
Free-append d [] q fp fq = fq
Free-append d (c ∷ p) q fp fq = (fp.0, Free-append d p q fp.1 fq)

pub pieces-AllFree :
    (d : ℕ) (current cs : List ℕ) → Free d current → AllFree d (pieces d current cs)
unfolding pieces
pieces-AllFree d current [] free = (free, tt)
pieces-AllFree d current (c ∷ cs) free = elim (Bool-cases (c == d)) [
  | inl p ↦ rw p (free, pieces-AllFree d [] cs tt)
  | inr p ↦
      rw p (pieces-AllFree d (current ++ c ∷ []) cs (Free-append d current (c ∷ []) free (p, tt)))
]
