-- ===== src/Sigslot/Cursor.antt =====
-- The iterator of a signal that is firing: it is at a node of the list, or at the end, whatever is
-- connected and disconnected meanwhile.
use librtcbase.Prelude.{
  ℕ, ◌≤◌, Bool, true, false, ◌&&◌, ◌||◌, Option, none, some, List, [], ◌∷◌, ◌++◌, ◌==◌, leb, suc,
  ◌≡◌, refl, arith, Bool-cases, inl, inr,
}
use librtcbase.Sigslot.{
  Connection, SignalBase, first_node, after_erase, push_back, erase_first, erase_dest,
}

abbrev pub has_node : ℕ → List Connection → Bool
has_node n [] = false
has_node n (c ∷ cs) = let r = has_node n cs in n == c.node || r

abbrev pub cursor_in : Option ℕ → List Connection → Bool
cursor_in none cs = true
cursor_in (some n) cs = has_node n cs

-- The numbers increase from `low`, and are below `high`.
abbrev pub is_ordered : ℕ → ℕ → List Connection → Bool
is_ordered low high [] = leb low high
is_ordered low high (c ∷ cs) = let r = is_ordered (suc c.node) high cs in leb low c.node && r

abbrev pub is_sound : SignalBase → Bool
is_sound s =
    is_ordered 0 s.next_node s.connected_slots && cursor_in s.current_iterator s.connected_slots

pub first_node-in : (cs : List Connection) → cursor_in (first_node cs) cs ≡ true
first_node-in [] = refl
first_node-in (c ∷ cs) = ground (arith)

is_ordered_weaken :
    (low low' high : ℕ) (cs : List Connection)
    → low' ≤ low
    → is_ordered low high cs ≡ true
    → is_ordered low' high cs ≡ true
is_ordered_weaken low low' high [] h p = ground (arith, h, p)
is_ordered_weaken low low' high (c ∷ cs) h p = ground (arith, h, p)

is_ordered-push :
    (low high dest method : ℕ) (cs : List Connection)
    → is_ordered low high cs ≡ true
    → is_ordered low (suc high) (cs ++ (record { node = high; dest = dest; method = method } ∷ []))
      ≡ true
is_ordered-push low high dest method [] p = ground (arith, p)
is_ordered-push low high dest method (c ∷ cs) p =
    ground (arith, p, is_ordered-push (suc c.node) high dest method cs (ground (arith, p)))

cursor_in-push :
    (current : Option ℕ) (cs ds : List Connection)
    → cursor_in current cs ≡ true
    → cursor_in current (cs ++ ds) ≡ true
cursor_in-push none cs ds p = refl
cursor_in-push (some n) [] ds p = ground (arith, p)
cursor_in-push (some n) (c ∷ cs) ds p =
    let rest : has_node n cs ≡ true → has_node n (cs ++ ds) ≡ true =
      cursor_in-push (some n) cs ds in
    ground (arith, p, rest)

pub push_back_sound :
    (dest method : ℕ) (s : SignalBase)
    → is_sound s ≡ true
    → is_sound (push_back dest method s) ≡ true
push_back_sound dest method s h =
    let c : Connection = record { node = s.next_node; dest = dest; method = method } in
    ground (
      arith,
      h,
      is_ordered-push 0 s.next_node dest method s.connected_slots (ground (arith, h)),
      cursor_in-push s.current_iterator s.connected_slots (c ∷ []) (ground (arith, h)),
    )

after_erase-in :
    (current : Option ℕ) (c : Connection) (cs : List Connection)
    → cursor_in current (c ∷ cs) ≡ true
    → cursor_in (after_erase current c cs) cs ≡ true
after_erase-in none c cs p = refl
after_erase-in (some n) c cs p = ground (arith, p, first_node-in cs)

pub erase_dest-ordered :
    (pslot low high : ℕ) (current : Option ℕ) (cs : List Connection)
    → is_ordered low high cs ≡ true
    → is_ordered low high (erase_dest pslot current cs).1 ≡ true
unfolding erase_dest
erase_dest-ordered pslot low high current [] p = p
erase_dest-ordered pslot low high current (c ∷ cs) p = elim (Bool-cases (c.dest == pslot)) [
  | inl q ↦ rw (q) (
      erase_dest-ordered pslot low high (after_erase current c cs) cs
        (is_ordered_weaken (suc c.node) low high cs (ground (arith, p)) (ground (arith, p))))
  | inr q ↦
      ground
        (arith, p, q, erase_dest-ordered pslot (suc c.node) high current cs (ground (arith, p)))
]

-- An iterator that is not in a list is not moved by its erasures.
erase_dest-outside :
    (pslot : ℕ) (current : Option ℕ) (cs : List Connection)
    → cursor_in current cs ≡ false
    → (erase_dest pslot current cs).0 ≡ current
unfolding erase_dest
erase_dest-outside pslot current [] p = refl
erase_dest-outside pslot none (c ∷ cs) p = ground (arith, p)
erase_dest-outside pslot (some n) (c ∷ cs) p =
    let q : has_node n cs ≡ false = ground (arith, p) in
    let e : (n == c.node) ≡ false = ground (arith, p) in
    let rest = erase_dest-outside pslot (some n) cs q in
    elim (Bool-cases (c.dest == pslot)) [ inl r ↦ rw (r, e, rest) | inr r ↦ rw (r, rest) ]

pub cursor_in-cons :
    (c : Connection) (current : Option ℕ) (cs : List Connection)
    → cursor_in current cs ≡ true
    → cursor_in current (c ∷ cs) ≡ true
cursor_in-cons c none cs p = refl
cursor_in-cons c (some n) cs p = ground (arith, p)

-- An iterator at the head stays in the list whatever the rest becomes.
cursor_in-head :
    (current : Option ℕ) (c : Connection) (cs ds : List Connection)
    → cursor_in current (c ∷ cs) ≡ true
    → cursor_in current cs ≡ false
    → cursor_in current (c ∷ ds) ≡ true
cursor_in-head none c cs ds p q = refl
cursor_in-head (some n) c cs ds p q = ground (arith, p, q)

pub erase_dest-in :
    (pslot : ℕ) (current : Option ℕ) (cs : List Connection)
    → cursor_in current cs ≡ true
    → cursor_in (erase_dest pslot current cs).0 (erase_dest pslot current cs).1 ≡ true
unfolding erase_dest
erase_dest-in pslot current [] p = p
erase_dest-in pslot current (c ∷ cs) p = elim (Bool-cases (c.dest == pslot)) [
  | inl q ↦
      rw (q) (erase_dest-in pslot (after_erase current c cs) cs (after_erase-in current c cs p))
  | inr q ↦ elim (Bool-cases (cursor_in current cs)) [
    | inl r ↦ rw (q) (
        cursor_in-cons c (erase_dest pslot current cs).0 (erase_dest pslot current cs).1
          (erase_dest-in pslot current cs r))
    | inr r ↦
        rw (q, erase_dest-outside pslot current cs r)
          (cursor_in-head current c cs (erase_dest pslot current cs).1 p r)
  ]
]

pub erase_first-ordered :
    (pclass low high : ℕ) (current : Option ℕ) (cs : List Connection)
    → is_ordered low high cs ≡ true
    → is_ordered low high (erase_first pclass current cs).2 ≡ true
unfolding erase_first
erase_first-ordered pclass low high current [] p = p
erase_first-ordered pclass low high current (c ∷ cs) p = elim (Bool-cases (c.dest == pclass)) [
  | inl q ↦
      rw (q) (is_ordered_weaken (suc c.node) low high cs (ground (arith, p)) (ground (arith, p)))
  | inr q ↦
      ground
        (arith, p, q, erase_first-ordered pclass (suc c.node) high current cs (ground (arith, p)))
]

erase_first-outside :
    (pclass : ℕ) (current : Option ℕ) (cs : List Connection)
    → cursor_in current cs ≡ false
    → (erase_first pclass current cs).1 ≡ current
unfolding erase_first
erase_first-outside pclass current [] p = refl
erase_first-outside pclass none (c ∷ cs) p = ground (arith, p)
erase_first-outside pclass (some n) (c ∷ cs) p =
    let q : has_node n cs ≡ false = ground (arith, p) in
    let e : (n == c.node) ≡ false = ground (arith, p) in
    let rest = erase_first-outside pclass (some n) cs q in
    elim (Bool-cases (c.dest == pclass)) [ inl r ↦ rw (r, e) | inr r ↦ rw (r, rest) ]

pub erase_first-in :
    (pclass : ℕ) (current : Option ℕ) (cs : List Connection)
    → cursor_in current cs ≡ true
    → cursor_in (erase_first pclass current cs).1 (erase_first pclass current cs).2 ≡ true
unfolding erase_first
erase_first-in pclass current [] p = p
erase_first-in pclass current (c ∷ cs) p = elim (Bool-cases (c.dest == pclass)) [
  | inl q ↦ rw (q) (after_erase-in current c cs p)
  | inr q ↦ elim (Bool-cases (cursor_in current cs)) [
    | inl r ↦ rw (q) (
        cursor_in-cons c (erase_first pclass current cs).1 (erase_first pclass current cs).2
          (erase_first-in pclass current cs r))
    | inr r ↦
        rw (q, erase_first-outside pclass current cs r)
          (cursor_in-head current c cs (erase_first pclass current cs).2 p r)
  ]
]
