-- ===== src/Sigslot/Emission.antt =====
-- The emission of a signal.
use librtcbase.Prelude.{
  ℕ, ◌≤◌, ◌<◌, true, false, Option, none, some, List, [], ◌∷◌, ◌++◌, ◌==◌, if◌then◌else◌, suc, zero,
  ◌≡◌, refl, arith, Bool-cases, Option-cases, inl, inr, ap, ◌∙◌, sym, length, append_assoc,
}
use mathlib.Core.Path.{subst}
use librtcbase.Sigslot.{
  Connection, World, with_signal, first_node, disconnect_all, begin_emit, find_node, finished,
  called, emit_turn, emit_loop, emit,
}
use librtcbase.Sigslot.Actions.{IsSound, find_node-in}
use librtcbase.Sigslot.Cursor.{
  has_node, cursor_in, is_ordered, is_sound, first_node-in, cursor_in-cons,
}

is_ordered-bound :
    (low high : ℕ) (pre : List Connection) (c : Connection) (cs : List Connection)
    → is_ordered low high (pre ++ (c ∷ cs)) ≡ true
    → low ≤ c.node
is_ordered-bound low high [] c cs p = ground (arith, p)
is_ordered-bound low high (d ∷ ds) c cs p =
    let q : is_ordered (suc d.node) high (ds ++ (c ∷ cs)) ≡ true = ground (arith, p) in
    ground (arith, p, is_ordered-bound (suc d.node) high ds c cs q)

find_node-append :
    (low high : ℕ) (pre : List Connection) (c : Connection) (cs : List Connection)
    → is_ordered low high (pre ++ (c ∷ cs)) ≡ true
    → find_node c.node (pre ++ (c ∷ cs)) ≡ some (c, first_node cs)
find_node-append low high [] c cs p = ground (arith)
find_node-append low high (d ∷ ds) c cs p =
    let q : is_ordered (suc d.node) high (ds ++ (c ∷ cs)) ≡ true = ground (arith, p) in
    ground (
      arith,
      is_ordered-bound (suc d.node) high ds c cs q,
      find_node-append (suc d.node) high ds c cs q,
    )

abbrev turned : ℕ → Option ℕ → World → World
turned sender next w = with_signal sender (record (w.signals sender) { current_iterator = next }) w

emit_turn-finished :
    (sender : ℕ) (w : World)
    → (w.signals sender).current_iterator ≡ none
    → emit_turn sender w ≡ finished
unfolding emit_turn
emit_turn-finished sender w p = rw (p, emit_turn)

emit_turn-called :
    (sender n : ℕ) (c : Connection) (next : Option ℕ) (w : World)
    → (w.signals sender).current_iterator ≡ some n
    → find_node n (w.signals sender).connected_slots ≡ some (c, next)
    → emit_turn sender w ≡ called c (turned sender next w)
unfolding emit_turn
emit_turn-called sender n c next w p q = rw (p, emit_turn, q)

-- The signal that fires is the one that was turned.
turned-signals :
    (sender : ℕ) (next : Option ℕ) (w : World)
    → (turned sender next w).signals sender ≡ record (w.signals sender) { current_iterator = next }
turned-signals sender next w = ground (arith)

first_node-append : (pre cs : List Connection) → cursor_in (first_node cs) (pre ++ cs) ≡ true
first_node-append [] cs = first_node-in cs
first_node-append (d ∷ ds) cs =
    cursor_in-cons d (first_node cs) (ds ++ cs) (first_node-append ds cs)

emit_loop-calls :
    (sender : ℕ) (react : Connection → World → World)
    → ((c : Connection) (w : World) → (react c w).signals sender ≡ w.signals sender)
    → (pre cs : List Connection) (w : World) → (w.signals sender).connected_slots ≡ pre ++ cs
    → (w.signals sender).current_iterator ≡ first_node cs
    → is_sound (w.signals sender) ≡ true
    → (w' : World) × (emit_loop (suc (length cs)) sender react w ≡ some (cs, w'))
unfolding emit_loop
emit_loop-calls sender react same pre [] w e f h =
    (w, rw (emit_turn-finished sender w f, emit_loop) refl)
emit_loop-calls sender react same pre (c ∷ cs) w e f h =
    let s = w.signals sender in
    let o : is_ordered 0 s.next_node (pre ++ (c ∷ cs)) ≡ true =
      subst (λ x. is_ordered 0 s.next_node x ≡ true) e (ground (arith, h)) in
    let found : find_node c.node s.connected_slots ≡ some (c, first_node cs) =
      subst (λ x. find_node c.node x ≡ some (c, first_node cs)) (sym e)
        (find_node-append 0 s.next_node pre c cs o) in
    let w1 = turned sender (first_node cs) w in
    let k : (react c w1).signals sender ≡ record s { current_iterator = first_node cs } =
      same c w1 ∙ turned-signals sender (first_node cs) w in
    let e1 : ((react c w1).signals sender).connected_slots ≡ (pre ++ (c ∷ [])) ++ cs =
      ap (λ x. x.connected_slots) k ∙ (e ∙ sym (append_assoc pre (c ∷ []) cs)) in
    let inside : cursor_in (first_node cs) s.connected_slots ≡ true =
      subst (λ x. cursor_in (first_node cs) x ≡ true) (sym (e ∙ sym (append_assoc pre (c ∷ []) cs)))
        (first_node-append (pre ++ (c ∷ [])) cs) in
    let sound : is_sound ((react c w1).signals sender) ≡ true =
      subst (λ x. is_sound x ≡ true) (sym k) (ground (arith, h, inside)) in
    let (w2, rest) =
      emit_loop-calls sender react same (pre ++ (c ∷ [])) cs (react c w1) e1
        (ap (λ x. x.current_iterator) k) sound in
    (w2, rw (emit_turn-called sender c.node c (first_node cs) w f found, emit_loop, rest) refl)

-- Where the methods leave the signal as it is, the emission of a sound signal calls every one of
-- its connections once, in the order in which they were made, and ends.
pub emit-calls :
    (sender : ℕ) (react : Connection → World → World) (w : World)
    → ((c : Connection) (w1 : World) → (react c w1).signals sender ≡ w1.signals sender)
    → is_sound (w.signals sender) ≡ true
    → (let cs = (w.signals sender).connected_slots in
        (w' : World) × (emit (suc (length cs)) sender react w ≡ some (cs, w')))
unfolding emit begin_emit
emit-calls sender react w same h =
    let s = w.signals sender in
    let w1 = with_signal sender (record s { current_iterator = first_node s.connected_slots }) w in
    let k = turned-signals sender (first_node s.connected_slots) w in
    emit_loop-calls sender react same [] s.connected_slots w1 (ap (λ x. x.connected_slots) k)
      (ap (λ x. x.current_iterator) k)
      (subst (λ x. is_sound x ≡ true) (sym k) (ground (arith, h, first_node-in s.connected_slots)))

-- The nodes that are still to be called.
abbrev pub remaining : Option ℕ → List Connection → ℕ
remaining none cs = 0
remaining (some n) [] = 0
remaining (some n) (c ∷ cs) =
    let r = remaining (some n) cs in if n == c.node then suc (length cs) else r

abbrev pub left : ℕ → World → ℕ
left sender w = remaining (w.signals sender).current_iterator (w.signals sender).connected_slots

has_node-bound :
    (low high n : ℕ) (cs : List Connection)
    → is_ordered low high cs ≡ true
    → has_node n cs ≡ true
    → low ≤ n
has_node-bound low high n [] p q = let r : ⊥ = ground (arith, q) in elim r [ ]
has_node-bound low high n (c ∷ cs) p q = elim (Bool-cases (n == c.node)) [
  | inl r ↦ ground (arith, p, r)
  | inr r ↦
      let b = has_node-bound (suc c.node) high n cs (ground (arith, p)) (ground (arith, q, r)) in
      ground (arith, p, b)
]

same_refl : (n : ℕ) → (n == n) ≡ true
same_refl n = ground (arith)

remaining-first_node : (cs : List Connection) → remaining (first_node cs) cs ≡ length cs
remaining-first_node [] = refl
remaining-first_node (c ∷ cs) = rw (same_refl c.node)

-- A node before all others does not count.
remaining-cons :
    (low high : ℕ) (current : Option ℕ) (c : Connection) (cs : List Connection)
    → is_ordered low high (c ∷ cs) ≡ true
    → cursor_in current cs ≡ true
    → remaining current (c ∷ cs) ≡ remaining current cs
remaining-cons low high none c cs p q = refl
remaining-cons low high (some n) c cs p q =
    let b = has_node-bound (suc c.node) high n cs (ground (arith, p)) q in
    let e : (n == c.node) ≡ false = ground (arith, b) in rw (e)

find_node-remaining :
    (low high n : ℕ) (cs : List Connection) (r : Connection × Option ℕ)
    → is_ordered low high cs ≡ true
    → find_node n cs ≡ some r
    → cursor_in r.1 cs ≡ true × (suc (remaining r.1 cs) ≤ remaining (some n) cs)
find_node-remaining low high n [] r p q = ground (arith, q)
find_node-remaining low high n (c ∷ cs) (d, next) p q = elim (Bool-cases (n == c.node)) [
  | inl e ↦
      let here : next ≡ first_node cs = ground (arith, e, q) in
      let k = remaining-cons low high (first_node cs) c cs p (first_node-in cs) in
      let l = remaining-first_node cs in
      rw (here) (cursor_in-cons c (first_node cs) cs (first_node-in cs), rw (e, k, l) (omega arith))
  | inr e ↦
      let later : find_node n cs ≡ some (d, next) = ground (arith, e, q) in
      let k = find_node-remaining (suc c.node) high n cs (d, next) (ground (arith, p)) later in
      let l = remaining-cons low high next c cs p k.0 in
      (cursor_in-cons c next cs k.0, rw (e, l) k.1)
]

turned-IsSound :
    (sender : ℕ) (next : Option ℕ) (w : World)
    → IsSound w
    → cursor_in next (w.signals sender).connected_slots ≡ true
    → IsSound (turned sender next w)
turned-IsSound sender next w h k other = ground (arith, h other, h sender, k)

-- Where what the methods do keeps the signals sound and never leaves more nodes to be called than
-- before, the loop of an emission ends, after at most as many calls as there were nodes left.
pub emit_loop_ends :
    (fuel sender : ℕ) (react : Connection → World → World)
    → ((c : Connection) (w : World)
        → IsSound w
        → IsSound (react c w) × (left sender (react c w) ≤ left sender w))
    → (w : World) → IsSound w
    → left sender w < fuel
    → (r : List Connection × World) × (emit_loop fuel sender react w ≡ some r)
unfolding emit_loop
emit_loop_ends zero sender react shrinks w h p = elim p [ ]
emit_loop_ends (suc fuel) sender react shrinks w h p =
    elim (Option-cases (w.signals sender).current_iterator) [
      | inl q ↦ (([], w), rw (emit_turn-finished sender w q, emit_loop) refl)
      | inr (n, q) ↦
          let s = w.signals sender in
          let (r, (e, k)) =
            find_node-in n s.connected_slots
              (subst (λ x. cursor_in x s.connected_slots ≡ true) q (ground (arith, h sender))) in
          let w1 = turned sender r.1 w in
          let found : suc (remaining r.1 s.connected_slots) ≤ remaining (some n) s.connected_slots =
            (find_node-remaining 0 s.next_node n s.connected_slots r (ground (arith, h sender))
              e).1 in
          let shrunk : suc (left sender w1) ≤ left sender w =
            rw (turned-signals sender r.1 w, q) found in
          let sound : IsSound w1 = turned-IsSound sender r.1 w h k in
          let (sound2, smaller) = shrinks r.0 w1 sound in
          let (result, rest) =
            emit_loop_ends fuel sender react shrinks (react r.0 w1) sound2 (omega arith) in
          (
            (r.0 ∷ result.0, result.1),
            rw (emit_turn-called sender n r.0 r.1 w q e, emit_loop, rest) refl,
          )
    ]

-- Methods that disconnect the whole signal.
pub left-disconnect_all : (sender : ℕ) (w : World) → left sender (disconnect_all sender w) ≡ 0
unfolding disconnect_all
left-disconnect_all sender w = ground (arith)
