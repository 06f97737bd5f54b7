-- ===== src/Sigslot/Copies.antt =====
-- The copy constructors of a signal and of an object, and every action on a linked world.
use librtcbase.Prelude.{
  ℕ, true, false, Option, none, some, List, [], ◌∷◌, ◌==◌, ◌≡◌, refl, arith, Option-cases, inl, inr,
  ap,
}
use librtcbase.Sigslot.{
  Connection, World, contains, signal_connect, with_signal, push_back, connect, erase_first,
  slot_duplicate, copy_loop, no_connections, copy_signal, copy_senders, copy_slots, begin_emit,
  find_node, emit_turn,
}
use librtcbase.Sigslot.Actions.{
  Action, act_connect, act_disconnect, act_disconnect_all, act_slots_disconnect_all,
  act_copy_signal, act_copy_slots, act_begin_emit, act_emit_turn, after_turn, act, without_senders,
  slots_disconnect_all_lem,
}
use librtcbase.Sigslot.Links.{
  has_dest, IsLinked, contains-insert, connect-IsLinked, disconnect_all-IsLinked,
  disconnected-IsLinked, disconnect-IsLinked, has_dest-duplicate_loop,
}

-- A new signal or object.
abbrev pub IsNewSignal : ℕ → World → Type 0
IsNewSignal sender w = (slot : ℕ) → contains sender (w.senders slot) ≡ false

abbrev pub IsNewSlots : ℕ → World → Type 0
IsNewSlots slot w = (sender : ℕ) → has_dest slot (w.signals sender).connected_slots ≡ false

pushed-IsLinked :
    (sender dest method : ℕ) (w : World)
    → IsLinked w
    → IsLinked (
        with_signal sender
          (push_back dest method (w.signals sender))
          (signal_connect dest sender w))
unfolding connect
pushed-IsLinked sender dest method w h = connect-IsLinked sender dest method w h

copy_loop-IsLinked :
    (sender : ℕ) (cs : List Connection) (w : World) → IsLinked w → IsLinked (copy_loop sender cs w)
unfolding copy_loop
copy_loop-IsLinked sender [] w h = h
copy_loop-IsLinked sender (c ∷ cs) w h =
    let w1 = signal_connect c.dest sender w in
    copy_loop-IsLinked sender cs
      (with_signal sender (push_back c.dest c.method (w1.signals sender)) w1)
      (pushed-IsLinked sender c.dest c.method w h)

copy_signal-IsLinked :
    (sender other : ℕ) (w : World)
    → IsNewSignal sender w
    → IsLinked w
    → IsLinked (copy_signal sender other w)
unfolding copy_signal
copy_signal-IsLinked sender other w new h =
    copy_loop-IsLinked sender (w.signals other).connected_slots
      (with_signal sender no_connections w) (λ o slot. ground (arith, h o slot, new slot))

copy_senders-IsLinked :
    (slot other : ℕ) (senders : List ℕ) (w : World)
    → (slot == other) ≡ false
    → ((s : ℕ) → contains s senders ≡ true → contains s (w.senders other) ≡ true)
    → IsLinked w
    → IsLinked (copy_senders slot other senders w)
unfolding copy_senders slot_duplicate
copy_senders-IsLinked slot other [] w d sub h = h
copy_senders-IsLinked slot other (sender ∷ rest) w d sub h =
    let w1 = signal_connect slot sender (slot_duplicate sender other slot w) in
    copy_senders-IsLinked slot other rest w1 d (λ s p. ground (arith, d, sub s (ground (arith, p))))
      (λ o t.
        let s = w.signals sender in
        let k = has_dest-duplicate_loop t other slot s.connected_slots s in
        let head = sub sender (ground (arith)) in
        let same : t ≡ slot → has_dest t s.connected_slots ≡ has_dest slot s.connected_slots =
          ap (λ z. has_dest z s.connected_slots) in
        ground (
          arith,
          d,
          head,
          k,
          same,
          h o t,
          h sender other,
          h sender t,
          h o slot,
          contains-insert o sender (w.senders slot),
        ))

copy_slots-IsLinked :
    (slot other : ℕ) (w : World)
    → (slot == other) ≡ false
    → IsNewSlots slot w
    → IsLinked w
    → IsLinked (copy_slots slot other w)
unfolding copy_slots
copy_slots-IsLinked slot other w d new h =
    copy_senders-IsLinked slot other (w.senders other) (without_senders slot w) d
      (λ s p. ground (arith, d, p)) (λ o t. ground (arith, h o t, new o))

-- What an action needs: a disconnect finds the only connection to its object, and what a copy
-- constructor makes is new.
abbrev pub IsAllowed : Action → World → Type 0
IsAllowed (act_disconnect sender pclass) w =
    let s = w.signals sender in
    has_dest pclass (erase_first pclass s.current_iterator s.connected_slots).2 ≡ false
IsAllowed (act_copy_signal sender other) w = IsNewSignal sender w
IsAllowed (act_copy_slots slot other) w = ((slot == other) ≡ false) × IsNewSlots slot w
IsAllowed a w = true ≡ true

abbrev pub IsLinkedResult : Option World → Type 0
IsLinkedResult none = true ≡ true
IsLinkedResult (some w) = IsLinked w

emit_turn-IsLinked :
    (sender : ℕ) (w : World) → IsLinked w → IsLinkedResult (after_turn w (emit_turn sender w))
unfolding emit_turn
emit_turn-IsLinked sender w h = elim (Option-cases (w.signals sender).current_iterator) [
  | inl p ↦ rw (p, emit_turn) h
  | inr (n, p) ↦ elim (Option-cases (find_node n (w.signals sender).connected_slots)) [
    | inl q ↦ rw (p, emit_turn, q) refl
    | inr (r, q) ↦ rw (p, emit_turn, q) (λ o t. ground (arith, h o t))
  ]
]

-- An action on a linked world leaves it linked: an object knows a signal as a sender exactly if the
-- signal has a connection to it. A disconnect must find the only connection to its object, and what
-- a copy constructor makes must be new.
pub act-IsLinked : (a : Action) (w : World) → IsAllowed a w → IsLinked w → IsLinkedResult (act a w)
unfolding act begin_emit emit_turn
act-IsLinked (act_connect sender pclass pmemfun) w p h = connect-IsLinked sender pclass pmemfun w h
act-IsLinked (act_disconnect sender pclass) w p h = disconnect-IsLinked sender pclass w p h
act-IsLinked (act_disconnect_all sender) w p h = disconnect_all-IsLinked sender w h
act-IsLinked (act_slots_disconnect_all slot) w p h =
    rw (slots_disconnect_all_lem slot w) (disconnected-IsLinked slot w h)
act-IsLinked (act_copy_signal sender other) w p h = copy_signal-IsLinked sender other w p h
act-IsLinked (act_copy_slots slot other) w p h = copy_slots-IsLinked slot other w p.0 p.1 h
act-IsLinked (act_begin_emit sender) w p h = λ o t. ground (arith, h o t)
act-IsLinked (act_emit_turn sender) w p h = emit_turn-IsLinked sender w h
