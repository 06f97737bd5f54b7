-- ===== src/Sigslot/Actions.antt =====
-- What the program can do with its signals and objects, in any order and also while a signal fires.
use librtcbase.Prelude.{
  ℕ, true, Option, none, some, List, [], ◌∷◌, ◌==◌, if◌then◌else◌, ◌≡◌, refl, arith, Bool-cases,
  Option-cases, inl, inr, ap, ◌∙◌,
}
use mathlib.Core.Path.{subst}
use librtcbase.Sigslot.{
  Connection, SignalBase, World, updated, signal_connect, signal_disconnect, with_signal,
  first_node, push_back, connect, pop_all, disconnect_all, erase_first, disconnect, erase_dest,
  slot_disconnect, duplicate_loop, slot_duplicate, copy_loop, no_connections, copy_signal,
  copy_senders, copy_slots, disconnect_senders, is_empty, disconnect_all_loop, slots_disconnect_all,
  begin_emit, find_node, Turn, finished, dangling, called, emit_turn,
}
use librtcbase.Sigslot.Cursor.{
  has_node, cursor_in, is_ordered, is_sound, first_node-in, push_back_sound, erase_dest-ordered,
  cursor_in-cons, erase_dest-in, erase_first-ordered, erase_first-in,
}

pub data Action : Type 0 where
  act_connect : ℕ → ℕ → ℕ → Action
  act_disconnect : ℕ → ℕ → Action
  act_disconnect_all : ℕ → Action
  act_slots_disconnect_all : ℕ → Action
  act_copy_signal : ℕ → ℕ → Action
  act_copy_slots : ℕ → ℕ → Action
  act_begin_emit : ℕ → Action
  act_emit_turn : ℕ → Action

abbrev pub after_turn : World → Turn → Option World
after_turn w finished = some w
after_turn w dangling = none
after_turn w (called conn w') = some w'

-- `none` is a read of a node that is not there, or a loop that does not end.
unfoldable pub act : Action → World → Option World
act (act_connect sender pclass pmemfun) w = some (connect sender pclass pmemfun w)
act (act_disconnect sender pclass) w = some (disconnect sender pclass w)
act (act_disconnect_all sender) w = some (disconnect_all sender w)
act (act_slots_disconnect_all slot) w = slots_disconnect_all slot w
act (act_copy_signal sender other) w = some (copy_signal sender other w)
act (act_copy_slots slot other) w = some (copy_slots slot other w)
act (act_begin_emit sender) w = some (begin_emit sender w)
act (act_emit_turn sender) w = after_turn w (emit_turn sender w)

unfoldable pub act_all : List Action → World → Option World
unfolding act
act_all [] w = some w
act_all (a ∷ rest) w = elim (act a w) [ none ↦ none | some w' ↦ act_all rest w' ]

-- The signals of a world are sound.
abbrev pub IsSound : World → Type 0
IsSound w = (sender : ℕ) → is_sound (w.signals sender) ≡ true

abbrev pub IsSoundResult : Option World → Type 0
IsSoundResult none = ⊥
IsSoundResult (some w) = IsSound w

with_signal-IsSound :
    (sender : ℕ) (s : SignalBase) (w : World)
    → IsSound w
    → is_sound s ≡ true
    → IsSound (with_signal sender s w)
with_signal-IsSound sender s w h p other = ground (arith, h other, p)

pub connect-IsSound :
    (sender pclass pmemfun : ℕ) (w : World) → IsSound w → IsSound (connect sender pclass pmemfun w)
unfolding connect
connect-IsSound sender pclass pmemfun w h =
    with_signal-IsSound sender (push_back pclass pmemfun (w.signals sender)) w h
      (push_back_sound pclass pmemfun (w.signals sender) (h sender))

pub pop_all-signals :
    (sender : ℕ) (cs : List Connection) (w : World) → (pop_all sender cs w).signals ≡ w.signals
unfolding pop_all
pop_all-signals sender [] w = refl
pop_all-signals sender (c ∷ cs) w = pop_all-signals sender cs (signal_disconnect c.dest sender w)

pub disconnect_all-IsSound :
    (sender : ℕ) (w : World) → IsSound w → IsSound (disconnect_all sender w)
unfolding disconnect_all
disconnect_all-IsSound sender w h other =
    let s = w.signals sender in
    let kept : is_sound ((pop_all sender s.connected_slots w).signals other) ≡ true =
      rw (pop_all-signals sender s.connected_slots w) (h other) in
    ground (arith, kept)

erased-IsSound :
    (sender : ℕ) (current : Option ℕ) (cs : List Connection) (w : World)
    → IsSound w
    → is_ordered 0 (w.signals sender).next_node cs ≡ true
    → cursor_in current cs ≡ true
    → IsSound (
        with_signal sender
          (record (w.signals sender) { connected_slots = cs; current_iterator = current })
          w)
erased-IsSound sender current cs w h p q =
    with_signal-IsSound sender
      (record (w.signals sender) { connected_slots = cs; current_iterator = current }) w h
      (ground (arith, p, q))

is_sound-ordered :
    (s : SignalBase) → is_sound s ≡ true → is_ordered 0 s.next_node s.connected_slots ≡ true
is_sound-ordered s h = ground (arith, h)

is_sound-in :
    (s : SignalBase) → is_sound s ≡ true → cursor_in s.current_iterator s.connected_slots ≡ true
is_sound-in s h = ground (arith, h)

disconnect-IsSound :
    (sender pclass : ℕ) (w : World) → IsSound w → IsSound (disconnect sender pclass w)
unfolding disconnect
disconnect-IsSound sender pclass w h =
    let s = w.signals sender in
    let r = erase_first pclass s.current_iterator s.connected_slots in
    let kept =
      erased-IsSound sender r.1 r.2 w h
        (erase_first-ordered pclass 0 s.next_node s.current_iterator s.connected_slots
          (is_sound-ordered s (h sender)))
        (erase_first-in pclass s.current_iterator s.connected_slots (is_sound-in s (h sender))) in
    elim (Bool-cases r.0) [ inl p ↦ rw (p) kept | inr p ↦ rw (p) h ]

slot_disconnect-IsSound :
    (sender pslot : ℕ) (w : World) → IsSound w → IsSound (slot_disconnect sender pslot w)
unfolding slot_disconnect
slot_disconnect-IsSound sender pslot w h =
    let s = w.signals sender in
    let r = erase_dest pslot s.current_iterator s.connected_slots in
    erased-IsSound sender r.0 r.1 w h
      (erase_dest-ordered pslot 0 s.next_node s.current_iterator s.connected_slots
        (is_sound-ordered s (h sender)))
      (erase_dest-in pslot s.current_iterator s.connected_slots (is_sound-in s (h sender)))

disconnect_senders-IsSound :
    (slot : ℕ) (senders : List ℕ) (w : World)
    → IsSound w
    → IsSound (disconnect_senders slot senders w)
unfolding disconnect_senders
disconnect_senders-IsSound slot [] w h = h
disconnect_senders-IsSound slot (sender ∷ rest) w h =
    disconnect_senders-IsSound slot rest (slot_disconnect sender slot w)
      (slot_disconnect-IsSound sender slot w h)

-- Taking the senders away one by one gives none back.
pub disconnect_senders-senders :
    (slot : ℕ) (senders : List ℕ) (w : World)
    → (disconnect_senders slot senders w).senders ≡ w.senders
unfolding disconnect_senders slot_disconnect
disconnect_senders-senders slot [] w = refl
disconnect_senders-senders slot (sender ∷ rest) w =
    disconnect_senders-senders slot rest (slot_disconnect sender slot w)

abbrev pub without_senders : ℕ → World → World
without_senders slot w = record w { senders = updated w.senders slot [] }

-- The outer loop runs once at most.
pub slots_disconnect_all_lem :
    (slot : ℕ) (w : World)
    → slots_disconnect_all slot w
      ≡ some (
          if is_empty (w.senders slot)
          then w
          else disconnect_senders slot (w.senders slot) (without_senders slot w))
unfolding slots_disconnect_all disconnect_all_loop
slots_disconnect_all_lem slot w =
    let w1 = disconnect_senders slot (w.senders slot) (without_senders slot w) in
    let e : w1.senders slot ≡ [] =
      ap (λ f. f slot) (disconnect_senders-senders slot (w.senders slot) (without_senders slot w))
      ∙ ground (arith) in
    elim (Bool-cases (is_empty (w.senders slot))) [ inl p ↦ rw (p) | inr p ↦ rw (p, e) ]

slots_disconnect_all-IsSound :
    (slot : ℕ) (w : World) → IsSound w → IsSoundResult (slots_disconnect_all slot w)
slots_disconnect_all-IsSound slot w h =
    let kept = disconnect_senders-IsSound slot (w.senders slot) (without_senders slot w) h in
    elim (Bool-cases (is_empty (w.senders slot))) [
      | inl p ↦ rw (slots_disconnect_all_lem slot w, p) h
      | inr p ↦ rw (slots_disconnect_all_lem slot w, p) kept
    ]

duplicate_loop_sound :
    (oldtarget newtarget : ℕ) (cs : List Connection) (s : SignalBase)
    → is_sound s ≡ true
    → is_sound (duplicate_loop oldtarget newtarget cs s) ≡ true
unfolding duplicate_loop
duplicate_loop_sound oldtarget newtarget [] s h = h
duplicate_loop_sound oldtarget newtarget (c ∷ cs) s h = elim (Bool-cases (c.dest == oldtarget)) [
  | inl p ↦ rw (p) (
      duplicate_loop_sound oldtarget newtarget cs (push_back newtarget c.method s)
        (push_back_sound newtarget c.method s h))
  | inr p ↦ rw (p) (duplicate_loop_sound oldtarget newtarget cs s h)
]

slot_duplicate-IsSound :
    (sender oldtarget newtarget : ℕ) (w : World)
    → IsSound w
    → IsSound (slot_duplicate sender oldtarget newtarget w)
unfolding slot_duplicate
slot_duplicate-IsSound sender oldtarget newtarget w h =
    let s = w.signals sender in
    with_signal-IsSound sender (duplicate_loop oldtarget newtarget s.connected_slots s) w h
      (duplicate_loop_sound oldtarget newtarget s.connected_slots s (h sender))

copy_senders-IsSound :
    (slot other : ℕ) (senders : List ℕ) (w : World)
    → IsSound w
    → IsSound (copy_senders slot other senders w)
unfolding copy_senders
copy_senders-IsSound slot other [] w h = h
copy_senders-IsSound slot other (sender ∷ rest) w h =
    copy_senders-IsSound slot other rest
      (signal_connect slot sender (slot_duplicate sender other slot w))
      (slot_duplicate-IsSound sender other slot w h)

copy_loop-IsSound :
    (sender : ℕ) (cs : List Connection) (w : World) → IsSound w → IsSound (copy_loop sender cs w)
unfolding copy_loop
copy_loop-IsSound sender [] w h = h
copy_loop-IsSound sender (c ∷ cs) w h =
    let w1 = signal_connect c.dest sender w in
    let s = push_back c.dest c.method (w1.signals sender) in
    copy_loop-IsSound sender cs (with_signal sender s w1) (
      with_signal-IsSound sender s w1 h
        (push_back_sound c.dest c.method (w1.signals sender) (h sender)))

-- The node that the iterator is at is there, and the next one is in the list.
pub find_node-in :
    (n : ℕ) (cs : List Connection)
    → has_node n cs ≡ true
    → (r : Connection × Option ℕ) × ((find_node n cs ≡ some r) × (cursor_in r.1 cs ≡ true))
find_node-in n [] p = let q : ⊥ = ground (arith, p) in elim q [ ]
find_node-in n (c ∷ cs) p = elim (Bool-cases (n == c.node)) [
  | inl q ↦ ((c, first_node cs), (rw (q), cursor_in-cons c (first_node cs) cs (first_node-in cs)))
  | inr q ↦
      let (r, (e, h)) = find_node-in n cs (ground (arith, p, q)) in
      (r, (rw (q, e), cursor_in-cons c r.1 cs h))
]

emit_turn-IsSound :
    (sender : ℕ) (w : World) → IsSound w → IsSoundResult (after_turn w (emit_turn sender w))
unfolding emit_turn
emit_turn-IsSound sender w h = elim (Option-cases (w.signals sender).current_iterator) [
  | inl p ↦ rw (p, emit_turn) h
  | inr (n, p) ↦
      let s = w.signals sender in
      let (r, (e, k)) =
        find_node-in n s.connected_slots
          (subst (λ x. cursor_in x s.connected_slots ≡ true) p (is_sound-in s (h sender))) in
      rw (p, emit_turn, e)
        (with_signal-IsSound sender (record s { current_iterator = r.1 }) w h
          (ground (arith, is_sound-ordered s (h sender), k)))
]

-- x
pub act-IsSound : (a : Action) (w : World) → IsSound w → IsSoundResult (act a w)
unfolding act begin_emit copy_signal copy_slots
act-IsSound (act_connect sender pclass pmemfun) w h = connect-IsSound sender pclass pmemfun w h
act-IsSound (act_disconnect sender pclass) w h = disconnect-IsSound sender pclass w h
act-IsSound (act_disconnect_all sender) w h = disconnect_all-IsSound sender w h
act-IsSound (act_slots_disconnect_all slot) w h = slots_disconnect_all-IsSound slot w h
act-IsSound (act_copy_signal sender other) w h =
    copy_loop-IsSound sender (w.signals other).connected_slots (with_signal sender no_connections w)
      (with_signal-IsSound sender no_connections w h refl)
act-IsSound (act_copy_slots slot other) w h =
    copy_senders-IsSound slot other (w.senders other) (without_senders slot w) h
act-IsSound (act_begin_emit sender) w h =
    let s = w.signals sender in
    with_signal-IsSound sender (record s { current_iterator = first_node s.connected_slots }) w h
      (ground (arith, is_sound-ordered s (h sender), first_node-in s.connected_slots))
act-IsSound (act_emit_turn sender) w h = emit_turn-IsSound sender w h

-- In a world of sound signals, any sequence of connects, disconnects, copies and turns of
-- emissions, in any order and of any signals, reads no node that has been erased, ends its loops,
-- and leaves every signal sound: the iterator is at the end or at a node of the list, and the nodes
-- are in the order of their numbers.
pub act_all-IsSound :
    (actions : List Action) (w : World) → IsSound w → IsSoundResult (act_all actions w)
unfolding act_all
act_all-IsSound [] w h = h
act_all-IsSound (a ∷ rest) w h = elim (Option-cases (act a w)) [
  | inl p ↦ elim (subst IsSoundResult p (act-IsSound a w h)) [ ]
  | inr (w', p) ↦
      rw (p, act_all) (act_all-IsSound rest w' (subst IsSoundResult p (act-IsSound a w h)))
]
