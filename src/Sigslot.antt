-- ===== src/Sigslot.antt =====
-- src/sigslot.h: signals, the objects that have slots, and the connections between them. A signal and
-- an object are numbers, and a world says what each of them holds. A connection is a node of the list
-- of its signal, and an iterator is the number of the node, `none` for the end.
pub mod Cursor
pub mod Actions
pub mod Links
pub mod Copies
pub mod Emission
use librtcbase.Prelude.{
  ℕ, ◌+◌, Bool, true, false, not, ◌&&◌, ◌||◌, Option, none, some, List, [], ◌∷◌, ◌++◌, ◌==◌,
  if◌then◌else◌, suc, zero,
}

-- A node with an _OpaqueConnection.
pub record Connection : Type 0 where
  pub node : ℕ
  pub dest : ℕ
  pub method : ℕ

-- `next_node` is the number of the next node, so that no two nodes have the same.
pub record SignalBase : Type 0 where
  pub connected_slots : List Connection
  pub current_iterator : Option ℕ
  pub next_node : ℕ

pub record World : Type 0 where
  pub signals : ℕ → SignalBase
  pub senders : ℕ → List ℕ

abbrev pub updated {ℓ} : {A : Type ℓ} → (ℕ → A) → ℕ → A → ℕ → A
updated f k v x = if x == k then v else f x

-- A std::set.
abbrev pub contains : ℕ → List ℕ → Bool
contains x [] = false
contains x (y ∷ ys) = let r = contains x ys in x == y || r

abbrev pub insert : ℕ → List ℕ → List ℕ
insert x ys = if contains x ys then ys else x ∷ ys

abbrev pub erase : ℕ → List ℕ → List ℕ
erase x [] = []
erase x (y ∷ ys) = let r = erase x ys in if x == y then r else y ∷ r

-- do_signal_connect and do_signal_disconnect of HasSlots.
abbrev pub signal_connect : ℕ → ℕ → World → World
signal_connect slot sender w = record w {
  senders = updated w.senders slot (insert sender (w.senders slot));
}

abbrev pub signal_disconnect : ℕ → ℕ → World → World
signal_disconnect slot sender w = record w {
  senders = updated w.senders slot (erase sender (w.senders slot));
}

abbrev pub with_signal : ℕ → SignalBase → World → World
with_signal sender s w = record w { signals = updated w.signals sender s }

abbrev pub first_node : List Connection → Option ℕ
first_node [] = none
first_node (c ∷ cs) = some c.node

abbrev pub is_at : Option ℕ → Connection → Bool
is_at none c = false
is_at (some n) c = n == c.node

-- The iterator after erase of the node it is at, or of another one.
abbrev pub after_erase : Option ℕ → Connection → List Connection → Option ℕ
after_erase current c rest = if is_at current c then first_node rest else current

abbrev pub push_back : ℕ → ℕ → SignalBase → SignalBase
push_back dest method s =
    let c : Connection = record { node = s.next_node; dest = dest; method = method } in
    record s { connected_slots = s.connected_slots ++ (c ∷ []); next_node = suc s.next_node }

unfoldable pub connect : ℕ → ℕ → ℕ → World → World
connect sender pclass pmemfun w =
    signal_connect pclass sender
      (with_signal sender (push_back pclass pmemfun (w.signals sender)) w)

-- The loop of disconnect_all of a signal.
unfoldable pub pop_all : ℕ → List Connection → World → World
pop_all sender [] w = w
pop_all sender (c ∷ cs) w = pop_all sender cs (signal_disconnect c.dest sender w)

unfoldable pub disconnect_all : ℕ → World → World
unfolding pop_all
disconnect_all sender w =
    let s = w.signals sender in
    with_signal sender (record s { connected_slots = []; current_iterator = none })
      (pop_all sender s.connected_slots w)

-- The loop of disconnect: whether it found a connection, the iterator, and the list.
unfoldable pub erase_first : ℕ → Option ℕ → List Connection → Bool × Option ℕ × List Connection
erase_first pclass current [] = (false, current, [])
erase_first pclass current (c ∷ cs) =
    let (found, current', cs') = erase_first pclass current cs in
    if c.dest == pclass then (true, after_erase current c cs, cs) else (found, current', c ∷ cs')

unfoldable pub disconnect : ℕ → ℕ → World → World
unfolding erase_first
disconnect sender pclass w =
    let s = w.signals sender in
    let (found, current, cs) = erase_first pclass s.current_iterator s.connected_slots in
    let w1 = with_signal sender (record s { connected_slots = cs; current_iterator = current }) w in
    if found then signal_disconnect pclass sender w1 else w

-- The loop of do_slot_disconnect.
unfoldable pub erase_dest : ℕ → Option ℕ → List Connection → Option ℕ × List Connection
erase_dest pslot current [] = (current, [])
erase_dest pslot current (c ∷ cs) =
    let (erased, erased_cs) = erase_dest pslot (after_erase current c cs) cs in
    let (kept, kept_cs) = erase_dest pslot current cs in
    if c.dest == pslot then (erased, erased_cs) else (kept, c ∷ kept_cs)

unfoldable pub slot_disconnect : ℕ → ℕ → World → World
unfolding erase_dest
slot_disconnect sender pslot w =
    let s = w.signals sender in
    let (current, cs) = erase_dest pslot s.current_iterator s.connected_slots in
    with_signal sender (record s { connected_slots = cs; current_iterator = current }) w

-- The loop of do_slot_duplicate, on the nodes that it still has to visit. It goes on to the nodes that
-- it appends, which are of `newtarget`.
unfoldable pub duplicate_loop : ℕ → ℕ → List Connection → SignalBase → SignalBase
duplicate_loop oldtarget newtarget [] s = s
duplicate_loop oldtarget newtarget (c ∷ cs) s =
    let pushed = duplicate_loop oldtarget newtarget cs (push_back newtarget c.method s) in
    let same = duplicate_loop oldtarget newtarget cs s in
    if c.dest == oldtarget then pushed else same

unfoldable pub slot_duplicate : ℕ → ℕ → ℕ → World → World
unfolding duplicate_loop
slot_duplicate sender oldtarget newtarget w =
    let s = w.signals sender in
    with_signal sender (duplicate_loop oldtarget newtarget s.connected_slots s) w

-- The copy constructor of _SignalBase, on a signal that is new.
unfoldable pub copy_loop : ℕ → List Connection → World → World
copy_loop sender [] w = w
copy_loop sender (c ∷ cs) w =
    let w1 = signal_connect c.dest sender w in
    copy_loop sender cs (with_signal sender (push_back c.dest c.method (w1.signals sender)) w1)

abbrev pub no_connections : SignalBase
no_connections = record { connected_slots = []; current_iterator = none; next_node = 0 }

unfoldable pub copy_signal : ℕ → ℕ → World → World
unfolding copy_loop
copy_signal sender other w =
    copy_loop sender (w.signals other).connected_slots (with_signal sender no_connections w)

-- The copy constructor of HasSlots, on an object that is new.
unfoldable pub copy_senders : ℕ → ℕ → List ℕ → World → World
unfolding slot_duplicate
copy_senders slot other [] w = w
copy_senders slot other (sender ∷ rest) w =
    copy_senders slot other rest (signal_connect slot sender (slot_duplicate sender other slot w))

unfoldable pub copy_slots : ℕ → ℕ → World → World
unfolding copy_senders
copy_slots slot other w =
    copy_senders slot other (w.senders other) (record w { senders = updated w.senders slot [] })

-- The inner loop of do_disconnect_all of HasSlots, and the outer one on fuel.
unfoldable pub disconnect_senders : ℕ → List ℕ → World → World
unfolding slot_disconnect
disconnect_senders slot [] w = w
disconnect_senders slot (sender ∷ rest) w =
    disconnect_senders slot rest (slot_disconnect sender slot w)

abbrev pub is_empty : List ℕ → Bool
is_empty [] = true
is_empty (x ∷ xs) = false

unfoldable pub disconnect_all_loop : ℕ → ℕ → World → Option World
unfolding disconnect_senders
disconnect_all_loop zero slot w = none
disconnect_all_loop (suc fuel) slot w =
    let w1 = record w { senders = updated w.senders slot [] } in
    let rest = disconnect_all_loop fuel slot (disconnect_senders slot (w.senders slot) w1) in
    if is_empty (w.senders slot) then some w else rest

unfoldable pub slots_disconnect_all : ℕ → World → Option World
unfolding disconnect_all_loop
slots_disconnect_all slot w = disconnect_all_loop 2 slot w

-- The emission of a signal: where it begins, and one turn of its loop, which reads the node that the
-- iterator is at and calls it. A node that is not there is `dangling`.
unfoldable pub begin_emit : ℕ → World → World
begin_emit sender w =
    let s = w.signals sender in
    with_signal sender (record s { current_iterator = first_node s.connected_slots }) w

-- The node of a number, and the one after it.
abbrev pub find_node : ℕ → List Connection → Option (Connection × Option ℕ)
find_node n [] = none
find_node n (c ∷ cs) =
    let rest = find_node n cs in if n == c.node then some (c, first_node cs) else rest

pub data Turn : Type 0 where
  finished : Turn
  dangling : Turn
  called : Connection → World → Turn

unfoldable pub emit_turn : ℕ → World → Turn
emit_turn sender w =
    let s = w.signals sender in
    elim s.current_iterator [
      | none ↦ finished
      | some n ↦ elim (find_node n s.connected_slots) [
        | none ↦ dangling
        | some (conn, next) ↦
            called conn (with_signal sender (record s { current_iterator = next }) w)
      ]
    ]

-- The emission. `react` is what the method of a connection does to the world. `none` is a node that is
-- not there, or no fuel; the calls are the connections in the order of the calls.
unfoldable pub emit_loop :
    ℕ → ℕ → (Connection → World → World) → World → Option (List Connection × World)
unfolding emit_turn
emit_loop zero sender react w = none
emit_loop (suc fuel) sender react w = elim (emit_turn sender w) [
  | finished ↦ some ([], w)
  | dangling ↦ none
  | called conn w1 ↦ elim (emit_loop fuel sender react (react conn w1)) [
    | none ↦ none
    | some (calls, w2) ↦ some (conn ∷ calls, w2)
  ]
]

unfoldable pub emit :
    ℕ → ℕ → (Connection → World → World) → World → Option (List Connection × World)
unfolding begin_emit emit_loop
emit fuel sender react w = emit_loop fuel sender react (begin_emit sender w)
