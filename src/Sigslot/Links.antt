-- ===== src/Sigslot/Links.antt =====
-- The connections of the signals and the senders of the objects: an object knows the signals that it
-- has a connection from, and no other.
use librtcbase.Prelude.{
  ℕ, Bool, true, false, not, ◌&&◌, ◌||◌, Option, some, List, [], ◌∷◌, ◌++◌, ◌==◌, if◌then◌else◌,
  ◌≡◌, refl, arith, Bool-cases, inl, inr, ap,
}
use librtcbase.Sigslot.{
  Connection, SignalBase, World, contains, insert, erase, signal_disconnect, after_erase, push_back,
  connect, pop_all, disconnect_all, erase_first, disconnect, erase_dest, slot_disconnect,
  duplicate_loop, disconnect_senders, is_empty, slots_disconnect_all,
}
use librtcbase.Sigslot.Actions.{
  pop_all-signals, disconnect_senders-senders, without_senders, slots_disconnect_all_lem,
}

abbrev pub has_dest : ℕ → List Connection → Bool
has_dest slot [] = false
has_dest slot (c ∷ cs) = let r = has_dest slot cs in slot == c.dest || r

abbrev pub IsLinked : World → Type 0
IsLinked w =
    (sender slot : ℕ)
    → contains sender (w.senders slot) ≡ has_dest slot (w.signals sender).connected_slots

pub contains-insert : (x y : ℕ) (ys : List ℕ) → contains x (insert y ys) ≡ (x == y || contains x ys)
contains-insert x y ys =
    let same : x ≡ y → contains x ys ≡ contains y ys = ap (λ z. contains z ys) in
    ground (arith, same)

contains-erase : (x y : ℕ) (ys : List ℕ) → contains x (erase y ys) ≡ (not (x == y) && contains x ys)
contains-erase x y [] = ground (arith)
contains-erase x y (z ∷ zs) = ground (arith, contains-erase x y zs)

has_dest-append :
    (slot : ℕ) (cs ds : List Connection)
    → has_dest slot (cs ++ ds) ≡ (has_dest slot cs || has_dest slot ds)
has_dest-append slot [] ds = refl
has_dest-append slot (c ∷ cs) ds = ground (arith, has_dest-append slot cs ds)

pub connect-IsLinked :
    (sender pclass pmemfun : ℕ) (w : World)
    → IsLinked w
    → IsLinked (connect sender pclass pmemfun w)
unfolding connect
connect-IsLinked sender pclass pmemfun w h other slot =
    let c : Connection = record {
      node = (w.signals sender).next_node;
      dest = pclass;
      method = pmemfun;
    } in
    ground (
      arith,
      h other slot,
      h sender slot,
      h other pclass,
      contains-insert other sender (w.senders pclass),
      has_dest-append slot (w.signals sender).connected_slots (c ∷ []),
    )

contains-pop_all :
    (sender other slot : ℕ) (cs : List Connection) (w : World)
    → contains other ((pop_all sender cs w).senders slot)
      ≡ (contains other (w.senders slot) && not (other == sender && has_dest slot cs))
unfolding pop_all
contains-pop_all sender other slot [] w = ground (arith)
contains-pop_all sender other slot (c ∷ cs) w =
    let same : slot ≡ c.dest → w.senders slot ≡ w.senders c.dest = ap (λ z. w.senders z) in
    ground (
      arith,
      contains-pop_all sender other slot cs (signal_disconnect c.dest sender w),
      contains-erase other sender (w.senders c.dest),
      same,
    )

pub disconnect_all-IsLinked :
    (sender : ℕ) (w : World) → IsLinked w → IsLinked (disconnect_all sender w)
unfolding disconnect_all
disconnect_all-IsLinked sender w h other slot = ground (
  arith,
  h other slot,
  h sender slot,
  contains-pop_all sender other slot (w.signals sender).connected_slots w,
  pop_all-signals sender (w.signals sender).connected_slots w,
)

has_dest-erase_dest :
    (slot pslot : ℕ) (current : Option ℕ) (cs : List Connection)
    → has_dest slot (erase_dest pslot current cs).1 ≡ (not (slot == pslot) && has_dest slot cs)
unfolding erase_dest
has_dest-erase_dest slot pslot current [] = ground (arith)
has_dest-erase_dest slot pslot current (c ∷ cs) = ground (
  arith,
  has_dest-erase_dest slot pslot current cs,
  has_dest-erase_dest slot pslot (after_erase current c cs) cs,
)

has_dest-disconnect_senders :
    (slot other pslot : ℕ) (senders : List ℕ) (w : World)
    → has_dest slot ((disconnect_senders pslot senders w).signals other).connected_slots ≡ (
        not (slot == pslot && contains other senders)
        && has_dest slot (w.signals other).connected_slots)
unfolding disconnect_senders slot_disconnect
has_dest-disconnect_senders slot other pslot [] w = ground (arith)
has_dest-disconnect_senders slot other pslot (sender ∷ rest) w = ground (
  arith,
  has_dest-disconnect_senders slot other pslot rest (slot_disconnect sender pslot w),
  has_dest-erase_dest slot pslot (w.signals sender).current_iterator
      (w.signals sender).connected_slots,
)

is_empty-contains : (x : ℕ) (ys : List ℕ) → is_empty ys ≡ true → contains x ys ≡ false
is_empty-contains x [] p = refl
is_empty-contains x (y ∷ ys) p = ground (arith, p)

-- The world after disconnect_all of an object.
abbrev pub disconnected : ℕ → World → World
disconnected slot w =
    if is_empty (w.senders slot)
    then w
    else disconnect_senders slot (w.senders slot) (without_senders slot w)

has_dest-disconnected :
    (slot other pslot : ℕ) (w : World)
    → IsLinked w
    → has_dest slot ((disconnected pslot w).signals other).connected_slots
      ≡ (not (slot == pslot) && has_dest slot (w.signals other).connected_slots)
has_dest-disconnected slot other pslot w h =
    let same : slot ≡ pslot → w.senders slot ≡ w.senders pslot = ap (λ z. w.senders z) in
    ground (
      arith,
      h other slot,
      h other pslot,
      same,
      is_empty-contains other (w.senders pslot),
      has_dest-disconnect_senders slot other pslot (w.senders pslot) (without_senders pslot w),
    )

pub disconnected-IsLinked : (pslot : ℕ) (w : World) → IsLinked w → IsLinked (disconnected pslot w)
disconnected-IsLinked pslot w h other slot = elim (Bool-cases (is_empty (w.senders pslot))) [
  | inl p ↦ rw (p) (h other slot)
  | inr p ↦
      let e : contains other
            ((disconnect_senders pslot (w.senders pslot) (without_senders pslot w)).senders slot)
          ≡ contains other ((without_senders pslot w).senders slot) =
        ap (λ f. contains other (f slot))
          (disconnect_senders-senders pslot (w.senders pslot) (without_senders pslot w)) in
      let k = has_dest-disconnected slot other pslot w h in ground (arith, p, e, k, h other slot)
]

-- disconnect_all of an object in a linked world ends, leaves the world linked, and leaves no
-- connection to the object in any signal.
pub slots_disconnect_all-silent :
    (pslot : ℕ) (w : World)
    → IsLinked w
    → (w' : World) × ((slots_disconnect_all pslot w ≡ some w')
        × (IsLinked w'
            × ((sender : ℕ) → has_dest pslot (w'.signals sender).connected_slots ≡ false)))
slots_disconnect_all-silent pslot w h = (
  disconnected pslot w,
  (
    slots_disconnect_all_lem pslot w,
    (
      disconnected-IsLinked pslot w h,
      (λ sender. ground (arith, has_dest-disconnected pslot sender pslot w h)),
    ),
  ),
)

-- A disconnect that leaves no other connection to the object.
has_dest-erase_first :
    (slot pclass : ℕ) (current : Option ℕ) (cs : List Connection)
    → (let r = erase_first pclass current cs in
        (r.0 ≡ has_dest pclass cs)
        × ((slot == pclass) ≡ false → has_dest slot r.2 ≡ has_dest slot cs))
unfolding erase_first
has_dest-erase_first slot pclass current [] = (refl, λ p. refl)
has_dest-erase_first slot pclass current (c ∷ cs) =
    let rest = has_dest-erase_first slot pclass current cs in
    (ground (arith, rest.0), λ p. ground (arith, p, rest.1 p))

pub disconnect-IsLinked :
    (sender pclass : ℕ) (w : World)
    → (let s = w.signals sender in
        has_dest pclass (erase_first pclass s.current_iterator s.connected_slots).2 ≡ false)
    → IsLinked w
    → IsLinked (disconnect sender pclass w)
unfolding disconnect
disconnect-IsLinked sender pclass w p h other slot =
    let s = w.signals sender in
    let k = has_dest-erase_first slot pclass s.current_iterator s.connected_slots in
    let same : slot ≡ pclass
        → has_dest slot (erase_first pclass s.current_iterator s.connected_slots).2
          ≡ has_dest pclass (erase_first pclass s.current_iterator s.connected_slots).2 =
      ap (λ z. has_dest z (erase_first pclass s.current_iterator s.connected_slots).2) in
    ground (
      arith,
      p,
      h other slot,
      h sender pclass,
      k,
      same,
      contains-erase other sender (w.senders pclass),
    )

-- Copies of a signal and of an object.
pub has_dest-duplicate_loop :
    (slot oldtarget newtarget : ℕ) (cs : List Connection) (s : SignalBase)
    → has_dest slot (duplicate_loop oldtarget newtarget cs s).connected_slots
      ≡ (has_dest slot s.connected_slots || (slot == newtarget && has_dest oldtarget cs))
unfolding duplicate_loop
has_dest-duplicate_loop slot oldtarget newtarget [] s = ground (arith)
has_dest-duplicate_loop slot oldtarget newtarget (c ∷ cs) s =
    let c' : Connection = record { node = s.next_node; dest = newtarget; method = c.method } in
    ground (
      arith,
      has_dest-duplicate_loop slot oldtarget newtarget cs s,
      has_dest-duplicate_loop slot oldtarget newtarget cs (push_back newtarget c.method s),
      has_dest-append slot s.connected_slots (c' ∷ []),
    )
