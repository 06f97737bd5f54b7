-- ===== src/BufferQueue/Laws.antt =====
-- BufferQueue against a bounded first-in-first-out queue of messages.
use librtcbase.Prelude.{
  ℕ, zero, suc, ◌+◌, ◌^◌, ◌≤◌, ◌<◌, min, ◌≡◌, refl, sym, ap, ap₂, ◌∙◌, inl, inr, Bool, true, false,
  not, Option, none, some, List, [], ◌∷◌, ◌++◌, length, take, length-append, map, ltb, ◌==◌,
  if◌then◌else◌, Bool-cases, arith,
}
use librtcbase.Buffer.{Buffer, contents, set_data}
use librtcbase.Buffer.Laws
use librtcbase.BufferQueue.{
  BufferQueue, construct, clear, clear_loop, read_front, write_back, take_free,
}

abbrev pub AllValid : List Buffer → Type 0
AllValid [] = Unit {0}
AllValid (b ∷ bs) = Laws.IsValid b × AllValid bs

-- The buffers are valid, and there are never more of them than the capacity.
pub record IsValid (q : BufferQueue) : Type 0 where
  pub queued : AllValid q.queue
  pub free : AllValid q.free_list
  pub bounded : length q.queue + length q.free_list ≤ q.capacity
  pub addressable : q.default_size < 2 ^ 64

-- The abstract view forgets the buffers and the free list.
abbrev pub messages : BufferQueue → List (List ℕ)
messages q = map contents q.queue

pub data Operation : Type 0 where
  write : List ℕ → Operation
  read : ℕ → Operation
  reset : Operation

-- What a caller and the notifications see.
pub data Outcome : Type 0 where
  wrote : Bool → Bool → Outcome
  got : Option (List ℕ) → Bool → Outcome
  was_reset : Outcome

-- A bounded queue of messages: a write to a full queue is refused, a read from an empty one gives
-- nothing, and one that is too short cuts the message off.
unfoldable pub promised : ℕ → List (List ℕ) → Operation → Outcome × List (List ℕ)
promised capacity ms (write m) =
    if length ms == capacity
    then (wrote false false, ms)
    else (wrote true (length ms == 0), ms ++ (m ∷ []))
promised capacity [] (read n) = (got none false, [])
promised capacity (m ∷ ms) (read n) =
    (got (some (take n m)) (not (ltb (suc (length ms)) capacity)), ms)
promised capacity ms reset = (was_reset, [])

unfoldable pub step : BufferQueue → Operation → Outcome × BufferQueue
step q (write m) = let (ok, readable, q') = write_back q m in (wrote ok readable, q')
step q (read n) = let (out, writable, q') = read_front q n in (got out writable, q')
step q reset = (was_reset, clear q)

abbrev pub Fits : Operation → Type 0
Fits (write m) = length m < 2 ^ 64
Fits (read n) = Unit {0}
Fits reset = Unit {0}

-- One step does what is promised of the messages, and keeps the invariant.
record Agrees (q : BufferQueue) (op : Operation) : Type 0 where
  valid : IsValid (step q op).1
  same_capacity : (step q op).1.capacity ≡ q.capacity
  outcome : (step q op).0 ≡ (promised q.capacity (messages q) op).0
  view : messages (step q op).1 ≡ (promised q.capacity (messages q) op).1

length-map : (bs : List Buffer) → length (map contents bs) ≡ length bs
length-map [] = refl
length-map (b ∷ bs) = ap suc (length-map bs)

map-append : (xs ys : List Buffer) → map contents (xs ++ ys) ≡ map contents xs ++ map contents ys
map-append [] ys = refl
map-append (x ∷ xs) ys = ap (λ t. contents x ∷ t) (map-append xs ys)

AllValid-append : (xs ys : List Buffer) → AllValid xs → AllValid ys → AllValid (xs ++ ys)
AllValid-append [] ys vx vy = vy
AllValid-append (x ∷ xs) ys vx vy = (vx.0, AllValid-append xs ys vx.1 vy)

clear_loop-AllValid :
    (queue free : List Buffer) → AllValid queue → AllValid free → AllValid (clear_loop queue free)
unfolding clear_loop
clear_loop-AllValid [] free vq vf = vf
clear_loop-AllValid (b ∷ queue) free vq vf = clear_loop-AllValid queue (b ∷ free) vq.1 (vq.0, vf)

length-clear_loop :
    (queue free : List Buffer) → length (clear_loop queue free) ≡ length queue + length free
unfolding clear_loop
length-clear_loop [] free = omega arith
length-clear_loop (b ∷ queue) free = omega (arith, length-clear_loop queue (b ∷ free))

reset-Agrees : (q : BufferQueue) → IsValid q → Agrees q reset
unfolding step clear promised
reset-Agrees q v = record {
  valid = record {
    queued = tt;
    free = clear_loop-AllValid q.queue q.free_list v.queued v.free;
    bounded = omega (arith, length-clear_loop q.queue q.free_list, v);
    addressable = v.addressable;
  };
  same_capacity = refl;
  outcome = refl;
  view = refl;
}

take-min : (n : ℕ) (xs : List ℕ) → take (min n (length xs)) xs ≡ take n xs
take-min zero xs = ap (λ k. take k xs) {x = min 0 (length xs)} {y = 0} (omega arith)
take-min (suc n) [] = ap (λ k. take k []) {x = min (suc n) 0} {y = 0} (omega arith)
take-min (suc n) (x ∷ xs) =
    ap (λ k. take k (x ∷ xs)) {x = min (suc n) (suc (length xs))} {y = suc (min n (length xs))}
      (omega arith)
    ∙ ap (λ t. x ∷ t) (take-min n xs)

abbrev made : ℕ → ℕ → List Buffer → List Buffer → BufferQueue
made capacity default_size queue free = record {
  capacity = capacity;
  default_size = default_size;
  queue = queue;
  free_list = free;
}

read-Agrees :
    (capacity default_size : ℕ) (queue free : List Buffer) (n : ℕ)
    → IsValid (made capacity default_size queue free)
    → Agrees (made capacity default_size queue free) (read n)
unfolding step read_front promised
read-Agrees capacity default_size [] free n v = record {
  valid = v;
  same_capacity = refl;
  outcome = refl;
  view = refl;
}
read-Agrees capacity default_size (packet ∷ queue) free n v = record {
  valid = record {
    queued = v.queued.1;
    free = (v.queued.0, v.free);
    bounded = omega (arith, v.bounded);
    addressable = v.addressable;
  };
  same_capacity = refl;
  outcome =
      ap₂ got
        (ap some (
          ap (λ k. take (min n k) (contents packet)) (sym (Laws.length-contents v.queued.0))
          ∙ take-min n (contents packet)))
        (ap (λ k. not (ltb (suc k) capacity)) (sym (length-map queue)));
  view = refl;
}

not-not : (b : Bool) → not (not b) ≡ b
not-not true = refl
not-not false = refl

-- The buffer chosen is valid, and choosing it does not make more buffers than the capacity.
take_free_lem :
    (capacity n default_size used : ℕ) (free : List Buffer)
    → AllValid free
    → n < 2 ^ 64
    → default_size < 2 ^ 64
    → used + length free ≤ capacity
    → used < capacity
    → (let (packet, rest) = take_free n default_size free in
        Laws.IsValid packet × AllValid rest × (suc used + length rest ≤ capacity))
take_free_lem capacity n default_size used [] v hn hd fits room =
    (Laws.of_size-IsValid n default_size hn hd, tt, omega arith)
take_free_lem capacity n default_size used (b ∷ free) v hn hd fits room = (v.0, v.1, omega arith)

module _ (capacity default_size : ℕ) (queue free : List Buffer) (m : List ℕ)
    (v : IsValid (made capacity default_size queue free)) (fits : length m < 2 ^ 64) where
  refused-Agrees :
      (length queue == capacity) ≡ true → Agrees (made capacity default_size queue free) (write m)
  unfolding step write_back promised
  refused-Agrees p = record {
    valid = rw p v;
    same_capacity = rw p refl;
    outcome = rw (length-map queue, p) refl;
    view = rw (length-map queue, p) refl;
  }

  accepted-Agrees :
      (length queue == capacity) ≡ false → Agrees (made capacity default_size queue free) (write m)
  unfolding step write_back promised
  accepted-Agrees p =
      let chosen =
        take_free_lem capacity (length m) default_size (length queue) free v.free fits v.addressable
          v.bounded (ground (arith, p, v.bounded)) in
      let (packet, rest) = take_free (length m) default_size free in
      let set = Laws.set_data_lem packet m chosen.0 fits in
      record {
        valid = rw p (record {
          queued = AllValid-append queue _ v.queued (set.0, tt);
          free = chosen.1;
          bounded = omega (arith, chosen.2, length-append queue (set_data packet m ∷ []));
          addressable = v.addressable;
        });
        same_capacity = rw p refl;
        outcome = rw (length-map queue, p) (ap (wrote true) (not-not (length queue == 0)));
        view =
            rw (length-map queue, p)
              (map-append queue _ ∙ ap (λ t. map contents queue ++ (t ∷ [])) set.1);
      }

step-Agrees : (q : BufferQueue) (op : Operation) → IsValid q → Fits op → Agrees q op
step-Agrees q (write m) v fits = elim (Bool-cases (length q.queue == q.capacity)) [
  | inl p ↦ refused-Agrees q.capacity q.default_size q.queue q.free_list m v fits p
  | inr p ↦ accepted-Agrees q.capacity q.default_size q.queue q.free_list m v fits p
]
step-Agrees q (read n) v fits = read-Agrees q.capacity q.default_size q.queue q.free_list n v
step-Agrees q reset v fits = reset-Agrees q v

unfoldable pub run : BufferQueue → List Operation → List Outcome
run q [] = []
run q (op ∷ ops) = let (out, q') = step q op in out ∷ run q' ops

unfoldable pub run_promised : ℕ → List (List ℕ) → List Operation → List Outcome
run_promised capacity ms [] = []
run_promised capacity ms (op ∷ ops) =
    let (out, ms') = promised capacity ms op in out ∷ run_promised capacity ms' ops

abbrev pub AllFit : List Operation → Type 0
AllFit [] = Unit {0}
AllFit (op ∷ ops) = Fits op × AllFit ops

-- From any valid queue, every sequence of writes (of fewer than 2 ^ 64 bytes each), reads and
-- resets has the outcomes, notifications included, of a bounded first-in-first-out queue of
-- messages that starts with the messages of the queue.
pub run_lem :
    (q : BufferQueue) (ops : List Operation)
    → IsValid q
    → AllFit ops
    → run q ops ≡ run_promised q.capacity (messages q) ops
unfolding run run_promised
run_lem q [] v fits = refl
run_lem q (op ∷ ops) v fits =
    let a = step-Agrees q op v fits.0 in
    ap₂ ◌∷◌ a.outcome (
      run_lem (step q op).1 ops a.valid fits.1
      ∙ ap₂ (λ c ms. run_promised c ms ops) a.same_capacity a.view)

-- A new queue is valid and empty.
pub construct-IsValid :
    (capacity default_size : ℕ)
    → default_size < 2 ^ 64
    → IsValid (construct capacity default_size) × (messages (construct capacity default_size) ≡ [])
unfolding construct
construct-IsValid capacity default_size h =
    (record { queued = tt; free = tt; bounded = omega arith; addressable = h }, refl)
