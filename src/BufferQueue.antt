-- ===== src/BufferQueue.antt =====
-- BufferQueue of src/buffer_queue.cpp. The back of the vector `_free_list` is the head of the list
-- here. The critical section that every method holds makes a method one step.
pub mod Laws
use librtcbase.Prelude.{
  ℕ, min, Bool, true, false, not, Option, none, some, List, [], ◌∷◌, ◌++◌, length, take, ltb, ◌==◌,
  if◌then◌else◌,
}
use librtcbase.Buffer.{Buffer, contents, of_size, set_data}

pub record BufferQueue : Type 0 where
  pub capacity : ℕ
  pub default_size : ℕ
  pub queue : List Buffer
  pub free_list : List Buffer

pub construct : ℕ → ℕ → BufferQueue
construct capacity default_size = record {
  capacity = capacity;
  default_size = default_size;
  queue = [];
  free_list = [];
}

abbrev pub size : BufferQueue → ℕ
size q = length q.queue

-- The loop of `clear`: queue and free list.
unfoldable pub clear_loop : List Buffer → List Buffer → List Buffer
clear_loop [] free = free
clear_loop (packet ∷ queue) free = clear_loop queue (packet ∷ free)

pub clear : BufferQueue → BufferQueue
unfolding clear_loop
clear q = record q { queue = []; free_list = clear_loop q.queue q.free_list }

-- The bytes copied out, `bytes_read` of them, or `none` for false; and whether
-- `notify_writable_for_test` is called.
pub read_front : BufferQueue → ℕ → Option (List ℕ) × Bool × BufferQueue
read_front q bytes = elim q.queue [
  | [] ↦ (none, false, q)
  | packet ∷ queue ↦
      let was_writable = ltb (length q.queue) q.capacity in
      (
        some (take (min bytes packet.size) (contents packet)),
        not was_writable,
        record q { queue = queue; free_list = packet ∷ q.free_list },
      )
]

-- The buffer to write into, and the free list that is left.
abbrev pub take_free : ℕ → ℕ → List Buffer → Buffer × List Buffer
take_free bytes default_size [] = (of_size bytes default_size, [])
take_free bytes default_size (packet ∷ free) = (packet, free)

-- The result, and whether `notify_readable_for_test` is called.
pub write_back : BufferQueue → List ℕ → Bool × Bool × BufferQueue
write_back q written =
    if length q.queue == q.capacity
    then (false, false, q)
    else let was_readable = not (length q.queue == 0) in
      let (packet, free) = take_free (length written) q.default_size q.free_list in
      (
        true,
        not was_readable,
        record q { queue = q.queue ++ (set_data packet written ∷ []); free_list = free },
      )
