-- ===== src/Tests/Queue.antt =====
-- Runs of src/buffer.h and src/buffer_queue.cpp.
use librtcbase.Prelude.{ℕ, ◌≡◌, ap, List, [], ◌∷◌, ◌++◌, length, set, arith}
use librtcbase.Buffer
use librtcbase.Buffer.{
  Buffer, contents, of_data, equals, append_data, append_data_with, set_data, move_from, clear,
  is_consistent, ensure_capacity_with_headroom,
}
use librtcbase.Buffer.Laws.{
  of_data_lem, append_data_lem, set_data_lem, equals_iff, move_from_lem, append_data_with_lem,
  ensure_capacity_lem,
}
use librtcbase.BufferQueue
use librtcbase.BufferQueue.Laws.{
  Operation, write, read, reset, messages, run, run_promised, run_lem,
}

abbrev two : List ℕ
two = 1 ∷ 2 ∷ []

abbrev two_buffer : Buffer
two_buffer = of_data two 8

two-IsValid : Buffer.Laws.IsValid two_buffer
two-IsValid = (of_data_lem two 8 (omega arith) (omega arith)).0

two-contents : contents two_buffer ≡ two
two-contents = (of_data_lem two 8 (omega arith) (omega arith)).1

two-size : two_buffer.size ≡ 2
two-size = omega (arith, Buffer.Laws.length-contents two-IsValid, ap length two-contents)

append_data_lem_example :
    Buffer.Laws.IsValid (append_data two_buffer (3 ∷ []))
    × (contents (append_data two_buffer (3 ∷ [])) ≡ contents two_buffer ++ (3 ∷ []))
append_data_lem_example = append_data_lem two_buffer (3 ∷ []) two-IsValid (omega (arith, two-size))

-- A setter that writes one element into its view.
abbrev put_nine : List ℕ → ℕ × List ℕ
put_nine view = (1, set view 0 9)

run_lem_example :
    run (BufferQueue.construct 2 4) (write two ∷ read 1 ∷ write two ∷ reset ∷ read 9 ∷ [])
    ≡ run_promised
        (BufferQueue.construct 2 4).capacity
        (messages (BufferQueue.construct 2 4))
        (write two ∷ read 1 ∷ write two ∷ reset ∷ read 9 ∷ [])
run_lem_example =
    run_lem (BufferQueue.construct 2 4) (write two ∷ read 1 ∷ write two ∷ reset ∷ read 9 ∷ [])
      ((BufferQueue.Laws.construct-IsValid 2 4 (omega arith)).0)
      (omega arith, (tt, (omega arith, (tt, (tt, tt)))))
