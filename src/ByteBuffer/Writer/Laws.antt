-- ===== src/ByteBuffer/Writer/Laws.antt =====
-- ByteBufferWriter: its invariant, and what each operation does to the bytes written so far.
use librtcbase.Prelude.{
  ℕ, ◌+◌, ◌-◌, ◌/◌, ◌^◌, ◌≤◌, ◌<◌, min, max, ◌≡◌, refl, ◌∙◌, ap, sym, append_assoc, take_all, tests,
  take_all_le, inl, inr, some, List, [], ◌++◌, length, take, drop, replicate, slice, write_at, leb,
  ltb, Bool-cases, add_size, sub_size, mul_size, arith, length-write_at, length-slice,
  length-replicate, slice-write_at, take-append, take-take, length-take,
}
use librtcbase.ByteBuffer.Writer.{
  ByteOrder, ByteBufferWriter, contents, writer_length, capacity, construct, resize, clear,
  reserve_write_buffer, make_room, write_bytes, write_string,
}

-- The indices are in order inside the storage.
pub record IsValid (w : ByteBufferWriter) : Type 0 where
  pub storage : length w.bytes ≡ w.size
  pub ordered : w.start ≤ w.end
  pub within : w.end ≤ w.size
  pub addressable : w.size < 2 ^ 64

pub writer_length_lem : {w : ByteBufferWriter} → IsValid w → writer_length w ≡ w.end - w.start
writer_length_lem v = omega arith

pub length-contents : {w : ByteBufferWriter} → IsValid w → length (contents w) ≡ w.end - w.start
length-contents {w} v =
    length-slice w.bytes w.start (writer_length w) (omega arith) ∙ writer_length_lem v

module _ (w : ByteBufferWriter) (v : IsValid w) (n : ℕ) (fits : n < 2 ^ 64) where
  abbrev kept : List ℕ
  kept = slice w.bytes w.start (min (writer_length w) n)

  length-kept : length kept ≡ min (writer_length w) n
  length-kept = length-slice w.bytes w.start (min (writer_length w) n) (omega arith)

  kept-eq-take : kept ≡ take n (contents w)
  kept-eq-take = elim (Bool-cases (leb (writer_length w) n)) [
    | inl p ↦
        ap (λ k. slice w.bytes w.start k) (omega (tests, p))
        ∙ sym (take_all_le (contents w) n (omega (tests, p, length-contents v)))
    | inr p ↦
        ap (λ k. slice w.bytes w.start k) {y = n} (ground (arith, p))
        ∙ sym (take-take n (drop w.start w.bytes) (ground (arith, p)))
  ]

  -- Wherever the bytes go, they are read back from the start of the storage.
  moved : (mem : List ℕ) → slice (write_at mem 0 kept) 0 (min (writer_length w) n) ≡ kept
  moved mem = take-append kept _ (omega (arith, length-kept))

  from_start :
      (mem : List ℕ)
      → slice (write_at mem 0 kept) 0 (sub_size (min (writer_length w) n) 0) ≡ take n (contents w)
  from_start mem =
      ap (slice (write_at mem 0 kept) 0) (omega (arith, length-kept)) ∙ moved mem ∙ kept-eq-take

  resize-IsValid : IsValid (resize w n)
  unfolding resize
  resize-IsValid = ground (
    arith,
    length-kept,
    length-write_at w.bytes 0 kept,
    length-write_at (replicate (max n (mul_size 3 w.size / 2)) 0) 0 kept,
    length-replicate {A = ℕ} (max n (mul_size 3 w.size / 2)) 0,
  )

  contents-resize : contents (resize w n) ≡ take n (contents w)
  unfolding resize
  contents-resize = elim (Bool-cases (leb n w.size)) [
    | inl p ↦ rw p (from_start w.bytes)
    | inr p ↦ rw p (from_start (replicate (max n (mul_size 3 w.size / 2)) 0))
  ]

  end-resize : (resize w n).end ≡ min (w.end - w.start) n
  unfolding resize
  end-resize = ground (arith, writer_length_lem v)

  room-resize : n ≤ (resize w n).size
  unfolding resize
  room-resize = ground arith

  start-resize : (resize w n).start ≡ 0
  unfolding resize
  start-resize = ground arith

  byte_order-resize : (resize w n).byte_order ≡ w.byte_order
  unfolding resize
  byte_order-resize = ground arith

-- Resizing a valid writer to a size below 2 ^ 64 keeps it valid, keeps as many of the first bytes
-- of its contents as the size allows, and leaves a capacity of at least the size.
pub resize_lem :
    (w : ByteBufferWriter) (n : ℕ)
    → IsValid w
    → n < 2 ^ 64
    → IsValid (resize w n)
      × (contents (resize w n) ≡ take n (contents w))
      × (n ≤ capacity (resize w n))
resize_lem w n v fits = (
  resize-IsValid w v n fits,
  contents-resize w v n fits,
  omega (arith, room-resize w v n fits, start-resize w v n fits, resize-IsValid w v n fits),
)

-- A writer with the same contents, and `len` bytes of storage behind its end.
record HasRoom (w : ByteBufferWriter) (len : ℕ) (w' : ByteBufferWriter) : Type 0 where
  valid : IsValid w'
  same : contents w' ≡ contents w
  as_long : w'.end - w'.start ≡ w.end - w.start
  room : w'.end + len ≤ w'.size
  same_order : w'.byte_order ≡ w.byte_order

module _ (w : ByteBufferWriter) (len : ℕ) (v : IsValid w)
    (fits : length (contents w) + len < 2 ^ 64) where
  needed_lem : add_size (writer_length w) len ≡ w.end - w.start + len
  needed_lem = omega (arith, length-contents v)

  make_room-HasRoom : HasRoom w len (make_room w len)
  unfolding make_room
  make_room-HasRoom = elim (Bool-cases (ltb (capacity w) (add_size (writer_length w) len))) [
    | inl p ↦
        rw (p, needed_lem)
          (record {
            valid = resize-IsValid w v n small;
            same =
                contents-resize w v n small
                ∙ take_all_le (contents w) n (omega (arith, length-contents v));
            as_long = omega (arith, end-resize w v n small, start-resize w v n small);
            room = omega (arith, end-resize w v n small, room-resize w v n small);
            same_order = byte_order-resize w v n small;
          })
    | inr p ↦ rw p (record {
      valid = v;
      same = refl;
      as_long = refl;
      room = ground (arith, p, needed_lem, v);
      same_order = refl;
    })
  ]
    where
      n : ℕ
      n = w.end - w.start + len

      small : n < 2 ^ 64
      small = omega (arith, length-contents v)

-- A write into the room keeps the invariant and appends.
module _ (w : ByteBufferWriter) (val : List ℕ) (w' : ByteBufferWriter)
    (r : HasRoom w (length val) w') where
  abbrev written : ByteBufferWriter
  written = record w' { bytes = write_at w'.bytes w'.end val; end = add_size w'.end (length val) }

  written-IsValid : IsValid written
  written-IsValid = omega (arith, r.valid, r.room, length-write_at w'.bytes w'.end val)

  contents-written : contents written ≡ contents w ++ val
  contents-written =
      ap (slice written.bytes w'.start) (omega (arith, r.valid, r.room))
      ∙ slice-write_at w'.bytes w'.start (w'.end - w'.start) val w'.end (omega (arith, r.valid))
          (omega (arith, r.valid, r.room))
      ∙ ap (λ t. t ++ val) (ap (slice w'.bytes w'.start) (omega (arith, r.valid)) ∙ r.same)

-- `w'` is `w` after the bytes `bs` were appended.
pub record Appends (w : ByteBufferWriter) (bs : List ℕ) (w' : ByteBufferWriter) : Type 0 where
  pub valid : IsValid w'
  pub appended : contents w' ≡ contents w ++ bs
  pub same_order : w'.byte_order ≡ w.byte_order

-- Writing bytes to a valid writer keeps it valid and its byte order, and appends exactly those
-- bytes to its contents, through a reallocation or not, if the total length is below 2 ^ 64.
pub write_bytes-Appends :
    (w : ByteBufferWriter) (val : List ℕ)
    → IsValid w
    → length (contents w) + length val < 2 ^ 64
    → Appends w val (write_bytes w val)
unfolding write_bytes reserve_write_buffer
write_bytes-Appends w val v fits =
    let r = make_room-HasRoom w (length val) v fits in
    record {
      valid = written-IsValid w val (make_room w (length val)) r;
      appended = contents-written w val (make_room w (length val)) r;
      same_order = r.same_order;
    }

pub Appends-trans :
    {w w' w'' : ByteBufferWriter} (front bs : List ℕ)
    → Appends w front w'
    → Appends w' bs w''
    → Appends w (front ++ bs) w''
Appends-trans front bs a b = record {
  valid = b.valid;
  appended = b.appended ∙ ap (λ t. t ++ bs) a.appended ∙ append_assoc _ front bs;
  same_order = b.same_order ∙ a.same_order;
}

-- A new writer is valid, and holds the bytes that it was given.
pub construct-IsValid :
    (o : ByteOrder) (bytes : List ℕ)
    → length bytes < 2 ^ 64
    → IsValid (construct o (some bytes) (length bytes))
      × (contents (construct o (some bytes) (length bytes)) ≡ bytes)
unfolding construct
construct-IsValid o bytes h = (
  omega (
    arith,
    length-replicate {A = ℕ} (length bytes) 0,
    length-take (length bytes) bytes,
    length-write_at (replicate (length bytes) 0) 0 (take (length bytes) bytes),
  ),
  ap (λ t. slice (write_at (replicate (length bytes) 0) 0 t) 0 (sub_size (length bytes) 0))
        (take_all bytes refl)
      ∙ take-append bytes _ (omega arith),
)

-- Clearing keeps the storage and the invariant, and leaves no contents.
pub clear_lem :
    (w : ByteBufferWriter)
    → IsValid w
    → IsValid (clear w) × (contents (clear w) ≡ []) × (capacity (clear w) ≡ w.size)
unfolding clear
clear_lem w v = (omega (arith, length-replicate {A = ℕ} w.size 0), refl, omega arith)

pub write_string-Appends :
    (w : ByteBufferWriter) (val : List ℕ)
    → IsValid w
    → length (contents w) + length val < 2 ^ 64
    → Appends w val (write_string w val)
unfolding write_string
write_string-Appends w val valid fits = write_bytes-Appends w val valid fits
