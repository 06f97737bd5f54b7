-- ===== src/ByteBuffer/Reader/Laws.antt =====
-- ByteBufferReader: the bytes of every successful read come off the front of what remains.
use librtcbase.Prelude.{
  ℕ, ◌-◌, ◌^◌, ◌≤◌, ◌<◌, ◌≡◌, refl, ◌∙◌, ap, sym, append_assoc, true, some, List, [], append-nil,
  ◌++◌, length, take, drop, slice, add_size, arith, length-append, length-slice, take-take,
  take_all, take-append, drop-append, drop-take, drop-add,
}
use librtcbase.ByteBuffer.Writer
use librtcbase.ByteBuffer.Writer.{ByteOrder, ByteBufferWriter, contents, writer_length}
use librtcbase.ByteBuffer.Reader.{
  ByteBufferReader, construct, of_writer, reader_length, remaining, skip, read_bytes, read_string,
}

-- The indices are in order inside the memory that the reader refers to.
pub record IsValid (r : ByteBufferReader) : Type 0 where
  pub ordered : r.start ≤ r.end
  pub within : r.end ≤ length r.bytes
  pub addressable : r.end < 2 ^ 64

pub length-remaining : {r : ByteBufferReader} → IsValid r → length (remaining r) ≡ reader_length r
length-remaining {r} v = length-slice r.bytes r.start (reader_length r) (omega arith)

pub construct-IsValid :
    (o : ByteOrder) (bytes : List ℕ)
    → length bytes < 2 ^ 64
    → IsValid (construct o bytes (length bytes))
      × (remaining (construct o bytes (length bytes)) ≡ bytes)
unfolding construct
construct-IsValid o bytes h =
    (omega arith, ap (λ n. take n bytes) (omega arith) ∙ (take_all bytes refl))

-- What remains begins with `bs`, and `rest` follows.
pub record StartsWith (r : ByteBufferReader) (bs rest : List ℕ) : Type 0 where
  pub valid : IsValid r
  pub split : remaining r ≡ bs ++ rest

module _ {r : ByteBufferReader} (bs rest : List ℕ) (s : StartsWith r bs rest) where
  abbrev n : ℕ
  n = length bs

  enough : n ≤ r.end - r.start
  enough =
      omega (arith, s.valid, length-append bs rest, ap length s.split, length-remaining s.valid)

  pub front : slice r.bytes r.start n ≡ bs
  front =
      sym (take-take n (drop r.start r.bytes) (omega (arith, enough, s.valid)))
      ∙ ap (take n) s.split
      ∙ take-append bs rest refl

  -- After `bs` the reader stands at `rest`.
  pub remaining-skip : remaining (skip r n) ≡ rest
  remaining-skip =
      ap (slice r.bytes (add_size r.start n)) {y = r.end - r.start - n}
        (omega (arith, enough, s.valid))
      ∙ ap (λ k. slice r.bytes k (r.end - r.start - n)) (omega (arith, enough, s.valid))
      ∙ ap (take (r.end - r.start - n)) (drop-add r.start n r.bytes)
      ∙ sym (drop-take n (r.end - r.start - n) (drop r.start r.bytes))
      ∙ ap (λ k. drop n (take k (drop r.start r.bytes))) (omega (arith, enough, s.valid))
      ∙ ap (drop n) s.split
      ∙ drop-append bs rest refl

  pub skip-IsValid : IsValid (skip r n)
  skip-IsValid = omega (arith, enough, s.valid)

  pub read_bytes-some : read_bytes r n ≡ (some bs, skip r n)
  unfolding read_bytes
  read_bytes-some = ground (arith, enough, s.valid, front)

pub read_bytes_known :
    {r : ByteBufferReader} {len : ℕ} (bs rest : List ℕ)
    → StartsWith r bs rest
    → len ≡ length bs
    → read_bytes r len ≡ (some bs, skip r len)
read_bytes_known bs rest s e = rw e (read_bytes-some bs rest s)

-- A reader that has skipped the first part starts with the second.
pub StartsWith-skip :
    {r : ByteBufferReader} {len : ℕ} (bs next rest : List ℕ)
    → StartsWith r (bs ++ next) rest
    → len ≡ length bs
    → StartsWith (skip r len) next rest
StartsWith-skip {r} bs next rest s e =
    let s' : StartsWith r bs (next ++ rest) = record {
      valid = s.valid;
      split = s.split ∙ append_assoc bs next rest;
    } in
    rw e (record {
      valid = skip-IsValid bs (next ++ rest) s';
      split = remaining-skip bs (next ++ rest) s';
    })

-- A longer known front is a known front.
pub StartsWith-append :
    {r : ByteBufferReader} (bs next rest : List ℕ)
    → StartsWith r (bs ++ next) rest
    → StartsWith r bs (next ++ rest)
StartsWith-append bs next rest s = record {
  valid = s.valid;
  split = s.split ∙ append_assoc bs next rest;
}

pub read_string_known :
    {r : ByteBufferReader} (val bs rest : List ℕ)
    → StartsWith r bs rest
    → read_string r true val (length bs) ≡ (some (val ++ bs), skip r (length bs))
unfolding read_string
read_string_known val bs rest s = ground (arith, enough bs rest s, s.valid, front bs rest s)

construct-StartsWith :
    (o : ByteOrder) (bytes : List ℕ) {len : ℕ}
    → len ≡ length bytes
    → length bytes < 2 ^ 64
    → StartsWith (construct o bytes len) bytes []
construct-StartsWith o bytes e h =
    let c = construct-IsValid o bytes h in
    rw e (record { valid = c.0; split = c.1 ∙ sym (append-nil bytes) })

-- A reader on a writer has the writer's contents before it, in the writer's byte order.
pub of_writer-StartsWith :
    (w : ByteBufferWriter) → Writer.Laws.IsValid w → StartsWith (of_writer w) (contents w) []
unfolding of_writer
of_writer-StartsWith w v =
    construct-StartsWith w.byte_order (contents w)
      (omega (arith, Writer.Laws.length-contents v, Writer.Laws.writer_length_lem v))
      (omega (arith, v, Writer.Laws.length-contents v))

pub of_writer-byte_order : (w : ByteBufferWriter) → (of_writer w).byte_order ≡ w.byte_order
unfolding of_writer construct
of_writer-byte_order w = refl
