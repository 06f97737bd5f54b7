-- ===== src/ByteBuffer/Fields/RoundTrip.antt =====
-- Every message written to a buffer is read back from it.
use librtcbase.Prelude.{
  ℕ, ◌+◌, ◌^◌, ◌≤◌, ◌<◌, ◌≡◌, refl, ◌∙◌, ap, sym, some, List, [], ◌∷◌, ◌++◌, map, length,
  length-append, append-nil, arith,
}
use mathlib.Core.Path.{subst}
use librtcbase.ByteOrder.{Host}
use librtcbase.ByteBuffer.Writer.{ByteOrder, ByteBufferWriter, contents}
use librtcbase.ByteBuffer.Writer.Laws
use librtcbase.ByteBuffer.Writer.Laws.{
  Appends, Appends-trans, write_string-Appends, writer_length_lem, length-contents,
}
use librtcbase.ByteBuffer.Writer.Numbers.{
  number_bytes, length-number_bytes, write_number-Appends, write_uint8-Appends,
}
use librtcbase.ByteBuffer.Writer.Varint.{Base128, length-Base128, write_uvarint-Encoded}
use librtcbase.ByteBuffer.Reader.{ByteBufferReader, skip, of_writer}
use librtcbase.ByteBuffer.Reader.Laws.{
  StartsWith, StartsWith-skip, StartsWith-append, of_writer-StartsWith, of_writer-byte_order,
  read_string_known,
}
use librtcbase.ByteBuffer.Reader.Numbers.{
  read_uint8_lem, read_uint16_lem, read_uint24_lem, read_uint32_lem, read_uint64_lem,
}
use librtcbase.ByteBuffer.Reader.Varint.{read_uvarint-Base128}
use librtcbase.ByteBuffer.Fields.{
  Field, shape, InRange, AllInRange, room, write_field, write_fields, number, read_field,
  read_fields,
}

module _ (host : Host) (o : ByteOrder) where
  -- `bs` are the bytes of the field in a buffer of byte order `o`.
  abbrev FieldBytes : Field → List ℕ → Type 0
  FieldBytes (Field.uint8 v) bs = bs ≡ v ∷ []
  FieldBytes (Field.uint16 v) bs = bs ≡ number_bytes host o 2 v
  FieldBytes (Field.uint24 v) bs = bs ≡ number_bytes host o 3 v
  FieldBytes (Field.uint32 v) bs = bs ≡ number_bytes host o 4 v
  FieldBytes (Field.uint64 v) bs = bs ≡ number_bytes host o 8 v
  FieldBytes (Field.uvarint v) bs = Base128 v bs
  FieldBytes (Field.text s) bs = bs ≡ s

  abbrev MessageBytes : List Field → List ℕ → Type 0
  MessageBytes [] all = all ≡ []
  MessageBytes (f ∷ fs) all =
      (bs : List ℕ) × (cs : List ℕ) × FieldBytes f bs × MessageBytes fs cs × (all ≡ bs ++ cs)

-- One field written: its bytes, and how many at most.
record WroteField (host : Host) (w : ByteBufferWriter) (f : Field) (w' : ByteBufferWriter)
    : Type 0 where
  bytes : List ℕ
  encoded : FieldBytes host w.byte_order f bytes
  written : Appends w bytes w'
  short : length bytes ≤ room (f ∷ [])

write_field-WroteField :
    (host : Host) (w : ByteBufferWriter) (f : Field)
    → Laws.IsValid w
    → InRange f
    → length (contents w) + room (f ∷ []) < 2 ^ 64
    → WroteField host w f (write_field host w f)
unfolding write_field
write_field-WroteField host w (Field.uint8 v) valid h fits = record {
  bytes = v ∷ [];
  encoded = refl;
  written = write_uint8-Appends w v valid (omega arith);
  short = omega arith;
}
write_field-WroteField host w (Field.uint16 v) valid h fits = record {
  bytes = number_bytes host w.byte_order 2 v;
  encoded = refl;
  written = (write_number-Appends host w v valid (omega arith)).0;
  short = omega (arith, length-number_bytes host w.byte_order v);
}
write_field-WroteField host w (Field.uint24 v) valid h fits = record {
  bytes = number_bytes host w.byte_order 3 v;
  encoded = refl;
  written = (write_number-Appends host w v valid (omega arith)).1;
  short = omega (arith, length-number_bytes host w.byte_order v);
}
write_field-WroteField host w (Field.uint32 v) valid h fits = record {
  bytes = number_bytes host w.byte_order 4 v;
  encoded = refl;
  written = (write_number-Appends host w v valid (omega arith)).2;
  short = omega (arith, length-number_bytes host w.byte_order v);
}
write_field-WroteField host w (Field.uint64 v) valid h fits = record {
  bytes = number_bytes host w.byte_order 8 v;
  encoded = refl;
  written = (write_number-Appends host w v valid (omega arith)).3;
  short = omega (arith, length-number_bytes host w.byte_order v);
}
write_field-WroteField host w (Field.uvarint v) valid h fits =
    let e = write_uvarint-Encoded w v valid h (omega arith) in
    record {
      bytes = e.bytes;
      encoded = e.digits;
      written = e.written;
      short = omega (arith, length-Base128 e.digits 9 (omega arith));
    }
write_field-WroteField host w (Field.text s) valid h fits = record {
  bytes = s;
  encoded = refl;
  written = write_string-Appends w s valid (omega arith);
  short = omega arith;
}

room-cons : (f : Field) (fs : List Field) → room (f ∷ fs) ≡ room (f ∷ []) + room fs
room-cons (Field.uint8 v) fs = omega arith
room-cons (Field.uint16 v) fs = omega arith
room-cons (Field.uint24 v) fs = omega arith
room-cons (Field.uint32 v) fs = omega arith
room-cons (Field.uint64 v) fs = omega arith
room-cons (Field.uvarint v) fs = omega arith
room-cons (Field.text s) fs = omega arith

record Wrote (host : Host) (w : ByteBufferWriter) (fs : List Field) (w' : ByteBufferWriter)
    : Type 0 where
  bytes : List ℕ
  encoded : MessageBytes host w.byte_order fs bytes
  written : Appends w bytes w'

write_fields-Wrote :
    (host : Host) (w : ByteBufferWriter) (fs : List Field)
    → Laws.IsValid w
    → AllInRange fs
    → length (contents w) + room fs < 2 ^ 64
    → Wrote host w fs (write_fields host w fs)
unfolding write_fields
write_fields-Wrote host w [] valid h fits = record {
  bytes = [];
  encoded = refl;
  written = record { valid = valid; appended = sym (append-nil _); same_order = refl };
}
write_fields-Wrote host w (f ∷ fs) valid h fits =
    let first = write_field-WroteField host w f valid h.0 (omega (arith, room-cons f fs)) in
    let longer = ap length first.written.appended ∙ length-append (contents w) first.bytes in
    let rest =
      write_fields-Wrote host (write_field host w f) fs first.written.valid h.1
        (omega (arith, room-cons f fs, first.short, longer)) in
    record {
      bytes = first.bytes ++ rest.bytes;
      encoded = (
        first.bytes,
        rest.bytes,
        first.encoded,
        subst (λ o. MessageBytes host o fs rest.bytes) first.written.same_order rest.encoded,
        refl,
      );
      written = Appends-trans first.bytes rest.bytes first.written rest.written;
    }

-- A field whose bytes come next is read, and its bytes are skipped.
read_field_known :
    (host : Host) {r : ByteBufferReader} (f : Field) (bs rest : List ℕ)
    → InRange f
    → FieldBytes host r.byte_order f bs
    → StartsWith r bs rest
    → read_field host r (shape f) ≡ (some f, skip r (length bs))
unfolding read_field
read_field_known host (Field.uint8 v) bs rest h e s =
    rw e (ap (number Field.uint8) (read_uint8_lem v rest (rw e at s)))
read_field_known host {r} (Field.uint16 v) bs rest h e s =
    rw (e, (length-number_bytes host r.byte_order v).0)
      (ap (number Field.uint16) (read_uint16_lem host v rest h (rw e at s)))
read_field_known host {r} (Field.uint24 v) bs rest h e s =
    rw (e, (length-number_bytes host r.byte_order v).1)
      (ap (number Field.uint24) (read_uint24_lem host v rest h (rw e at s)))
read_field_known host {r} (Field.uint32 v) bs rest h e s =
    rw (e, (length-number_bytes host r.byte_order v).2)
      (ap (number Field.uint32) (read_uint32_lem host v rest h (rw e at s)))
read_field_known host {r} (Field.uint64 v) bs rest h e s =
    rw (e, (length-number_bytes host r.byte_order v).3)
      (ap (number Field.uint64) (read_uint64_lem host v rest h (rw e at s)))
read_field_known host (Field.uvarint v) bs rest h e s =
    ap (number Field.uvarint) (read_uvarint-Base128 rest e h s)
read_field_known host (Field.text t) bs rest h e s =
    rw e (ground (arith, read_string_known [] t rest (rw e at s)))

read_fields_known :
    (host : Host) (fs : List Field) (r : ByteBufferReader) (all rest : List ℕ)
    → AllInRange fs
    → MessageBytes host r.byte_order fs all
    → StartsWith r all rest
    → read_fields host r (map shape fs) ≡ some fs
unfolding read_fields
read_fields_known host [] r all rest h e s = refl
read_fields_known host (f ∷ fs) r all rest h (bs, cs, eb, ec, e) s =
    let s' : StartsWith r (bs ++ cs) rest = rw e at s in
    let first = read_field_known host f bs (cs ++ rest) h.0 eb (StartsWith-append bs cs rest s') in
    let others =
      read_fields_known host fs (skip r (length bs)) cs rest h.1 ec
        (StartsWith-skip bs cs rest s' refl) in
    ground (arith, first, others)

-- For every list of fields, each in the range of its width and together of a size below 2 ^ 64 by
-- the bound `room`, written to a valid writer with no contents: reading their shapes from a reader
-- on that writer gives the fields back, in either byte order and on a host of either byte order.
pub read_fields-write_fields :
    (host : Host) (w : ByteBufferWriter) (fs : List Field)
    → Laws.IsValid w
    → contents w ≡ []
    → AllInRange fs
    → room fs < 2 ^ 64
    → read_fields host (of_writer (write_fields host w fs)) (map shape fs) ≡ some fs
read_fields-write_fields host w fs valid empty h fits =
    let wrote = write_fields-Wrote host w fs valid h (omega (arith, ap length empty)) in
    let w' = write_fields host w fs in
    let order : w.byte_order ≡ (of_writer w').byte_order =
      sym (of_writer-byte_order w' ∙ wrote.written.same_order) in
    let all : contents w' ≡ wrote.bytes =
      wrote.written.appended ∙ ap (λ t. t ++ wrote.bytes) empty in
    read_fields_known host fs (of_writer w') wrote.bytes [] h
      (subst (λ o. MessageBytes host o fs wrote.bytes) order wrote.encoded)
      (subst (λ t. StartsWith (of_writer w') t []) all
        (of_writer-StartsWith w' wrote.written.valid))
