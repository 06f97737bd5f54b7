-- ===== src/ByteBuffer/Reader/Bounds.antt =====
-- read_bytes, consume and read_string at every length, against the list of what remains.
use librtcbase.Prelude.{
  ℕ, ◌≡◌, refl, ap, sym, Bool, true, false, none, some, Option, List, ◌++◌, length, take, drop,
  slice, ltb, leb, arith, length-take, take_append_drop, Bool-cases, inl, inr, if◌then◌else◌,
}
use mathlib.Core.Path.{subst}
use librtcbase.ByteBuffer.Reader.{
  ByteBufferReader, reader_length, remaining, skip, read_bytes, consume, read_string,
}
use librtcbase.ByteBuffer.Reader.Laws.{
  IsValid, StartsWith, length-remaining, remaining-skip, skip-IsValid, front,
}

-- The first bytes of a list, if it has so many, and what is left then.
abbrev pub first_bytes : ℕ → List ℕ → Option (List ℕ)
first_bytes len xs = if leb len (length xs) then some (take len xs) else none

abbrev pub bytes_after : ℕ → List ℕ → List ℕ
bytes_after len xs = if leb len (length xs) then drop len xs else xs

abbrev pub append_to : List ℕ → Option (List ℕ) → Option (List ℕ)
append_to val none = none
append_to val (some bs) = some (val ++ bs)

-- The reader after the first bytes, if there are so many, and as it was otherwise.
abbrev pub reader_after : ℕ → ByteBufferReader → ByteBufferReader
reader_after len r = if leb len (length (remaining r)) then skip r len else r

module _ {r : ByteBufferReader} (len : ℕ) (v : IsValid r) where
  test-enough : leb len (length (remaining r)) ≡ true → ltb (reader_length r) len ≡ false
  test-enough h = ground (arith, h, length-remaining v)

  test-short : leb len (length (remaining r)) ≡ false → ltb (reader_length r) len ≡ true
  test-short h = ground (arith, h, length-remaining v)

  starts : StartsWith r (take len (remaining r)) (drop len (remaining r))
  starts = record { valid = v; split = sym (take_append_drop len (remaining r)) }

  module _ (enough : leb len (length (remaining r)) ≡ true) where
    size : length (take len (remaining r)) ≡ len
    size = ground (arith, enough, length-take len (remaining r))

    read_enough :
        (slice r.bytes r.start len ≡ take len (remaining r))
        × (remaining (skip r len) ≡ drop len (remaining r))
        × IsValid (skip r len)
    read_enough =
        subst
          (λ n.
            (slice r.bytes r.start n ≡ take len (remaining r))
            × (remaining (skip r n) ≡ drop len (remaining r))
            × IsValid (skip r n))
          size
          (
            front (take len (remaining r)) (drop len (remaining r)) starts,
            remaining-skip (take len (remaining r)) (drop len (remaining r)) starts,
            skip-IsValid (take len (remaining r)) (drop len (remaining r)) starts,
          )

  -- For a valid reader and every length: read_bytes gives, consume skips, and read_string with an
  -- out-pointer appends exactly the first bytes of what remains, if there are so many, the last of
  -- them included; otherwise they fail and the reader stays as it was. What remains is the rest of
  -- the list, and the reader stays valid. Without an out-pointer read_string fails and changes
  -- nothing.
  pub read_lem :
      (has_val : Bool) (val : List ℕ)
      → (read_bytes r len ≡ (first_bytes len (remaining r), reader_after len r))
        × (consume r len ≡ (leb len (length (remaining r)), reader_after len r))
        × (read_string r has_val val len ≡ (
            if has_val
            then (append_to val (first_bytes len (remaining r)), reader_after len r)
            else (none, r)))
        × (remaining (reader_after len r) ≡ bytes_after len (remaining r))
        × IsValid (reader_after len r)
  unfolding read_bytes consume read_string
  read_lem true val = elim (Bool-cases (leb len (length (remaining r)))) [
    | inl p ↦
        let h = read_enough p in
        rw (test-enough p, p)
          (
            ap (λ bs. (some bs, skip r len)) h.0,
            refl,
            ap (λ bs. (some (val ++ bs), skip r len)) h.0,
            h.1,
            h.2,
          )
    | inr p ↦ rw (test-short p, p) (refl, refl, refl, refl, v)
  ]
  read_lem false val = elim (Bool-cases (leb len (length (remaining r)))) [
    | inl p ↦
        let h = read_enough p in
        rw (test-enough p, p) (ap (λ bs. (some bs, skip r len)) h.0, refl, refl, h.1, h.2)
    | inr p ↦ rw (test-short p, p) (refl, refl, refl, refl, v)
  ]
