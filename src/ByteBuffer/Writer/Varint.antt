-- ===== src/ByteBuffer/Writer/Varint.antt =====
-- ByteBufferWriter::write_uvarint, against the format of protocol buffers.
use mathlib.Core.WellFounded.{Acc}
use native.Mathlib.Decide.{dec_lt}
use mathlib.Core.Logic.{dif_pos, dif_neg}
use native.Mathlib.Nat.{pow-suc, mod-eq_of_lt}
use librtcbase.Prelude.{
  ℕ, zero, suc, ◌+◌, ◌/◌, ◌%◌, ◌^◌, ◌≤◌, ◌<◌, bit_or, ◌≡◌, refl, ◌∙◌, ap, length-append, true, List,
  [], ◌∷◌, length, u8, ◌>>>◌, arith, ◌==◌,
}
use native.Mathlib.Bridge.{le_prop}
use librtcbase.Prelude.Order.{lt_wf}
use librtcbase.Prelude.Bits.{every_below, eq_by_table}
use librtcbase.ByteBuffer.Writer.{
  ByteBufferWriter, contents, write_bytes, uvarint_loop, write_uvarint, shr-lt,
}
use librtcbase.ByteBuffer.Writer.Laws.{IsValid, Appends, Appends-trans, write_bytes-Appends}

-- The base-128 digits of a number, least significant first, all but the last marked by the top bit.
pub data Base128 : ℕ → List ℕ → Type 0 where
  last : (v : ℕ) → v < 128 → Base128 v (v ∷ [])
  more : (v : ℕ) (bs : List ℕ) → 128 ≤ v → Base128 (v / 128) bs → Base128 v ((v % 128 + 128) ∷ bs)

mark_table : every_below 256 (λ x. bit_or x 0x80 == x % 128 + 128) ≡ true
unfolding every_below
mark_table = refl

marked : (v : ℕ) → u8 (bit_or (u8 v) 0x80) ≡ v % 128 + 128
marked v = omega (
  arith,
  eq_by_table 256 (λ x. bit_or x 0x80) (λ x. x % 128 + 128) mark_table (u8 v) (omega arith),
)

-- A number below `128 ^ k` has at most `k` digits.
pub length-Base128 :
    {v : ℕ} {bs : List ℕ} → Base128 v bs → (k : ℕ) → v < 128 ^ suc k → length bs ≤ suc k
length-Base128 (last v h) k lt = omega arith
length-Base128 (more v bs h rest) zero lt = absurd (omega arith)
length-Base128 (more v bs h rest) (suc k) lt =
    omega (arith, length-Base128 rest k (omega (arith, pow-suc 128 (suc k))))

-- The bytes that a loop from `v` on appends.
pub record Encoded (w : ByteBufferWriter) (v : ℕ) (w' : ByteBufferWriter) : Type 0 where
  pub bytes : List ℕ
  pub digits : Base128 v bytes
  pub written : Appends w bytes w'

module _ (w : ByteBufferWriter) (v : ℕ) (valid : IsValid w)
    (fits : length (contents w) + 1 < 2 ^ 64) where
  -- The writer after a round of the loop.
  abbrev marked_byte : List ℕ
  marked_byte = u8 (bit_or (u8 v) 0x80) ∷ []

  round-Appends : Appends w ((v % 128 + 128) ∷ []) (write_bytes w marked_byte)
  round-Appends =
      rw (ap (λ b. b ∷ []) (marked v))
        (write_bytes-Appends w ((v % 128 + 128) ∷ []) valid (omega arith))

  length-round : length (contents (write_bytes w marked_byte)) ≡ length (contents w) + 1
  length-round = ap length round-Appends.appended ∙ length-append (contents w) _

  Encoded-round :
      {w' : ByteBufferWriter}
      → 128 ≤ v
      → Encoded (write_bytes w marked_byte) (v / 128) w'
      → Encoded w v w'
  Encoded-round h rest = record {
    bytes = (v % 128 + 128) ∷ rest.bytes;
    digits = more v rest.bytes h rest.digits;
    written = Appends-trans ((v % 128 + 128) ∷ []) rest.bytes round-Appends rest.written;
  }

  Encoded-last : v < 128 → Encoded w v (write_bytes w (u8 v ∷ []))
  Encoded-last h = record {
    bytes = v ∷ [];
    digits = last v h;
    written =
        rw (mod-eq_of_lt {n = v} {m = 256} (omega arith))
          (write_bytes-Appends w (v ∷ []) valid (omega arith));
  }

-- With room for as many bytes as `v` can have digits, the loop appends the digits.
loop-Encoded :
    (k : ℕ) (w : ByteBufferWriter) (v : ℕ) (a : Acc ◌<◌ v)
    → v < 128 ^ suc k
    → IsValid w
    → length (contents w) + suc k < 2 ^ 64
    → Encoded w v (uvarint_loop w v a)
unfolding uvarint_loop
loop-Encoded zero w v (Acc.intro _ smaller) lt valid fits =
    rw (dif_neg _ (λ (h : 127 < v). omega arith))
      (Encoded-last w v valid (omega arith) (omega arith))
loop-Encoded (suc k) w v (Acc.intro _ smaller) lt valid fits = elim (dec_lt 127 v) [
  | yes h ↦ rw (dif_pos (dec_lt 127 v) le_prop h) (
      Encoded-round w v valid (omega arith) h (
        loop-Encoded k (write_bytes w (marked_byte w v valid (omega arith))) (v >>> 7)
          (smaller (v >>> 7) (shr-lt v h)) (omega (arith, pow-suc 128 (suc k)))
          (round-Appends w v valid (omega arith)).valid
          (omega (arith, length-round w v valid (omega arith)))))
  | no h ↦ rw (dif_neg _ h) (Encoded-last w v valid (omega arith) (omega arith))
]

-- Writing a number below 2 ^ 64 as a varint to a valid writer with 10 bytes to spare below 2 ^ 64
-- ends, keeps the writer valid, and appends the base-128 digits of the number, least significant
-- first, all but the last marked.
pub write_uvarint-Encoded :
    (w : ByteBufferWriter) (v : ℕ)
    → IsValid w
    → v < 2 ^ 64
    → length (contents w) + 10 < 2 ^ 64
    → Encoded w v (write_uvarint w v)
unfolding write_uvarint
write_uvarint-Encoded w v valid h fits =
    loop-Encoded 9 w v (lt_wf.apply v) (omega arith) valid (omega arith)
