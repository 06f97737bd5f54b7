-- ===== src/Base64/Progress.antt =====
-- The decoder ends on every text, and the encoder writes characters of the table and padding only.
use librtcbase.Prelude.{
  ℕ, ◌+◌, ◌≤◌, ◌<◌, Bool, true, false, not, ◌&&◌, ◌||◌, some, List, [], ◌∷◌, ◌++◌, ◌==◌, leb, ltb,
  suc, zero, length, drop, ◌≡◌, refl, arith, Bool-cases, Option-cases, inl, inr,
}
use librtcbase.Base64.{
  is_complete, bytes_of, scan_code, code, code, Parse, Pad, Term, Scan, scan_char, scan_loop,
  get_next_quantum, bytes_of, Decoded, is_term_buffer, is_pad_no, is_complete, decode_loop,
  decode_with,
}
use librtcbase.Base64.Quantum.{fresh}

-- A scan from a position on has passed a character for each byte, and has two before the padding.
abbrev is_progress : ℕ → Scan → Bool
is_progress start s =
    leb (start + s.byte_len) s.dpos && (s.pad_len == 0 || leb (start + 2) s.pad_start)

scan_code_progress :
    (parse : Parse) (illegal_pads : Bool) (q start : ℕ) (s s' : Scan)
    → is_progress start s ≡ true
    → scan_code parse illegal_pads q s ≡ some s'
    → is_progress start s' ≡ true
unfolding scan_code
scan_code_progress parse illegal_pads q start s s' h p = ground (arith, h, p)

scan_char_progress :
    (parse : Parse) (illegal_pads : Bool) (ch start : ℕ) (s s' : Scan)
    → is_progress start s ≡ true
    → scan_char parse illegal_pads ch s ≡ some s'
    → is_progress start s' ≡ true
unfolding scan_char
scan_char_progress parse illegal_pads ch start s s' h p =
    scan_code_progress parse illegal_pads (code ch) start s s' h p

scan_loop_progress :
    (parse : Parse) (illegal_pads : Bool) (text : List ℕ) (start : ℕ) (s : Scan)
    → is_progress start s ≡ true
    → is_progress start (scan_loop parse illegal_pads text s) ≡ true
unfolding scan_loop
scan_loop_progress parse illegal_pads [] start s h = h
scan_loop_progress parse illegal_pads (ch ∷ text) start s h = elim (Bool-cases (leb 4 s.byte_len)) [
  | inl p ↦ rw (p) h
  | inr p ↦ elim (Option-cases (scan_char parse illegal_pads ch s)) [
    | inl q ↦ rw (p, q) h
    | inr (s', q) ↦
        rw (p, q)
          (scan_loop_progress parse illegal_pads text start s'
            (scan_char_progress parse illegal_pads ch start s s' h q))
  ]
]

-- A whole quantum takes something.
get_next_quantum_progress :
    (parse : Parse) (illegal_pads : Bool) (text : List ℕ) (dpos : ℕ)
    → (let q = get_next_quantum parse illegal_pads text dpos in
        ltb q.qlen 4 ≡ false → dpos < q.position)
unfolding get_next_quantum
get_next_quantum_progress parse illegal_pads text dpos p =
    let h = scan_loop_progress parse illegal_pads text dpos (fresh dpos) (ground (arith)) in
    ground (arith, p, h)

decode_loop_ends :
    (fuel : ℕ) (parse : Parse) (pad : Pad) (term : Term) (text : List ℕ) (dpos : ℕ)
    → length text ≤ fuel + dpos
    → (d : Decoded) × (decode_loop (suc fuel) parse pad term text dpos ≡ some d)
unfolding decode_loop
decode_loop_ends zero parse pad term text dpos p =
    let e : leb (length text) dpos ≡ true = ground (arith, p) in
    (record { success = true; result = []; data_used = dpos }, rw (e) refl)
decode_loop_ends (suc fuel) parse pad term text dpos p =
    let q = get_next_quantum parse (is_pad_no pad) (drop dpos text) dpos in
    let found = bytes_of q.qlen q.bytes in
    elim (Bool-cases (leb (length text) dpos)) [
      | inl e ↦ (record { success = true; result = []; data_used = dpos }, rw (e) refl)
      | inr e ↦ elim (Bool-cases (ltb q.qlen 4)) [
        | inl f ↦ (
          record {
            success = is_complete term pad found.1 q.padded;
            result = found.0;
            data_used = q.position;
          },
          rw (e, f) refl,
        )
        | inr f ↦
            let forward = get_next_quantum_progress parse (is_pad_no pad) (drop dpos text) dpos f in
            let (d, r) =
              decode_loop_ends fuel parse pad term text q.position (omega (arith, forward, p)) in
            (record d { result = found.0 ++ d.result }, rw (e, f, r) refl)
      ]
    ]

-- With any flags, decoding ends on every text: its loop has fuel for one round more than the text
-- has characters, and each round that goes on takes some.
pub decode_with_ends :
    (parse : Parse) (pad : Pad) (term : Term) (text : List ℕ)
    → (d : Decoded) × (decode_with parse pad term text ≡ some d)
unfolding decode_with
decode_with_ends parse pad term text =
    let (d, r) = decode_loop_ends (length text) parse pad term text 0 (omega arith) in
    (
      record d {
        success = d.success && not (is_term_buffer term && not (d.data_used == length text));
      },
      rw (r, decode_with) refl,
    )
