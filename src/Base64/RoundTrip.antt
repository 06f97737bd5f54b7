-- ===== src/Base64/RoundTrip.antt =====
-- Decoding what was encoded.
use librtcbase.Prelude.{
  ℕ, ◌+◌, ◌≤◌, ◌<◌, ◌^◌, true, false, not, ◌&&◌, none, some, List, [], ◌∷◌, ◌++◌, ◌==◌, leb, ltb,
  suc, zero, length, drop, drop-add, length-drop, AllBytes, ◌≡◌, refl, ap₂, arith, ap, ◌∙◌, sym,
}
use mathlib.Core.Path.{subst}
use librtcbase.Base64.{
  is_complete, code_1, code_2, code_3, code_4, encode_from_array, Parse, Pad, Term, NextQuantum,
  get_next_quantum, bytes_of, Decoded, is_term_buffer, is_pad_no, decode_loop, decode_with,
}
use librtcbase.Base64.Table.{
  code_2_small, code_3_small, byte_1_lem, byte_2_lem, byte_3_lem, byte_2_rest, byte_3_rest,
}
use librtcbase.Base64.Quantum.{full_quantum, two_quantum, three_quantum}

is_complete_0 : (term : Term) (pad : Pad) → is_complete term pad 0 true ≡ true
unfolding is_complete
is_complete_0 term pad = ground (arith)

-- The decoder at a position, when the next quantum is known.
module _ (fuel : ℕ) (parse : Parse) (pad : Pad) (term : Term) (text : List ℕ) (dpos : ℕ) where
  decode_loop_ends :
      length text ≤ dpos
      → decode_loop (suc fuel) parse pad term text dpos
        ≡ some (record { success = true; result = []; data_used = dpos })
  unfolding decode_loop
  decode_loop_ends p = let e : leb (length text) dpos ≡ true = ground (arith, p) in rw (e) refl

  full_step :
      (d : Decoded)
      → dpos < length text
      → (let q = get_next_quantum parse (is_pad_no pad) (drop dpos text) dpos in
          ltb q.qlen 4 ≡ false
          → decode_loop fuel parse pad term text q.position ≡ some d
          → decode_loop (suc fuel) parse pad term text dpos
            ≡ some (record d { result = (bytes_of q.qlen q.bytes).0 ++ d.result }))
  unfolding decode_loop
  full_step d p f r =
      let more : leb (length text) dpos ≡ false = ground (arith, p) in rw (more, f, r) refl

  decode_loop_full :
      (q : NextQuantum) (d : Decoded)
      → dpos < length text
      → get_next_quantum parse (is_pad_no pad) (drop dpos text) dpos ≡ q
      → ltb q.qlen 4 ≡ false
      → decode_loop fuel parse pad term text q.position ≡ some d
      → decode_loop (suc fuel) parse pad term text dpos
        ≡ some (record d { result = (bytes_of q.qlen q.bytes).0 ++ d.result })
  decode_loop_full q d p e =
      subst
        (λ q.
          ltb q.qlen 4 ≡ false
          → decode_loop fuel parse pad term text q.position ≡ some d
          → decode_loop (suc fuel) parse pad term text dpos
            ≡ some (record d { result = (bytes_of q.qlen q.bytes).0 ++ d.result }))
        e (full_step d p)

  last_step :
      dpos < length text
      → (let q = get_next_quantum parse (is_pad_no pad) (drop dpos text) dpos in
          ltb q.qlen 4 ≡ true
          → (bytes_of q.qlen q.bytes).1 ≡ 0
          → q.padded ≡ true
          → decode_loop (suc fuel) parse pad term text dpos
            ≡ some (record {
              success = true;
              result = (bytes_of q.qlen q.bytes).0;
              data_used = q.position;
            }))
  unfolding decode_loop
  last_step p f c z =
      let more : leb (length text) dpos ≡ false = ground (arith, p) in
      let q = get_next_quantum parse (is_pad_no pad) (drop dpos text) dpos in
      let complete : is_complete term pad (bytes_of q.qlen q.bytes).1 q.padded ≡ true =
        ap (λ c. is_complete term pad c q.padded) c
        ∙ (ap (is_complete term pad 0) z ∙ is_complete_0 term pad) in
      rw (more, f, complete) refl

  decode_loop_last :
      (q : NextQuantum)
      → dpos < length text
      → get_next_quantum parse (is_pad_no pad) (drop dpos text) dpos ≡ q
      → ltb q.qlen 4 ≡ true
      → (bytes_of q.qlen q.bytes).1 ≡ 0
      → q.padded ≡ true
      → decode_loop (suc fuel) parse pad term text dpos
        ≡ some (record {
          success = true;
          result = (bytes_of q.qlen q.bytes).0;
          data_used = q.position;
        })
  decode_loop_last q p e =
      subst
        (λ q.
          ltb q.qlen 4 ≡ true
          → (bytes_of q.qlen q.bytes).1 ≡ 0
          → q.padded ≡ true
          → decode_loop (suc fuel) parse pad term text dpos
            ≡ some (record {
              success = true;
              result = (bytes_of q.qlen q.bytes).0;
              data_used = q.position;
            }))
        e (last_step p)

bytes_of_two :
    (x : ℕ) → x < 2 ^ 8 → bytes_of 2 (code_1 x ∷ code_2 x none ∷ 0 ∷ 0 ∷ []) ≡ (x ∷ [], 0)
unfolding bytes_of
bytes_of_two x p = rw (byte_1_lem x none p, byte_2_rest x) refl

bytes_of_three :
    (x y : ℕ)
    → x < 2 ^ 8
    → y < 2 ^ 8
    → bytes_of 3 (code_1 x ∷ code_2 x (some y) ∷ code_3 y none ∷ 0 ∷ []) ≡ (x ∷ y ∷ [], 0)
unfolding bytes_of
bytes_of_three x y p q = rw (byte_1_lem x (some y) p, byte_2_lem x y none q, byte_3_rest y) refl

bytes_of_full :
    (x y z : ℕ)
    → x < 2 ^ 8
    → y < 2 ^ 8
    → z < 2 ^ 8
    → bytes_of 4 (code_1 x ∷ code_2 x (some y) ∷ code_3 y (some z) ∷ code_4 z ∷ [])
      ≡ (x ∷ y ∷ z ∷ [], 0)
unfolding bytes_of
bytes_of_full x y z p q r =
    rw (byte_1_lem x (some y) p, byte_2_lem x y (some z) q, byte_3_lem y z r) refl

decode_loop-encode :
    (fuel : ℕ) (parse : Parse) (pad : Pad) (term : Term) (bytes text : List ℕ) (dpos : ℕ)
    → is_pad_no pad ≡ false
    → AllBytes bytes
    → drop dpos text ≡ encode_from_array bytes
    → dpos ≤ length text
    → length (encode_from_array bytes) < fuel
    → decode_loop fuel parse pad term text dpos
      ≡ some (record { success = true; result = bytes; data_used = length text })
unfolding encode_from_array
decode_loop-encode zero parse pad term bytes text dpos np all e p f = elim f [ ]
decode_loop-encode (suc fuel) parse pad term [] text dpos np all e p f =
    let l = length-drop dpos text in
    let k = ap length e in
    let there : dpos ≡ length text = omega (arith, l, k, p) in
    rw (sym there) (decode_loop_ends fuel parse pad term text dpos (omega (arith, there)))
decode_loop-encode (suc fuel) parse pad term (x ∷ []) text dpos np all e p f =
    let l = length-drop dpos text in
    let k = ap length e in
    let there : suc (suc (suc (suc dpos))) ≡ length text = omega (arith, l, k, p) in
    let q : NextQuantum = record {
      qlen = 2;
      bytes = code_1 x ∷ code_2 x none ∷ 0 ∷ 0 ∷ [];
      padded = true;
      position = suc (suc (suc (suc dpos)));
    } in
    let quantum : get_next_quantum parse (is_pad_no pad) (drop dpos text) dpos ≡ q =
      rw (np, e)
        (two_quantum parse dpos (code_1 x) (code_2 x none) (omega arith) (code_2_small x none)) in
    let found = bytes_of_two x all.0 in
    let result =
      decode_loop_last fuel parse pad term text dpos q (omega (arith, there)) quantum refl
        (ap (λ r. r.1) found) refl in
    result
    ∙ ap₂ (λ r u. some (record { success = true; result = r; data_used = u })) (ap (λ r. r.0) found)
        there
decode_loop-encode (suc fuel) parse pad term (x ∷ (y ∷ [])) text dpos np all e p f =
    let l = length-drop dpos text in
    let k = ap length e in
    let there : suc (suc (suc (suc dpos))) ≡ length text = omega (arith, l, k, p) in
    let q : NextQuantum = record {
      qlen = 3;
      bytes = code_1 x ∷ code_2 x (some y) ∷ code_3 y none ∷ 0 ∷ [];
      padded = true;
      position = suc (suc (suc (suc dpos)));
    } in
    let quantum : get_next_quantum parse (is_pad_no pad) (drop dpos text) dpos ≡ q =
      rw (np, e)
        (three_quantum parse dpos (code_1 x) (code_2 x (some y)) (omega arith)
          (code_2_small x (some y)) (code_3 y none) (code_3_small y none)) in
    let found = bytes_of_three x y all.0 all.1.0 in
    let result =
      decode_loop_last fuel parse pad term text dpos q (omega (arith, there)) quantum refl
        (ap (λ r. r.1) found) refl in
    result
    ∙ ap₂ (λ r u. some (record { success = true; result = r; data_used = u })) (ap (λ r. r.0) found)
        there
decode_loop-encode (suc fuel) parse pad term (x ∷ (y ∷ (z ∷ rest))) text dpos np all e p f =
    let l = length-drop dpos text in
    let k = ap length e in
    let next = suc (suc (suc (suc dpos))) in
    let q : NextQuantum = record {
      qlen = 4;
      bytes = code_1 x ∷ code_2 x (some y) ∷ code_3 y (some z) ∷ code_4 z ∷ [];
      padded = true;
      position = next;
    } in
    let quantum : get_next_quantum parse (is_pad_no pad) (drop dpos text) dpos ≡ q = rw (e) (
      full_quantum parse dpos (code_1 x) (code_2 x (some y)) (omega arith) (code_2_small x (some y))
        (is_pad_no pad) (code_3 y (some z)) (code_4 z) (encode_from_array rest)
        (code_3_small y (some z)) (omega arith)) in
    let found = bytes_of_full x y z all.0 all.1.0 all.1.1.0 in
    let four : dpos + 4 ≡ next = omega arith in
    let later : drop next text ≡ encode_from_array rest =
      ap (λ n. drop n text) (sym four) ∙ (drop-add dpos 4 text ∙ ap (drop 4) e) in
    let d : Decoded = record { success = true; result = rest; data_used = length text } in
    let after =
      decode_loop-encode fuel parse pad term rest text next np all.1.1.1 later
        (omega (arith, l, k, p)) (omega (arith, f)) in
    let result =
      decode_loop_full fuel parse pad term text dpos q d (omega (arith, l, k, p)) quantum refl
        after in
    result
    ∙ ap (λ r. some (record { success = true; result = r.0 ++ rest; data_used = length text }))
        found

-- With any flags that do not forbid padding, decoding the encoded form of any bytes succeeds, uses
-- the whole text and gives the bytes back.
pub decode-encode :
    (parse : Parse) (pad : Pad) (term : Term) (bytes : List ℕ)
    → is_pad_no pad ≡ false
    → AllBytes bytes
    → (let text = encode_from_array bytes in
        decode_with parse pad term text
        ≡ some (record { success = true; result = bytes; data_used = length text }))
unfolding decode_with
decode-encode parse pad term bytes np all =
    let text = encode_from_array bytes in
    let looped =
      decode_loop-encode (suc (length text)) parse pad term bytes text 0 np all refl (omega arith)
        (omega arith) in
    let all_used : (is_term_buffer term && not (length text == length text)) ≡ false =
      ground (arith) in
    rw (looped, decode_with, all_used) refl
