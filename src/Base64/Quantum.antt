-- ===== src/Base64/Quantum.antt =====
-- get_next_quantum on characters of the table and on the padding.
use librtcbase.Prelude.{
  ℕ, ◌+◌, ◌≤◌, ◌<◌, Bool, true, false, ◌&&◌, some, List, [], ◌∷◌, ◌==◌, leb, ltb, if◌then◌else◌,
  suc, set, ◌≡◌, refl, arith, ◌∙◌,
}
use librtcbase.Base64.{
  scan_code, k_pad, pd, sp, il, character, Parse, Scan, scan_char, scan_loop, get_next_quantum,
}
use librtcbase.Base64.Table.{code-character}

abbrev pub scanned : ℕ → Scan → Scan
scanned c s = record s {
  dpos = suc s.dpos;
  byte_len = suc s.byte_len;
  pad_len = 0;
  qbuf = set s.qbuf s.byte_len c;
}

scan_char-character :
    (parse : Parse) (illegal_pads : Bool) (c : ℕ) (s : Scan)
    → c < 64
    → s.pad_len ≡ 0
    → scan_char parse illegal_pads (character c) s ≡ some (scanned c s)
unfolding scan_char scan_code
scan_char-character parse illegal_pads c s p z =
    let e = code-character c p in
    let not_il : (c == il) ≡ false = ground (arith, p) in
    let not_sp : (c == sp) ≡ false = ground (arith, p) in
    let not_pd : (c == pd) ≡ false = ground (arith, p) in
    let no_pad : (illegal_pads && false) ≡ false = ground (arith) in
    rw (e, not_il, not_sp, not_pd, z, no_pad) refl

pub scan_loop-character :
    (parse : Parse) (illegal_pads : Bool) (c : ℕ) (rest : List ℕ) (s : Scan)
    → c < 64
    → s.pad_len ≡ 0
    → s.byte_len < 4
    → scan_loop parse illegal_pads (character c ∷ rest) s
      ≡ scan_loop parse illegal_pads rest (scanned c s)
unfolding scan_loop
scan_loop-character parse illegal_pads c rest s p z q =
    let room : leb 4 s.byte_len ≡ false = ground (arith, q) in
    rw (room, scan_char-character parse illegal_pads c s p z)

scan_loop_full :
    (parse : Parse) (illegal_pads : Bool) (rest : List ℕ) (s : Scan)
    → leb 4 s.byte_len ≡ true
    → scan_loop parse illegal_pads rest s ≡ s
unfolding scan_loop
scan_loop_full parse illegal_pads [] s p = refl
scan_loop_full parse illegal_pads (ch ∷ rest) s p = rw (p)

abbrev pub padded : Scan → Scan
padded s = record s {
  dpos = suc s.dpos;
  pad_len = suc s.pad_len;
  pad_start = if s.pad_len == 0 then s.dpos else s.pad_start;
  qbuf = set s.qbuf s.byte_len pd;
}

pub scan_loop-pad :
    (parse : Parse) (rest : List ℕ) (s : Scan)
    → 2 ≤ s.byte_len
    → s.byte_len + s.pad_len < 4
    → scan_loop parse false (k_pad ∷ rest) s ≡ scan_loop parse false rest (padded s)
unfolding scan_loop scan_char scan_code
scan_loop-pad parse rest s p q =
    let room : leb 4 s.byte_len ≡ false = ground (arith, q) in
    let late : ltb s.byte_len 2 ≡ false = ground (arith, p) in
    let few : leb 4 (s.byte_len + s.pad_len) ≡ false = ground (arith, q) in
    rw (room, late, few) refl

abbrev pub fresh : ℕ → Scan
fresh dpos = record {
  dpos = dpos;
  byte_len = 0;
  pad_len = 0;
  pad_start = 0;
  qbuf = 0 ∷ 0 ∷ 0 ∷ 0 ∷ [];
}

module _ (parse : Parse) (dpos c1 c2 : ℕ) (p1 : c1 < 64) (p2 : c2 < 64) where
  pub full_quantum :
      (illegal_pads : Bool) (c3 c4 : ℕ) (rest : List ℕ)
      → c3 < 64
      → c4 < 64
      → get_next_quantum parse illegal_pads
          (character c1 ∷ character c2 ∷ character c3 ∷ character c4 ∷ rest)
          dpos
        ≡ record {
          qlen = 4;
          bytes = c1 ∷ c2 ∷ c3 ∷ c4 ∷ [];
          padded = true;
          position = suc (suc (suc (suc dpos)));
        }
  unfolding get_next_quantum
  full_quantum illegal_pads c3 c4 rest p3 p4 =
      let s1 = scanned c1 (fresh dpos) in
      let s2 = scanned c2 s1 in
      let s3 = scanned c3 s2 in
      let scan =
        scan_loop-character parse illegal_pads c1
          (character c2 ∷ character c3 ∷ character c4 ∷ rest) (fresh dpos) p1 refl (omega arith)
        ∙ (scan_loop-character parse illegal_pads c2 (character c3 ∷ character c4 ∷ rest) s1 p2 refl
              (omega arith)
            ∙ (scan_loop-character parse illegal_pads c3 (character c4 ∷ rest) s2 p3 refl
                  (omega arith)
                ∙ (scan_loop-character parse illegal_pads c4 rest s3 p4 refl (omega arith)
                    ∙ scan_loop_full parse illegal_pads rest (scanned c4 s3) refl))) in
      rw (scan) refl

  -- Two characters or three, and the padding.
  pub two_quantum :
      get_next_quantum parse false (character c1 ∷ character c2 ∷ k_pad ∷ k_pad ∷ []) dpos
      ≡ record {
        qlen = 2;
        bytes = c1 ∷ c2 ∷ 0 ∷ 0 ∷ [];
        padded = true;
        position = suc (suc (suc (suc dpos)));
      }
  unfolding get_next_quantum scan_loop
  two_quantum =
      let s1 = scanned c1 (fresh dpos) in
      let s2 = scanned c2 s1 in
      let scan =
        scan_loop-character parse false c1 (character c2 ∷ k_pad ∷ k_pad ∷ []) (fresh dpos) p1 refl
          (omega arith)
        ∙ (scan_loop-character parse false c2 (k_pad ∷ k_pad ∷ []) s1 p2 refl (omega arith)
            ∙ (scan_loop-pad parse (k_pad ∷ []) s2 (omega arith) (omega arith)
                ∙ scan_loop-pad parse [] (padded s2) (omega arith) (omega arith))) in
      rw (scan) refl

  pub three_quantum :
      (c3 : ℕ)
      → c3 < 64
      → get_next_quantum parse false (character c1 ∷ character c2 ∷ character c3 ∷ k_pad ∷ []) dpos
        ≡ record {
          qlen = 3;
          bytes = c1 ∷ c2 ∷ c3 ∷ 0 ∷ [];
          padded = true;
          position = suc (suc (suc (suc dpos)));
        }
  unfolding get_next_quantum scan_loop
  three_quantum c3 p3 =
      let s1 = scanned c1 (fresh dpos) in
      let s2 = scanned c2 s1 in
      let s3 = scanned c3 s2 in
      let scan =
        scan_loop-character parse false c1 (character c2 ∷ character c3 ∷ k_pad ∷ []) (fresh dpos)
          p1 refl (omega arith)
        ∙ (scan_loop-character parse false c2 (character c3 ∷ k_pad ∷ []) s1 p2 refl (omega arith)
            ∙ (scan_loop-character parse false c3 (k_pad ∷ []) s2 p3 refl (omega arith)
                ∙ scan_loop-pad parse [] s3 (omega arith) (omega arith))) in
      rw (scan) refl
