-- ===== src/Streams/WriteAll.antt =====
-- write_all against a stream that takes some of what it is given.
use librtcbase.Prelude.{
  ℕ, ◌+◌, ◌-◌, ◌≤◌, ◌<◌, true, false, some, List, ◌++◌, ◌==◌, suc, zero, length, take, drop,
  length-drop, take-add, append_assoc, append-nil, ◌≡◌, refl, arith, Bool-cases, inl, inr, ap, ◌∙◌,
  sym,
}
use librtcbase.Streams.{StreamResult, sr_success, is_success, write_loop, write_all}

-- What a stream promises: it takes one byte or more, but not more than it is given, when it
-- succeeds, and nothing else; `taken` is what it has taken so far.
pub record IsStream {Stream : Type 0} (write : List ℕ → Stream → StreamResult × ℕ × Stream)
    : Type 0 where
  pub taken : Stream → List ℕ
  pub progress :
      (xs : List ℕ) (s : Stream)
      → 0 < length xs
      → is_success (write xs s).0 ≡ true
      → (0 < (write xs s).1) × ((write xs s).1 ≤ length xs)
  pub success :
      (xs : List ℕ) (s : Stream)
      → is_success (write xs s).0 ≡ true
      → taken (write xs s).2 ≡ taken s ++ take (write xs s).1 xs
  pub failure :
      (xs : List ℕ) (s : Stream)
      → is_success (write xs s).0 ≡ false
      → taken (write xs s).2 ≡ taken s

zero_less : (n : ℕ) → n - 0 ≡ n
zero_less n = omega arith

module _ {Stream : Type 0} (write : List ℕ → Stream → StreamResult × ℕ × Stream)
    (laws : IsStream write) where
  open laws use {taken, progress, success, failure}

  write_loop_lem :
      (fuel : ℕ) (xs : List ℕ) (total : ℕ) (s : Stream)
      → length xs < fuel
      → (r : StreamResult × ℕ × Stream) × ((write_loop write fuel xs total s ≡ some r)
          × ((total ≤ r.1)
              × ((r.1 ≤ total + length xs)
                  × ((taken r.2 ≡ taken s ++ take (r.1 - total) xs)
                      × (is_success r.0 ≡ true → r.1 ≡ total + length xs)))))
  unfolding write_loop
  write_loop_lem zero xs total s p = elim p [ ]
  write_loop_lem (suc fuel) xs total s p =
      let w = write xs s in
      let z : 0 ≡ total - total = omega arith in
      let nothing : taken s ≡ taken s ++ take (total - total) xs =
        sym (append-nil (taken s)) ∙ ap (λ k. taken s ++ take k xs) z in
      elim (Bool-cases (length xs == 0)) [
        | inl e ↦ (
          (sr_success, total, s),
          (rw (e) refl, (omega arith, (omega arith, (nothing, λ q. ground (arith, e))))),
        )
        | inr e ↦ elim (Bool-cases (is_success w.0)) [
          | inl f ↦
              let (more, most) = progress xs s (ground (arith, e)) f in
              let shorter = length-drop w.1 xs in
              let (r, (q, (low, (high, (t, done))))) =
                write_loop_lem fuel (drop w.1 xs) (total + w.1) w.2
                  (omega (arith, shorter, more, most, p)) in
              let m = r.1 - (total + w.1) in
              let k : w.1 + m ≡ r.1 - total = omega (arith, low) in
              let joined : taken r.2 ≡ taken s ++ take (r.1 - total) xs =
                t
                ∙ (ap (λ y. y ++ take m (drop w.1 xs)) (success xs s f)
                    ∙ (append_assoc (taken s) (take w.1 xs) (take m (drop w.1 xs))
                        ∙ ap (λ y. taken s ++ y)
                            (sym (take-add w.1 m xs) ∙ ap (λ n. take n xs) k))) in
              (
                r,
                (
                  rw (e, f) q,
                  (
                    omega (arith, low),
                    (
                      omega (arith, high, shorter, most),
                      (joined, λ g. omega (arith, done g, shorter, most)),
                    ),
                  ),
                ),
              )
          | inr f ↦ (
            (w.0, total, w.2),
            (
              rw (e, f) refl,
              (omega arith, (omega arith, (failure xs s f ∙ nothing, λ g. ground (arith, f, g)))),
            ),
          )
        ]
      ]

  -- On a stream that takes at least one byte and at most those it is given when it succeeds, and
  -- nothing else: write_all ends, the stream has taken as many of the first bytes as it says, and
  -- these are all of them if it returns success.
  pub write_all_lem :
      (bytes : List ℕ) (s : Stream)
      → (r : StreamResult × ℕ × Stream) × ((write_all write bytes s ≡ some r)
          × ((taken r.2 ≡ taken s ++ take r.1 bytes)
              × (is_success r.0 ≡ true → r.1 ≡ length bytes)))
  unfolding write_all
  write_all_lem bytes s =
      let (r, (q, (low, (high, (t, done))))) =
        write_loop_lem (suc (length bytes)) bytes 0 s (omega arith) in
      (r, (q, (t ∙ ap (λ n. taken s ++ take n bytes) (zero_less r.1), λ g. omega (arith, done g))))
