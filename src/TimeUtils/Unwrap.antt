-- ===== src/TimeUtils/Unwrap.antt =====
-- The unwrapping of 32-bit timestamps against the time that they are cut from.
use librtcbase.Prelude.{
  ℕ, suc, ◌+◌, ◌-◌, ◌*◌, ◌/◌, ◌%◌, ◌^◌, ◌≤◌, ◌<◌, ◌≡◌, refl, ap, ap₂, ◌∙◌, ◌⊎◌, inl, inr, true,
  false, ◌&&◌, List, [], ◌∷◌, map, ltb, leb, ltb→lt, if◌then◌else◌, Bool-cases, u32, arith,
}
use librtcbase.Prelude.Int.{ℤ, pos, negsuc, ◌+ℤ◌, ◌-ℤ◌, ◌*ℤ◌}
use librtcbase.TimeUtils.{
  TimestampWrapAroundHandler, handler_init, next_wrap, unwrap, shift32, eq_ℤ,
}

-- The handler has seen the time `t` last, and counts its wraps.
pub record Tracks (h : TimestampWrapAroundHandler) (t : ℕ) : Type 0 where
  pub last : h.last_ts ≡ t % 2 ^ 32
  pub wraps : h.num_wrap ≡ pos (t / 2 ^ 32)

-- How far a time may be from the one tracked.
abbrev pub reach : ℕ
reach = 0x0fffffff

-- The time tracked next: a step back over a wrap does not move it.
abbrev pub next_tracked : ℕ → ℕ → ℕ
next_tracked t t' = if ltb (t' / 2 ^ 32) (t / 2 ^ 32) then t else t'

abbrev at : ℕ → ℕ → TimestampWrapAroundHandler
at q r = record { last_ts = r; num_wrap = pos q }

shifted : (q r : ℕ) → pos r +ℤ shift32 (pos q) ≡ pos (q * 2 ^ 32 + r)
unfolding ◌+ℤ◌ ◌*ℤ◌
shifted q r = ground arith

shifted_back : (q r : ℕ) → pos r +ℤ shift32 (pos (suc q) -ℤ pos 1) ≡ pos (q * 2 ^ 32 + r)
unfolding ◌+ℤ◌ ◌-ℤ◌ ◌*ℤ◌
shifted_back q r = ground arith

not_first : (q : ℕ) → eq_ℤ (pos q) (negsuc 0) ≡ false
not_first q = ground arith

bump : (q : ℕ) → pos q +ℤ pos 1 ≡ pos (suc q)
unfolding ◌+ℤ◌
bump q = ground arith

-- The cases of a time near the one tracked: on the same wrap before or after it, on the wrap
-- after, on the wrap before.
module _ (q r r' : ℕ) (small : (r < 2 ^ 32) × (r' < 2 ^ 32)) where
  before : r' < r → r < r' + reach → unwrap (at q r) r' ≡ (pos (q * 2 ^ 32 + r'), at q r')
  unfolding unwrap next_wrap
  before h near =
      let lt : ltb r' r ≡ true = ground (arith, h) in
      let far : (leb 0xf0000000 r && ltb r' 0x0fffffff) ≡ false = ground (arith, near) in
      rw (not_first q, lt, far, shifted q r') refl

  after : r ≤ r' → r' < r + reach → unwrap (at q r) r' ≡ (pos (q * 2 ^ 32 + r'), at q r')
  unfolding unwrap
  after h near =
      let ge : ltb r' r ≡ false = ground (arith, h) in
      let close : ltb 0xf0000000 (u32 (r' + 2 ^ 32 - r)) ≡ false = ground (arith, h, near, small) in
      rw (not_first q, ge, close, shifted q r') refl

  wrapped :
      r' + 2 ^ 32 < r + reach → unwrap (at q r) r' ≡ (pos (suc q * 2 ^ 32 + r'), at (suc q) r')
  unfolding unwrap next_wrap
  wrapped near =
      let lt : ltb r' r ≡ true = ground (arith, near) in
      let over : (leb 0xf0000000 r && ltb r' 0x0fffffff) ≡ true = ground (arith, near, small) in
      rw (not_first q, lt, over, bump q, shifted (suc q) r') refl

  wrapped_back :
      r + 2 ^ 32 < r' + reach → unwrap (at (suc q) r) r' ≡ (pos (q * 2 ^ 32 + r'), at (suc q) r)
  unfolding unwrap
  wrapped_back near =
      let ge : ltb r' r ≡ false = ground (arith, near) in
      let far : ltb 0xf0000000 (u32 (r' + 2 ^ 32 - r)) ≡ true = ground (arith, near, small) in
      rw (not_first (suc q), ge, far, shifted_back q r') refl

-- The same for times, cut to 32 bits.
near-Tracks :
    (q r q' r' : ℕ)
    → (r < 2 ^ 32) × (r' < 2 ^ 32)
    → q * 2 ^ 32 + r < q' * 2 ^ 32 + r' + reach
    → q' * 2 ^ 32 + r' < q * 2 ^ 32 + r + reach
    → unwrap (at q r) r' ≡ (pos (q' * 2 ^ 32 + r'), if ltb q' q then at q r else at q' r')
near-Tracks q r q' r' small back front = elim (cases q q' r r' small back front) [
  | inl (inl e) ↦
      let stays : ltb q q ≡ false = ground arith in
      rw (e, stays)
        (elim (Bool-cases (ltb r' r)) [
          | inl p ↦ before q r r' small (ltb→lt r' r p) (omega (arith, e))
          | inr p ↦ after q r r' small (ground (arith, p)) (omega (arith, e))
        ])
  | inl (inr e) ↦
      let stays : ltb (suc q) q ≡ false = ground arith in
      rw (e, stays) (wrapped q r r' small (omega (arith, e)))
  | inr e ↦
      let back_over : ltb q' (suc q') ≡ true = ground arith in
      rw (e, back_over) (wrapped_back q' r r' small (omega (arith, e)))
]
  where
    cases :
        (q q' r r' : ℕ)
        → (r < 2 ^ 32) × (r' < 2 ^ 32)
        → q * 2 ^ 32 + r < q' * 2 ^ 32 + r' + reach
        → q' * 2 ^ 32 + r' < q * 2 ^ 32 + r + reach
        → ((q' ≡ q) ⊎ (q' ≡ suc q)) ⊎ (q ≡ suc q')
    cases q q' r r' small back front = omega arith

-- The handler that tracks the time `t`.
abbrev pub tracking : ℕ → TimestampWrapAroundHandler
tracking t = at (t / 2 ^ 32) (t % 2 ^ 32)

-- A time less than `reach` before or after the one tracked is unwrapped from its low 32 bits,
-- also over a wrap in either direction, and is tracked next unless it lies before the last wrap.
pub unwrap_near :
    (t t' : ℕ)
    → t < t' + reach
    → t' < t + reach
    → unwrap (tracking t) (t' % 2 ^ 32) ≡ (pos t', tracking (next_tracked t t'))
unwrap_near t t' back front =
    near-Tracks (t / 2 ^ 32) (t % 2 ^ 32) (t' / 2 ^ 32) (t' % 2 ^ 32) (omega arith) (omega arith)
      (omega arith)
    ∙ ap₂ (λ a b. (a, b)) (ap pos (omega arith))
        (elim (Bool-cases (ltb (t' / 2 ^ 32) (t / 2 ^ 32))) [
          | inl p ↦ rw p refl
          | inr p ↦ rw p refl
        ])

unfoldable pub unwrap_all : TimestampWrapAroundHandler → List ℕ → List ℤ
unwrap_all h [] = []
unwrap_all h (ts ∷ rest) = let (out, h') = unwrap h ts in out ∷ unwrap_all h' rest

-- Each time is near the one tracked when it arrives.
abbrev pub AllNear : ℕ → List ℕ → Type 0
AllNear t [] = Unit {0}
AllNear t (t' ∷ rest) = (t < t' + reach) × (t' < t + reach) × AllNear (next_tracked t t') rest

unwrap_all_near :
    (t : ℕ) (times : List ℕ)
    → AllNear t times
    → unwrap_all (tracking t) (map (λ t. t % 2 ^ 32) times) ≡ map pos times
unfolding unwrap_all
unwrap_all_near t [] near = refl
unwrap_all_near t (t' ∷ rest) near = ap₂ ◌∷◌ (ap (λ p. p.0) (unwrap_near t t' near.0 near.1)) (
    ap (λ p. unwrap_all p.1 (map (λ t. t % 2 ^ 32) rest)) (unwrap_near t t' near.0 near.1)
    ∙ unwrap_all_near (next_tracked t t') rest near.2)

-- From a new handler, a time below 2 ^ 32 and then times that are each less than 0x0fffffff before
-- or after the one tracked come back whole when the handler is given only their low 32 bits.
pub unwrap_all_lem :
    (t : ℕ) (times : List ℕ)
    → t < 2 ^ 32
    → AllNear t times
    → unwrap_all handler_init (map (λ t. t % 2 ^ 32) (t ∷ times)) ≡ map pos (t ∷ times)
unfolding unwrap unwrap_all
unwrap_all_lem t times small near = ap₂ ◌∷◌ (ap pos {x = t % 2 ^ 32} {y = t} (omega arith)) (
    ap (λ q. unwrap_all (at q (t % 2 ^ 32)) (map (λ t. t % 2 ^ 32) times)) {x = 0} {y = t / 2 ^ 32}
      (omega arith)
    ∙ unwrap_all_near t times near)
