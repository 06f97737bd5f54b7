-- ===== src/SslStream/Reach.antt =====
-- The adapters that the library can be in.
use librtcbase.Prelude.{true, false, some, ◌≡◌, refl, arith, sym}
use mathlib.Core.Path.{subst}
use librtcbase.SslStream.{Adapter, construct, OpenSsl, waiting_to_verify_peer_certificate}
use librtcbase.SslStream.Settings.{Input, run}
use librtcbase.SslStream.Safety.{is_live, is_valid, is_valid-construct}
use librtcbase.SslStream.Runs.{run-Outcome}
use librtcbase.SslStream.Verification.{
  ComputeDigest, matches, has_opened, is_safe, is_in_order, run-safe,
}

-- A new adapter with an event loop, or what an input makes of one, whatever OpenSSL answers, as long
-- as its digests are the same and its inputs come in order.
pub data Reachable (compute_digest : ComputeDigest) : Adapter → Type 0 where
  fresh : Reachable compute_digest (construct true)
  proceed :
      {a b : Adapter} (openssl : OpenSsl) (input : Input)
      → openssl.compute_digest ≡ compute_digest
      → is_in_order input a ≡ true
      → run openssl input a ≡ some b
      → Reachable compute_digest a
      → Reachable compute_digest b

Reachable-valid :
    (compute_digest : ComputeDigest) (a : Adapter) → Reachable compute_digest a → is_valid a ≡ true
Reachable-valid compute_digest a fresh = is_valid-construct
Reachable-valid compute_digest b (proceed {a} openssl input same in_time step reached) =
    ground (arith, step, run-Outcome openssl input a (Reachable-valid compute_digest a reached))

Reachable-safe :
    (compute_digest : ComputeDigest) (a : Adapter)
    → Reachable compute_digest a
    → is_safe compute_digest a ≡ true
unfolding construct
Reachable-safe compute_digest a fresh = refl
Reachable-safe compute_digest b (proceed {a} openssl input same in_time step reached) =
    let v = Reachable-valid compute_digest a reached in
    let h = subst (λ c. is_safe c a ≡ true) (sym same) (Reachable-safe compute_digest a reached) in
    let k = run-safe openssl input a v h in_time in
    subst (λ c. is_safe c b ≡ true) same (ground (arith, step, k))

-- For every adapter that is reachable from a new one with an event loop, by any operations with any
-- answers of OpenSSL whose digests are the same function, while the stream below opens only when
-- the adapter waits for it and client authentication is not turned on once an open event has been
-- signalled: if an open event has been signalled, the peer is not still to be verified; and while
-- the adapter connects or is connected, a certificate that is marked as verified has the digest
-- that was asked for.
pub reachable_lem :
    (compute_digest : ComputeDigest)
    → (a : Adapter) → Reachable compute_digest a
    → (has_opened a.signals ≡ true → waiting_to_verify_peer_certificate a ≡ false)
      × (is_live a.state ≡ true → a.verified ≡ true → matches compute_digest a ≡ true)
reachable_lem compute_digest a reached =
    let h = Reachable-safe compute_digest a reached in
    ((λ p. ground (arith, h, p)), (λ p q. ground (arith, h, p, q)))
