-- ===== src/SslStream/Verification.antt =====
-- The certificate of the peer: what the adapter says about it, and what is signalled before it is
-- verified.
use librtcbase.Prelude.{
  ℕ, Bool, true, false, not, ◌&&◌, ◌||◌, Option, none, some, List, [], ◌∷◌, ◌≡◌, refl, arith,
  Bool-cases, Option-cases, inl, inr, memcmp_eq,
}
use mathlib.Core.Path.{subst}
use librtcbase.Prelude.Int.{ℤ}
use librtcbase.SslStream.{
  ssl_none, ssl_wait, ssl_connecting, same_state, Events, Signal, event, handshake_error, Adapter,
  HandshakeResult, OpenSsl, waiting_to_verify_peer_certificate, cleanup, error_info,
}
use librtcbase.SslStream.Handshake.{
  finish_round, verify_peer_certificate, verify_callback, run_callbacks, continue_ssl, context_of,
  begin_ssl, start_ssl,
}
use librtcbase.SslStream.Reactions.{
  on_rest, on_open, on_data, on_event, on_timeout, set_peer_certificate_digest,
}
use librtcbase.SslStream.Settings.{
  set_dtls_srtp_crypto_suites, Input, start, stream_event, timeout, set_digest, use_identity,
  use_role, use_mode, use_max_version, use_ciphers, use_retransmission_timeout, use_client_auth,
  use_ignore_bad_cert, ask_cipher_suite, ask_srtp_suite, export_keys, get_ssl_cipher_suite,
  get_dtls_srtp_crypto_suite, export_keying_material, with_adapter, run,
}
use librtcbase.SslStream.Rounds.{
  run_callbacks-frame, before_switch, result_of, continue_ssl_lem, continue_ssl-null,
}
use librtcbase.SslStream.Safety.{is_over, is_valid, connecting}

-- A digest algorithm on a certificate.
abbrev pub ComputeDigest : Type 0
ComputeDigest = List ℕ → List ℕ → Option (List ℕ)

-- The peer has presented a certificate, and its digest is the one that was asked for.
abbrev pub matches : ComputeDigest → Adapter → Bool
matches compute_digest a = elim a.peer_certificate [
  | none ↦ false
  | some certificate ↦ elim (compute_digest a.digest_algorithm certificate) [
    | none ↦ false
    | some digest ↦ memcmp_eq digest a.digest_value
  ]
]

-- While it is not over, a verified certificate is one that matches.
abbrev pub is_trusted : ComputeDigest → Adapter → Bool
is_trusted compute_digest a = is_over a.state || not a.verified || matches compute_digest a

abbrev pub has_open : Signal → Bool
has_open (event events err) = events.se_open
has_open (handshake_error e) = false

abbrev pub has_opened : List Signal → Bool
has_opened [] = false
has_opened (s ∷ rest) = let r = has_opened rest in has_open s || r

-- Nothing has been told that the stream is open while the peer is still to be verified.
abbrev pub is_silent : Adapter → Bool
is_silent a = not (waiting_to_verify_peer_certificate a) || not (has_opened a.signals)

-- Both, for the adapter and the result of a step.
abbrev pub is_safe : ComputeDigest → Adapter → Bool
is_safe compute_digest a = is_silent a && is_trusted compute_digest a

abbrev pub is_safe_result : ComputeDigest → Option Adapter → Bool
is_safe_result compute_digest none = true
is_safe_result compute_digest (some a) = is_safe compute_digest a

verify_callback-safe :
    (openssl : OpenSsl) (depth : ℕ) (certificate : List ℕ) (a : Adapter)
    → is_safe openssl.compute_digest a ≡ true
    → is_safe openssl.compute_digest (verify_callback openssl depth certificate a).1 ≡ true
unfolding verify_callback verify_peer_certificate
verify_callback-safe openssl depth certificate a h = ground (arith, h)

run_callbacks-safe :
    (openssl : OpenSsl) (certificates : List (ℕ × List ℕ)) (a : Adapter)
    → is_safe openssl.compute_digest a ≡ true
    → is_safe openssl.compute_digest (run_callbacks openssl certificates a).1 ≡ true
unfolding run_callbacks
run_callbacks-safe openssl [] a h = h
run_callbacks-safe openssl ((depth, certificate) ∷ rest) a h =
    run_callbacks-safe openssl rest (verify_callback openssl depth certificate a).1
      (verify_callback-safe openssl depth certificate a h)

finish_round-safe :
    (openssl : OpenSsl) (r : HandshakeResult) (a : Adapter)
    → is_safe openssl.compute_digest a ≡ true
    → not (is_over a.state) ≡ true
    → is_safe openssl.compute_digest (finish_round r a).1 ≡ true
unfolding finish_round
finish_round-safe openssl r a h p = ground (arith, h, p)

continue_ssl-safe :
    (openssl : OpenSsl) (a : Adapter)
    → is_safe openssl.compute_digest a ≡ true
    → not (is_over a.state) ≡ true
    → is_safe_result openssl.compute_digest (with_adapter (continue_ssl openssl a)) ≡ true
continue_ssl-safe openssl a h p = elim (Bool-cases (a.event_loop && a.timer && a.ssl)) [
  | inl q ↦
      let a0 = record a { timer_running = false } in
      let kept : is_safe openssl.compute_digest (before_switch openssl a) ≡ true =
        subst (λ x. is_safe openssl.compute_digest x ≡ true)
          (run_callbacks-frame openssl openssl.presented a0)
          (run_callbacks-safe openssl openssl.presented a0 h) in
      rw (
        continue_ssl_lem openssl a q,
        finish_round-safe openssl (result_of openssl a) (before_switch openssl a) kept p,
      )
  | inr q ↦ rw (continue_ssl-null openssl a q)
]

begin_ssl-safe :
    (openssl : OpenSsl) (a : Adapter)
    → is_safe openssl.compute_digest a ≡ true
    → a.state ≡ ssl_connecting
    → is_safe_result openssl.compute_digest (with_adapter (begin_ssl openssl a)) ≡ true
unfolding begin_ssl
begin_ssl-safe openssl a h p =
    let rest =
      continue_ssl-safe openssl (record a { ssl = true; ctx = context_of openssl a }) h
        (ground (arith, p)) in
    ground (arith, h, p, rest)

start_ssl-safe :
    (openssl : OpenSsl) (stream_open : Bool) (a : Adapter)
    → is_safe openssl.compute_digest a ≡ true
    → is_safe_result openssl.compute_digest (with_adapter (start_ssl openssl stream_open a)) ≡ true
unfolding start_ssl error_info cleanup
start_ssl-safe openssl stream_open a h =
    let begun : same_state a.state ssl_none ≡ true
        → is_safe_result openssl.compute_digest (with_adapter (begin_ssl openssl (connecting a)))
          ≡ true =
      (λ p. begin_ssl-safe openssl (connecting a) (ground (arith, h, p)) refl) in
    ground (arith, h, begun)

-- The stream below says that it is open only while the adapter waits for it, and the client is not
-- asked for a certificate any more once the adapter has said that it is open.
abbrev pub is_in_order : Input → Adapter → Bool
is_in_order (stream_event events err) a = not events.se_open || same_state a.state ssl_wait
is_in_order (use_client_auth enabled) a = not enabled || not (has_opened a.signals)
is_in_order input a = true

-- The part of on_event for SE_OPEN passes nothing on, and both parts are safe.
abbrev is_safe_opened : ComputeDigest → Option (Bool × Bool × Adapter) → Bool
is_safe_opened compute_digest none = true
is_safe_opened compute_digest (some (returned, opened, a)) = not opened && is_safe compute_digest a

abbrev is_safe_part : {A : Type 0} → ComputeDigest → Option (Bool × A × Adapter) → Bool
is_safe_part compute_digest none = true
is_safe_part compute_digest (some (returned, passed, a)) = is_safe compute_digest a

on_open-safe :
    (openssl : OpenSsl) (events : Events) (a : Adapter)
    → is_safe openssl.compute_digest a ≡ true
    → not events.se_open || same_state a.state ssl_wait ≡ true
    → is_safe_opened openssl.compute_digest (on_open openssl events a) ≡ true
unfolding on_open error_info cleanup
on_open-safe openssl events a h p =
    let begun : same_state a.state ssl_wait ≡ true
        → is_safe_result openssl.compute_digest (with_adapter (begin_ssl openssl (connecting a)))
          ≡ true =
      (λ p. begin_ssl-safe openssl (connecting a) (ground (arith, h, p)) refl) in
    ground (arith, h, p, begun)

on_data-safe :
    (openssl : OpenSsl) (events : Events) (a : Adapter)
    → is_safe openssl.compute_digest a ≡ true
    → is_safe_part openssl.compute_digest (on_data openssl events a) ≡ true
unfolding on_data error_info cleanup
on_data-safe openssl events a h =
    let continued : same_state a.state ssl_connecting ≡ true
        → is_safe_result openssl.compute_digest (with_adapter (continue_ssl openssl a)) ≡ true =
      (λ p. continue_ssl-safe openssl a h (ground (arith, p))) in
    ground (arith, h, continued)

on_rest-safe :
    (openssl : OpenSsl) (events : Events) (err : ℤ) (passed : Bool × Bool) (a : Adapter)
    → is_safe openssl.compute_digest a ≡ true
    → is_safe openssl.compute_digest (on_rest events err false passed a) ≡ true
unfolding on_rest cleanup
on_rest-safe openssl events err passed a h = ground (arith, h)

on_event-safe :
    (openssl : OpenSsl) (events : Events) (err : ℤ) (a : Adapter)
    → is_safe openssl.compute_digest a ≡ true
    → not events.se_open || same_state a.state ssl_wait ≡ true
    → is_safe_result openssl.compute_digest (on_event openssl events err a) ≡ true
unfolding on_event
on_event-safe openssl events err a h o = elim (Option-cases (on_open openssl events a)) [
  | inl p ↦ ground (arith, p)
  | inr ((true, opened, a1), p) ↦ ground (arith, p, on_open-safe openssl events a h o)
  | inr ((false, true, a1), p) ↦ ground (arith, p, on_open-safe openssl events a h o)
  | inr ((false, false, a1), p) ↦
      let h1 : is_safe openssl.compute_digest a1 ≡ true =
        ground (arith, p, on_open-safe openssl events a h o) in
      elim (Option-cases (on_data openssl events a1)) [
        | inl q ↦ ground (arith, p, q)
        | inr ((true, passed, a2), q) ↦ ground (arith, p, q, on_data-safe openssl events a1 h1)
        | inr ((false, passed, a2), q) ↦
            let h2 : is_safe openssl.compute_digest a2 ≡ true =
              ground (arith, q, on_data-safe openssl events a1 h1) in
            rw (p, q, on_event) (on_rest-safe openssl events err passed a2 h2)
      ]
]

on_timeout-safe :
    (openssl : OpenSsl) (a : Adapter)
    → is_safe openssl.compute_digest a ≡ true
    → not (is_over a.state) ≡ true
    → is_safe_result openssl.compute_digest (on_timeout openssl a) ≡ true
unfolding on_timeout
on_timeout-safe openssl a h p =
    let continued = continue_ssl-safe openssl (record a { timer_running = false }) h p in
    ground (arith, continued)

set_peer_certificate_digest-safe :
    (openssl : OpenSsl) (algorithm value : List ℕ) (a : Adapter)
    → is_safe openssl.compute_digest a ≡ true
    → is_safe openssl.compute_digest (set_peer_certificate_digest openssl algorithm value a).1
      ≡ true
unfolding set_peer_certificate_digest verify_peer_certificate error_info cleanup
set_peer_certificate_digest-safe openssl algorithm value a h = ground (arith, h)

set_dtls_srtp_crypto_suites-safe :
    (openssl : OpenSsl) (ciphers : List ℕ) (a : Adapter)
    → is_safe openssl.compute_digest a ≡ true
    → is_safe openssl.compute_digest (set_dtls_srtp_crypto_suites ciphers a).1 ≡ true
unfolding set_dtls_srtp_crypto_suites
set_dtls_srtp_crypto_suites-safe openssl ciphers a h = ground (arith, h)

-- x
pub run-safe :
    (openssl : OpenSsl) (input : Input) (a : Adapter)
    → is_valid a ≡ true
    → is_safe openssl.compute_digest a ≡ true
    → is_in_order input a ≡ true
    → is_safe_result openssl.compute_digest (run openssl input a) ≡ true
unfolding run get_ssl_cipher_suite get_dtls_srtp_crypto_suite export_keying_material
run-safe openssl (start stream_open) a v h o = start_ssl-safe openssl stream_open a h
run-safe openssl (stream_event events err) a v h o = on_event-safe openssl events err a h o
run-safe openssl timeout a v h o =
    let fired : a.timer_running ≡ true
        → is_safe_result openssl.compute_digest (on_timeout openssl a) ≡ true =
      (λ p. on_timeout-safe openssl a h (ground (arith, v, p))) in
    ground (arith, h, fired)
run-safe openssl (set_digest algorithm value) a v h o =
    set_peer_certificate_digest-safe openssl algorithm value a h
run-safe openssl (use_identity identity) a v h o = h
run-safe openssl (use_role role) a v h o = h
run-safe openssl (use_mode mode) a v h o = h
run-safe openssl (use_max_version version) a v h o = h
run-safe openssl (use_ciphers ciphers) a v h o =
    set_dtls_srtp_crypto_suites-safe openssl ciphers a h
run-safe openssl (use_retransmission_timeout timeout_ms) a v h o = h
run-safe openssl (use_client_auth enabled) a v h o = ground (arith, h, o)
run-safe openssl (use_ignore_bad_cert ignore) a v h o = h
run-safe openssl (ask_cipher_suite current_cipher) a v h o = ground (arith, h)
run-safe openssl (ask_srtp_suite profile) a v h o = ground (arith, h)
run-safe openssl (export_keys is_one) a v h o = ground (arith, h)
