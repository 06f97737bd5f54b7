-- ===== src/SslStream/Safety.antt =====
-- The invariant of an adapter, by operation.
use librtcbase.Prelude.{
  ℕ, Bool, true, false, not, ◌&&◌, ◌||◌, Option, none, some, List, ◌≡◌, refl, arith, if◌then◌else◌,
  Option-cases, inl, inr,
}
use librtcbase.Prelude.Int.{ℤ}
use librtcbase.SslStream.{
  SslState, ssl_none, ssl_wait, ssl_connecting, ssl_connected, ssl_error, ssl_closed, same_state,
  Events, Adapter, construct, HandshakeResult, OpenSsl, cleanup, error_info,
}
use librtcbase.SslStream.Handshake.{
  is_zero, finish_round, verify_peer_certificate, continue_ssl, context_of, begin_ssl, start_ssl,
}
use librtcbase.SslStream.Reactions.{
  on_rest, on_open, on_data, on_event, on_timeout, set_peer_certificate_digest,
}
use librtcbase.SslStream.Settings.{with_adapter, set_dtls_srtp_crypto_suites}
use librtcbase.SslStream.Rounds.{before_switch, result_of, continue_ssl_lem}

abbrev pub is_some {ℓ} : {A : Type ℓ} → Option A → Bool
is_some none = false
is_some (some x) = true

abbrev pub is_live : SslState → Bool
is_live s = same_state s ssl_connecting || same_state s ssl_connected

abbrev pub is_over : SslState → Bool
is_over s = same_state s ssl_error || same_state s ssl_closed

-- The adapter has an event loop; the SSL object and its context are there while it connects or is
-- connected, and there is a certificate of the peer then only; the timer is there until it is over,
-- and runs while it connects only.
abbrev pub is_valid : Adapter → Bool
is_valid a =
    a.event_loop
    && (if is_live a.state
        then a.ssl && is_some a.ctx
        else not a.ssl && not (is_some a.ctx) && not (is_some a.peer_certificate))
    && (if is_over a.state then not a.timer else a.timer)
    && (if same_state a.state ssl_connecting then true else not a.timer_running)

-- The invariant after a step that does not fail.
abbrev pub is_valid_result : Option Adapter → Bool
is_valid_result none = false
is_valid_result (some a) = is_valid a

pub is_valid-construct : is_valid (construct true) ≡ true
unfolding construct
is_valid-construct = refl

-- After an error everything is released.
pub error_info-valid :
    (err : ℤ) (signalled : Bool) (a : Adapter)
    → a.event_loop && a.timer ≡ true
    → is_valid (error_info err signalled a) ≡ true
unfolding error_info cleanup
error_info-valid err signalled a h = ground (arith)

abbrev pub can_finish : Adapter → Bool
can_finish a =
    a.event_loop && a.timer && a.ssl && is_some a.ctx && same_state a.state ssl_connecting

-- A round that reports no error leaves a valid adapter, and one that reports an error leaves what error_info needs.
abbrev pub is_good : Option (ℤ × Adapter) → Bool
is_good none = false
is_good (some (err, a)) = if is_zero err then is_valid a else a.event_loop && a.timer

pub finish_round-good :
    (r : HandshakeResult) (a : Adapter)
    → can_finish a ≡ true
    → a.timer_running ≡ false
    → is_good (some (finish_round r a)) ≡ true
unfolding finish_round
finish_round-good r a h q = ground (arith)

-- Even an error of a round leaves a valid adapter.
finish_round-valid :
    (r : HandshakeResult) (a : Adapter)
    → can_finish a ≡ true
    → a.timer_running ≡ false
    → is_valid (finish_round r a).1 ≡ true
unfolding finish_round
finish_round-valid r a h q = ground (arith)

pub continue_ssl-good :
    (openssl : OpenSsl) (a : Adapter)
    → can_finish a ≡ true
    → is_good (continue_ssl openssl a) ≡ true
continue_ssl-good openssl a h = rw (
  continue_ssl_lem openssl a (ground (arith, h)),
  finish_round-good (result_of openssl a) (before_switch openssl a) h refl,
)

pub begin_ssl-good :
    (openssl : OpenSsl) (a : Adapter)
    → a.event_loop && a.timer && same_state a.state ssl_connecting ≡ true
    → is_good (begin_ssl openssl a) ≡ true
unfolding begin_ssl
begin_ssl-good openssl a h =
    let a2 = record a { ssl = true; ctx = context_of openssl a } in
    let rest : is_some (context_of openssl a) ≡ true → is_good (continue_ssl openssl a2) ≡ true =
      (λ p. continue_ssl-good openssl a2 (ground (arith, h, p))) in
    ground (arith, rest)

-- The state that begin_ssl starts from.
abbrev pub connecting : Adapter → Adapter
connecting a = record a { state = ssl_connecting }

pub start_ssl-valid :
    (openssl : OpenSsl) (stream_open : Bool) (a : Adapter)
    → is_valid a ≡ true
    → is_valid_result (with_adapter (start_ssl openssl stream_open a)) ≡ true
unfolding start_ssl error_info cleanup
start_ssl-valid openssl stream_open a h =
    let begun : same_state a.state ssl_none ≡ true
        → is_good (begin_ssl openssl (connecting a)) ≡ true =
      (λ p. begin_ssl-good openssl (connecting a) (ground (arith, h, p))) in
    ground (arith, h, begun)

-- After the parts of on_event, one of which may have returned.
abbrev is_valid_part : {A : Type 0} → Option (Bool × A × Adapter) → Bool
is_valid_part none = false
is_valid_part (some (returned, passed, a)) = is_valid a

on_open-valid :
    (openssl : OpenSsl) (events : Events) (a : Adapter)
    → is_valid a ≡ true
    → is_valid_part (on_open openssl events a) ≡ true
unfolding on_open error_info cleanup
on_open-valid openssl events a h =
    let begun : same_state a.state ssl_wait ≡ true
        → is_good (begin_ssl openssl (connecting a)) ≡ true =
      (λ p. begin_ssl-good openssl (connecting a) (ground (arith, h, p))) in
    ground (arith, h, begun)

on_data-valid :
    (openssl : OpenSsl) (events : Events) (a : Adapter)
    → is_valid a ≡ true
    → is_valid_part (on_data openssl events a) ≡ true
unfolding on_data error_info cleanup
on_data-valid openssl events a h =
    let continued : same_state a.state ssl_connecting ≡ true
        → is_good (continue_ssl openssl a) ≡ true =
      (λ p. continue_ssl-good openssl a (ground (arith, h, p))) in
    ground (arith, h, continued)

on_rest-valid :
    (events : Events) (err : ℤ) (opened : Bool) (passed : Bool × Bool) (a : Adapter)
    → is_valid a ≡ true
    → is_valid (on_rest events err opened passed a) ≡ true
unfolding on_rest cleanup
on_rest-valid events err opened passed a h = ground (arith, h)

pub on_event-valid :
    (openssl : OpenSsl) (events : Events) (err : ℤ) (a : Adapter)
    → is_valid a ≡ true
    → is_valid_result (on_event openssl events err a) ≡ true
unfolding on_event
on_event-valid openssl events err a h = elim (Option-cases (on_open openssl events a)) [
  | inl p ↦ ground (arith, h, p, on_open-valid openssl events a h)
  | inr ((true, opened, a1), p) ↦ ground (arith, h, p, on_open-valid openssl events a h)
  | inr ((false, opened, a1), p) ↦
      let h1 : is_valid a1 ≡ true = ground (arith, h, p, on_open-valid openssl events a h) in
      elim (Option-cases (on_data openssl events a1)) [
        | inl q ↦ ground (arith, h1, q, on_data-valid openssl events a1 h1)
        | inr ((true, passed, a2), q) ↦ ground (arith, h, p, q, on_data-valid openssl events a1 h1)
        | inr ((false, passed, a2), q) ↦
            let h2 : is_valid a2 ≡ true =
              ground (arith, h1, q, on_data-valid openssl events a1 h1) in
            ground (arith, p, q, on_rest-valid events err opened passed a2 h2)
      ]
]

pub on_timeout-valid :
    (openssl : OpenSsl) (a : Adapter)
    → is_valid a ≡ true
    → a.timer_running ≡ true
    → is_valid_result (on_timeout openssl a) ≡ true
unfolding on_timeout
on_timeout-valid openssl a h p =
    let a0 = record a { timer_running = false } in
    rw (
      continue_ssl_lem openssl a0 (ground (arith, h, p)),
      on_timeout,
      finish_round-valid (result_of openssl a0) (before_switch openssl a0) (ground (arith, h, p))
          refl,
    )

pub set_peer_certificate_digest-valid :
    (openssl : OpenSsl) (algorithm value : List ℕ) (a : Adapter)
    → is_valid a ≡ true
    → is_valid (set_peer_certificate_digest openssl algorithm value a).1 ≡ true
unfolding set_peer_certificate_digest verify_peer_certificate error_info cleanup
set_peer_certificate_digest-valid openssl algorithm value a h = ground (arith, h)

pub set_dtls_srtp_crypto_suites-valid :
    (ciphers : List ℕ) (a : Adapter)
    → is_valid a ≡ true
    → is_valid (set_dtls_srtp_crypto_suites ciphers a).1 ≡ true
unfolding set_dtls_srtp_crypto_suites
set_dtls_srtp_crypto_suites-valid ciphers a h = ground (arith, h)
