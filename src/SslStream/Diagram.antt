-- ===== src/SslStream/Diagram.antt =====
-- The state diagram of the adapter.
use librtcbase.Prelude.{
  ℕ, Bool, true, false, not, ◌&&◌, ◌||◌, Option, none, some, List, ◌≡◌, refl, arith, Bool-cases,
  Option-cases, inl, inr,
}
use librtcbase.Prelude.Int.{ℤ}
use librtcbase.SslStream.{
  SslState, ssl_none, ssl_wait, ssl_connecting, ssl_connected, ssl_error, ssl_closed, same_state,
  Events, Adapter, HandshakeResult, OpenSsl, cleanup, error_info,
}
use librtcbase.SslStream.Handshake.{
  finish_round, verify_peer_certificate, continue_ssl, context_of, begin_ssl, start_ssl,
}
use librtcbase.SslStream.Reactions.{
  on_rest, on_open, on_data, on_event, on_timeout, set_peer_certificate_digest,
}
use librtcbase.SslStream.Settings.{
  set_dtls_srtp_crypto_suites, Input, start, stream_event, timeout, set_digest, use_identity,
  use_role, use_mode, use_max_version, use_ciphers, use_retransmission_timeout, use_client_auth,
  use_ignore_bad_cert, ask_cipher_suite, ask_srtp_suite, export_keys, get_ssl_cipher_suite,
  get_dtls_srtp_crypto_suite, export_keying_material, with_adapter, run,
}
use librtcbase.SslStream.Rounds.{continue_ssl-null, before_switch, result_of, continue_ssl_lem}
use librtcbase.SslStream.Safety.{is_over, is_valid, connecting}

-- The arrows between two states, and how often an input follows one.
infix 40 ◌⟶◌ ◌⟶*◌
pub data ◌⟶◌ : SslState → SslState → Type 0 where
  postpone : ssl_none ⟶ ssl_wait
  begin : ssl_none ⟶ ssl_connecting
  resume : ssl_wait ⟶ ssl_connecting
  finish : ssl_connecting ⟶ ssl_connected
  close_none : ssl_none ⟶ ssl_closed
  close_wait : ssl_wait ⟶ ssl_closed
  close_connecting : ssl_connecting ⟶ ssl_closed
  close_connected : ssl_connected ⟶ ssl_closed
  fail : ssl_connecting ⟶ ssl_error
  reject : ssl_connected ⟶ ssl_error

pub data ◌⟶*◌ : SslState → SslState → Type 0 where
  here : {s : SslState} → s ⟶* s
  follow : {s t u : SslState} → s ⟶ t → t ⟶* u → s ⟶* u

ruleset edges = (
  postpone, begin, resume, finish, close_none, close_wait, close_connecting, close_connected, fail,
  reject,
)

-- The same as a test.
abbrev leads_to : SslState → SslState → Bool
leads_to ssl_none t = true
leads_to ssl_wait t = not (same_state t ssl_none)
leads_to ssl_connecting t = not (same_state t ssl_none || same_state t ssl_wait)
leads_to ssl_connected t = same_state t ssl_connected || is_over t
leads_to s t = same_state s t

leads_to-⟶* : (s t : SslState) → leads_to s t ≡ true → s ⟶* t
leads_to-⟶* ssl_none ssl_none h = here
leads_to-⟶* ssl_none ssl_wait h = search (here, follow, edges)
leads_to-⟶* ssl_none ssl_connecting h = search (here, follow, edges)
leads_to-⟶* ssl_none ssl_connected h = search (here, follow, edges)
leads_to-⟶* ssl_none ssl_error h = follow begin (follow fail here)
leads_to-⟶* ssl_none ssl_closed h = search (here, follow, edges)
leads_to-⟶* ssl_wait ssl_none h = ground (arith, h)
leads_to-⟶* ssl_wait ssl_wait h = here
leads_to-⟶* ssl_wait ssl_connecting h = search (here, follow, edges)
leads_to-⟶* ssl_wait ssl_connected h = search (here, follow, edges)
leads_to-⟶* ssl_wait ssl_error h = search (here, follow, edges)
leads_to-⟶* ssl_wait ssl_closed h = search (here, follow, edges)
leads_to-⟶* ssl_connecting ssl_none h = ground (arith, h)
leads_to-⟶* ssl_connecting ssl_wait h = ground (arith, h)
leads_to-⟶* ssl_connecting ssl_connecting h = here
leads_to-⟶* ssl_connecting ssl_connected h = search (here, follow, edges)
leads_to-⟶* ssl_connecting ssl_error h = search (here, follow, edges)
leads_to-⟶* ssl_connecting ssl_closed h = search (here, follow, edges)
leads_to-⟶* ssl_connected ssl_none h = ground (arith, h)
leads_to-⟶* ssl_connected ssl_wait h = ground (arith, h)
leads_to-⟶* ssl_connected ssl_connecting h = ground (arith, h)
leads_to-⟶* ssl_connected ssl_connected h = here
leads_to-⟶* ssl_connected ssl_error h = search (here, follow, edges)
leads_to-⟶* ssl_connected ssl_closed h = search (here, follow, edges)
leads_to-⟶* ssl_error ssl_none h = ground (arith, h)
leads_to-⟶* ssl_error ssl_wait h = ground (arith, h)
leads_to-⟶* ssl_error ssl_connecting h = ground (arith, h)
leads_to-⟶* ssl_error ssl_connected h = ground (arith, h)
leads_to-⟶* ssl_error ssl_error h = here
leads_to-⟶* ssl_error ssl_closed h = ground (arith, h)
leads_to-⟶* ssl_closed ssl_none h = ground (arith, h)
leads_to-⟶* ssl_closed ssl_wait h = ground (arith, h)
leads_to-⟶* ssl_closed ssl_connecting h = ground (arith, h)
leads_to-⟶* ssl_closed ssl_connected h = ground (arith, h)
leads_to-⟶* ssl_closed ssl_error h = ground (arith, h)
leads_to-⟶* ssl_closed ssl_closed h = here

leads_to_trans :
    (s t u : SslState) → leads_to s t ≡ true → leads_to t u ≡ true → leads_to s u ≡ true
leads_to_trans s t u h k = ground (arith, h, k)

-- A result that the diagram allows from a state.
abbrev leads_to_result : SslState → Option Adapter → Bool
leads_to_result s none = true
leads_to_result s (some a) = leads_to s a.state

finish_round-leads :
    (r : HandshakeResult) (a : Adapter)
    → a.state ≡ ssl_connecting
    → leads_to ssl_connecting (finish_round r a).1.state ≡ true
unfolding finish_round
finish_round-leads r a h = ground (arith, h)

continue_ssl-leads :
    (openssl : OpenSsl) (a : Adapter)
    → a.state ≡ ssl_connecting
    → leads_to_result ssl_connecting (with_adapter (continue_ssl openssl a)) ≡ true
continue_ssl-leads openssl a h = elim (Bool-cases (a.event_loop && a.timer && a.ssl)) [
  | inl p ↦ rw (
    continue_ssl_lem openssl a p,
    finish_round-leads (result_of openssl a) (before_switch openssl a) h,
  )
  | inr p ↦ rw (continue_ssl-null openssl a p)
]

begin_ssl-leads :
    (openssl : OpenSsl) (a : Adapter)
    → a.state ≡ ssl_connecting
    → leads_to_result ssl_connecting (with_adapter (begin_ssl openssl a)) ≡ true
unfolding begin_ssl
begin_ssl-leads openssl a h =
    let rest = continue_ssl-leads openssl (record a { ssl = true; ctx = context_of openssl a }) h in
    ground (arith, h, rest)

start_ssl-leads :
    (openssl : OpenSsl) (stream_open : Bool) (a : Adapter)
    → leads_to_result a.state (with_adapter (start_ssl openssl stream_open a)) ≡ true
unfolding start_ssl error_info cleanup
start_ssl-leads openssl stream_open a =
    let begun = begin_ssl-leads openssl (connecting a) refl in ground (arith, begun)

abbrev leads_to_part : {A : Type 0} → SslState → Option (Bool × A × Adapter) → Bool
leads_to_part s none = true
leads_to_part s (some (returned, passed, a)) = leads_to s a.state

on_open-leads :
    (openssl : OpenSsl) (events : Events) (a : Adapter)
    → leads_to_part a.state (on_open openssl events a) ≡ true
unfolding on_open error_info cleanup
on_open-leads openssl events a =
    let begun = begin_ssl-leads openssl (connecting a) refl in ground (arith, begun)

on_data-leads :
    (openssl : OpenSsl) (events : Events) (a : Adapter)
    → leads_to_part a.state (on_data openssl events a) ≡ true
unfolding on_data error_info cleanup
on_data-leads openssl events a =
    let continued : a.state ≡ ssl_connecting
        → leads_to_result ssl_connecting (with_adapter (continue_ssl openssl a)) ≡ true =
      continue_ssl-leads openssl a in
    ground (arith, continued)

on_rest-leads :
    (events : Events) (err : ℤ) (opened : Bool) (passed : Bool × Bool) (a : Adapter)
    → leads_to a.state (on_rest events err opened passed a).state ≡ true
unfolding on_rest cleanup
on_rest-leads events err opened passed a = ground (arith)

on_event-leads :
    (openssl : OpenSsl) (events : Events) (err : ℤ) (a : Adapter)
    → leads_to_result a.state (on_event openssl events err a) ≡ true
unfolding on_event
on_event-leads openssl events err a = elim (Option-cases (on_open openssl events a)) [
  | inl p ↦ ground (arith, p)
  | inr ((true, opened, a1), p) ↦ ground (arith, p, on_open-leads openssl events a)
  | inr ((false, opened, a1), p) ↦
      let h1 : leads_to a.state a1.state ≡ true =
        ground (arith, p, on_open-leads openssl events a) in
      elim (Option-cases (on_data openssl events a1)) [
        | inl q ↦ ground (arith, p, q)
        | inr ((true, passed, a2), q) ↦
            let h2 : leads_to a1.state a2.state ≡ true =
              ground (arith, q, on_data-leads openssl events a1) in
            rw (p, q, on_event) (leads_to_trans a.state a1.state a2.state h1 h2)
        | inr ((false, passed, a2), q) ↦
            let h2 : leads_to a1.state a2.state ≡ true =
              ground (arith, q, on_data-leads openssl events a1) in
            let a3 = on_rest events err opened passed a2 in
            rw (p, q, on_event)
              (leads_to_trans a.state a1.state a3.state h1 (
                leads_to_trans a1.state a2.state a3.state h2
                  (on_rest-leads events err opened passed a2)))
      ]
]

-- The timer runs while the adapter connects only.
on_timeout-leads :
    (openssl : OpenSsl) (a : Adapter)
    → is_valid a ≡ true
    → a.timer_running ≡ true
    → leads_to_result a.state (on_timeout openssl a) ≡ true
unfolding on_timeout
on_timeout-leads openssl a h p =
    let s : a.state ≡ ssl_connecting = ground (arith, h, p) in
    let continued = continue_ssl-leads openssl (record a { timer_running = false }) s in
    ground (arith, s, continued)

-- There is a certificate in a live state only.
set_peer_certificate_digest-leads :
    (openssl : OpenSsl) (algorithm value : List ℕ) (a : Adapter)
    → is_valid a ≡ true
    → leads_to a.state (set_peer_certificate_digest openssl algorithm value a).1.state ≡ true
unfolding set_peer_certificate_digest verify_peer_certificate error_info cleanup
set_peer_certificate_digest-leads openssl algorithm value a h = ground (arith, h)

set_dtls_srtp_crypto_suites-leads :
    (ciphers : List ℕ) (a : Adapter)
    → leads_to a.state (set_dtls_srtp_crypto_suites ciphers a).1.state ≡ true
unfolding set_dtls_srtp_crypto_suites
set_dtls_srtp_crypto_suites-leads ciphers a = ground (arith)

run-leads :
    (openssl : OpenSsl) (input : Input) (a : Adapter)
    → is_valid a ≡ true
    → leads_to_result a.state (run openssl input a) ≡ true
unfolding run get_ssl_cipher_suite get_dtls_srtp_crypto_suite export_keying_material
run-leads openssl (start stream_open) a h = start_ssl-leads openssl stream_open a
run-leads openssl (stream_event events err) a h = on_event-leads openssl events err a
run-leads openssl timeout a h =
    let fired : a.timer_running ≡ true → leads_to_result a.state (on_timeout openssl a) ≡ true =
      on_timeout-leads openssl a h in
    ground (arith, h, fired)
run-leads openssl (set_digest algorithm value) a h =
    set_peer_certificate_digest-leads openssl algorithm value a h
run-leads openssl (use_identity identity) a h = ground (arith)
run-leads openssl (use_role role) a h = ground (arith)
run-leads openssl (use_mode mode) a h = ground (arith)
run-leads openssl (use_max_version version) a h = ground (arith)
run-leads openssl (use_ciphers ciphers) a h = set_dtls_srtp_crypto_suites-leads ciphers a
run-leads openssl (use_retransmission_timeout timeout_ms) a h = ground (arith)
run-leads openssl (use_client_auth enabled) a h = ground (arith)
run-leads openssl (use_ignore_bad_cert ignore) a h = ground (arith)
run-leads openssl (ask_cipher_suite current_cipher) a h = ground (arith)
run-leads openssl (ask_srtp_suite profile) a h = ground (arith)
run-leads openssl (export_keys is_one) a h = ground (arith)

-- An input to a valid adapter leads along the arrows of the state diagram: from none by waiting or
-- connecting to connected, from there to an error or closed, and never back; an error and a clean
-- close are final.
pub run-⟶* :
    (openssl : OpenSsl) (input : Input) (a b : Adapter)
    → is_valid a ≡ true
    → run openssl input a ≡ some b
    → a.state ⟶* b.state
run-⟶* openssl input a b h p =
    leads_to-⟶* a.state b.state (ground (arith, p, run-leads openssl input a h))
