-- ===== src/SslStream/Runs.antt =====
-- Sequences of inputs to an adapter, and the exports of keys that come before or after the connection.
use librtcbase.Prelude.{
  Bool, true, false, not, ◌||◌, Option, none, some, List, [], ◌∷◌, ◌≡◌, refl, arith, Option-cases,
  Bool-cases, inl, inr,
}
use librtcbase.SslStream.{Adapter, OpenSsl}
use librtcbase.SslStream.Reactions.{on_timeout}
use librtcbase.SslStream.Settings.{
  Input, start, stream_event, timeout, set_digest, use_identity, use_role, use_mode,
  use_max_version, use_ciphers, use_retransmission_timeout, use_client_auth, use_ignore_bad_cert,
  ask_cipher_suite, ask_srtp_suite, export_keys, get_ssl_cipher_suite, get_dtls_srtp_crypto_suite,
  export_keying_material, run, run_all,
}
use librtcbase.SslStream.Safety.{
  is_some, is_live, is_valid, is_valid_result, start_ssl-valid, on_event-valid, on_timeout-valid,
  set_peer_certificate_digest-valid, set_dtls_srtp_crypto_suites-valid,
}

-- The keys are asked for while the adapter neither connects nor is connected.
abbrev pub exports_outside : Input → Adapter → Bool
exports_outside (export_keys is_one) a = not (is_live a.state)
exports_outside input a = false

unfoldable pub exports_outside_all : List (OpenSsl × Input) → Adapter → Bool
unfolding run
exports_outside_all [] a = false
exports_outside_all ((openssl, input) ∷ rest) a =
    exports_outside input a
    || elim (run openssl input a) [ none ↦ false | some a' ↦ exports_outside_all rest a' ]

-- An input ends in a valid adapter unless it ends in a null pointer.
abbrev pub Outcome : Bool → Option Adapter → Type 0
Outcome outside result = (is_some result ≡ not outside) × (is_valid_result result ≡ not outside)

valid-Outcome : (result : Option Adapter) → is_valid_result result ≡ true → Outcome false result
valid-Outcome result h = ground (arith, h)

run-inside :
    (openssl : OpenSsl) (input : Input) (a : Adapter)
    → is_valid a ≡ true
    → exports_outside input a ≡ false
    → is_valid_result (run openssl input a) ≡ true
unfolding run get_ssl_cipher_suite get_dtls_srtp_crypto_suite export_keying_material
run-inside openssl (start stream_open) a h o = start_ssl-valid openssl stream_open a h
run-inside openssl (stream_event events err) a h o = on_event-valid openssl events err a h
run-inside openssl timeout a h o =
    let fired : a.timer_running ≡ true → is_valid_result (on_timeout openssl a) ≡ true =
      on_timeout-valid openssl a h in
    ground (arith, h, fired)
run-inside openssl (set_digest algorithm value) a h o =
    set_peer_certificate_digest-valid openssl algorithm value a h
run-inside openssl (use_identity identity) a h o = h
run-inside openssl (use_role role) a h o = h
run-inside openssl (use_mode mode) a h o = h
run-inside openssl (use_max_version version) a h o = h
run-inside openssl (use_ciphers ciphers) a h o = set_dtls_srtp_crypto_suites-valid ciphers a h
run-inside openssl (use_retransmission_timeout timeout_ms) a h o = h
run-inside openssl (use_client_auth enabled) a h o = h
run-inside openssl (use_ignore_bad_cert ignore) a h o = h
run-inside openssl (ask_cipher_suite current_cipher) a h o = ground (arith, h)
run-inside openssl (ask_srtp_suite profile) a h o = ground (arith, h)
run-inside openssl (export_keys is_one) a h o = ground (arith, h, o)

run-outside :
    (openssl : OpenSsl) (input : Input) (a : Adapter)
    → is_valid a ≡ true
    → exports_outside input a ≡ true
    → run openssl input a ≡ none
unfolding run export_keying_material
run-outside openssl (export_keys is_one) a h o = ground (arith, h, o)
run-outside openssl input a h o = ground (arith, o)

pub run-Outcome :
    (openssl : OpenSsl) (input : Input) (a : Adapter)
    → is_valid a ≡ true
    → Outcome (exports_outside input a) (run openssl input a)
run-Outcome openssl input a h = elim (Bool-cases (exports_outside input a)) [
  | inl o ↦ rw (o, run-outside openssl input a h o) (refl, refl)
  | inr o ↦ rw o (valid-Outcome (run openssl input a) (run-inside openssl input a h o))
]

-- From a valid adapter with an event loop, any sequence of inputs, whatever OpenSSL answers to
-- each, meets a null pointer exactly when keys are exported while the adapter neither connects nor
-- is connected; otherwise it ends in a valid adapter, where the SSL object and its context are
-- there exactly while it connects or is connected, and the timer until it is over.
pub run_all-Outcome :
    (inputs : List (OpenSsl × Input)) (a : Adapter)
    → is_valid a ≡ true
    → Outcome (exports_outside_all inputs a) (run_all inputs a)
unfolding run_all exports_outside_all
run_all-Outcome [] a h = (refl, h)
run_all-Outcome ((openssl, input) ∷ rest) a h = elim (Option-cases (run openssl input a)) [
  | inl p ↦
      let o : exports_outside input a ≡ true = ground (arith, p, run-Outcome openssl input a h) in
      rw (p, run_all, o) (refl, refl)
  | inr (a1, p) ↦
      let o : exports_outside input a ≡ false = ground (arith, p, run-Outcome openssl input a h) in
      let h1 : is_valid a1 ≡ true = ground (arith, p, o, run-Outcome openssl input a h) in
      rw (p, run_all, o) (run_all-Outcome rest a1 h1)
]
