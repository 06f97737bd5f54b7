-- ===== src/SslStream/Settings.antt =====
-- The setters and the getters of OpenSSLStreamAdapter, and an adapter that is told what to do next.
use librtcbase.Prelude.{
  ℕ, ◌%◌, ◌^◌, Bool, true, false, not, Option, none, some, List, [], ◌∷◌, ◌++◌, ◌==◌, if◌then◌else◌,
}
use librtcbase.Prelude.Int.{ℤ}
use librtcbase.SslStream.{
  ssl_none, ssl_connected, same_state, Events, Adapter, OpenSsl, is_empty, Role, Mode, Version,
}
use librtcbase.SslStream.Handshake.{start_ssl}
use librtcbase.SslStream.Reactions.{on_event, on_timeout, set_peer_certificate_digest}

abbrev pub set_identity : Bool → Adapter → Adapter
set_identity identity a = record a { identity = identity }

abbrev pub set_server_role : Role → Adapter → Adapter
set_server_role role a = record a { role = role }

abbrev pub set_mode : Mode → Adapter → Adapter
set_mode mode a = record a { mode = mode }

abbrev pub set_initial_retransmission_timeout : ℤ → Adapter → Adapter
set_initial_retransmission_timeout timeout_ms a = record a { handshake_timeout_ms = timeout_ms }

abbrev pub set_client_auth_enabled : Bool → Adapter → Adapter
set_client_auth_enabled enabled a = record a { client_auth = enabled }

abbrev pub set_ignore_bad_cert : Bool → Adapter → Adapter
set_ignore_bad_cert ignore a = record a { ignore_bad_cert = ignore }

abbrev pub set_max_protocol_version : Version → Adapter → Adapter
set_max_protocol_version version a = record a { max_version = version }

-- The names of srtp_cipher_map as their bytes, with the ids of the ciphers.
abbrev srtp_cipher_map : List (ℕ × List ℕ)
srtp_cipher_map =
    (
      1,
      83 ∷ 82 ∷ 84 ∷ 80 ∷ 95 ∷ 65 ∷ 69 ∷ 83 ∷ 49 ∷ 50 ∷ 56 ∷ 95 ∷ 67 ∷ 77 ∷ 95 ∷ 83 ∷ 72 ∷ 65 ∷ 49
          ∷ 95 ∷ 56 ∷ 48 ∷ [],
    )
    ∷ (
      2,
      83 ∷ 82 ∷ 84 ∷ 80 ∷ 95 ∷ 65 ∷ 69 ∷ 83 ∷ 49 ∷ 50 ∷ 56 ∷ 95 ∷ 67 ∷ 77 ∷ 95 ∷ 83 ∷ 72 ∷ 65 ∷ 49
          ∷ 95 ∷ 51 ∷ 50 ∷ [],
    )
    ∷ (
      7,
      83 ∷ 82 ∷ 84 ∷ 80 ∷ 95 ∷ 65 ∷ 69 ∷ 65 ∷ 68 ∷ 95 ∷ 65 ∷ 69 ∷ 83 ∷ 95 ∷ 49 ∷ 50 ∷ 56 ∷ 95 ∷ 71
          ∷ 67 ∷ 77 ∷ [],
    )
    ∷ (
      8,
      83 ∷ 82 ∷ 84 ∷ 80 ∷ 95 ∷ 65 ∷ 69 ∷ 65 ∷ 68 ∷ 95 ∷ 65 ∷ 69 ∷ 83 ∷ 95 ∷ 50 ∷ 53 ∷ 54 ∷ 95 ∷ 71
          ∷ 67 ∷ 77 ∷ [],
    )
    ∷ []

abbrev name_of : ℕ → List (ℕ × List ℕ) → Option (List ℕ)
name_of cipher [] = none
name_of cipher ((id, name) ∷ entries) =
    let rest = name_of cipher entries in if cipher == id then some name else rest

-- The loop over the ciphers; 58 is the byte of ":". `none` is the return in the loop.
unfoldable pub join_ciphers : List ℕ → List ℕ → Option (List ℕ)
join_ciphers internal_ciphers [] = some internal_ciphers
join_ciphers internal_ciphers (cipher ∷ ciphers) = elim (name_of cipher srtp_cipher_map) [
  | none ↦ none
  | some name ↦
      let prefix = if is_empty internal_ciphers then [] else internal_ciphers ++ (58 ∷ []) in
      join_ciphers (prefix ++ name) ciphers
]

unfoldable pub set_dtls_srtp_crypto_suites : List ℕ → Adapter → Bool × Adapter
unfolding join_ciphers
set_dtls_srtp_crypto_suites ciphers a =
    if not (same_state a.state ssl_none) then (false, a) else elim (join_ciphers [] ciphers) [
      | none ↦ (false, a)
      | some internal_ciphers ↦
          if is_empty internal_ciphers
          then (false, a)
          else (true, record a { srtp_ciphers = internal_ciphers })
    ]

-- A call on the SSL object: none if the pointer is null.
abbrev with_ssl : {A : Type 0} → A → Adapter → Option A
with_ssl answer a = if a.ssl then some answer else none

-- `current_cipher` is what SSL_get_current_cipher gives; the 16 low bits of its id are kept.
unfoldable pub get_ssl_cipher_suite : Option ℕ → Adapter → Option (Option ℕ)
get_ssl_cipher_suite current_cipher a =
    if not (same_state a.state ssl_connected)
    then some none
    else elim current_cipher [ none ↦ with_ssl none a | some id ↦ with_ssl (some (id % 2 ^ 16)) a ]

-- `profile` is what SSL_get_selected_srtp_profile gives.
unfoldable pub get_dtls_srtp_crypto_suite : Option ℕ → Adapter → Option (Option ℕ)
get_dtls_srtp_crypto_suite profile a =
    if not (same_state a.state ssl_connected) then some none else with_ssl profile a

-- `is_one` says that SSL_export_keying_material returns 1. The state is not tested.
unfoldable pub export_keying_material : Bool → Adapter → Option Bool
export_keying_material is_one a = with_ssl is_one a

-- What the owner, the stream below or the event loop can do to the adapter while it lives: every
-- method of the class and its bases other than the reads and writes, which go to the stream below.
-- The timer calls back when it runs only.
pub data Input : Type 0 where
  start : Bool → Input
  stream_event : Events → ℤ → Input
  timeout : Input
  set_digest : List ℕ → List ℕ → Input
  use_identity : Bool → Input
  use_role : Role → Input
  use_mode : Mode → Input
  use_max_version : Version → Input
  use_ciphers : List ℕ → Input
  use_retransmission_timeout : ℤ → Input
  use_client_auth : Bool → Input
  use_ignore_bad_cert : Bool → Input
  ask_cipher_suite : Option ℕ → Input
  ask_srtp_suite : Option ℕ → Input
  export_keys : Bool → Input

abbrev pub with_adapter : Option (ℤ × Adapter) → Option Adapter
with_adapter none = none
with_adapter (some (r, a)) = some a

-- The adapter after a call that only looks at it.
abbrev after_call : {A : Type 0} → Option A → Adapter → Option Adapter
after_call none a = none
after_call (some answer) a = some a

unfoldable pub run : OpenSsl → Input → Adapter → Option Adapter
unfolding start_ssl on_event on_timeout set_peer_certificate_digest set_dtls_srtp_crypto_suites
    get_ssl_cipher_suite get_dtls_srtp_crypto_suite export_keying_material
run openssl (start stream_open) a = with_adapter (start_ssl openssl stream_open a)
run openssl (stream_event events err) a = on_event openssl events err a
run openssl timeout a = if a.timer_running then on_timeout openssl a else some a
run openssl (set_digest algorithm value) a =
    some (set_peer_certificate_digest openssl algorithm value a).1
run openssl (use_identity identity) a = some (set_identity identity a)
run openssl (use_role role) a = some (set_server_role role a)
run openssl (use_mode mode) a = some (set_mode mode a)
run openssl (use_max_version version) a = some (set_max_protocol_version version a)
run openssl (use_ciphers ciphers) a = some (set_dtls_srtp_crypto_suites ciphers a).1
run openssl (use_retransmission_timeout timeout_ms) a =
    some (set_initial_retransmission_timeout timeout_ms a)
run openssl (use_client_auth enabled) a = some (set_client_auth_enabled enabled a)
run openssl (use_ignore_bad_cert ignore) a = some (set_ignore_bad_cert ignore a)
run openssl (ask_cipher_suite current_cipher) a =
    after_call (get_ssl_cipher_suite current_cipher a) a
run openssl (ask_srtp_suite profile) a = after_call (get_dtls_srtp_crypto_suite profile a) a
run openssl (export_keys is_one) a = after_call (export_keying_material is_one a) a

-- Inputs one after the other, each with what OpenSSL answers then.
unfoldable pub run_all : List (OpenSsl × Input) → Adapter → Option Adapter
unfolding run
run_all [] a = some a
run_all ((openssl, input) ∷ rest) a = elim (run openssl input a) [
  | none ↦ none
  | some a' ↦ run_all rest a'
]
