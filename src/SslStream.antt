-- ===== src/SslStream.antt =====
-- OpenSSLStreamAdapter of src/openssl_stream_adapter.cpp: the states of the adapter, the handshake, the
-- events and the check of the peer's certificate. What OpenSSL answers to a call is in the record
-- `OpenSsl`, and a certificate is its encoded bytes. A step that dereferences a null pointer is
-- `none`.
pub mod Setup
pub mod Handshake
pub mod Reactions
pub mod Settings
pub mod Rounds
pub mod Diagram
pub mod Safety
pub mod Runs
pub mod Verification
pub mod Reach
pub use Setup.{
  Role, client, server, Mode, tls, dtls, Version, tls_10, tls_11, tls_12, Method, Context,
}
unfoldable pub use Setup.{set_up_context}
use librtcbase.Prelude.{
  ℕ, ◌-◌, Bool, true, false, not, ◌&&◌, ◌||◌, Option, none, some, List, [], ◌∷◌, length, ltb, ◌==◌,
  if◌then◌else◌, memcmp_eq,
}
use librtcbase.Prelude.Int.{ℤ, pos, negsuc}

pub data SslState : Type 0 where
  ssl_none ssl_wait ssl_connecting ssl_connected ssl_error ssl_closed : SslState

abbrev pub same_state : SslState → SslState → Bool
same_state ssl_none ssl_none = true
same_state ssl_wait ssl_wait = true
same_state ssl_connecting ssl_connecting = true
same_state ssl_connected ssl_connected = true
same_state ssl_error ssl_error = true
same_state ssl_closed ssl_closed = true
same_state _ _ = false

-- The bits of a mask of StreamEvent.
pub record Events : Type 0 where
  pub se_open : Bool
  pub se_read : Bool
  pub se_write : Bool
  pub se_close : Bool

pub data HandshakeError : Type 0 where
  unknown incompatible_ciphersuite : HandshakeError

-- SSLPeerCertificateDigestError; the function returns true with `no_error` only.
pub data DigestError : Type 0 where
  no_error unknown_algorithm invalid_length verification_failed : DigestError

-- A call of a signal of the adapter.
pub data Signal : Type 0 where
  event : Events → ℤ → Signal
  handshake_error : HandshakeError → Signal

-- The members of the adapter, those of its base included. `ssl`, `ctx`, `identity`, `event_loop`
-- and `timer` say that a pointer is not null, `timer_running` is the state of the timer in the event
-- loop, and `signals` are the calls of signals so far, the last one first.
pub record Adapter : Type 0 where
  pub state : SslState
  pub role : Role
  pub error_code : ℤ
  pub read_needs_write : Bool
  pub write_needs_read : Bool
  pub ssl : Bool
  pub ctx : Option Context
  pub identity : Bool
  pub peer_certificate : Option (List ℕ)
  pub verified : Bool
  pub digest_value : List ℕ
  pub digest_algorithm : List ℕ
  pub srtp_ciphers : List ℕ
  pub mode : Mode
  pub max_version : Version
  pub event_loop : Bool
  pub timer : Bool
  pub timer_running : Bool
  pub client_auth : Bool
  pub ignore_bad_cert : Bool
  pub handshake_timeout_ms : ℤ
  pub signals : List Signal

-- `event_loop` is not a null pointer.
unfoldable pub construct : Bool → Adapter
construct event_loop = record {
  state = ssl_none;
  role = client;
  error_code = pos 0;
  read_needs_write = false;
  write_needs_read = false;
  ssl = false;
  ctx = none;
  identity = false;
  peer_certificate = none;
  verified = false;
  digest_value = [];
  digest_algorithm = [];
  srtp_ciphers = [];
  mode = tls;
  max_version = tls_12;
  event_loop = event_loop;
  timer = event_loop;
  timer_running = false;
  client_auth = true;
  ignore_bad_cert = false;
  handshake_timeout_ms = pos 50;
  signals = [];
}

-- What SSL_get_error says after SSL_connect or SSL_accept. `want_read` has the timeout of DTLS in
-- microseconds, if there is one; `failed` has the other code, and whether the last error of the
-- queue is that no cipher is shared.
pub data HandshakeResult : Type 0 where
  success : HandshakeResult
  want_read : Option ℕ → HandshakeResult
  want_write : HandshakeResult
  failed : ℕ → Bool → HandshakeResult

-- The answers of OpenSSL: the calls that make objects, the digests, and a round of the handshake, with
-- the certificates (depth and bytes) for which it calls the verify callback first, and its result from
-- what the callback returned.
pub record OpenSsl : Type 0 where
  pub new_context : Method → Bool
  pub configure_identity : Bool
  pub refuse_srtp : List ℕ → Bool
  pub new_bio : Bool
  pub new_ssl : Bool
  pub new_ec_key : Bool
  pub digest_size : List ℕ → Option ℕ
  pub compute_digest : List ℕ → List ℕ → Option (List ℕ)
  pub presented : List (ℕ × List ℕ)
  pub result : List Bool → HandshakeResult

abbrev pub is_empty : List ℕ → Bool
is_empty [] = true
is_empty (x ∷ xs) = false

abbrev pub signal : Signal → Adapter → Adapter
signal s a = record a { signals = s ∷ a.signals }

abbrev pub waiting_to_verify_peer_certificate : Adapter → Bool
waiting_to_verify_peer_certificate a = a.client_auth && not a.verified

abbrev pub has_peer_certificate_digest : Adapter → Bool
has_peer_certificate_digest a = not (is_empty a.digest_algorithm) && not (is_empty a.digest_value)

unfoldable pub cleanup : Adapter → Adapter
cleanup a =
    let error = same_state a.state ssl_error in
    let gone = a.event_loop && a.timer in
    record a {
      state = if error then ssl_error else ssl_closed;
      error_code = if error then a.error_code else pos 0;
      ssl = false;
      ctx = none;
      identity = false;
      peer_certificate = none;
      timer = if gone then false else a.timer;
      timer_running = if gone then false else a.timer_running;
    }

abbrev pub only_close : Events
only_close = record { se_open = false; se_read = false; se_write = false; se_close = true }

unfoldable pub error_info : ℤ → Bool → Adapter → Adapter
unfolding cleanup
error_info err signalled a =
    let a' = cleanup (record a { state = ssl_error; error_code = err }) in
    if signalled then signal (event only_close err) a' else a'
