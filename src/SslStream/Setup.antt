-- ===== src/SslStream/Setup.antt =====
-- setup_SSL_context of src/openssl_stream_adapter.cpp, and the enums of src/ssl_stream_adapter.h.
-- OpenSSL 1.0.2 to 1.1.0 is taken for the versions that the preprocessor asks for.
use librtcbase.Prelude.{Bool, true, false, not, Option, none, some, List, [], ◌∷◌, ℕ, if◌then◌else◌}

pub data Role : Type 0 where
  client server : Role

pub data Mode : Type 0 where
  tls dtls : Mode

pub data Version : Type 0 where
  tls_10 tls_11 tls_12 : Version

pub data Method : Type 0 where
  dtlsv1 tlsv1 dtls_any sslv23 : Role → Method

pub method_of : Version → Mode → Role → Method
method_of tls_12 dtls role = dtls_any role
method_of tls_12 tls role = sslv23 role
method_of _ dtls role = dtlsv1 role
method_of _ tls role = tlsv1 role

-- What the calls on a context have set: the method, and of the verify mode whether a peer without a
-- certificate fails (SSL_VERIFY_PEER is always set).
pub record Context : Type 0 where
  pub method : Method
  pub verify_fail_if_no_peer : Bool
  pub srtp_profiles : List ℕ

abbrev has_profiles : List ℕ → Bool
has_profiles [] = false
has_profiles (c ∷ cs) = true

-- `new_context` is SSL_CTX_new, `identity_ok` that there is no identity or that it could be
-- configured, `refuse_srtp` that SSL_CTX_set_tlsext_use_srtp does not return 0. `none` is nullptr.
unfoldable pub set_up_context :
    (Method → Bool)
    → Bool
    → (List ℕ → Bool)
    → Role
    → Mode
    → Version
    → Bool
    → List ℕ
    → Option Context
unfolding method_of
set_up_context new_context identity_ok refuse_srtp role mode version client_auth srtp_ciphers =
    let method = method_of version mode role in
    let ctx : Context = record {
      method = method;
      verify_fail_if_no_peer = client_auth;
      srtp_profiles = srtp_ciphers;
    } in
    if not (new_context method)
    then none
    else if not identity_ok
    then none
    else if has_profiles srtp_ciphers
    then if refuse_srtp srtp_ciphers then none else some ctx
    else some ctx
