-- ===== src/SslStream/Handshake.antt =====
-- The handshake of OpenSSLStreamAdapter: the verify callback, begin_SSL, continue_SSL and start_SSL.
use librtcbase.Prelude.{
  ℕ, Bool, true, false, not, ◌&&◌, ◌||◌, Option, none, some, List, [], ◌∷◌, ltb, ◌==◌,
  if◌then◌else◌, memcmp_eq,
}
use librtcbase.Prelude.Int.{ℤ, pos, negsuc}
use librtcbase.SslStream.{
  ssl_none, ssl_wait, ssl_connecting, ssl_connected, same_state, Events, unknown,
  incompatible_ciphersuite, event, handshake_error, Adapter, HandshakeResult, success, want_read,
  want_write, failed, OpenSsl, is_empty, signal, waiting_to_verify_peer_certificate,
  has_peer_certificate_digest, error_info, Context, set_up_context,
}

abbrev pub is_zero : ℤ → Bool
is_zero (pos n) = n == 0
is_zero (negsuc n) = false

abbrev pub ready : Events
ready = record { se_open = true; se_read = true; se_write = true; se_close = false }

-- The switch on the result of a round.
unfoldable pub finish_round : HandshakeResult → Adapter → ℤ × Adapter
finish_round success a =
    let a1 = record a { state = ssl_connected } in
    (
      pos 0,
      if not (waiting_to_verify_peer_certificate a1) then signal (event ready (pos 0)) a1 else a1,
    )
finish_round (want_read none) a = (pos 0, a)
finish_round (want_read (some delay)) a =
    (pos 0, if ltb 0 delay then record a { timer_running = true } else a)
finish_round want_write a = (pos 0, a)
finish_round (failed code no_shared_cipher) a = (
  if not (code == 0) then pos code else negsuc 0,
  signal (handshake_error (if no_shared_cipher then incompatible_ciphersuite else unknown)) a,
)

module _ (openssl : OpenSsl) where
  open openssl use {
    new_context, configure_identity, refuse_srtp, new_bio, new_ssl, new_ec_key, digest_size,
    compute_digest, presented, result,
  }

  unfoldable pub verify_peer_certificate : Adapter → Bool × Adapter
  verify_peer_certificate a =
      if not (has_peer_certificate_digest a) then (false, a) else elim a.peer_certificate [
        | none ↦ (false, a)
        | some certificate ↦ elim (compute_digest a.digest_algorithm certificate) [
          | none ↦ (false, a)
          | some digest ↦
              if not (memcmp_eq digest a.digest_value)
              then (false, a)
              else (true, record a { verified = true })
        ]
      ]

  -- SSL_verify_callback; true is 1.
  unfoldable pub verify_callback : ℕ → List ℕ → Adapter → Bool × Adapter
  unfolding verify_peer_certificate
  verify_callback depth certificate a =
      if ltb 0 depth
      then (true, a)
      else if is_empty a.digest_algorithm
      then (true, a)
      else if a.verified
      then (true, a)
      else verify_peer_certificate (record a { peer_certificate = some certificate })

  -- The calls of the callback in a round, and what they return.
  unfoldable pub run_callbacks : List (ℕ × List ℕ) → Adapter → List Bool × Adapter
  unfolding verify_callback
  run_callbacks [] a = ([], a)
  run_callbacks ((depth, certificate) ∷ rest) a =
      let (ok, a1) = verify_callback depth certificate a in
      let (oks, a2) = run_callbacks rest a1 in (ok ∷ oks, a2)

  unfoldable pub continue_ssl : Adapter → Option (ℤ × Adapter)
  unfolding run_callbacks finish_round
  continue_ssl a =
      if not (a.event_loop && a.timer && a.ssl)
      then none
      else let (oks, a1) = run_callbacks presented (record a { timer_running = false }) in
        some (finish_round (result oks) a1)

  abbrev pub context_of : Adapter → Option Context
  context_of a =
      set_up_context new_context (not a.identity || configure_identity) refuse_srtp a.role a.mode
        a.max_version a.client_auth a.srtp_ciphers

  unfoldable pub begin_ssl : Adapter → Option (ℤ × Adapter)
  unfolding continue_ssl
  begin_ssl a =
      if not (same_state a.state ssl_connecting)
      then some (negsuc 0, a)
      else let a1 = record a { ctx = context_of a } in
        let rest = continue_ssl (record a1 { ssl = true }) in
        elim a1.ctx [
          | none ↦ some (negsuc 0, a1)
          | some ctx ↦
              if not new_bio
              then some (negsuc 0, a1)
              else if not new_ssl
              then some (negsuc 0, a1)
              else if not new_ec_key
              then some (negsuc 0, record a1 { ssl = true })
              else rest
        ]

  -- `stream_open` is get_state() == SS_OPEN of the stream below.
  unfoldable pub start_ssl : Bool → Adapter → Option (ℤ × Adapter)
  unfolding begin_ssl error_info
  start_ssl stream_open a =
      if not (same_state a.state ssl_none)
      then some (negsuc 0, a)
      else if not stream_open
      then some (pos 0, record a { state = ssl_wait })
      else elim (begin_ssl (record a { state = ssl_connecting })) [
        | none ↦ none
        | some (err, a1) ↦
            some (if is_zero err then (pos 0, a1) else (err, error_info err false a1))
      ]
