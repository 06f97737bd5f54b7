-- ===== src/SslStream/Reactions.antt =====
-- OpenSSLStreamAdapter between the rounds of the handshake: events of the stream below, the timer, and
-- the digest that the peer's certificate must have.
use librtcbase.Prelude.{
  ℕ, Bool, true, false, not, ◌&&◌, ◌||◌, Option, none, some, List, length, ◌==◌, if◌then◌else◌,
}
use librtcbase.Prelude.Int.{ℤ, pos, negsuc}
use librtcbase.SslStream.{
  ssl_none, ssl_wait, ssl_connecting, ssl_connected, same_state, Events, DigestError, no_error,
  unknown_algorithm, invalid_length, verification_failed, event, Adapter, OpenSsl, signal, cleanup,
  error_info,
}
use librtcbase.SslStream.Handshake.{verify_peer_certificate, continue_ssl, begin_ssl, is_zero}

abbrev pub is_any : Events → Bool
is_any e = e.se_open || e.se_read || e.se_write || e.se_close

-- The part for SE_CLOSE, and the call of the base.
unfoldable pub on_rest : Events → ℤ → Bool → Bool × Bool → Adapter → Adapter
unfolding cleanup
on_rest events err opened (read, write) a =
    let a1 = if events.se_close then cleanup a else a in
    let passed : Events = record {
      se_open = opened;
      se_read = read;
      se_write = write;
      se_close = events.se_close;
    } in
    if is_any passed then signal (event passed (if events.se_close then err else pos 0)) a1 else a1

module _ (openssl : OpenSsl) where
  open openssl use {digest_size}

  -- The part of `on_event` for SE_OPEN: whether it returns, and whether SE_OPEN is passed on.
  unfoldable pub on_open : Events → Adapter → Option (Bool × Bool × Adapter)
  unfolding begin_ssl error_info
  on_open events a =
      let begun = begin_ssl openssl (record a { state = ssl_connecting }) in
      if not events.se_open
      then some (false, false, a)
      else if not (same_state a.state ssl_wait)
      then some (false, true, a)
      else elim begun [
        | none ↦ none
        | some (err, a1) ↦
            some (if is_zero err then (false, false, a1) else (true, false, error_info err true a1))
      ]

  -- The part for SE_READ and SE_WRITE: whether it returns, and which of them are passed on.
  unfoldable pub on_data : Events → Adapter → Option (Bool × (Bool × Bool) × Adapter)
  unfolding continue_ssl error_info
  on_data events a =
      let continued = continue_ssl openssl a in
      if not (events.se_read || events.se_write)
      then some (false, (false, false), a)
      else elim a.state [
        | ssl_none ↦ some (false, (events.se_read, events.se_write), a)
        | ssl_connecting ↦ elim continued [
          | none ↦ none
          | some (err, a1) ↦ some (
              if is_zero err
              then (false, (false, false), a1)
              else (true, (false, false), error_info err true a1))
        ]
        | ssl_connected ↦ some (
          false,
          (
            (events.se_write && a.read_needs_write) || events.se_read,
            (events.se_read && a.write_needs_read) || events.se_write,
          ),
          a,
        )
        | _ ↦ some (false, (false, false), a)
      ]

  unfoldable pub on_event : Events → ℤ → Adapter → Option Adapter
  unfolding on_open on_data on_rest
  on_event events err a = elim (on_open events a) [
    | none ↦ none
    | some (true, opened, a1) ↦ some a1
    | some (false, opened, a1) ↦ elim (on_data events a1) [
      | none ↦ none
      | some (true, passed', a2) ↦ some a2
      | some (false, passed', a2) ↦ some (on_rest events err opened passed' a2)
    ]
  ]

  -- The callback of the handshake timer, which fires once.
  unfoldable pub on_timeout : Adapter → Option Adapter
  unfolding continue_ssl
  on_timeout a = elim (continue_ssl openssl (record a { timer_running = false })) [
    | none ↦ none
    | some (err, a1) ↦ some a1
  ]

  unfoldable pub set_peer_certificate_digest : List ℕ → List ℕ → Adapter → DigestError × Adapter
  unfolding verify_peer_certificate error_info
  set_peer_certificate_digest algorithm value a =
      let a1 = record a { digest_value = value; digest_algorithm = algorithm } in
      elim (digest_size algorithm) [
        | none ↦ (unknown_algorithm, a)
        | some expected ↦
            if not (expected == length value)
            then (invalid_length, a)
            else elim a.peer_certificate [
              | none ↦ (no_error, a1)
              | some certificate ↦
                  let (ok, a2) = verify_peer_certificate openssl a1 in
                  if not ok
                  then (verification_failed, error_info (negsuc 0) false a2)
                  else (no_error, a2)
            ]
      ]
