-- ===== src/Tests/Ssl.antt =====
-- The adapter for streams over TLS at a small peer.
use librtcbase.Prelude.{
  memcmp_eq, ℕ, Bool, true, false, ◌&&◌, Option, none, some, List, [], ◌∷◌, ◌++◌, ◌≡◌, refl, length,
  if◌then◌else◌,
}
use librtcbase.Prelude.Int.{pos}
use librtcbase.SslStream.{
  SslState, ssl_connected, ssl_error, Adapter, construct, success, want_read, failed, OpenSsl,
  waiting_to_verify_peer_certificate, cleanup, error_info, set_up_context,
}
use librtcbase.SslStream.Settings.{
  Input, start, stream_event, timeout, set_digest, use_client_auth, export_keys,
  export_keying_material, run, run_all,
}
use librtcbase.SslStream.Safety.{is_live, is_valid, is_valid-construct}
use librtcbase.SslStream.Runs.{Outcome, exports_outside_all, run_all-Outcome}
use librtcbase.SslStream.Verification.{matches, has_opened}
use librtcbase.SslStream.Diagram.{◌⟶*◌, run-⟶*}
use librtcbase.SslStream.Reach.{Reachable, fresh, proceed, reachable_lem}
use librtcbase.SslStream.Handshake.{
  finish_round, verify_peer_certificate, verify_callback, run_callbacks, continue_ssl, begin_ssl,
  start_ssl,
}
use librtcbase.SslStream.Reactions.{
  on_rest, on_open, on_data, on_event, on_timeout, set_peer_certificate_digest,
}

-- A digest is the first byte, and algorithm 1 has it.
abbrev first_byte : List ℕ → List ℕ → Option (List ℕ)
first_byte algorithm (x ∷ xs) = some (x ∷ [])
first_byte algorithm [] = none

abbrev all_true : List Bool → Bool
all_true [] = true
all_true (b ∷ bs) = let r = all_true bs in b && r

-- A peer with the certificate 7, 9, and another peer that rounds do not end with.
abbrev peer : OpenSsl
peer = record {
  new_context = λ m. true;
  configure_identity = true;
  refuse_srtp = λ p. false;
  new_bio = true;
  new_ssl = true;
  new_ec_key = true;
  digest_size = λ a. some 1;
  compute_digest = first_byte;
  presented = (0, 7 ∷ 9 ∷ []) ∷ [];
  result = λ oks. if all_true oks then success else failed 1 false;
}

abbrev slow_peer : OpenSsl
slow_peer = record peer { presented = []; result = λ oks. want_read (some 50000) }

abbrev with_digest : ℕ → Option Adapter
with_digest d = run peer (set_digest (1 ∷ []) (d ∷ [])) (construct true)

-- The digest is set, the handshake waits and then ends.
abbrev good_inputs : List (OpenSsl × Input)
good_inputs =
    (peer, set_digest (1 ∷ []) (7 ∷ []))
    ∷ (peer, start false)
    ∷ (
      slow_peer,
      stream_event (record { se_open = true; se_read = false; se_write = false; se_close = false })
          (pos 0),
    )
    ∷ (peer, timeout)
    ∷ []

abbrev state_of : Option Adapter → Option (SslState × Bool × ℕ)
state_of none = none
state_of (some a) = some (a.state, a.verified, length a.signals)

good_run : state_of (run_all good_inputs (construct true)) ≡ some (ssl_connected, true, 1)
unfolding run_all run construct start_ssl on_event on_open on_data on_rest on_timeout begin_ssl
    continue_ssl finish_round run_callbacks verify_callback verify_peer_certificate
    set_peer_certificate_digest error_info cleanup set_up_context memcmp_eq
good_run = refl

-- The digest does not match: the handshake fails, and the adapter with it.
bad_run :
    state_of
      (run_all ((peer, set_digest (1 ∷ []) (8 ∷ [])) ∷ (peer, start true) ∷ []) (construct true))
    ≡ some (ssl_error, false, 1)
unfolding run_all run construct start_ssl on_event on_open on_data on_rest on_timeout begin_ssl
    continue_ssl finish_round run_callbacks verify_callback verify_peer_certificate
    set_peer_certificate_digest error_info cleanup set_up_context memcmp_eq
bad_run = refl

-- A certificate that is presented before the digest is known is never compared with it.
late_digest :
    state_of
      (run_all ((peer, start true) ∷ (peer, set_digest (1 ∷ []) (8 ∷ [])) ∷ []) (construct true))
    ≡ some (ssl_connected, false, 0)
unfolding run_all run construct start_ssl on_event on_open on_data on_rest on_timeout begin_ssl
    continue_ssl finish_round run_callbacks verify_callback verify_peer_certificate
    set_peer_certificate_digest error_info cleanup set_up_context memcmp_eq
late_digest = refl

-- Without an event loop the handshake dereferences a null pointer.
no_event_loop : run_all ((peer, start true) ∷ []) (construct false) ≡ none
unfolding run_all run construct start_ssl on_event on_open on_data on_rest on_timeout begin_ssl
    continue_ssl finish_round run_callbacks verify_callback verify_peer_certificate
    set_peer_certificate_digest error_info cleanup set_up_context memcmp_eq
no_event_loop = refl

abbrev or_new : Option Adapter → Adapter
or_new none = construct true
or_new (some a) = a

abbrev digested : Adapter
digested = or_new (run peer (set_digest (1 ∷ []) (7 ∷ [])) (construct true))

abbrev connected : Adapter
connected = or_new (run peer (start true) digested)

digest_step : run peer (set_digest (1 ∷ []) (7 ∷ [])) (construct true) ≡ some digested
unfolding run_all run construct start_ssl on_event on_open on_data on_rest on_timeout begin_ssl
    continue_ssl finish_round run_callbacks verify_callback verify_peer_certificate
    set_peer_certificate_digest error_info cleanup set_up_context memcmp_eq
digest_step = refl

connect_step : run peer (start true) digested ≡ some connected
unfolding run_all run construct start_ssl on_event on_open on_data on_rest on_timeout begin_ssl
    continue_ssl finish_round run_callbacks verify_callback verify_peer_certificate
    set_peer_certificate_digest error_info cleanup set_up_context memcmp_eq
connect_step = refl

connected_signals :
    ◌≡◌ {A = SslState × Bool × Bool}
      (connected.state, connected.verified, has_opened connected.signals)
      (ssl_connected, true, true)
unfolding run_all run construct start_ssl on_event on_open on_data on_rest on_timeout begin_ssl
    continue_ssl finish_round run_callbacks verify_callback verify_peer_certificate
    set_peer_certificate_digest error_info cleanup set_up_context memcmp_eq
connected_signals = refl

digested-valid : is_valid digested ≡ true
unfolding run_all run construct start_ssl on_event on_open on_data on_rest on_timeout begin_ssl
    continue_ssl finish_round run_callbacks verify_callback verify_peer_certificate
    set_peer_certificate_digest error_info cleanup set_up_context memcmp_eq
digested-valid = refl

connected-Reachable : Reachable first_byte connected
connected-Reachable =
    proceed peer (start true) refl refl connect_step
      (proceed peer (set_digest (1 ∷ []) (7 ∷ [])) refl refl digest_step fresh)

-- The keys are exported when it is connected, and once more after it has been closed.
abbrev exporting_inputs : List (OpenSsl × Input)
exporting_inputs = good_inputs ++ ((peer, export_keys true) ∷ [])

abbrev closing_inputs : List (OpenSsl × Input)
closing_inputs =
    exporting_inputs
    ++ ((
      peer,
      stream_event (record { se_open = false; se_read = false; se_write = false; se_close = true })
          (pos 0),
    )
        ∷ (peer, export_keys true)
        ∷ [])

export_run :
    ◌≡◌ {A = Option (SslState × Bool × ℕ) × Option (SslState × Bool × ℕ)}
      (
        state_of (run_all exporting_inputs (construct true)),
        state_of (run_all closing_inputs (construct true)),
      )
      (some (ssl_connected, true, 1), none)
unfolding run_all run construct start_ssl on_event on_open on_data on_rest on_timeout begin_ssl
    continue_ssl finish_round run_callbacks verify_callback verify_peer_certificate
    set_peer_certificate_digest error_info cleanup set_up_context memcmp_eq export_keying_material
export_run = refl

-- With client authentication turned off the adapter opens without a digest.
unverified_run :
    state_of (run_all ((peer, use_client_auth false) ∷ (peer, start true) ∷ []) (construct true))
    ≡ some (ssl_connected, false, 1)
unfolding run_all run construct start_ssl on_event on_open on_data on_rest on_timeout begin_ssl
    continue_ssl finish_round run_callbacks verify_callback verify_peer_certificate
    set_peer_certificate_digest error_info cleanup set_up_context memcmp_eq
unverified_run = refl

run_all-Outcome_example :
    Outcome
      (exports_outside_all closing_inputs (construct true))
      (run_all closing_inputs (construct true))
run_all-Outcome_example = run_all-Outcome closing_inputs (construct true) is_valid-construct

run-⟶*_example : digested.state ⟶* connected.state
run-⟶*_example = run-⟶* peer (start true) digested connected digested-valid connect_step

reachable_lem_example :
    (has_opened connected.signals ≡ true → waiting_to_verify_peer_certificate connected ≡ false)
    × (is_live connected.state ≡ true
        → connected.verified ≡ true
        → matches first_byte connected ≡ true)
reachable_lem_example = reachable_lem first_byte connected connected-Reachable
