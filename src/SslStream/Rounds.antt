-- ===== src/SslStream/Rounds.antt =====
-- What a round of the handshake and its callbacks change.
use librtcbase.Prelude.{none, ℕ, true, false, ◌&&◌, some, List, [], ◌∷◌, ◌≡◌, refl, ap, ◌∙◌, arith}
use librtcbase.SslStream.{Adapter, HandshakeResult, OpenSsl}
use librtcbase.SslStream.Handshake.{
  finish_round, verify_peer_certificate, verify_callback, run_callbacks, continue_ssl,
}

-- What the callbacks leave behind: they write the certificate and its verification only.
abbrev pub after_callbacks : Adapter → Adapter → Adapter
after_callbacks a b = record a { peer_certificate = b.peer_certificate; verified = b.verified }

pub verify_callback-frame :
    (openssl : OpenSsl)
    → (depth : ℕ) → (certificate : List ℕ) → (a : Adapter)
    → (let b = (verify_callback openssl depth certificate a).1 in b ≡ after_callbacks a b)
unfolding verify_callback verify_peer_certificate
verify_callback-frame openssl depth certificate a = ground (arith)

pub run_callbacks-frame :
    (openssl : OpenSsl)
    → (certificates : List (ℕ × List ℕ)) → (a : Adapter)
    → (let b = (run_callbacks openssl certificates a).1 in b ≡ after_callbacks a b)
unfolding run_callbacks
run_callbacks-frame openssl [] a = refl
run_callbacks-frame openssl ((depth, certificate) ∷ rest) a =
    let a1 = (verify_callback openssl depth certificate a).1 in
    let a2 = (run_callbacks openssl rest a1).1 in
    run_callbacks-frame openssl rest a1
    ∙ ap (λ x. after_callbacks x a2) (verify_callback-frame openssl depth certificate a)

-- What a round leaves behind, but for what the switch on its result does.
abbrev pub before_switch : OpenSsl → Adapter → Adapter
before_switch openssl a =
    after_callbacks (record a { timer_running = false })
      (run_callbacks openssl openssl.presented (record a { timer_running = false })).1

abbrev pub result_of : OpenSsl → Adapter → HandshakeResult
result_of openssl a =
    openssl.result (run_callbacks openssl openssl.presented (record a { timer_running = false })).0

-- A round on an adapter whose pointers are there.
pub continue_ssl_lem :
    (openssl : OpenSsl)
    → (a : Adapter) → a.event_loop && a.timer && a.ssl ≡ true
    → continue_ssl openssl a ≡ some (finish_round (result_of openssl a) (before_switch openssl a))
unfolding continue_ssl
continue_ssl_lem openssl a h = rw (
  h,
  ap (λ x. some (finish_round (result_of openssl a) x))
      (run_callbacks-frame openssl openssl.presented (record a { timer_running = false })),
)

pub continue_ssl-null :
    (openssl : OpenSsl)
    → (a : Adapter) → a.event_loop && a.timer && a.ssl ≡ false
    → continue_ssl openssl a ≡ none
unfolding continue_ssl
continue_ssl-null openssl a h = rw (h)
