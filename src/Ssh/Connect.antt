-- ===== src/Ssh/Connect.antt =====
-- crates/ssh-core/src/session.rs: the set-up of a connection. What the network and russh do is a
-- script, `World`: the outcome of each operation that the code awaits. The stages that the code
-- reports through `on_stage`, and whether it disconnects, are recorded in the order of the code.
pub mod Safety
pub mod Progress
use bx_ssh.Common.{
  ℕ, Bool, true, false, not, Option, none, some, List, [], ◌∷◌, ◌++◌, Result, ok, err, is_empty,
  if◌then◌else◌,
}
use bx_ssh.Common.Text.{Text, codes, text_eq}
use bx_ssh.Contracts.Connection.{is_blank}
use bx_ssh.Ssh.Foreign.{IoErrorKind, addr_not_available, Foreign}
use bx_ssh.Ssh.Stage.{
  SshConnectionStage, resolving_dns, connecting_tcp, handshaking, authenticating,
}
use bx_ssh.Ssh.Error.{
  SshError, invalid_username, dns_lookup_timeout, dns_lookup_failed, tcp_connect_timeout,
  handshake_timeout, handshake_failed, negotiated_algorithms_unavailable, connection_cancelled,
  authentication_timeout, authentication_failed, host_key_unavailable, host_key_mismatch,
  authentication_rejected, legacy_rsa_signature_only, private_key_failed, from_russh,
  classify_tcp_error,
}
use bx_ssh.Ssh.Fingerprint.{HostFingerprint, parse}

-- crates/contracts/src/lib.rs: `HostKeyInfo`.
pub record HostKeyInfo : Type 0 where
  pub algorithm : Text
  pub fingerprint_sha256 : Text

-- crates/ssh-core/src/algorithms.rs: `SshNegotiatedAlgorithms`.
pub record SshNegotiatedAlgorithms : Type 0 where
  pub kex : Text
  pub host_key : Text
  pub cipher : Text
  pub client_to_server_mac : Text
  pub server_to_client_mac : Text

-- How a `select!` on the cancellation and an operation under a deadline ends.
pub data Await {ℓ} (A : Type ℓ) : Type ℓ where
  cancelled : Await A
  timed_out : Await A
  done : A → Await A

-- `HostKeyVerifier::check_server_key`: whether a key that the server shows is accepted.
unfoldable pub check_server_key : Option HostFingerprint → HostKeyInfo → Bool
check_server_key none host_key = true
check_server_key (some expected) host_key = text_eq expected.value host_key.fingerprint_sha256

-- What `connect_stream` leaves behind: the key that the handler saw, the algorithms of its
-- `kex_done`, and the result.
pub record Handshake (F : Foreign) : Type 0 where
  pub observed : Option HostKeyInfo
  pub negotiated : Option SshNegotiatedAlgorithms
  pub result : Result F.RusshError (Unit {0})

-- The outcomes of the operations that one connection awaits.
pub record World (F : Foreign) : Type 0 where
  pub lookup : Await (Result IoErrorKind (List F.Address))
  pub dial : List F.Address → Await (Result IoErrorKind (Unit {0}))
  -- The handshake, with a handler that expects this fingerprint.
  pub connect_stream : Option HostFingerprint → Await (Handshake F)
  -- `authenticate_password`; `true` is a result with `success()`.
  pub login_password : Text → Text → Await (Result F.RusshError Bool)
  -- How the select on the key's login ends, and the two operations in it.
  pub key_deadline : Await (Unit {0})
  -- Whether the login itself had been started when a cancellation or the deadline ended the select.
  pub key_started : Bool
  pub best_supported_rsa_hash : Result F.RusshError (Option (Option F.HashAlg))
  pub login_key : Text → F.PrivateKey → Option F.HashAlg → Result F.RusshError Bool

-- What the code does on the way: it reports a stage, starts a login that sends a password or a
-- signature with a hash, or disconnects. A login by password counts as started also where a
-- cancellation that came before it keeps it from being sent.
pub data Effect (F : Foreign) : Type 0 where
  stage : SshConnectionStage → Effect F
  offer_password : Effect F
  offer_signature : F.PrivateKey → Option F.HashAlg → Effect F
  disconnect : Effect F

-- A run of a part of the set-up: its effects in order, and its result.
pub record Run (F : Foreign) (A : Type 0) : Type 0 where
  pub log : List (Effect F)
  pub result : Result (SshError F) A

abbrev pub stop : {F : Foreign} {A : Type 0} → Result (SshError F) A → Run F A
stop r = record { log = []; result = r }

-- An effect, and then the rest.
abbrev pub emit : {F : Foreign} {A : Type 0} → Effect F → Run F A → Run F A
emit e r = record { log = e ∷ r.log; result = r.result }

-- `r?`, and then the rest.
abbrev pub resume :
    {F : Foreign} {A B : Type 0} → List (Effect F) → Result (SshError F) A → (A → Run F B) → Run F B
resume log (ok a) f = record { log = log ++ (f a).log; result = (f a).result }
resume log (err e) f = record { log = log; result = err e }

infixl 5 ◌>>=◌
abbrev pub ◌>>=◌ : {F : Foreign} {A B : Type 0} → Run F A → (A → Run F B) → Run F B
r >>= f = resume r.log r.result f

abbrev pub Connected : Type 0
Connected = HostKeyInfo × SshNegotiatedAlgorithms

module _ {F : Foreign} where
  -- `connect`, from the stored key and algorithms on.
  collect : Option HostKeyInfo → Option SshNegotiatedAlgorithms → Result (SshError F) Connected
  collect none negotiated = err host_key_unavailable
  collect (some host_key) none = err negotiated_algorithms_unavailable
  collect (some host_key) (some negotiated) = ok (host_key, negotiated)

  -- The branch of `connect` for `russh::Error::UnknownKey`.
  unknown_key : Option HostFingerprint → F.RusshError → Option HostKeyInfo → SshError F
  unknown_key expected error none = host_key_unavailable
  unknown_key (some expected) error (some actual) =
      host_key_mismatch expected.value actual.fingerprint_sha256
  unknown_key none error (some actual) = handshake_failed error

  after_handshake : Option HostFingerprint → Handshake F → Result (SshError F) Connected
  unfolding collect unknown_key
  after_handshake expected h = elim h.result [
    | ok _ ↦ collect h.observed h.negotiated
    | err error ↦
        if F.is_unknown_key error
        then err (unknown_key expected error h.observed)
        else err (handshake_failed error)
  ]

  pub handshake_phase : Option HostFingerprint → Await (Handshake F) → Run F Connected
  unfolding after_handshake
  handshake_phase expected cancelled = stop (err connection_cancelled)
  handshake_phase expected timed_out = stop (err handshake_timeout)
  handshake_phase expected (done h) = stop (after_handshake expected h)

  dial_phase :
      World F → Option HostFingerprint → Await (Result IoErrorKind (Unit {0})) → Run F Connected
  unfolding handshake_phase
  dial_phase w expected cancelled = stop (err connection_cancelled)
  dial_phase w expected timed_out = stop (err tcp_connect_timeout)
  dial_phase w expected (done (err kind)) = stop (err (classify_tcp_error kind))
  dial_phase w expected (done (ok _)) =
      emit (stage handshaking) (handshake_phase expected (w.connect_stream expected))

  lookup_phase :
      World F
      → Option HostFingerprint
      → Await (Result IoErrorKind (List F.Address))
      → Run F Connected
  unfolding dial_phase
  lookup_phase w expected cancelled = stop (err connection_cancelled)
  lookup_phase w expected timed_out = stop (err dns_lookup_timeout)
  lookup_phase w expected (done (err kind)) = stop (err (dns_lookup_failed kind))
  lookup_phase w expected (done (ok [])) = stop (err (dns_lookup_failed addr_not_available))
  lookup_phase w expected (done (ok (a ∷ as'))) =
      emit (stage connecting_tcp) (dial_phase w expected (w.dial (a ∷ as')))

  -- `connect`.
  unfoldable pub connect : World F → Option HostFingerprint → Run F Connected
  unfolding lookup_phase
  connect w expected = emit (stage resolving_dns) (lookup_phase w expected w.lookup)

  -- `validate_username`.
  unfoldable pub validate_username : Text → Result (SshError F) (Unit {0})
  validate_username username = if is_blank username then err invalid_username else ok tt

  -- The closing `match` of both logins: every failure disconnects.
  settle_password : Connected → Await (Result F.RusshError Bool) → Run F Connected
  settle_password c cancelled = emit disconnect (stop (err connection_cancelled))
  settle_password c timed_out = emit disconnect (stop (err authentication_timeout))
  settle_password c (done (err error)) = emit disconnect (stop (err (authentication_failed error)))
  settle_password c (done (ok false)) =
      emit disconnect (stop (err (authentication_rejected (codes "password"))))
  settle_password c (done (ok true)) = stop (ok c)

  -- `authenticate_password_with_progress`.
  unfoldable pub authenticate_password : World F → Text → Text → Text → Run F Connected
  unfolding settle_password validate_username
  authenticate_password w username expected_fingerprint password = do
    _ ← stop (validate_username username)
    fingerprint ← stop (parse expected_fingerprint)
    c ← connect w (some fingerprint)
    emit (stage authenticating)
        (emit offer_password (settle_password c (w.login_password username password)))

  -- The hash that an RSA signature is made with: what the server supports, SHA-256 where it does not
  -- say, and an error where it only supports the legacy SHA-1.
  unfoldable pub rsa_hash :
      F.PrivateKey
      → Result F.RusshError (Option (Option F.HashAlg))
      → Result (SshError F) (Option F.HashAlg)
  rsa_hash key supported =
      if F.is_rsa key
      then elim supported [
        | ok (some (some hash)) ↦ ok (some hash)
        | ok (some none) ↦ err legacy_rsa_signature_only
        | ok none ↦ ok (some F.sha256)
        | err error ↦ err (from_russh error)
      ]
      else ok none

  rejected_or : Connected → Result F.RusshError Bool → Run F Connected
  rejected_or c (err error) = emit disconnect (stop (err (from_russh error)))
  rejected_or c (ok false) =
      emit disconnect (stop (err (authentication_rejected (codes "private key"))))
  rejected_or c (ok true) = stop (ok c)

  -- The login in the select, where it runs to its end.
  sign_and_settle :
      World F
      → Text
      → F.PrivateKey
      → Connected
      → Result (SshError F) (Option F.HashAlg)
      → Run F Connected
  unfolding rejected_or
  sign_and_settle w username key c (err e) = emit disconnect (stop (err e))
  sign_and_settle w username key c (ok hash) =
      emit (offer_signature key hash) (rejected_or c (w.login_key username key hash))

  -- The select ends before the login does: by then a signature may have been sent.
  interrupted : World F → F.PrivateKey → Run F Connected → Run F Connected
  unfolding rsa_hash
  interrupted w key r =
      if w.key_started
      then elim (rsa_hash key w.best_supported_rsa_hash) [
        | err e ↦ r
        | ok hash ↦ emit (offer_signature key hash) r
      ]
      else r

  settle_key : World F → Text → F.PrivateKey → Connected → Await (Unit {0}) → Run F Connected
  unfolding sign_and_settle rsa_hash interrupted
  settle_key w username key c cancelled =
      interrupted w key (emit disconnect (stop (err connection_cancelled)))
  settle_key w username key c timed_out =
      interrupted w key (emit disconnect (stop (err authentication_timeout)))
  settle_key w username key c (done _) =
      sign_and_settle w username key c (rsa_hash key w.best_supported_rsa_hash)

  -- `authenticate_loaded_private_key`.
  unfoldable pub authenticate_loaded_private_key :
      World F → Text → Text → F.PrivateKey → Run F Connected
  unfolding settle_key
  authenticate_loaded_private_key w username expected_fingerprint key = do
    fingerprint ← stop (parse expected_fingerprint)
    c ← connect w (some fingerprint)
    emit (stage authenticating) (settle_key w username key c w.key_deadline)

  -- `authenticate_private_key_contents_with_progress`; the argument is what `decode_secret_key`
  -- makes of the contents and the passphrase.
  unfoldable pub authenticate_private_key_contents :
      World F → Text → Text → Result F.KeysError F.PrivateKey → Run F Connected
  unfolding validate_username
  authenticate_private_key_contents w username expected_fingerprint decoded = do
    _ ← stop (validate_username username)
    key ← stop (elim decoded [ ok key ↦ ok key | err error ↦ err (private_key_failed error) ])
    authenticate_loaded_private_key w username expected_fingerprint key
