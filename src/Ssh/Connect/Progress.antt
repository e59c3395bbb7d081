-- ===== src/Ssh/Connect/Progress.antt =====
-- The stages that the set-up of a connection reports, and how its errors agree with them.
use bx_ssh.Common.{
  ◌≡◌, ◌⊎◌, inl, inr, Option, some, List, [], ◌∷◌, Result, ok, err, Result-cases, arith,
}
use bx_ssh.Common.Text.{Text}
use bx_ssh.Ssh.Foreign.{Foreign}
use bx_ssh.Ssh.Stage.{
  SshConnectionStage, created, resolving_dns, connecting_tcp, handshaking, authenticating, new, run,
  accepted, transition,
}
use bx_ssh.Ssh.Error.{
  SshError, invalid_username, invalid_fingerprint, connection_cancelled, connection_stage,
  classify_tcp_error,
}
use bx_ssh.Ssh.Fingerprint.{HostFingerprint, parse_cases}
use bx_ssh.Ssh.Connect.{
  World, Effect, stage, Connected, connect, authenticate_password, authenticate_loaded_private_key,
  authenticate_private_key_contents,
}

-- The stages in a log.
abbrev pub stages : {F : Foreign} → List (Effect F) → List SshConnectionStage
stages [] = []
stages (stage s ∷ l) = s ∷ stages l
stages (_ ∷ l) = stages l

-- The last stage in a log, or the one before it.
abbrev pub last_stage : {F : Foreign} → SshConnectionStage → List (Effect F) → SshConnectionStage
last_stage s [] = s
last_stage s (stage t ∷ l) = last_stage t l
last_stage s (_ ∷ l) = last_stage s l

module _ {F : Foreign} (w : World F) (expected : Option HostFingerprint) where
  connect_error_stage :
      (e : SshError F)
      → (connect w expected).result ≡ err e
      → (e ≡ connection_cancelled)
        ⊎ (connection_stage e ≡ some (last_stage created (connect w expected).log))
  unfolding connect connection_stage classify_tcp_error
  connect_error_stage e h = ground arith

  connect_ok_log :
      (c : Connected)
      → (connect w expected).result ≡ ok c
      → (connect w expected).log
        ≡ stage resolving_dns ∷ stage connecting_tcp ∷ stage handshaking ∷ []
  unfolding connect
  connect_ok_log c h = ground arith

  connect_err_log :
      (e : SshError F)
      → (connect w expected).result ≡ err e
      → ((connect w expected).log ≡ stage resolving_dns ∷ [])
        ⊎ ((connect w expected).log ≡ stage resolving_dns ∷ stage connecting_tcp ∷ [])
        ⊎ ((connect w expected).log
            ≡ stage resolving_dns ∷ stage connecting_tcp ∷ stage handshaking ∷ [])
  unfolding connect
  connect_err_log e h = ground arith

  -- `connect` either succeeds, after it reported the lookup, the TCP connection and the handshake;
  -- or it fails after a beginning of these stages, with an error that belongs to the last one
  -- reported, unless it was cancelled.
  pub connect_ends :
      ((c : Connected) × ((connect w expected).result ≡ ok c)
        × ((connect w expected).log
            ≡ stage resolving_dns ∷ stage connecting_tcp ∷ stage handshaking ∷ []))
      ⊎ ((e : SshError F) × ((connect w expected).result ≡ err e)
          × (((connect w expected).log ≡ stage resolving_dns ∷ [])
              ⊎ ((connect w expected).log ≡ stage resolving_dns ∷ stage connecting_tcp ∷ [])
              ⊎ ((connect w expected).log
                  ≡ stage resolving_dns ∷ stage connecting_tcp ∷ stage handshaking ∷ []))
          × ((e ≡ connection_cancelled)
              ⊎ (connection_stage e ≡ some (last_stage created (connect w expected).log))))
  connect_ends = elim (Result-cases (connect w expected).result) [
    | inl (c, r) ↦ inl (c, r, connect_ok_log c r)
    | inr (e, r) ↦ inr (e, r, connect_err_log e r, connect_error_stage e r)
  ]

-- The errors that say nothing of the stage: a cancellation, and arguments that are refused before
-- the first stage.
abbrev pub IsStageless : {F : Foreign} → SshError F → Type 0
IsStageless connection_cancelled = Unit
IsStageless invalid_username = Unit
IsStageless invalid_fingerprint = Unit
IsStageless _ = ⊥

module _ {F : Foreign} (w : World F) (username expected password : Text) where
  abbrev pinned : Option HostFingerprint
  pinned = some (record { value = expected })

  -- When a password login fails, the error belongs to the last stage that was reported, unless it
  -- was cancelled or refused for its arguments.
  pub password_error_stage :
      (e : SshError F)
      → (authenticate_password w username expected password).result ≡ err e
      → IsStageless e
        ⊎ (connection_stage e
            ≡ some (last_stage created (authenticate_password w username expected password).log))
  unfolding authenticate_password connection_stage
  password_error_stage e h = elim (connect_ends w pinned) [
    | inl (c, r, l) ↦ ground (arith, parse_cases {F = F} expected)
    | inr (e', r, l, s) ↦ ground (arith, parse_cases {F = F} expected)
  ]

  -- The state machine accepts every stage that a password login reports, in the order in which they
  -- are reported, and stands at `authenticating` when the login succeeds.
  pub password_stages-accepted :
      (accepted new (stages (authenticate_password w username expected password).log)
        ≡ stages (authenticate_password w username expected password).log)
      × ((c : Connected)
          → (authenticate_password w username expected password).result ≡ ok c
          → (run new (stages (authenticate_password w username expected password).log)).current
            ≡ authenticating)
  unfolding authenticate_password accepted run transition
  password_stages-accepted = elim (connect_ends w pinned) [
    | inl (c, r, l) ↦ ground (arith, parse_cases {F = F} expected)
    | inr (e', r, l, s) ↦ ground (arith, parse_cases {F = F} expected)
  ]

module _ {F : Foreign} (w : World F) (username expected : Text) where
  abbrev pinned_key : Option HostFingerprint
  pinned_key = some (record { value = expected })

  -- The state machine accepts every stage that a login by a private key reports, whether the key
  -- could be decoded or not, and stands at `authenticating` when the login succeeds.
  pub key_stages-accepted :
      (decoded : Result F.KeysError F.PrivateKey)
      → (accepted new (stages (authenticate_private_key_contents w username expected decoded).log)
          ≡ stages (authenticate_private_key_contents w username expected decoded).log)
        × ((c : Connected)
            → (authenticate_private_key_contents w username expected decoded).result ≡ ok c
            → (run new (
                stages (authenticate_private_key_contents w username expected decoded).log)).current
              ≡ authenticating)
  unfolding authenticate_private_key_contents authenticate_loaded_private_key accepted run
      transition
  key_stages-accepted decoded = elim (connect_ends w pinned_key) [
    | inl (c, r, l) ↦ ground (arith, parse_cases {F = F} expected)
    | inr (e', r, l, s) ↦ ground (arith, parse_cases {F = F} expected)
  ]
