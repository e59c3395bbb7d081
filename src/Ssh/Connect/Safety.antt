-- ===== src/Ssh/Connect/Safety.antt =====
-- To whom credentials are offered, with which signatures, and that failed logins are disconnected.
use bx_ssh.Common.{
  ◌≡◌, sym, ◌⊎◌, inl, inr, refl, Bool, true, false, Option, none, some, List, [], ◌∷◌, Result, ok,
  err, arith,
}
use bx_ssh.Common.Text.{Text, text_eq_iff}
use bx_ssh.Ssh.Foreign.{Foreign}
use bx_ssh.Ssh.Error.{SshError}
use bx_ssh.Ssh.Fingerprint.{HostFingerprint, IsFingerprint, parse, parse_cases, parse_iff}
use bx_ssh.Ssh.Connect.{
  HostKeyInfo, SshNegotiatedAlgorithms, Handshake, Await, cancelled, timed_out, done, World, Effect,
  offer_password, offer_signature, disconnect, Connected, check_server_key, handshake_phase,
  connect, validate_username, authenticate_password, authenticate_loaded_private_key,
  authenticate_private_key_contents,
}
use bx_ssh.Ssh.Connect.Progress.{connect_ends}

-- What russh promises of a handshake: it succeeds only with a key that the handler accepted.
abbrev pub IsCheckedHandshake : {F : Foreign} → World F → Type 0
IsCheckedHandshake {F} w =
    (f : HostFingerprint) (h : Handshake F) (k : HostKeyInfo)
    → w.connect_stream (some f) ≡ done h
    → h.result ≡ ok tt
    → h.observed ≡ some k
    → check_server_key (some f) k ≡ true

-- Whether a login is started in a log.
abbrev pub offers : {F : Foreign} → List (Effect F) → Bool
offers [] = false
offers (offer_password ∷ l) = true
offers (offer_signature _ _ ∷ l) = true
offers (_ ∷ l) = offers l

-- Whether a log ends with a disconnection.
abbrev pub ends_disconnected : {F : Foreign} → List (Effect F) → Bool
ends_disconnected [] = false
ends_disconnected (disconnect ∷ []) = true
ends_disconnected (_ ∷ l) = ends_disconnected l

module _ {F : Foreign} (f : HostFingerprint) (k : HostKeyInfo) (n : SshNegotiatedAlgorithms) where
  handshake_phase-ok :
      (a : Await (Handshake F))
      → (handshake_phase (some f) a).result ≡ ok (k, n)
      → (h : Handshake F) × (a ≡ done h) × (h.result ≡ ok tt) × (h.observed ≡ some k)
  unfolding handshake_phase
  handshake_phase-ok cancelled r = absurd (ground arith)
  handshake_phase-ok timed_out r = absurd (ground arith)
  handshake_phase-ok (done h) r = (h, refl, ground arith, ground arith)

  connect-ok :
      (w : World F)
      → (connect w (some f)).result ≡ ok (k, n)
      → (handshake_phase (some f) (w.connect_stream (some f))).result ≡ ok (k, n)
  unfolding connect
  connect-ok w r = ground arith

  connect_checked :
      (w : World F)
      → IsCheckedHandshake w
      → (connect w (some f)).result ≡ ok (k, n)
      → k.fingerprint_sha256 ≡ f.value
  unfolding check_server_key
  connect_checked w promise r =
      let (h, s, o, seen) = handshake_phase-ok (w.connect_stream (some f)) (connect-ok w r) in
      sym ((text_eq_iff f.value k.fingerprint_sha256).0 (promise f h k s o seen))

-- The key of the server that a login is started with.
abbrev pub ShowsExpectedKey : {F : Foreign} → World F → Text → Type 0
ShowsExpectedKey w expected =
    (k : HostKeyInfo) × (n : SshNegotiatedAlgorithms) × ((connect w
        (some (record { value = expected }))).result
      ≡ ok (k, n))
    × (k.fingerprint_sha256 ≡ expected)
    × IsFingerprint expected

module _ {F : Foreign} (w : World F) (promise : IsCheckedHandshake w)
    (username expected : Text) where
  abbrev pinned : Option HostFingerprint
  pinned = some (record { value = expected })

  shows_expected_key :
      (c : Connected)
      → (connect w pinned).result ≡ ok c
      → parse {F = F} expected ≡ ok (record { value = expected })
      → ShowsExpectedKey w expected
  shows_expected_key (k, n) r p = (
    k,
    n,
    r,
    connect_checked (record { value = expected }) k n w promise r,
    ((parse_iff {F = F} expected (record { value = expected })).0 p).0,
  )

  -- If a handshake succeeds only with a key that the handler accepted, a password login is only
  -- started with a server whose key has the fingerprint that was expected, which is a well-formed
  -- one.
  pub password_offered_to_expected_host :
      (password : Text)
      → offers (authenticate_password w username expected password).log ≡ true
      → ShowsExpectedKey w expected
  unfolding authenticate_password
  password_offered_to_expected_host password h = elim (connect_ends w pinned) [
    | inl (c, r, l) ↦ shows_expected_key c r (ground (arith, parse_cases {F = F} expected))
    | inr (e', r, l, s) ↦ absurd (ground (arith, parse_cases {F = F} expected))
  ]

  -- If a handshake succeeds only with a key that the handler accepted, a signature by a private
  -- key is only offered to a server whose key has the fingerprint that was expected, which is a
  -- well-formed one.
  pub signature_offered_to_expected_host :
      (decoded : Result F.KeysError F.PrivateKey)
      → offers (authenticate_private_key_contents w username expected decoded).log ≡ true
      → ShowsExpectedKey w expected
  unfolding authenticate_private_key_contents authenticate_loaded_private_key
  signature_offered_to_expected_host decoded h = elim (connect_ends w pinned) [
    | inl (c, r, l) ↦ shows_expected_key c r (ground (arith, parse_cases {F = F} expected))
    | inr (e', r, l, s) ↦ absurd (ground (arith, parse_cases {F = F} expected))
  ]

-- A hash for the signatures of an RSA key: one that the server names, or SHA-256 where it does not say
-- which it supports. The legacy SHA-1 goes by no name.
abbrev pub IsGranted : {F : Foreign} → World F → Option F.HashAlg → Type 0
IsGranted {F} w hash =
    (h : F.HashAlg) × (hash ≡ some h)
    × ((w.best_supported_rsa_hash ≡ ok (some (some h)))
        ⊎ ((w.best_supported_rsa_hash ≡ ok none) × (h ≡ F.sha256)))

-- Every signature in a log is by a key that is no RSA key, or is made with a hash that is granted.
abbrev pub SignsSafely : {F : Foreign} → World F → List (Effect F) → Type 0
SignsSafely w [] = Unit
SignsSafely {F} w (offer_signature key hash ∷ l) =
    ((F.is_rsa key ≡ false) ⊎ IsGranted w hash) × SignsSafely w l
SignsSafely w (_ ∷ l) = SignsSafely w l

module _ {F : Foreign} (w : World F) (username expected : Text) where
  abbrev pinned_host : Option HostFingerprint
  pinned_host = some (record { value = expected })

  -- A login by a private key signs for an RSA key only with a hash that the server names, or with
  -- SHA-256 where the server does not say which it supports: never where it only supports the legacy
  -- SHA-1, or where the question fails, also if a cancellation or the deadline ends the login early.
  pub key-SignsSafely :
      (decoded : Result F.KeysError F.PrivateKey)
      → SignsSafely w (authenticate_private_key_contents w username expected decoded).log
  unfolding authenticate_private_key_contents authenticate_loaded_private_key
  key-SignsSafely decoded = elim (connect_ends w pinned_host) [
    | inl (c, r, l) ↦ ground (arith, parse_cases {F = F} expected)
    | inr (e', r, l, s) ↦ ground (arith, parse_cases {F = F} expected)
  ]

  -- Once a connection is up and the arguments are in order, a password login that fails disconnects as
  -- its last effect; one that succeeds does not, and returns what the connection found.
  pub password_failure_disconnects :
      (password : Text) (c : Connected)
      → validate_username {F = F} username ≡ ok tt
      → parse {F = F} expected ≡ ok (record { value = expected })
      → (connect w pinned_host).result ≡ ok c
      → let r = authenticate_password w username expected password in
        ((e : SshError F) × (r.result ≡ err e) × (ends_disconnected r.log ≡ true))
        ⊎ ((r.result ≡ ok c) × (ends_disconnected r.log ≡ false))
  unfolding authenticate_password
  password_failure_disconnects password c v p up = elim (connect_ends w pinned_host) [
    | inl (c', r, l) ↦ ground arith
    | inr (e', r, l, s) ↦ cc (up, r)
  ]

  -- Once a connection is up and the fingerprint is accepted, a login by a private key that fails
  -- disconnects as its last effect, whether it is a cancellation, a timeout, an unusable signature
  -- or a refusal; one that succeeds does not, and returns what the connection found.
  pub key_failure_disconnects :
      (key : F.PrivateKey) (c : Connected)
      → parse {F = F} expected ≡ ok (record { value = expected })
      → (connect w pinned_host).result ≡ ok c
      → let r = authenticate_loaded_private_key w username expected key in
        ((e : SshError F) × (r.result ≡ err e) × (ends_disconnected r.log ≡ true))
        ⊎ ((r.result ≡ ok c) × (ends_disconnected r.log ≡ false))
  unfolding authenticate_loaded_private_key
  key_failure_disconnects key c p up = elim (connect_ends w pinned_host) [
    | inl (c', r, l) ↦ ground arith
    | inr (e', r, l, s) ↦ cc (up, r)
  ]
