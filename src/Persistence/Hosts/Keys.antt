-- ===== src/Persistence/Hosts/Keys.antt =====
-- The two checks of a host key's fingerprint agree: the repository's and ssh-core's.
use bx_ssh.Common.{◌≡◌, ◌↔◌, inl, inr, refl, true, ok, is_some_and, arith, Option-cases}
use bx_ssh.Common.Text.{Text, strip_prefix}
use bx_ssh.Ssh.Foreign.{Foreign}
use bx_ssh.Ssh.Fingerprint.{sha256_prefix, parse, parse_encoded}
use bx_ssh.Contracts.Connection.Validity.{IsWritten, IsWritten-iff}
use bx_ssh.Ssh.Connect.{HostKeyInfo}
use bx_ssh.Persistence.Hosts.{is_base64_digest, validate_host_key}

module _ {F : Foreign} where
  parse-digest :
      (value : Text)
      → (parse {F = F} value ≡ ok (record { value = value }))
        ↔ (is_some_and is_base64_digest (strip_prefix sha256_prefix value) ≡ true)
  unfolding parse is_base64_digest parse_encoded
  parse-digest value = elim (Option-cases (strip_prefix sha256_prefix value)) [
    | inl e ↦ rw (parse, e) (ground arith)
    | inr (digits, e) ↦ rw (parse, e) (ground arith)
  ]

  -- The repository takes a host key exactly when its algorithm is written, not blank, and ssh-core
  -- reads its fingerprint as it stands.
  pub validate_host_key_iff :
      (E : Type 0) (key : HostKeyInfo)
      → (validate_host_key {E = E} key ≡ ok tt) ↔ (
          IsWritten key.algorithm
          × (parse {F = F} key.fingerprint_sha256 ≡ ok (record { value = key.fingerprint_sha256 })))
  unfolding validate_host_key
  validate_host_key_iff E key =
      let (digest, back) = parse-digest key.fingerprint_sha256 in
      (
        λ h. ((IsWritten-iff key.algorithm).0 (ground arith), back (ground arith)),
        λ (w, p). let b = (IsWritten-iff key.algorithm).1 w in let d = digest p in rw (b, d) refl,
      )
