-- ===== src/Persistence/Hosts/Pinning.antt =====
-- One key for each endpoint: what `trust_host_fingerprint` keeps, and what it stores.
use bx_ssh.Common.{
  ℕ, ◌≡◌, refl, ap, ◌∙◌, inl, inr, Bool, true, false, ◌&&◌, List, map, any, All, ◌==◌, arith,
  Bool-cases,
}
use bx_ssh.Common.Text.{Text, text_eq_iff, text_eq_refl, to_ascii_lowercase, eq_ignore_ascii_case}
use bx_ssh.Ssh.Connect.{HostKeyInfo}
use bx_ssh.Persistence.Integers.{ℤ}
use bx_ssh.Persistence.Table.{upsert}
use bx_ssh.Persistence.Table.Laws.{All-upsert, All-weaken, any-upsert}
use bx_ssh.Persistence.Schema.{FingerprintRow}
use bx_ssh.Persistence.Hosts.{
  port_is, at_endpoint, row_key, differs, same_key, new_row, verified_again,
}

-- Every row at the endpoint carries the key.
abbrev pub Carries : Text → ℕ → HostKeyInfo → FingerprintRow → Type 0
Carries host port key row = at_endpoint host port row ≡ true → row_key row ≡ key

-- Each endpoint, in any spelling of its host, has one key at most.
abbrev pub Pinned : List FingerprintRow → Type 0
Pinned rows = (host : Text) (port : ℕ) → (key : HostKeyInfo) × All (Carries host port key) rows

pub differs-false-eq :
    (key : HostKeyInfo) (row : FingerprintRow) → differs key row ≡ false → row_key row ≡ key
unfolding differs
differs-false-eq key row h =
    let a : row.key_algorithm ≡ key.algorithm = (text_eq_iff _ _).0 (ground arith) in
    let f : row.fingerprint_sha256 ≡ key.fingerprint_sha256 = (text_eq_iff _ _).0 (ground arith) in
    λ i. record { algorithm = a i; fingerprint_sha256 = f i }

pub eq-differs-false :
    (key : HostKeyInfo) (row : FingerprintRow) → row_key row ≡ key → differs key row ≡ false
unfolding differs
eq-differs-false key row h =
    rw
      (
        (text_eq_iff row.key_algorithm key.algorithm).1 (ap (λ k. k.algorithm) h),
        (text_eq_iff row.fingerprint_sha256 key.fingerprint_sha256).1
            (ap (λ k. k.fingerprint_sha256) h),
      )
      refl

-- Two spellings of a host that one row matches match the same rows.
abbrev pub same_endpoint : Text → ℕ → Text → ℕ → Bool
same_endpoint host port host' port' = eq_ignore_ascii_case host host' && port == port'

pub at_same_endpoint :
    (host host' : Text) (port port' : ℕ) (row : FingerprintRow)
    → same_endpoint host port host' port' ≡ true
    → at_endpoint host' port' row ≡ true
    → at_endpoint host port row ≡ true
unfolding at_endpoint eq_ignore_ascii_case port_is
at_same_endpoint host host' port port' row s h = ground (
  arith,
  text_eq_iff (map to_ascii_lowercase host) (map to_ascii_lowercase host'),
  text_eq_iff (map to_ascii_lowercase row.host) (map to_ascii_lowercase host'),
  text_eq_iff (map to_ascii_lowercase row.host) (map to_ascii_lowercase host),
)

at_endpoint_new :
    (row_id host host' : Text) (port port' : ℕ) (key : HostKeyInfo) (now : ℤ)
    → at_endpoint host' port' (new_row row_id host port key now)
      ≡ same_endpoint host port host' port'
unfolding at_endpoint port_is
at_endpoint_new row_id host host' port port' key now = refl

module _ (row_id host : Text) (port : ℕ) (key : HostKeyInfo) (now : ℤ) where
  abbrev pub stored : List FingerprintRow → List FingerprintRow
  stored rows =
      upsert (same_key host port key) (verified_again now) (new_row row_id host port key now) rows

  -- Verifying a row again keeps its endpoint and its key.
  verified-Carries :
      (host' : Text) (port' : ℕ) (k : HostKeyInfo) (r : FingerprintRow)
      → Carries host' port' k r
      → Carries host' port' k (verified_again now r)
  unfolding verified_again at_endpoint
  verified-Carries host' port' k r h = h

  pub stored-Carries :
      (host' : Text) (port' : ℕ) (k : HostKeyInfo) (rows : List FingerprintRow)
      → (same_endpoint host port host' port' ≡ true → key ≡ k)
      → All (Carries host' port' k) rows
      → All (Carries host' port' k) (stored rows)
  stored-Carries host' port' k rows n h =
      All-upsert (Carries host' port' k) _ _ _ rows (λ r _ c. verified-Carries host' port' k r c)
        (λ e. n (rw (at_endpoint_new row_id host host' port port' key now) at e)) h

  pub stored-Pinned :
      (rows : List FingerprintRow)
      → All (Carries host port key) rows
      → Pinned rows
      → Pinned (stored rows)
  stored-Pinned rows all pinned host' port' =
      elim (Bool-cases (same_endpoint host port host' port')) [
        | inl e ↦ (
          key,
          stored-Carries host' port' key rows (λ _. refl)
              (All-weaken (Carries host port key) (Carries host' port' key) rows
                (λ r c at'. c (at_same_endpoint host host' port port' r e at')) all),
        )
        | inr e ↦
            let (k, c) = pinned host' port' in
            (k, stored-Carries host' port' k rows (λ t. cc (t, e)) c)
      ]

  pub stored_here : (rows : List FingerprintRow) → any (at_endpoint host port) (stored rows) ≡ true
  stored_here rows =
      any-upsert (at_endpoint host port) _ _ _ rows verified_here
        (at_endpoint_new row_id host host port port key now ∙ same_here)
    where
      verified_here :
          (r : FingerprintRow)
          → same_key host port key r ≡ true
          → at_endpoint host port (verified_again now r) ≡ true
      verified_here r h = unfold same_key verified_again at_endpoint in ground arith

      same_here : same_endpoint host port host port ≡ true
      same_here =
          unfold eq_ignore_ascii_case in ground (arith, text_eq_refl (map to_ascii_lowercase host))
