-- ===== src/Persistence/Hosts/Cases.antt =====
-- How the transaction of `trust_host_fingerprint` changes the stored keys, or that it does not.
use bx_ssh.Common.{ℕ, ◌≡◌, ◌⊎◌, ap, ◌∙◌, inl, inr, false, List, ok, err, any, All, arith}
use bx_ssh.Common.Text.{Text, codes, trim}
use bx_ssh.Ssh.Connect.{HostKeyInfo}
use bx_ssh.Persistence.Error.{PersistenceError}
use bx_ssh.Persistence.Integers.{ℤ}
use bx_ssh.Persistence.Table.{select_where}
use bx_ssh.Persistence.Table.Laws.{
  any-false-All, All-any-false, All-select_where, select_where-All, All-weaken,
}
use bx_ssh.Persistence.Schema.{FingerprintRow, Database}
use bx_ssh.Persistence.Driver.{Engine, step}
use bx_ssh.Persistence.Driver.Cases.{guarded_cases, transact_cases}
use bx_ssh.Persistence.Hosts.{
  at_endpoint, row_key, differs, trust_body, check_trust, trust_transaction, trust_host_fingerprint,
  validate_host_endpoint,
}
use bx_ssh.Persistence.Hosts.Pinning.{
  Carries, Pinned, differs-false-eq, eq-differs-false, stored, stored-Pinned,
}

module _ {E : Type 0} (engine : Engine E) where
  -- What the transaction has found and done when it commits.
  abbrev pub Trusted : Text → Text → ℕ → HostKeyInfo → ℤ → Database → Database → Type 0
  Trusted row_id host port key now db after =
      All (Carries host port key) db.host_fingerprints
      × (after
          ≡ record db { host_fingerprints = stored row_id host port key now db.host_fingerprints })

  pub carried :
      (host : Text) (port : ℕ) (key : HostKeyInfo) (rows : List FingerprintRow)
      → any (differs key) (select_where (at_endpoint host port) rows) ≡ false
      → All (Carries host port key) rows
  carried host port key rows h =
      select_where-All (λ r. row_key r ≡ key) (at_endpoint host port) rows
        (All-weaken _ _ _ (differs-false-eq key) (any-false-All (differs key) _ h))

  pub uncarried :
      (host : Text) (port : ℕ) (key : HostKeyInfo) (rows : List FingerprintRow)
      → All (Carries host port key) rows
      → any (differs key) (select_where (at_endpoint host port) rows) ≡ false
  uncarried host port key rows h =
      All-any-false (differs key) _
        (All-weaken _ _ _ (eq-differs-false key) (All-select_where _ _ rows h))

  pub trust_body-Trusted :
      (row_id host : Text) (port : ℕ) (key : HostKeyInfo) (now : ℤ) (db : Database)
      (after : Database × Unit {0})
      → trust_body engine row_id host port key now db ≡ ok after
      → Trusted row_id host port key now db after.0
  unfolding trust_body step
  trust_body-Trusted row_id host port key now db after h =
      (carried host port key db.host_fingerprints (ground arith), ground arith)

  transaction_cases :
      (row_id host : Text) (port : ℕ) (key : HostKeyInfo) (now : ℤ) (db : Database)
      → ((e : PersistenceError E) × (trust_transaction engine row_id host port key now db
            ≡ (db, err e)))
        ⊎ Trusted row_id host port key now db
            (trust_transaction engine row_id host port key now db).0
  unfolding trust_transaction
  transaction_cases row_id host port key now db =
      elim (transact_cases engine (codes "start a host fingerprint transaction")
        (trust_body engine row_id host port key now) (codes "commit a host fingerprint") db) [
          | inl f ↦ inl f
          | inr (after, b, f) ↦
              let t = trust_body-Trusted row_id host port key now db after b in
              inr (t.0, ap (λ o. o.0) f ∙ t.1)
        ]

  -- Nothing is changed, or every stored key of the endpoint was this one and it is stored.
  pub trust_cases :
      (row_id host : Text) (port : ℕ) (key : HostKeyInfo) (now_ms : ℕ) (db : Database)
      → ((e : PersistenceError E) × (trust_host_fingerprint engine row_id host port key now_ms db
            ≡ (db, err e)))
        ⊎ ((now : ℤ) × (validate_host_endpoint {E = E} host port ≡ ok tt)
            × Trusted row_id
                (trim host)
                port
                key
                now
                db
                (trust_host_fingerprint engine row_id host port key now_ms db).0)
  unfolding trust_host_fingerprint
  trust_cases row_id host port key now_ms db =
      elim (guarded_cases db (check_trust engine host port key now_ms)
        (λ now. trust_transaction engine row_id (trim host) port key now)) [
          | inl (x, e) ↦ inl (x, e)
          | inr (now, v, e) ↦ elim (transaction_cases row_id (trim host) port key now db) [
            | inl (x, f) ↦ inl (x, e ∙ f)
            | inr t ↦ inr (now, unfold check_trust in ground arith, (t.0, ap (λ o. o.0) e ∙ t.1))
          ]
        ]

  -- The store keeps one key at most for each endpoint, whatever is trusted in it.
  pub trust_host_fingerprint-Pinned :
      (row_id host : Text) (port : ℕ) (key : HostKeyInfo) (now_ms : ℕ) (db : Database)
      → Pinned db.host_fingerprints
      → Pinned (trust_host_fingerprint engine row_id host port key now_ms db).0.host_fingerprints
  trust_host_fingerprint-Pinned row_id host port key now_ms db h =
      elim (trust_cases row_id host port key now_ms db) [
        | inl (x, e) ↦ rw e h
        | inr (now, v, t) ↦
            rw t.1 (stored-Pinned row_id (trim host) port key now db.host_fingerprints t.0 h)
      ]
