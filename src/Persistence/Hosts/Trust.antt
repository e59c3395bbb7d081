-- ===== src/Persistence/Hosts/Trust.antt =====
-- What `trust_host_fingerprint` does to the stored keys, and what is listed after it.
use bx_ssh.Common.{
  ℕ, ◌<◌, ◌^◌, ◌≡◌, ◌⊎◌, refl, ap, ◌∙◌, subst, inl, inr, Bool, true, false, List, map, ok, err, any,
  All, is_empty, arith, Bool-cases,
}
use bx_ssh.Common.Text.{Text, codes, trim}
use bx_ssh.Ssh.Connect.{HostKeyInfo}
use bx_ssh.Persistence.Error.{PersistenceError, host_fingerprint_conflict}
use bx_ssh.Persistence.Integers.{ℤ, pos, timestamp_to_i64}
use bx_ssh.Persistence.Table.{select_where, order_by, text_at_most}
use bx_ssh.Persistence.Table.Laws.{
  All-select_where, All-order_by, select_where_some, All-map, is_empty-map,
}
use bx_ssh.Persistence.Schema.{FingerprintRow, Database}
use bx_ssh.Persistence.Driver.{Engine, Outcome, step}
use bx_ssh.Persistence.Driver.Cases.{Healthy, call-Healthy, Refuses, call_traced, transact_traced}
use bx_ssh.Persistence.Hosts.{
  at_endpoint, row_key, differs, trust_body, check_trust, trust_transaction, trust_host_fingerprint,
  validate_host_endpoint, validate_host_key, list_host_fingerprints,
}
use bx_ssh.Persistence.Hosts.Pinning.{Carries, stored_here, stored-Carries}
use bx_ssh.Persistence.Hosts.Cases.{uncarried, trust_body-Trusted, trust_cases}

module _ {E : Type 0} (engine : Engine E) where
  module _ (healthy : Healthy engine) where
    -- What is listed of a table in which every row of the endpoint carries the key.
    list-carried :
        (host : Text) (port : ℕ) (key : HostKeyInfo) (db : Database)
        → validate_host_endpoint {E = E} host port ≡ ok tt
        → All (Carries (trim host) port key) db.host_fingerprints
        → any (at_endpoint (trim host) port) db.host_fingerprints ≡ true
        → (keys : List HostKeyInfo) × (list_host_fingerprints engine host port db ≡ ok keys)
          × All (λ k. k ≡ key) keys
          × (is_empty keys ≡ false)
    unfolding list_host_fingerprints
    list-carried host port key db v c some_row =
        let rows = select_where (at_endpoint (trim host) port) db.host_fingerprints in
        let before : FingerprintRow → FingerprintRow → Bool = (λ a b. text_at_most a.id b.id) in
        (
          map row_key (order_by before rows),
          rw v (
              rw (call-Healthy engine healthy (codes "prepare a host fingerprint query") db) (
                rw (call-Healthy engine healthy (codes "query host fingerprints") db)
                  (rw (call-Healthy engine healthy (codes "read a host fingerprint") db) refl))),
          All-map row_key (λ k. k ≡ key) _
              (All-order_by _ before rows (All-select_where _ _ db.host_fingerprints c)),
          is_empty-map row_key (order_by before rows)
              ∙ select_where_some (at_endpoint (trim host) port) before db.host_fingerprints
                  some_row,
        )

    -- Once a key is trusted for an endpoint, the keys listed for it are this key, and there is one, if
    -- the engine refuses nothing.
    pub trust_host_fingerprint-lists :
        (row_id host : Text) (port : ℕ) (key : HostKeyInfo) (now_ms : ℕ) (db : Database)
        → (trust_host_fingerprint engine row_id host port key now_ms db).1 ≡ ok tt
        → (keys : List HostKeyInfo) × (list_host_fingerprints engine host port
              (trust_host_fingerprint engine row_id host port key now_ms db).0
            ≡ ok keys)
          × All (λ k. k ≡ key) keys
          × (is_empty keys ≡ false)
    trust_host_fingerprint-lists row_id host port key now_ms db h =
        elim (trust_cases engine row_id host port key now_ms db) [
          | inl (x, e) ↦ absurd (let z = rw e at h in cc z)
          | inr (now, v, t) ↦ rw t.1 (
              list-carried host port key _ v
                (stored-Carries row_id (trim host) port key now (trim host) port key
                  db.host_fingerprints (λ _. refl) t.0)
                (stored_here row_id (trim host) port key now db.host_fingerprints))
        ]

module _ {E : Type 0} (engine : Engine E) where
  -- Why the body of the transaction fails.
  trust_body_traced :
      (row_id host : Text) (port : ℕ) (key : HostKeyInfo) (now : ℤ) (db : Database)
      (e : PersistenceError E)
      → trust_body engine row_id host port key now db ≡ err e
      → Refuses engine e
        ⊎ ((e ≡ host_fingerprint_conflict) × ¬ (All (Carries host port key) db.host_fingerprints))
  unfolding trust_body step
  trust_body_traced row_id host port key now db e h =
      let rows = db.host_fingerprints in
      elim (call_traced engine (codes "prepare a host fingerprint conflict query") db) [
        | inr (x, f, r) ↦ inl (let z = rw f at h in subst (Refuses engine) (ground (arith, z)) r)
        | inl f ↦ elim (call_traced engine (codes "query host fingerprint conflicts") db) [
          | inr (x, g, r) ↦
              inl (let z = rw (f, g) at h in subst (Refuses engine) (ground (arith, z)) r)
          | inl g ↦ elim (call_traced engine (codes "read host fingerprint conflicts") db) [
            | inr (x, k, r) ↦
                inl (let z = rw (f, g, k) at h in subst (Refuses engine) (ground (arith, z)) r)
            | inl k ↦
                elim (Bool-cases (any (differs key) (select_where (at_endpoint host port) rows))) [
                  | inl d ↦ inr (
                    (let z = rw (f, g, k, d) at h in ground (arith, z)),
                    λ c. cc (d, uncarried engine host port key rows c),
                  )
                  | inr d ↦ elim (call_traced engine (codes "save a host fingerprint") db) [
                    | inr (x, l, r) ↦ inl (
                        let z = rw (f, g, k, d, l) at h in
                        subst (Refuses engine) (ground (arith, z)) r)
                    | inl l ↦ absurd (let z = rw (f, g, k, d, l) at h in cc z)
                  ]
                ]
          ]
        ]
      ]

  checked :
      (host : Text) (port : ℕ) (key : HostKeyInfo) (now_ms : ℕ)
      → validate_host_endpoint {E = E} host port ≡ ok tt
      → validate_host_key {E = E} key ≡ ok tt
      → now_ms < 2 ^ 63
      → check_trust engine host port key now_ms ≡ ok (pos now_ms)
  unfolding check_trust timestamp_to_i64
  checked host port key now_ms v k l = rw (v, k) (ground arith)

  -- The key is stored for the endpoint, as its only one.
  abbrev pub IsTrusted : Text → ℕ → HostKeyInfo → Database → Type 0
  IsTrusted host port key db =
      (any (at_endpoint host port) db.host_fingerprints ≡ true)
      × All (Carries host port key) db.host_fingerprints

  -- How a transaction ends: with the key stored, with a conflict, or as the engine refuses a call.
  abbrev pub Settles : Text → ℕ → HostKeyInfo → Database → Outcome E (Unit {0}) → Type 0
  Settles host port key db out =
      ((out.1 ≡ ok tt)
        × All (Carries host port key) db.host_fingerprints
        × IsTrusted host port key out.0)
      ⊎ ((out ≡ (db, err host_fingerprint_conflict))
          × ¬ (All (Carries host port key) db.host_fingerprints))
      ⊎ ((e : PersistenceError E) × (out ≡ (db, err e)) × Refuses engine e)

  transaction-Settles :
      (row_id host : Text) (port : ℕ) (key : HostKeyInfo) (now : ℤ) (db : Database)
      → Settles host port key db (trust_transaction engine row_id host port key now db)
  unfolding trust_transaction
  transaction-Settles row_id host port key now db =
      elim (transact_traced engine (codes "start a host fingerprint transaction")
        (trust_body engine row_id host port key now) (codes "commit a host fingerprint") db) [
          | inl (e, f, inl r) ↦ inr (inr (e, f, r))
          | inl (e, f, inr b) ↦ elim (trust_body_traced row_id host port key now db e b) [
            | inl r ↦ inr (inr (e, f, r))
            | inr (same, n) ↦ inr (inl (f ∙ ap (λ x. (db, err x)) same, n))
          ]
          | inr (after, b, f) ↦
              let (c, t) = trust_body-Trusted engine row_id host port key now db after b in
              rw f (
                inl (
                  refl,
                  c,
                  rw t (
                    stored_here row_id host port key now db.host_fingerprints,
                    stored-Carries row_id host port key now host port key db.host_fingerprints
                        (λ _. refl) c,
                  ),
                ))
        ]

  -- Trusting a valid key of a valid endpoint, at a time below 2 ^ 63 ms, ends in one of three ways: it
  -- succeeds, no other key was stored for the endpoint, and this key then is, as its only one; another
  -- key is stored for the endpoint, and the call is refused as a conflict and changes nothing; or the
  -- engine refuses one of the calls, for a constraint of the schema say, and nothing is changed.
  pub trust_host_fingerprint_lem :
      (row_id host : Text) (port : ℕ) (key : HostKeyInfo) (now_ms : ℕ) (db : Database)
      → validate_host_endpoint {E = E} host port ≡ ok tt
      → validate_host_key {E = E} key ≡ ok tt
      → now_ms < 2 ^ 63
      → Settles
          (trim host)
          port
          key
          db
          (trust_host_fingerprint engine row_id host port key now_ms db)
  unfolding trust_host_fingerprint
  trust_host_fingerprint_lem row_id host port key now_ms db v k l =
      rw (checked host port key now_ms v k l)
        (transaction-Settles row_id (trim host) port key (pos now_ms) db)
