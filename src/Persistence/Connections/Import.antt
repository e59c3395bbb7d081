-- ===== src/Persistence/Connections/Import.antt =====
-- An import stores all of its connections, or none.
use bx_ssh.Common.{
  ℕ, ◌<◌, ◌^◌, ◌≡◌, ◌⊎◌, inl, inr, refl, ap, true, none, List, [], ◌∷◌, any, All, arith, Bool-cases,
  ok, err, ◌>>=◌, Result-cases,
}
use bx_ssh.Common.Text.{Text, codes, text_eq_refl}
use bx_ssh.Contracts.Connection
use bx_ssh.Contracts.Connection.{ConnectionConfig}
use bx_ssh.Persistence.Error.{invalid_connection_configuration}
use bx_ssh.Persistence.Integers.{ℤ, pos, timestamp_to_i64}
use bx_ssh.Persistence.Table.{update_where, upsert}
use bx_ssh.Persistence.Table.Laws.{any-upsert, any-append}
use bx_ssh.Persistence.Schema.{ConnectionRow, Database}
use bx_ssh.Persistence.Driver.{Engine, step}
use bx_ssh.Persistence.Driver.Cases.{Healthy, call-Healthy, transact_healthy}
use bx_ssh.Persistence.Settings
use bx_ssh.Persistence.Settings.{no_override}
use bx_ssh.Persistence.Settings.Loading.{apply_settings_healthy}
use bx_ssh.Persistence.Connections.{
  next_sort_order, inserted_connection, updated_connection, connection_is, is_listed,
  save_connection_rows, save_connection_record, validate_all, save_each, check_import,
  import_transaction, import_connections,
}

-- A connection of the id is listed.
abbrev pub IsListed : List ConnectionRow → Text → Type 0
IsListed rows id = any (is_listed id) rows ≡ true

module _ (config : ConnectionConfig) (now : ℤ) where
  saved-IsListed :
      (rows : List ConnectionRow) → IsListed (save_connection_rows config now rows) config.id
  unfolding save_connection_rows
  saved-IsListed rows =
      any-upsert (is_listed config.id) (connection_is config.id) _ _ rows
        (λ r q. unfold updated_connection in ground arith)
        (unfold inserted_connection in ground (arith, text_eq_refl config.id))

  updated-IsListed :
      (place : ℤ) (id : Text) (rows : List ConnectionRow)
      → IsListed rows id
      → IsListed
          (update_where (connection_is config.id) (updated_connection config place now) rows)
          id
  unfolding update_where updated_connection
  updated-IsListed place id [] h = h
  updated-IsListed place id (r ∷ rows) h = ground (arith, updated-IsListed place id rows)

  -- Saving a connection takes none from the list.
  kept-IsListed :
      (id : Text) (rows : List ConnectionRow)
      → IsListed rows id
      → IsListed (save_connection_rows config now rows) id
  unfolding save_connection_rows upsert
  kept-IsListed id rows h = elim (Bool-cases (any (connection_is config.id) rows)) [
    | inl e ↦ rw e (updated-IsListed (next_sort_order config.group_id rows) id rows h)
    | inr e ↦ rw e (
        ground (
          arith,
          h,
          any-append (is_listed id) rows
              (inserted_connection config (next_sort_order config.group_id rows) now ∷ []),
        ))
  ]

module _ {E : Type 0} (engine : Engine E) (healthy : Healthy engine) where
  record_saved :
      (config : ConnectionConfig) (now : ℤ) (db : Database)
      → (after : Database) × (save_connection_record engine config no_override now db ≡ ok after)
        × (after.connections ≡ save_connection_rows config now db.connections)
  unfolding save_connection_record step
  record_saved config now db =
      let work : Database = record db {
        connections = save_connection_rows config now db.connections;
      } in
      let (after, e, a, s, f) =
        apply_settings_healthy (λ _. none) engine healthy (codes "save connection settings")
          (Settings.connection config.id) no_override now work in
      (
        after,
        rw (call-Healthy engine healthy (codes "save a connection") db) e,
        ap (λ d. d.connections) f,
      )

  -- The loop lists what it saves, and what was listed before.
  each_saved :
      (configs : List ConnectionConfig) (now : ℤ) (db : Database)
      → (after : Database) × (save_each engine configs now db ≡ ok after)
        × All (λ c. IsListed after.connections c.id) configs
        × ((id : Text) → IsListed db.connections id → IsListed after.connections id)
  unfolding save_each
  each_saved [] now db = (db, refl, tt, λ id h. h)
  each_saved (c ∷ configs) now db =
      let (work, e, w) = record_saved c now db in
      let (after, f, l, k) = each_saved configs now work in
      (
        after,
        rw e f,
        (k c.id (rw w (saved-IsListed c now db.connections)), l),
        λ id h. k id (rw w (kept-IsListed c now id db.connections h)),
      )

  -- All configurations are valid, or the loop finds the first that is not.
  validate_all_cases :
      (configs : List ConnectionConfig)
      → ((validate_all engine configs ≡ ok tt) × All (λ c. Connection.validate c ≡ ok tt) configs)
        ⊎ ((validate_all engine configs ≡ err invalid_connection_configuration)
            × ¬ (All (λ c. Connection.validate c ≡ ok tt) configs))
  unfolding validate_all
  validate_all_cases [] = inl (refl, tt)
  validate_all_cases (c ∷ configs) = elim (Result-cases (Connection.validate c)) [
    | inr (x, e) ↦ inr (rw e refl, λ h. cc (h.0, e))
    | inl (t, e) ↦ elim (validate_all_cases configs) [
      | inl (v, a) ↦ inl (rw e v, (e, a))
      | inr (v, n) ↦ inr (rw e v, λ h. n h.1)
    ]
  ]

  -- With an engine that refuses nothing, an import succeeds exactly when every configuration is
  -- valid. Then each of them is listed, and so is every connection that was listed before;
  -- otherwise nothing is stored.
  pub import_connections_lem :
      (configs : List ConnectionConfig) (now_ms : ℕ) (db : Database)
      → now_ms < 2 ^ 63
      → (((import_connections engine configs now_ms db).1 ≡ ok tt)
          × All (λ c. Connection.validate c ≡ ok tt) configs
          × All
              (λ c. IsListed (import_connections engine configs now_ms db).0.connections c.id)
              configs
          × ((id : Text)
              → IsListed db.connections id
              → IsListed (import_connections engine configs now_ms db).0.connections id))
        ⊎ ((import_connections engine configs now_ms db
              ≡ (db, err invalid_connection_configuration))
            × ¬ (All (λ c. Connection.validate c ≡ ok tt) configs))
  unfolding import_connections import_transaction
  import_connections_lem configs now_ms db l = elim (validate_all_cases configs) [
    | inr (e, n) ↦
        let refused : check_import engine configs now_ms ≡ err invalid_connection_configuration =
          unfold check_import in rw e refl in
        inr (rw refused refl, n)
    | inl (e, a) ↦
        let now = pos now_ms in
        let checked : check_import engine configs now_ms ≡ ok now =
          unfold check_import timestamp_to_i64 in rw e (ground arith) in
        let (after, f, s, k) = each_saved configs now db in
        inl (
          rw checked (
            rw
              (transact_healthy engine healthy (codes "start an OpenSSH import transaction")
                (λ work. save_each engine configs now work >>= λ saved. ok (saved, tt))
                (codes "commit an OpenSSH import transaction") db)
              (rw f (refl, a, s, k))))
  ]
