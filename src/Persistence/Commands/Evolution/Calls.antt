-- ===== src/Persistence/Commands/Evolution/Calls.antt =====
-- Each call of the repository fails and changes nothing, or evolves the database.
use bx_ssh.Common.{ℕ, Bool, Option, List, ◌≡◌, refl, ap, subst, ok, err, Result, ◌>>=◌}
use bx_ssh.Common.Text.{Text, codes, trim}
use bx_ssh.Persistence.Error.{PersistenceError}
use bx_ssh.Persistence.Schema.{Database}
use bx_ssh.Persistence.Driver.{Engine, execute}
use bx_ssh.Persistence.Hosts.{check_trust, trust_body, trust_transaction, trust_host_fingerprint}
use bx_ssh.Persistence.Groups.{
  check_id, check_saved_group, save_effect, collapse_effect, save_group, delete_group,
  delete_group_body, delete_group_transaction, set_group_collapsed,
}
use bx_ssh.Persistence.Ordering.{
  stored_groups, stored_connections, place_group_rows, place_connection_rows, reorder_body,
  check_order, check_group_order, reorder_groups, reorder_groups_transaction, reorder_connections,
  reorder_connections_transaction,
}
use bx_ssh.Persistence.Settings.{
  apply_settings_as, check_scope, save_settings, save_settings_transaction,
}
use bx_ssh.Persistence.Connections.{
  save_connection_record, save_each, check_config, check_import, delete_effect, favorite_effect,
  record_effect, save_connection, save_connection_transaction, import_connections,
  import_transaction, delete_connection, set_connection_favorite, record_successful_connection,
}
use bx_ssh.Persistence.Commands.Evolution.{Evolves, Tame, guarded-Tame, execute-Tame, transact-Tame}
use bx_ssh.Persistence.Commands.Evolution.Bodies.{
  delete_effect-Evolves, favorite_effect-Evolves, record_effect-Evolves, collapse_effect-Evolves,
  save_effect-Evolves, place_group_rows-Evolves, place_connection_rows-Evolves, trust_body-Evolves,
  delete_group_body-Evolves, reorder_body-Evolves, apply_settings_as-Evolves, save_record-Evolves,
  save_each-Evolves,
}
use bx_ssh.Contracts.Connection.{ConnectionConfig}
use bx_ssh.Contracts.Group.{ConnectionGroup}
use bx_ssh.Contracts.Settings.{ConnectionSettingsOverride, ConnectionSettingsScope}
use bx_ssh.Ssh.Connect.{HostKeyInfo}

module _ {E : Type 0} where
  -- The result of a body of settings or connections, with nothing to return.
  saved_ok :
      (r : Result (PersistenceError E) Database) (P : Database → Type 0)
      (after : Database × Unit {0})
      → ((work : Database) → r ≡ ok work → P work)
      → (r >>= λ saved. ok (saved, tt)) ≡ ok after
      → P after.0
  saved_ok (ok work) P after k h = subst P (ap (unwrap work) h) (k work refl)
    where
      unwrap : Database → Result (PersistenceError E) (Database × Unit {0}) → Database
      unwrap d (ok p) = p.0
      unwrap d (err e) = d
  saved_ok (err e) P after k h = absurd (cc h)

module _ {E : Type 0} (engine : Engine E) where
  pub trust_host_fingerprint-Tame :
      (row_id host : Text) (port : ℕ) (key : HostKeyInfo) (now : ℕ) (db : Database)
      → Tame db (trust_host_fingerprint engine row_id host port key now db)
  unfolding trust_host_fingerprint trust_transaction
  trust_host_fingerprint-Tame row_id host port key now db =
      guarded-Tame db (check_trust engine host port key now)
        (λ b. trust_transaction engine row_id (trim host) port key b)
        (λ b _.
          transact-Tame engine (codes "start a host fingerprint transaction")
            (trust_body engine row_id (trim host) port key b) (codes "commit a host fingerprint") db
            (λ after q. trust_body-Evolves engine row_id (trim host) port key b db after q))

  pub save_group-Tame :
      (group : ConnectionGroup) (now : ℕ) (db : Database) → Tame db (save_group engine group now db)
  unfolding save_group
  save_group-Tame group now db =
      guarded-Tame db (check_saved_group engine group now)
        (λ b. execute engine (codes "save a connection group") (save_effect group b))
        (λ b _.
          execute-Tame engine (codes "save a connection group") (save_effect group b) db
            (save_effect-Evolves group b db))

  pub delete_group-Tame :
      (id : Text) (now : ℕ) (db : Database) → Tame db (delete_group engine id now db)
  unfolding delete_group delete_group_transaction
  delete_group-Tame id now db =
      guarded-Tame db (check_id engine id now) (delete_group_transaction engine id) (λ b _.
        transact-Tame engine (codes "start a group deletion transaction")
          (delete_group_body engine id b) (codes "commit a group deletion transaction") db
          (delete_group_body-Evolves engine id b db))

  pub set_group_collapsed-Tame :
      (id : Text) (collapsed : Bool) (now : ℕ) (db : Database)
      → Tame db (set_group_collapsed engine id collapsed now db)
  unfolding set_group_collapsed
  set_group_collapsed-Tame id collapsed now db =
      guarded-Tame db (check_id engine id now)
        (λ b. execute engine (codes "update group collapse state") (collapse_effect id collapsed b))
        (λ b _.
          execute-Tame engine (codes "update group collapse state") (collapse_effect id collapsed b)
            db (collapse_effect-Evolves id collapsed b db))

  pub reorder_groups-Tame :
      (ids : List Text) (now : ℕ) (db : Database) → Tame db (reorder_groups engine ids now db)
  unfolding reorder_groups reorder_groups_transaction
  reorder_groups-Tame ids now db =
      guarded-Tame db (check_order engine ids now) (reorder_groups_transaction engine ids) (λ b _.
        transact-Tame engine (codes "start a group ordering transaction")
          (reorder_body engine (codes "query connection groups for ordering")
            (codes "reorder connection groups") stored_groups (place_group_rows b) ids)
          (codes "commit a group ordering transaction") db
          (λ after.
            reorder_body-Evolves engine _ _ stored_groups (place_group_rows b) ids db after
              (place_group_rows-Evolves b)))

  pub save_connection-Tame :
      (config : ConnectionConfig) (settings : ConnectionSettingsOverride) (now : ℕ) (db : Database)
      → Tame db (save_connection engine config settings now db)
  unfolding save_connection save_connection_transaction
  save_connection-Tame config settings now db =
      guarded-Tame db (check_config engine config now)
        (save_connection_transaction engine config settings)
        (λ b _.
          transact-Tame engine (codes "start a connection transaction")
            (λ work.
              save_connection_record engine config settings b work >>= λ saved. ok (saved, tt))
            (codes "commit a connection transaction") db
            (λ after.
              saved_ok (save_connection_record engine config settings b db) (Evolves db) after
                (save_record-Evolves engine config settings b db)))

  pub import_connections-Tame :
      (configs : List ConnectionConfig) (now : ℕ) (db : Database)
      → Tame db (import_connections engine configs now db)
  unfolding import_connections import_transaction
  import_connections-Tame configs now db =
      guarded-Tame db (check_import engine configs now) (import_transaction engine configs) (λ b _.
        transact-Tame engine (codes "start an OpenSSH import transaction")
          (λ work. save_each engine configs b work >>= λ saved. ok (saved, tt))
          (codes "commit an OpenSSH import transaction") db
          (λ after.
            saved_ok (save_each engine configs b db) (Evolves db) after
              (save_each-Evolves engine configs b db)))

  pub save_settings-Tame :
      (scope : ConnectionSettingsScope) (settings : ConnectionSettingsOverride) (now : ℕ)
      (db : Database)
      → Tame db (save_settings engine scope settings now db)
  unfolding save_settings save_settings_transaction
  save_settings-Tame scope settings now db =
      guarded-Tame db (check_scope engine scope now) (save_settings_transaction engine settings)
        (λ b _.
          transact-Tame engine (codes "start a settings transaction")
            (λ work.
              apply_settings_as engine (codes "save scoped connection settings") b.0 settings b.1
                work
              >>= λ saved. ok (saved, tt))
            (codes "commit a settings transaction") db
            (λ after. saved_ok _ (Evolves db) after (
              apply_settings_as-Evolves engine (codes "save scoped connection settings") b.0
                settings b.1 db)))

  pub delete_connection-Tame :
      (id : Text) (now : ℕ) (db : Database) → Tame db (delete_connection engine id now db)
  unfolding delete_connection
  delete_connection-Tame id now db =
      guarded-Tame db (check_id engine id now)
        (λ b. execute engine (codes "delete a connection") (delete_effect id b))
        (λ b _.
          execute-Tame engine (codes "delete a connection") (delete_effect id b) db
            (delete_effect-Evolves id b db))

  pub set_connection_favorite-Tame :
      (id : Text) (favorite : Bool) (now : ℕ) (db : Database)
      → Tame db (set_connection_favorite engine id favorite now db)
  unfolding set_connection_favorite
  set_connection_favorite-Tame id favorite now db =
      guarded-Tame db (check_id engine id now)
        (λ b.
          execute engine (codes "update connection favorite state") (favorite_effect id favorite b))
        (λ b _.
          execute-Tame engine (codes "update connection favorite state")
            (favorite_effect id favorite b) db (favorite_effect-Evolves id favorite b db))

  pub reorder_connections-Tame :
      (group : Option Text) (ids : List Text) (now : ℕ) (db : Database)
      → Tame db (reorder_connections engine group ids now db)
  unfolding reorder_connections reorder_connections_transaction
  reorder_connections-Tame group ids now db =
      guarded-Tame db (check_group_order engine group ids now)
        (reorder_connections_transaction engine group ids)
        (λ b _.
          transact-Tame engine (codes "start a connection ordering transaction")
            (reorder_body engine (codes "query connections for ordering")
              (codes "reorder connections") (stored_connections group)
              (place_connection_rows group b) ids)
            (codes "commit a connection ordering transaction") db
            (λ after.
              reorder_body-Evolves engine _ _ (stored_connections group)
                (place_connection_rows group b) ids db after
                (place_connection_rows-Evolves group b)))

  pub record_successful_connection-Tame :
      (id : Text) (now : ℕ) (db : Database)
      → Tame db (record_successful_connection engine id now db)
  unfolding record_successful_connection
  record_successful_connection-Tame id now db =
      guarded-Tame db (check_id engine id now)
        (λ b. execute engine (codes "record a successful connection") (record_effect id b))
        (λ b _.
          execute-Tame engine (codes "record a successful connection") (record_effect id b) db
            (record_effect-Evolves id b db))
