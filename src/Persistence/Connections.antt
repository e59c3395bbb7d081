-- ===== src/Persistence/Connections.antt =====
-- crates/persistence/src/repository.rs: the connections, written by one statement each.
pub mod Rows
pub mod Reading
pub mod Saving
pub mod RoundTrip
pub mod Deletion
pub mod Import
use bx_ssh.Common.{
  ℕ, Bool, true, false, not, ◌&&◌, Option, none, some, List, [], ◌∷◌, Result, ok, err, ◌>>◌, ◌>>=◌,
  any, is_none, if◌then◌else◌,
}
use bx_ssh.Common.Text.{Text, codes, text_eq}
use bx_ssh.Contracts.Connection
use bx_ssh.Contracts.Connection.{ConnectionConfig, AuthMethod, database_value}
use bx_ssh.Contracts.Settings.{ConnectionSettingsOverride}
use bx_ssh.Persistence.Error.{PersistenceError}
use bx_ssh.Persistence.Integers.{ℤ, pos, increment, at_most, bool_value, timestamp_to_i64}
use bx_ssh.Persistence.Table.{select_where, update_where, upsert}
use bx_ssh.Persistence.Schema.{ConnectionRow, RecentRow, Database}
use bx_ssh.Persistence.Driver.{Outcome, Engine, call, execute, step, transact, guarded}
use bx_ssh.Persistence.Groups.{as_configuration, check_id}
use bx_ssh.Persistence.Ordering.{is_same, listed_in}
use bx_ssh.Persistence.Settings
use bx_ssh.Persistence.Settings.{no_override, apply_settings_as}

-- `SELECT MAX(sort_order)`, NULL of no rows.
unfoldable pub max_sort_order : List ConnectionRow → Option ℤ
unfolding at_most
max_sort_order [] = none
max_sort_order (row ∷ rows) = elim (max_sort_order rows) [
  | none ↦ some row.sort_order
  | some best ↦ some (if at_most best row.sort_order then row.sort_order else best)
]

-- `COALESCE((SELECT MAX(sort_order) + 1 …), 0)` over the listed connections of the group.
unfoldable pub next_sort_order : Option Text → List ConnectionRow → ℤ
unfolding max_sort_order increment select_where is_same
next_sort_order group rows = elim (max_sort_order (select_where (listed_in group) rows)) [
  | none ↦ pos 0
  | some best ↦ increment best
]

-- The row that the statement would insert (`excluded`).
unfoldable pub inserted_connection : ConnectionConfig → ℤ → ℤ → ConnectionRow
unfolding database_value
inserted_connection config sort_order now = record {
  id = config.id;
  group_id = config.group_id;
  key_reference_id = config.key_reference_id;
  name = config.name;
  host = config.host;
  port = pos config.port;
  username = config.username;
  notes = config.notes;
  color = config.color;
  auth_method = database_value config.auth_method;
  credential_ref = config.credential_ref;
  is_favorite = pos 0;
  sort_order = sort_order;
  created_at = now;
  updated_at = now;
  deleted_at = none;
  revision = pos 1;
}

-- ON CONFLICT(id) DO UPDATE SET: a connection that stays in its group keeps its place.
unfoldable pub updated_connection : ConnectionConfig → ℤ → ℤ → ConnectionRow → ConnectionRow
unfolding database_value is_same increment
updated_connection config sort_order now row = record {
  id = row.id;
  group_id = config.group_id;
  key_reference_id = config.key_reference_id;
  name = config.name;
  host = config.host;
  port = pos config.port;
  username = config.username;
  notes = config.notes;
  color = config.color;
  auth_method = database_value config.auth_method;
  credential_ref = config.credential_ref;
  is_favorite = row.is_favorite;
  sort_order =
      if is_same row.group_id config.group_id && is_none row.deleted_at
      then row.sort_order
      else sort_order;
  created_at = row.created_at;
  updated_at = now;
  deleted_at = none;
  revision = increment row.revision;
}

abbrev pub connection_is : Text → ConnectionRow → Bool
connection_is id row = text_eq row.id id

-- `id = ?1 AND deleted_at IS NULL`.
abbrev pub is_listed : Text → ConnectionRow → Bool
is_listed id row = text_eq row.id id && is_none row.deleted_at

unfoldable pub save_connection_rows : ConnectionConfig → ℤ → List ConnectionRow → List ConnectionRow
unfolding upsert updated_connection inserted_connection next_sort_order
save_connection_rows config now rows =
    let sort_order = next_sort_order config.group_id rows in
    upsert (connection_is config.id) (updated_connection config sort_order now)
      (inserted_connection config sort_order now) rows

unfoldable pub deleted_connection : ℤ → ConnectionRow → ConnectionRow
unfolding increment
deleted_connection now row = record row {
  deleted_at = some now;
  updated_at = now;
  revision = increment row.revision;
}

unfoldable pub favored_connection : Bool → ℤ → ConnectionRow → ConnectionRow
unfolding increment bool_value
favored_connection is_favorite now row = record row {
  is_favorite = bool_value is_favorite;
  updated_at = now;
  revision = increment row.revision;
}

-- INSERT … SELECT … ON CONFLICT(connection_id): nothing where no listed connection has the id.
unfoldable pub record_rows : Text → ℤ → Database → List RecentRow
unfolding upsert increment
record_rows id now db =
    if any (is_listed id) db.connections
    then upsert (λ row. text_eq row.connection_id id)
        (λ row. record row {
          last_connected_at = now;
          successful_connection_count = increment row.successful_connection_count;
        })
        (record {
          connection_id = id;
          last_connected_at = now;
          successful_connection_count = pos 1;
        })
        db.recent_connections
    else db.recent_connections

-- What the statements of the three operations on one connection do, and whether they change a row.
abbrev pub delete_effect : Text → ℤ → Database → Database × Bool
delete_effect id now db = (
  record db { connections = update_where (is_listed id) (deleted_connection now) db.connections },
  any (is_listed id) db.connections,
)

abbrev pub favorite_effect : Text → Bool → ℤ → Database → Database × Bool
favorite_effect id is_favorite now db = (
  record db {
    connections = update_where (is_listed id) (favored_connection is_favorite now) db.connections;
  },
  any (is_listed id) db.connections,
)

abbrev pub record_effect : Text → ℤ → Database → Database × Bool
record_effect id now db =
    (record db { recent_connections = record_rows id now db }, any (is_listed id) db.connections)

module _ {E : Type 0} (engine : Engine E) where
  -- `save_connection_record`.
  unfoldable pub save_connection_record :
      ConnectionConfig
      → ConnectionSettingsOverride
      → ℤ
      → Database
      → Result (PersistenceError E) Database
  unfolding step save_connection_rows apply_settings_as
  save_connection_record config settings now db = do
    saved ←
        step engine (codes "save a connection")
          (λ work. record work { connections = save_connection_rows config now work.connections })
          db
    apply_settings_as engine (codes "save connection settings") (Settings.connection config.id)
        settings now saved

  unfoldable pub check_config : ConnectionConfig → ℕ → Result (PersistenceError E) ℤ
  unfolding Connection.validate timestamp_to_i64
  check_config config now_ms =
      as_configuration (Connection.validate config) >> timestamp_to_i64 now_ms

  unfoldable pub save_connection_transaction :
      ConnectionConfig → ConnectionSettingsOverride → ℤ → Database → Outcome E (Unit {0})
  unfolding transact save_connection_record
  save_connection_transaction config settings now =
      transact engine (codes "start a connection transaction")
        (λ db. save_connection_record config settings now db >>= λ saved. ok (saved, tt))
        (codes "commit a connection transaction")

  -- `save_connection`.
  unfoldable pub save_connection :
      ConnectionConfig → ConnectionSettingsOverride → ℕ → Database → Outcome E (Unit {0})
  unfolding check_config save_connection_transaction
  save_connection config settings now_ms =
      guarded (check_config config now_ms) (save_connection_transaction config settings)

  -- The two loops of `import_connections`.
  unfoldable pub validate_all : List ConnectionConfig → Result (PersistenceError E) (Unit {0})
  unfolding Connection.validate
  validate_all [] = ok tt
  validate_all (config ∷ configs) =
      as_configuration (Connection.validate config) >> validate_all configs

  unfoldable pub save_each :
      List ConnectionConfig → ℤ → Database → Result (PersistenceError E) Database
  unfolding save_connection_record
  save_each [] now db = ok db
  save_each (config ∷ configs) now db =
      save_connection_record config no_override now db >>= save_each configs now

  unfoldable pub check_import : List ConnectionConfig → ℕ → Result (PersistenceError E) ℤ
  unfolding validate_all timestamp_to_i64
  check_import configs now_ms = validate_all configs >> timestamp_to_i64 now_ms

  unfoldable pub import_transaction : List ConnectionConfig → ℤ → Database → Outcome E (Unit {0})
  unfolding transact save_each
  import_transaction configs now =
      transact engine (codes "start an OpenSSH import transaction")
        (λ db. save_each configs now db >>= λ saved. ok (saved, tt))
        (codes "commit an OpenSSH import transaction")

  -- `import_connections`.
  unfoldable pub import_connections : List ConnectionConfig → ℕ → Database → Outcome E (Unit {0})
  unfolding check_import import_transaction
  import_connections configs now_ms =
      guarded (check_import configs now_ms) (import_transaction configs)

  -- `delete_connection`: the row stays, with the time of its deletion.
  unfoldable pub delete_connection : Text → ℕ → Database → Outcome E Bool
  unfolding check_id execute update_where deleted_connection
  delete_connection id now_ms =
      guarded (check_id engine id now_ms)
        (λ now. execute engine (codes "delete a connection") (delete_effect id now))

  -- `set_connection_favorite`.
  unfoldable pub set_connection_favorite : Text → Bool → ℕ → Database → Outcome E Bool
  unfolding check_id execute update_where favored_connection
  set_connection_favorite id is_favorite now_ms = guarded (check_id engine id now_ms) (λ now.
      execute engine (codes "update connection favorite state")
        (favorite_effect id is_favorite now))

  -- `record_successful_connection`.
  unfoldable pub record_successful_connection : Text → ℕ → Database → Outcome E Bool
  unfolding check_id execute record_rows
  record_successful_connection id now_ms =
      guarded (check_id engine id now_ms)
        (λ now. execute engine (codes "record a successful connection") (record_effect id now))
