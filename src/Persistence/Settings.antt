-- ===== src/Persistence/Settings.antt =====
-- crates/persistence/src/repository.rs: connection settings at their three scopes.
-- `serde_json::from_str::<u32>` is a parameter, `parse_json`.
pub mod RoundTrip
pub mod Rows
pub mod Loading
pub mod Isolation
use bx_ssh.Common.{
  ℕ, Bool, true, false, not, ◌&&◌, ◌||◌, Option, none, some, List, [], ◌∷◌, Result, ok, err, ◌>>◌,
  ◌>>=◌, is_none, if◌then◌else◌,
}
use bx_ssh.Common.Text.{Text, codes, text_eq}
use bx_ssh.Common.Text.Decimal.{decimal}
use bx_ssh.Contracts.Connection.{is_blank}
use bx_ssh.Contracts.Settings.{
  ConnectionSettingsOverride, ConnectionSettingsLayers, ConnectionSettingsScope, global_scope,
  group_scope, connection_scope,
}
use bx_ssh.Persistence.Error.{
  PersistenceError, database_operation, invalid_connection_configuration, invalid_stored_record,
  connection_setting,
}
use bx_ssh.Persistence.Integers.{ℤ, pos, increment, timestamp_to_i64}
use bx_ssh.Persistence.Table.{select_where, delete_where, update_where, upsert}
use bx_ssh.Persistence.Schema.{SettingRow, Database}
use bx_ssh.Persistence.Driver.{Outcome, Engine, call, transact, guarded}
use bx_ssh.Persistence.Groups.{in_group}

abbrev pub connect_timeout_key : Text
connect_timeout_key = codes "connection.connectTimeoutSecs"

abbrev pub keep_alive_key : Text
keep_alive_key = codes "connection.keepAliveSecs"

pub data SettingOwner : Type 0 where
  global : SettingOwner
  group connection : Text → SettingOwner

abbrev pub no_override : ConnectionSettingsOverride
no_override = record { connect_timeout_secs = none; keep_alive_secs = none }

-- The rows of an owner, and the owner's row for a key.
unfoldable pub owned : SettingOwner → SettingRow → Bool
owned global row = is_none row.group_id && is_none row.connection_id
owned (group id) row = in_group id row.group_id && is_none row.connection_id
owned (connection id) row = in_group id row.connection_id && is_none row.group_id

unfoldable pub setting_is : SettingOwner → Text → SettingRow → Bool
unfolding owned
setting_is owner key row = text_eq row.key key && owned owner row

abbrev pub owner_group : SettingOwner → Option Text
owner_group global = none
owner_group (group id) = some id
owner_group (connection id) = none

abbrev pub owner_connection : SettingOwner → Option Text
owner_connection global = none
owner_connection (group id) = none
owner_connection (connection id) = some id

unfoldable pub inserted_setting : SettingOwner → Text → ℕ → ℤ → SettingRow
unfolding decimal
inserted_setting owner key value now = record {
  key = key;
  value_json = decimal value;
  group_id = owner_group owner;
  connection_id = owner_connection owner;
  created_at = now;
  updated_at = now;
  revision = pos 1;
}

unfoldable pub updated_setting : ℕ → ℤ → SettingRow → SettingRow
unfolding decimal increment
updated_setting value now row = record row {
  value_json = decimal value;
  updated_at = now;
  revision = increment row.revision;
}

-- What the six statements of `write_setting` do to the table.
unfoldable pub write_rows : SettingOwner → Text → Option ℕ → ℤ → List SettingRow → List SettingRow
unfolding setting_is inserted_setting updated_setting upsert delete_where
write_rows owner key (some value) now rows =
    upsert (setting_is owner key) (updated_setting value now) (inserted_setting owner key value now)
      rows
write_rows owner key none now rows = delete_where (setting_is owner key) rows

-- The value of a row that was read, put into the field that its key names.
unfoldable pub put_value : Text → ℕ → ConnectionSettingsOverride → ConnectionSettingsOverride
put_value key value values =
    if text_eq key connect_timeout_key
    then record values { connect_timeout_secs = some value }
    else if text_eq key keep_alive_key
    then record values { keep_alive_secs = some value }
    else values

-- `key IN (?1, ?2)` of the owner's rows.
unfoldable pub reads : SettingOwner → SettingRow → Bool
unfolding owned
reads owner row =
    owned owner row && (text_eq row.key connect_timeout_key || text_eq row.key keep_alive_key)

module _ {E : Type 0} (parse_json : Text → Option ℕ) where
  -- The loop of `read_setting_rows`.
  unfoldable pub read_rows :
      ConnectionSettingsOverride
      → List SettingRow
      → Result (PersistenceError E) ConnectionSettingsOverride
  unfolding put_value
  read_rows values [] = ok values
  read_rows values (row ∷ rows) = elim (parse_json row.value_json) [
    | none ↦ err (invalid_stored_record connection_setting)
    | some value ↦ read_rows (put_value row.key value values) rows
  ]

abbrev pub override_or_none : ConnectionSettingsOverride → Option ConnectionSettingsOverride
override_or_none values =
    if is_none values.connect_timeout_secs && is_none values.keep_alive_secs
    then none
    else some values

module _ {E : Type 0} (engine : Engine E) where
  -- `write_setting`, whose error is the driver's own.
  unfoldable pub write_setting : SettingOwner → Text → Option ℕ → ℤ → Database → Result E Database
  unfolding write_rows
  write_setting owner key value now db = elim (engine key db) [
    | none ↦ ok (record db { settings = write_rows owner key value now db.settings })
    | some source ↦ err source
  ]

  -- `apply_settings`.
  unfoldable pub apply_settings :
      SettingOwner → ConnectionSettingsOverride → ℤ → Database → Result E Database
  unfolding write_setting
  apply_settings owner settings now db = do
    timed ← write_setting owner connect_timeout_key settings.connect_timeout_secs now db
    write_setting owner keep_alive_key settings.keep_alive_secs now timed

  -- `.map_err(|source| database_operation(operation, source))` after it.
  unfoldable pub apply_settings_as :
      Text
      → SettingOwner
      → ConnectionSettingsOverride
      → ℤ
      → Database
      → Result (PersistenceError E) Database
  unfolding apply_settings
  apply_settings_as operation owner settings now db = elim (apply_settings owner settings now db) [
    | ok after ↦ ok after
    | err source ↦ err (database_operation operation source)
  ]

  -- The owner that a scope names.
  unfoldable pub scope_owner : ConnectionSettingsScope → Result (PersistenceError E) SettingOwner
  scope_owner global_scope = ok global
  scope_owner (group_scope id) =
      if not (is_blank id) then ok (group id) else err invalid_connection_configuration
  scope_owner (connection_scope id) =
      if not (is_blank id) then ok (connection id) else err invalid_connection_configuration

  unfoldable pub check_scope :
      ConnectionSettingsScope → ℕ → Result (PersistenceError E) (SettingOwner × ℤ)
  unfolding scope_owner timestamp_to_i64
  check_scope scope now_ms = do
    owner ← scope_owner scope
    now ← timestamp_to_i64 now_ms
    ok (owner, now)

  unfoldable pub save_settings_transaction :
      ConnectionSettingsOverride → SettingOwner × ℤ → Database → Outcome E (Unit {0})
  unfolding transact apply_settings_as
  save_settings_transaction settings (owner, now) =
      transact engine (codes "start a settings transaction")
        (λ db.
          apply_settings_as (codes "save scoped connection settings") owner settings now db
          >>= λ after. ok (after, tt))
        (codes "commit a settings transaction")

  -- `save_settings`.
  unfoldable pub save_settings :
      ConnectionSettingsScope → ConnectionSettingsOverride → ℕ → Database → Outcome E (Unit {0})
  unfolding check_scope save_settings_transaction
  save_settings scope settings now_ms =
      guarded (check_scope scope now_ms) (save_settings_transaction settings)

  module _ (parse_json : Text → Option ℕ) where
    -- `load_setting_override`.
    unfoldable pub load_setting_override :
        SettingOwner → Database → Result (PersistenceError E) (Option ConnectionSettingsOverride)
    unfolding call reads select_where read_rows
    load_setting_override owner db = do
      call engine (codes "prepare scoped connection settings") db
      call engine (codes "query scoped connection settings") db
      call engine (codes "read scoped connection settings") db
      values ← read_rows parse_json no_override (select_where (reads owner) db.settings)
      ok (override_or_none values)

    unfoldable pub load_group_override :
        Option Text → Database → Result (PersistenceError E) (Option ConnectionSettingsOverride)
    unfolding load_setting_override
    load_group_override none db = ok none
    load_group_override (some id) db = load_setting_override (group id) db

    -- `load_settings_layers`.
    unfoldable pub load_settings_layers :
        Text → Option Text → Database → Result (PersistenceError E) ConnectionSettingsLayers
    unfolding load_setting_override load_group_override
    load_settings_layers connection_id group_id db = do
      global_layer ← load_setting_override global db
      group_layer ← load_group_override group_id db
      connection_layer ← load_setting_override (connection connection_id) db
      ok (record { global = global_layer; group = group_layer; connection = connection_layer })
