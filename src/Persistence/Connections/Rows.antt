-- ===== src/Persistence/Connections/Rows.antt =====
-- crates/persistence/src/repository.rs: rows read back as connections (`RawConnection`), the list
-- and one connection with its settings.
use bx_ssh.Common.{
  ℕ, Bool, Option, none, some, List, Result, ok, err, reject_if, ◌>>◌, ◌>>=◌, find, is_none,
}
use bx_ssh.Common.Text.{Text, codes, text_eq}
use bx_ssh.Contracts.Connection
use bx_ssh.Contracts.Connection.{ConnectionConfig, AuthMethod, from_database_value, is_blank}
use bx_ssh.Contracts.Group.{ConnectionListItem, ConnectionDetails, ConnectionCatalog}
use bx_ssh.Contracts.Settings.{resolve}
use bx_ssh.Persistence.Error.{
  PersistenceError, connection, recent_connection, invalid_connection_configuration,
  invalid_stored_record,
}
use bx_ssh.Persistence.Integers.{ℤ, pos, at_most, stored_u16, stored_u32, stored_u64, stored_bool}
use bx_ssh.Persistence.Table.{select_where, order_by, text_at_most, null_at_most, no_case, then_by}
use bx_ssh.Persistence.Schema.{ConnectionRow, RecentRow, Database}
use bx_ssh.Persistence.Driver.{Engine, call}
use bx_ssh.Persistence.Groups.{collect, list_groups}
use bx_ssh.Persistence.Settings.{load_settings_layers}
use bx_ssh.Persistence.Connections.{is_listed}

pub record RawConnection : Type 0 where
  pub id : Text
  pub group_id : Option Text
  pub name : Text
  pub host : Text
  pub port : ℤ
  pub username : Text
  pub notes : Option Text
  pub color : Option Text
  pub auth_method : Text
  pub credential_ref : Option Text
  pub key_reference_id : Option Text
  pub is_favorite : ℤ
  pub sort_order : ℤ
  pub revision : ℤ
  pub last_connected_at : Option ℤ
  pub successful_connection_count : ℤ

-- LEFT JOIN recent_connections, whose key is the connection's id.
abbrev pub recent_of : List RecentRow → ConnectionRow → Option RecentRow
recent_of recents row = find (λ recent. text_eq recent.connection_id row.id) recents

abbrev pub last_connected : Option RecentRow → Option ℤ
last_connected none = none
last_connected (some recent) = some recent.last_connected_at

-- `COALESCE(r.successful_connection_count, 0)`.
abbrev pub connection_count : Option RecentRow → ℤ
connection_count none = pos 0
connection_count (some recent) = recent.successful_connection_count

-- `RawConnection::from_row` of the joined row.
unfoldable pub from_row : List RecentRow → ConnectionRow → RawConnection
from_row recents row = record {
  id = row.id;
  group_id = row.group_id;
  name = row.name;
  host = row.host;
  port = row.port;
  username = row.username;
  notes = row.notes;
  color = row.color;
  auth_method = row.auth_method;
  credential_ref = row.credential_ref;
  key_reference_id = row.key_reference_id;
  is_favorite = row.is_favorite;
  sort_order = row.sort_order;
  revision = row.revision;
  last_connected_at = last_connected (recent_of recents row);
  successful_connection_count = connection_count (recent_of recents row);
}

abbrev pub raw_config : RawConnection → ℕ → AuthMethod → ConnectionConfig
raw_config raw port auth_method = record {
  id = raw.id;
  group_id = raw.group_id;
  name = raw.name;
  host = raw.host;
  port = port;
  username = raw.username;
  notes = raw.notes;
  color = raw.color;
  auth_method = auth_method;
  credential_ref = raw.credential_ref;
  key_reference_id = raw.key_reference_id;
}

module _ {E : Type 0} where
  -- `ok_or(InvalidStoredRecord)` and `map_err` to it.
  abbrev pub as_stored : {V : Type 0} → Result V (Unit {0}) → Result (PersistenceError E) (Unit {0})
  as_stored (ok _) = ok tt
  as_stored (err _) = err (invalid_stored_record connection)

  abbrev pub stored_method : Option AuthMethod → Result (PersistenceError E) AuthMethod
  stored_method none = err (invalid_stored_record connection)
  stored_method (some auth_method) = ok auth_method

  -- `.map(stored_u64).transpose()?`.
  abbrev pub stored_time : Option ℤ → Result (PersistenceError E) (Option ℕ)
  stored_time none = ok none
  stored_time (some value) = stored_u64 value recent_connection >>= λ time. ok (some time)

  -- `RawConnection::into_list_item`.
  unfoldable pub into_list_item : RawConnection → Result (PersistenceError E) ConnectionListItem
  unfolding from_database_value stored_u16 stored_bool stored_u32 stored_u64 Connection.validate
  into_list_item raw = do
    auth_method ← stored_method (from_database_value raw.auth_method)
    port ← stored_u16 raw.port connection
    as_stored (Connection.validate (raw_config raw port auth_method))
    is_favorite ← stored_bool raw.is_favorite connection
    sort_order ← stored_u32 raw.sort_order connection
    last_connected_at ← stored_time raw.last_connected_at
    count ← stored_u64 raw.successful_connection_count recent_connection
    revision ← stored_u64 raw.revision connection
    ok (record {
      config = raw_config raw port auth_method;
      is_favorite = is_favorite;
      sort_order = sort_order;
      last_connected_at = last_connected_at;
      successful_connection_count = count;
      revision = revision;
    })

-- ORDER BY group_id, is_favorite DESC, sort_order, name, id.
unfoldable pub connection_before : ConnectionRow → ConnectionRow → Bool
unfolding null_at_most at_most text_at_most
connection_before a b =
    then_by (null_at_most a.group_id b.group_id) (null_at_most b.group_id a.group_id) (
      then_by (at_most b.is_favorite a.is_favorite) (at_most a.is_favorite b.is_favorite) (
        then_by (at_most a.sort_order b.sort_order) (at_most b.sort_order a.sort_order) (
          then_by (text_at_most (no_case a.name) (no_case b.name))
            (text_at_most (no_case b.name) (no_case a.name)) (text_at_most a.id b.id))))

module _ {E : Type 0} (engine : Engine E) where
  -- `list_connections`.
  unfoldable pub list_connections : Database → Result (PersistenceError E) (List ConnectionListItem)
  unfolding call select_where order_by connection_before from_row into_list_item collect
  list_connections db = do
    call engine (codes "prepare a connection list query") db
    call engine (codes "query connections") db
    call engine (codes "read a connection") db
    collect (λ row. into_list_item (from_row db.recent_connections row))
        (order_by connection_before (select_where (λ row. is_none row.deleted_at) db.connections))

  -- `list_catalog`.
  unfoldable pub list_catalog : Database → Result (PersistenceError E) ConnectionCatalog
  unfolding list_groups list_connections
  list_catalog db = do
    groups ← list_groups engine db
    connections ← list_connections db
    ok (record { groups = groups; connections = connections })

  module _ (parse_json : Text → Option ℕ) where
    -- A row that was found, with its settings.
    unfoldable pub read_details :
        ConnectionRow → Database → Result (PersistenceError E) (Option ConnectionDetails)
    unfolding from_row into_list_item load_settings_layers resolve
    read_details row db = do
      item ← into_list_item (from_row db.recent_connections row)
      layers ← load_settings_layers engine parse_json item.config.id item.config.group_id db
      ok (
          some (record {
            connection = item;
            settings = record { layers = layers; resolved = resolve layers };
          }))

    unfoldable pub read_first :
        Option ConnectionRow → Database → Result (PersistenceError E) (Option ConnectionDetails)
    unfolding read_details
    read_first none db = ok none
    read_first (some row) db = read_details row db

    -- `get_connection`: `query_row` takes the first row.
    unfoldable pub get_connection :
        Text → Database → Result (PersistenceError E) (Option ConnectionDetails)
    unfolding call read_first
    get_connection id db = do
      reject_if (is_blank id) invalid_connection_configuration
      call engine (codes "prepare a connection query") db
      call engine (codes "query a connection") db
      read_first (find (is_listed id) db.connections) db
