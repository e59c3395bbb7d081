-- ===== src/Persistence/Commands.antt =====
-- crates/persistence/src/repository.rs: the operations of `ConnectionRepository` that change the
-- database, as commands, and the states that they reach.
pub mod Reached
pub mod Evolution
use bx_ssh.Common.{ℕ, Bool, Option, List, Result, ok, err}
use bx_ssh.Common.Text.{Text}
use bx_ssh.Contracts.Connection.{ConnectionConfig}
use bx_ssh.Contracts.Group.{ConnectionGroup}
use bx_ssh.Contracts.Settings.{ConnectionSettingsOverride, ConnectionSettingsScope}
use bx_ssh.Ssh.Connect.{HostKeyInfo}
use bx_ssh.Persistence.Error.{PersistenceError}
use bx_ssh.Persistence.Schema.{Database}
use bx_ssh.Persistence.Driver.{Engine, Outcome}
use bx_ssh.Persistence.Hosts.{trust_host_fingerprint}
use bx_ssh.Persistence.Groups.{save_group, delete_group, set_group_collapsed}
use bx_ssh.Persistence.Ordering.{reorder_groups, reorder_connections}
use bx_ssh.Persistence.Settings.{save_settings}
use bx_ssh.Persistence.Connections.{
  save_connection, import_connections, delete_connection, set_connection_favorite,
  record_successful_connection,
}

-- A call with its arguments; the last number is the time (`now_ms`), and the first text of a trust
-- is the id that the database draws for a new row.
pub data Command : Type 0 where
  trust : Text → Text → ℕ → HostKeyInfo → ℕ → Command
  store_group : ConnectionGroup → ℕ → Command
  drop_group : Text → ℕ → Command
  collapse_group : Text → Bool → ℕ → Command
  order_groups : List Text → ℕ → Command
  store_connection : ConnectionConfig → ConnectionSettingsOverride → ℕ → Command
  import_all : List ConnectionConfig → ℕ → Command
  store_settings : ConnectionSettingsScope → ConnectionSettingsOverride → ℕ → Command
  drop_connection : Text → ℕ → Command
  favor_connection : Text → Bool → ℕ → Command
  order_connections : Option Text → List Text → ℕ → Command
  record_login : Text → ℕ → Command

-- The answer without its value.
abbrev pub forget : {E A : Type 0} → Outcome E A → Outcome E (Unit {0})
forget (db, ok a) = (db, ok tt)
forget (db, err e) = (db, err e)

module _ {E : Type 0} (engine : Engine E) where
  unfoldable pub perform : Command → Database → Outcome E (Unit {0})
  unfolding trust_host_fingerprint save_group delete_group set_group_collapsed reorder_groups
      save_connection import_connections save_settings delete_connection set_connection_favorite
      reorder_connections record_successful_connection
  perform (trust row_id host port key now) db =
      trust_host_fingerprint engine row_id host port key now db
  perform (store_group group now) db = save_group engine group now db
  perform (drop_group id now) db = forget (delete_group engine id now db)
  perform (collapse_group id collapsed now) db =
      forget (set_group_collapsed engine id collapsed now db)
  perform (order_groups ids now) db = reorder_groups engine ids now db
  perform (store_connection config settings now) db = save_connection engine config settings now db
  perform (import_all configs now) db = import_connections engine configs now db
  perform (store_settings scope settings now) db = save_settings engine scope settings now db
  perform (drop_connection id now) db = forget (delete_connection engine id now db)
  perform (favor_connection id favorite now) db =
      forget (set_connection_favorite engine id favorite now db)
  perform (order_connections group ids now) db = reorder_connections engine group ids now db
  perform (record_login id now) db = forget (record_successful_connection engine id now db)

  -- The databases that calls reach from one.
  pub data Reaches (start : Database) : Database → Type 0 where
    here : Reaches start start
    later : {db : Database} → Reaches start db → (c : Command) → Reaches start (perform c db).0
