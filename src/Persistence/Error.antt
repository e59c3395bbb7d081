-- ===== src/Persistence/Error.antt =====
-- crates/persistence/src/error.rs: `PersistenceError`. E stands for the errors of other crates that
-- some variants keep as their source.
use bx_ssh.Common.{ℕ}
use bx_ssh.Common.Text.{Text}

-- What a stored record is (`entity`).
pub data Entity : Type 0 where
  connection_group connection recent_connection : Entity
  connection_setting host_fingerprint : Entity

pub data PersistenceError (E : Type 0) : Type 0 where
  random_source : E → PersistenceError E
  credential_store_locked credential_store_unavailable : PersistenceError E
  credential_store_failure : Text → PersistenceError E
  database_key_missing database_missing_for_stored_key : PersistenceError E
  invalid_data_key_length : ℕ → PersistenceError E
  database_open database_unlock : E → PersistenceError E
  sql_cipher_unavailable : PersistenceError E
  migration_failed : ℕ → E → PersistenceError E
  invalid_migration_order : PersistenceError E
  database_version_too_new : ℕ → ℕ → PersistenceError E
  database_operation : Text → E → PersistenceError E
  invalid_connection_configuration : PersistenceError E
  invalid_stored_record : Entity → PersistenceError E
  host_fingerprint_conflict invalid_credential invalid_timestamp : PersistenceError E
  invalid_envelope unsupported_envelope : PersistenceError E
  key_derivation : E → PersistenceError E
  encryption_failed authentication_failed : PersistenceError E
  invalid_private_key invalid_private_key_record : PersistenceError E
