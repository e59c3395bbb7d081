-- ===== src/Desktop/CommandError/Stored.antt =====
-- apps/desktop/src-tauri/src/command_error.rs: `From<PersistenceError>`. The text of an error is a
-- parameter, `display`.
use bx_ssh.Common.Text.{Text}
use bx_ssh.Persistence.Error
use bx_ssh.Persistence.Error.{PersistenceError}
use bx_ssh.Desktop.CommandError.{
  CommandErrorCode, CommandError, new, database_query_failed, database_unavailable,
  invalid_credential, credential_store_locked, credential_store_unavailable,
  credential_store_failed,
}

unfoldable pub persistence_error_code : {E : Type 0} → PersistenceError E → CommandErrorCode
persistence_error_code (Error.database_operation operation source) = database_query_failed
persistence_error_code Error.invalid_connection_configuration = database_query_failed
persistence_error_code (Error.invalid_stored_record entity) = database_query_failed
persistence_error_code Error.invalid_timestamp = database_query_failed
persistence_error_code Error.invalid_credential = invalid_credential
persistence_error_code Error.credential_store_locked = credential_store_locked
persistence_error_code Error.credential_store_unavailable = credential_store_unavailable
persistence_error_code (Error.credential_store_failure operation) = credential_store_failed
persistence_error_code _ = database_unavailable

unfoldable pub from_persistence_error :
    {E : Type 0} → (PersistenceError E → Text) → PersistenceError E → CommandError
unfolding new persistence_error_code
from_persistence_error display error = new (persistence_error_code error) (display error)
