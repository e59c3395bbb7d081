-- ===== src/Desktop/CommandError.antt =====
-- apps/desktop/src-tauri/src/command_error.rs: the errors that commands report to the frontend. The
-- text of an error (`to_string`) is generated code: a parameter, `display`.
pub mod Stages
pub mod Stored
use bx_ssh.Common.{Option, none, some, ◌++◌}
use bx_ssh.Common.Text.{Text, codes}
use bx_ssh.Ssh.Foreign.{Foreign}
use bx_ssh.Ssh.Stage.{SshConnectionStage}
use bx_ssh.Ssh.Error.{SshError, connection_stage}

pub data CommandErrorCode : Type 0 where
  invalid_host invalid_port invalid_username invalid_fingerprint : CommandErrorCode
  invalid_terminal_size invalid_remote_path invalid_local_file : CommandErrorCode
  local_target_exists remote_target_exists transfer_integrity_mismatch : CommandErrorCode
  connect_timeout dns_lookup_timeout dns_lookup_failed : CommandErrorCode
  tcp_connect_timeout connection_refused network_unreachable : CommandErrorCode
  tcp_connect_failed handshake_timeout handshake_failed : CommandErrorCode
  connection_cancelled invalid_connection_attempt connection_attempt_conflict : CommandErrorCode
  session_state_invalid authentication_timeout host_key_unavailable : CommandErrorCode
  host_key_mismatch authentication_rejected legacy_rsa_signature_only : CommandErrorCode
  channel_request_rejected channel_closed keep_alive_failed private_key_error : CommandErrorCode
  sftp_error transfer_io_error transport_error session_not_found : CommandErrorCode
  session_closed update_not_available update_changed update_signature_invalid : CommandErrorCode
  update_insecure_endpoint update_unavailable update_failed : CommandErrorCode
  webview_memory_usage_failed database_unavailable database_query_failed : CommandErrorCode
  credential_store_locked credential_store_unavailable credential_store_failed : CommandErrorCode
  invalid_credential open_ssh_config_not_found open_ssh_config_io_error : CommandErrorCode
  open_ssh_config_invalid : CommandErrorCode

pub record CommandError : Type 0 where
  pub code : CommandErrorCode
  pub message : Text
  pub stage : Option SshConnectionStage

-- `CommandError::new`, `with_stage`, `session_not_found` and `session_closed`.
unfoldable pub new : CommandErrorCode → Text → CommandError
new code message = record { code = code; message = message; stage = none }

unfoldable pub with_stage : CommandError → Option SshConnectionStage → CommandError
with_stage e stage = record e { stage = stage }

unfoldable pub session_not_found_error : Text → CommandError
unfolding new
session_not_found_error kind = new session_not_found (kind ++ codes " session was not found")

unfoldable pub session_closed_error : Text → CommandError
unfolding new
session_closed_error kind = new session_closed (kind ++ codes " session is already closed")

-- The `match` of `From<SshError>`.
unfoldable pub ssh_error_code : {F : Foreign} → SshError F → CommandErrorCode
ssh_error_code SshError.invalid_host = invalid_host
ssh_error_code SshError.invalid_port = invalid_port
ssh_error_code SshError.invalid_username = invalid_username
ssh_error_code SshError.invalid_fingerprint = invalid_fingerprint
ssh_error_code SshError.invalid_terminal_size = invalid_terminal_size
ssh_error_code SshError.invalid_remote_path = invalid_remote_path
ssh_error_code SshError.invalid_local_file = invalid_local_file
ssh_error_code SshError.local_target_exists = local_target_exists
ssh_error_code SshError.remote_target_exists = remote_target_exists
ssh_error_code SshError.connect_timeout = connect_timeout
ssh_error_code SshError.dns_lookup_timeout = dns_lookup_timeout
ssh_error_code SshError.tcp_connect_timeout = tcp_connect_timeout
ssh_error_code SshError.handshake_timeout = handshake_timeout
ssh_error_code SshError.connection_cancelled = connection_cancelled
ssh_error_code SshError.authentication_timeout = authentication_timeout
ssh_error_code SshError.host_key_unavailable = host_key_unavailable
ssh_error_code SshError.legacy_rsa_signature_only = legacy_rsa_signature_only
ssh_error_code SshError.keep_alive_failed = keep_alive_failed
ssh_error_code (SshError.dns_lookup_failed _) = dns_lookup_failed
ssh_error_code (SshError.connection_refused_by _) = connection_refused
ssh_error_code (SshError.network_unreachable_for _) = network_unreachable
ssh_error_code (SshError.tcp_connect_failed _) = tcp_connect_failed
ssh_error_code (SshError.handshake_failed _) = handshake_failed
ssh_error_code (SshError.authentication_failed _) = transport_error
ssh_error_code (SshError.authentication_rejected _) = authentication_rejected
ssh_error_code (SshError.channel_request_rejected _) = channel_request_rejected
ssh_error_code (SshError.channel_closed _) = channel_closed
ssh_error_code (SshError.channel_open_failed _) = transport_error
ssh_error_code (SshError.private_key_failed _) = private_key_error
ssh_error_code (SshError.sftp _) = sftp_error
ssh_error_code (SshError.transfer_io _) = transfer_io_error
ssh_error_code (SshError.transport _) = transport_error
ssh_error_code (SshError.transfer_integrity_mismatch _ _) = transfer_integrity_mismatch
ssh_error_code (SshError.host_key_mismatch _ _) = host_key_mismatch
ssh_error_code SshError.negotiated_algorithms_unavailable = handshake_failed

-- `From<SshError>`.
unfoldable pub from_ssh_error : {F : Foreign} → (SshError F → Text) → SshError F → CommandError
unfolding new with_stage ssh_error_code
from_ssh_error display error =
    with_stage (new (ssh_error_code error) (display error)) (connection_stage error)
