-- ===== src/Ssh/Error.antt =====
-- crates/ssh-core/src/error.rs: `SshError`, and the stage that each error belongs to.
use bx_ssh.Common.{Option, none, some, if◌then◌else◌}
use bx_ssh.Common.Text.{Text}
use bx_ssh.Ssh.Foreign.{
  IoErrorKind, connection_refused, network_unreachable, host_unreachable, addr_not_available,
  timed_out, Foreign,
}
use bx_ssh.Ssh.Stage.{
  SshConnectionStage, resolving_dns, connecting_tcp, handshaking, authenticating, opening_channel,
}

pub data SshError (F : Foreign) : Type 0 where
  invalid_host invalid_port invalid_username invalid_fingerprint : SshError F
  connect_timeout dns_lookup_timeout : SshError F
  dns_lookup_failed : IoErrorKind → SshError F
  tcp_connect_timeout : SshError F
  connection_refused_by : IoErrorKind → SshError F
  network_unreachable_for : IoErrorKind → SshError F
  tcp_connect_failed : IoErrorKind → SshError F
  handshake_timeout : SshError F
  handshake_failed : F.RusshError → SshError F
  negotiated_algorithms_unavailable connection_cancelled authentication_timeout : SshError F
  authentication_failed : F.RusshError → SshError F
  host_key_unavailable : SshError F
  host_key_mismatch : Text → Text → SshError F
  authentication_rejected : Text → SshError F
  legacy_rsa_signature_only invalid_terminal_size invalid_remote_path : SshError F
  invalid_local_file local_target_exists remote_target_exists : SshError F
  transfer_integrity_mismatch : Text → Text → SshError F
  channel_request_rejected : Text → SshError F
  channel_closed : Text → SshError F
  channel_open_failed : F.RusshError → SshError F
  keep_alive_failed : SshError F
  private_key_failed : F.KeysError → SshError F
  sftp : F.SftpError → SshError F
  transfer_io : IoErrorKind → SshError F
  transport : F.RusshError → SshError F

-- `From<russh::Error>`.
unfoldable pub from_russh : {F : Foreign} → F.RusshError → SshError F
from_russh {F} error = if F.is_keepalive_timeout error then keep_alive_failed else transport error

-- `SshError::connection_stage`.
unfoldable pub connection_stage : {F : Foreign} → SshError F → Option SshConnectionStage
connection_stage dns_lookup_timeout = some resolving_dns
connection_stage (dns_lookup_failed _) = some resolving_dns
connection_stage connect_timeout = some connecting_tcp
connection_stage tcp_connect_timeout = some connecting_tcp
connection_stage (connection_refused_by _) = some connecting_tcp
connection_stage (network_unreachable_for _) = some connecting_tcp
connection_stage (tcp_connect_failed _) = some connecting_tcp
connection_stage handshake_timeout = some handshaking
connection_stage (handshake_failed _) = some handshaking
connection_stage negotiated_algorithms_unavailable = some handshaking
connection_stage host_key_unavailable = some handshaking
connection_stage (host_key_mismatch _ _) = some handshaking
connection_stage invalid_username = some authenticating
connection_stage authentication_timeout = some authenticating
connection_stage (authentication_failed _) = some authenticating
connection_stage (authentication_rejected _) = some authenticating
connection_stage legacy_rsa_signature_only = some authenticating
connection_stage (private_key_failed _) = some authenticating
connection_stage (channel_request_rejected _) = some opening_channel
connection_stage (channel_closed _) = some opening_channel
connection_stage (channel_open_failed _) = some opening_channel
connection_stage _ = none

-- crates/ssh-core/src/session.rs: `classify_tcp_error`.
unfoldable pub classify_tcp_error : {F : Foreign} → IoErrorKind → SshError F
classify_tcp_error connection_refused = connection_refused_by connection_refused
classify_tcp_error network_unreachable = network_unreachable_for network_unreachable
classify_tcp_error host_unreachable = network_unreachable_for host_unreachable
classify_tcp_error addr_not_available = network_unreachable_for addr_not_available
classify_tcp_error timed_out = tcp_connect_timeout
classify_tcp_error kind = tcp_connect_failed kind
