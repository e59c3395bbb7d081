-- ===== src/Desktop/CommandError/Stages.antt =====
-- How the codes of command errors agree with the stages of the errors of a connection.
use bx_ssh.Common.{◌≡◌, ◌≢◌, refl, Option, none, some}
use bx_ssh.Common.Text.{Text}
use bx_ssh.Ssh.Foreign.{Foreign}
use bx_ssh.Ssh.Stage.{
  SshConnectionStage, resolving_dns, connecting_tcp, handshaking, authenticating, opening_channel,
}
use bx_ssh.Ssh.Error.{SshError, connection_stage}
use bx_ssh.Desktop.CommandError.{CommandErrorCode, from_ssh_error}

-- The stage of a connection that a code speaks of.
abbrev pub stage_of_code : CommandErrorCode → Option SshConnectionStage
stage_of_code CommandErrorCode.dns_lookup_timeout = some resolving_dns
stage_of_code CommandErrorCode.dns_lookup_failed = some resolving_dns
stage_of_code CommandErrorCode.connect_timeout = some connecting_tcp
stage_of_code CommandErrorCode.tcp_connect_timeout = some connecting_tcp
stage_of_code CommandErrorCode.connection_refused = some connecting_tcp
stage_of_code CommandErrorCode.network_unreachable = some connecting_tcp
stage_of_code CommandErrorCode.tcp_connect_failed = some connecting_tcp
stage_of_code CommandErrorCode.handshake_timeout = some handshaking
stage_of_code CommandErrorCode.handshake_failed = some handshaking
stage_of_code CommandErrorCode.host_key_unavailable = some handshaking
stage_of_code CommandErrorCode.host_key_mismatch = some handshaking
stage_of_code CommandErrorCode.invalid_username = some authenticating
stage_of_code CommandErrorCode.authentication_timeout = some authenticating
stage_of_code CommandErrorCode.authentication_rejected = some authenticating
stage_of_code CommandErrorCode.legacy_rsa_signature_only = some authenticating
stage_of_code CommandErrorCode.private_key_error = some authenticating
stage_of_code CommandErrorCode.channel_request_rejected = some opening_channel
stage_of_code CommandErrorCode.channel_closed = some opening_channel
stage_of_code _ = none

-- Every code of an SSH error but the one for transport errors, which three errors of different stages
-- share, tells the stage that is reported with it.
pub code_tells_stage :
    {F : Foreign} (display : SshError F → Text) (error : SshError F)
    → (from_ssh_error display error).code ≢ CommandErrorCode.transport_error
    → (from_ssh_error display error).stage ≡ stage_of_code (from_ssh_error display error).code
unfolding from_ssh_error connection_stage
code_tells_stage display SshError.invalid_host h = refl
code_tells_stage display (SshError.authentication_failed _) h = absurd (h refl)
code_tells_stage display (SshError.channel_open_failed _) h = absurd (h refl)
code_tells_stage display _ h = refl
