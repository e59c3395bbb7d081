-- ===== src/Ssh/Endpoint.antt =====
-- crates/ssh-core/src/endpoint.rs: the address of a server with its timeouts. A `Duration` is its
-- whole seconds here: every duration that the program makes is one of whole seconds.
pub mod Validity
use bx_ssh.Common.{
  ℕ, ◌<◌, ◌≡◌, ◌≢◌, ◌↔◌, ◌⊎◌, refl, sym, ◌∙◌, Bool, true, false, Option, none, some, [], Result, ok,
  err, reject_if, ◌>>◌, ◌>>=◌, is_empty, ◌==◌, ltb, if◌then◌else◌, arith,
}
use bx_ssh.Common.Text.{Text, trim}
use bx_ssh.Common.Text.Trim.{IsBlank, trim_eq_nil_iff, trim-trim}
use bx_ssh.Contracts.Settings.{ConnectionSettings}
use bx_ssh.Ssh.Foreign.{Foreign}
use bx_ssh.Ssh.Error.{SshError, invalid_host, invalid_port}

abbrev pub default_connect_timeout : ℕ
default_connect_timeout = 10

abbrev pub default_operation_timeout : ℕ
default_operation_timeout = 30

pub record SshEndpoint : Type 0 where
  pub host : Text
  pub port : ℕ  -- u16
  pub connect_timeout : ℕ
  pub operation_timeout : ℕ
  pub keep_alive_interval : Option ℕ

-- `SshEndpoint::new`.
unfoldable pub new : {F : Foreign} → Text → ℕ → Result (SshError F) SshEndpoint
new given port =
    let host = trim given in
    reject_if (is_empty host) invalid_host
    >> (reject_if (port == 0) invalid_port
        >> ok (record {
          host = host;
          port = port;
          connect_timeout = default_connect_timeout;
          operation_timeout = default_operation_timeout;
          keep_alive_interval = some default_operation_timeout;
        }))

unfoldable pub with_connect_timeout : SshEndpoint → ℕ → SshEndpoint
with_connect_timeout e timeout = record e { connect_timeout = timeout }

unfoldable pub with_operation_timeout : SshEndpoint → ℕ → SshEndpoint
with_operation_timeout e timeout = record e { operation_timeout = timeout }

unfoldable pub with_keep_alive_interval : SshEndpoint → Option ℕ → SshEndpoint
with_keep_alive_interval e interval = record e { keep_alive_interval = interval }

-- `with_connection_settings`: an interval of 0 seconds turns keep-alive messages off.
unfoldable pub with_connection_settings : SshEndpoint → ConnectionSettings → SshEndpoint
unfolding with_connect_timeout with_keep_alive_interval
with_connection_settings e settings =
    with_keep_alive_interval (with_connect_timeout e settings.connect_timeout_secs)
      (if ltb 0 settings.keep_alive_secs then some settings.keep_alive_secs else none)
