-- ===== src/Tests/Contracts.antt =====
-- Tests of the contracts.
use bx_ssh.Common.{ℕ, ◌≡◌, ◌↔◌, refl, none, some, [], ◌∷◌, ok, err, true, false}
use bx_ssh.Common.Text.{Text, codes}
use bx_ssh.Contracts.Connection
use bx_ssh.Contracts.Connection.{
  password, private_key, database_value, from_database_value, missing_name,
}
use bx_ssh.Contracts.Connection.Validity.{IsValidConfig, validate_ok_iff, Blames, validate-Blames}
use bx_ssh.Contracts.Colors.{is_hex_color, IsHexColor, is_hex_color_iff}
use bx_ssh.Contracts.Settings.{ConnectionSettingsLayers}
use bx_ssh.Tests.Fixtures.{server_config}

validate_ok_iff_example : (Connection.validate server_config ≡ ok tt) ↔ IsValidConfig server_config
validate_ok_iff_example = validate_ok_iff server_config

nameless_refused :
    Connection.validate (record server_config { name = codes " " }) ≡ err missing_name
unfolding Connection.validate Connection.is_blank bx_ssh.Common.Text.trim
    bx_ssh.Common.Text.is_whitespace
nameless_refused = refl

validate-Blames_example : Blames missing_name (record server_config { name = codes " " })
validate-Blames_example =
    validate-Blames (record server_config { name = codes " " }) missing_name nameless_refused

is_hex_color_iff_example : (is_hex_color (codes "#12abEF") ≡ true) ↔ IsHexColor (codes "#12abEF")
is_hex_color_iff_example = is_hex_color_iff (codes "#12abEF")

abbrev layers : ConnectionSettingsLayers
layers = record {
  global = some (record { connect_timeout_secs = some 20; keep_alive_secs = none });
  group = none;
  connection = some (record { connect_timeout_secs = some 5; keep_alive_secs = some 0 });
}
