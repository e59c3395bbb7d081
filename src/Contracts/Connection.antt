-- ===== src/Contracts/Connection.antt =====
-- crates/contracts/src/connection.rs: `AuthMethod`, `ConnectionConfig` and its validation.
pub mod Validity
pub mod Stored
use bx_ssh.Common.{
  ℕ, Bool, true, false, not, ◌||◌, Option, none, some, [], Result, ok, err, reject_if, ◌>>◌, ◌>>=◌,
  is_empty, is_some, is_none, is_some_and, ◌==◌, if◌then◌else◌,
}
use bx_ssh.Common.Text.{Text, codes, text_eq, trim}
use bx_ssh.Contracts.Colors.{is_hex_color}

abbrev pub default_connection_port : ℕ
default_connection_port = 22

pub data AuthMethod : Type 0 where
  password private_key keyboard_interactive : AuthMethod

unfoldable pub database_value : AuthMethod → Text
database_value password = codes "password"
database_value private_key = codes "private_key"
database_value keyboard_interactive = codes "keyboard_interactive"

unfoldable pub from_database_value : Text → Option AuthMethod
unfolding text_eq
from_database_value value =
    if text_eq value (codes "password")
    then some password
    else if text_eq value (codes "private_key")
    then some private_key
    else if text_eq value (codes "keyboard_interactive")
    then some keyboard_interactive
    else none

pub record ConnectionConfig : Type 0 where
  pub id : Text
  pub group_id : Option Text
  pub name : Text
  pub host : Text
  pub port : ℕ  -- u16
  pub username : Text
  pub notes : Option Text
  pub color : Option Text
  pub auth_method : AuthMethod
  pub credential_ref : Option Text
  pub key_reference_id : Option Text

-- `ConnectionConfig::new`.
unfoldable pub new : Text → Text → Text → Text → ConnectionConfig
new id name host username = record {
  id = id;
  group_id = none;
  name = name;
  host = host;
  port = default_connection_port;
  username = username;
  notes = none;
  color = none;
  auth_method = password;
  credential_ref = none;
  key_reference_id = none;
}

pub data ConnectionValidationError : Type 0 where
  missing_id invalid_group_reference missing_name missing_host : ConnectionValidationError
  invalid_port missing_username invalid_color : ConnectionValidationError
  invalid_credential_reference invalid_key_reference : ConnectionValidationError
  missing_key_reference conflicting_authentication_references : ConnectionValidationError

-- `value.trim().is_empty()`.
unfoldable pub is_blank : Text → Bool
is_blank t = is_empty (trim t)

-- The closing `match` on the method: whether each reference is present.
unfoldable pub validate_references :
    AuthMethod → Bool → Bool → Result ConnectionValidationError (Unit {0})
validate_references password has_credential has_key =
    reject_if has_key conflicting_authentication_references
validate_references private_key has_credential has_key = do
  reject_if (not has_key) missing_key_reference
  reject_if has_credential conflicting_authentication_references
validate_references keyboard_interactive has_credential has_key =
    reject_if (has_credential || has_key) conflicting_authentication_references

-- `ConnectionConfig::validate`: the first guard that fails gives the error.
unfoldable pub validate : ConnectionConfig → Result ConnectionValidationError (Unit {0})
validate c = do
  reject_if (is_blank c.id) missing_id
  reject_if (is_some_and is_blank c.group_id) invalid_group_reference
  reject_if (is_blank c.name) missing_name
  reject_if (is_blank c.host) missing_host
  reject_if (c.port == 0) invalid_port
  reject_if (is_blank c.username) missing_username
  reject_if (is_some_and (λ color. not (is_hex_color color)) c.color) invalid_color
  reject_if (is_some_and is_blank c.credential_ref) invalid_credential_reference
  reject_if (is_some_and is_blank c.key_reference_id) invalid_key_reference
  validate_references c.auth_method (is_some c.credential_ref) (is_some c.key_reference_id)
