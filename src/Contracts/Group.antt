-- ===== src/Contracts/Group.antt =====
-- crates/contracts/src/connection.rs: `ConnectionGroup`, the catalog that lists connections.
pub mod Validity
use bx_ssh.Common.{
  ℕ, Bool, not, Option, List, Result, ok, err, reject_if, ◌>>◌, ◌>>=◌, is_some_and, ◌≡◌, ◌↔◌, refl,
}
use bx_ssh.Common.Text.{Text}
use bx_ssh.Contracts.Colors.{is_hex_color}
use bx_ssh.Contracts.Settings.{ConnectionSettingsSnapshot}
use bx_ssh.Contracts.Connection.{ConnectionConfig, is_blank}

pub record ConnectionGroup : Type 0 where
  pub id : Text
  pub name : Text
  pub color : Option Text
  pub sort_order : ℕ  -- u32
  pub is_collapsed : Bool
  pub revision : ℕ  -- u64

pub data ConnectionGroupValidationError : Type 0 where
  missing_id missing_name invalid_color : ConnectionGroupValidationError

-- `ConnectionGroup::validate`.
unfoldable pub validate : ConnectionGroup → Result ConnectionGroupValidationError (Unit {0})
validate g = do
  reject_if (is_blank g.id) missing_id
  reject_if (is_blank g.name) missing_name
  reject_if (is_some_and (λ color. not (is_hex_color color)) g.color) invalid_color

pub record ConnectionListItem : Type 0 where
  pub config : ConnectionConfig
  pub is_favorite : Bool
  pub sort_order : ℕ  -- u32
  pub last_connected_at : Option ℕ  -- u64
  pub successful_connection_count : ℕ  -- u64
  pub revision : ℕ  -- u64

pub record ConnectionDetails : Type 0 where
  pub connection : ConnectionListItem
  pub settings : ConnectionSettingsSnapshot

pub record ConnectionCatalog : Type 0 where
  pub groups : List ConnectionGroup
  pub connections : List ConnectionListItem
