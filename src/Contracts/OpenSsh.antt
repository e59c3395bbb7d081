-- ===== src/Contracts/OpenSsh.antt =====
-- crates/contracts/src/connection.rs: the types of the OpenSSH configuration import.
use bx_ssh.Common.{ℕ, Bool, Option, List, is_empty}
use bx_ssh.Common.Text.{Text}

pub data OpenSshImportError : Type 0 where
  invalid_port missing_host missing_username : OpenSshImportError

pub data OpenSshImportWarning : Type 0 where
  duplicate identity_file_requires_key_setup : OpenSshImportWarning

pub record OpenSshImportItem : Type 0 where
  pub source_id : Text
  pub alias : Text
  pub host : Text
  pub port : ℕ  -- u16
  pub username : Text
  pub identity_file : Option Text
  pub duplicate_connection_id : Option Text
  pub duplicate_connection_name : Option Text
  pub errors : List OpenSshImportError
  pub warnings : List OpenSshImportWarning

unfoldable pub is_importable : OpenSshImportItem → Bool
is_importable item = is_empty item.errors

pub record OpenSshImportPreview : Type 0 where
  pub source_path : Text
  pub source_fingerprint : Text
  pub items : List OpenSshImportItem
  pub ignored_host_patterns : ℕ  -- u32

pub data OpenSshDuplicateStrategy : Type 0 where
  skip overwrite : OpenSshDuplicateStrategy

pub record OpenSshImportRequest : Type 0 where
  pub source_path : Text
  pub source_fingerprint : Text
  pub selected_source_ids : List Text
  pub duplicate_strategy : OpenSshDuplicateStrategy

pub record OpenSshImportResult : Type 0 where
  pub imported : ℕ  -- u32
  pub overwritten : ℕ  -- u32
  pub skipped : ℕ  -- u32
