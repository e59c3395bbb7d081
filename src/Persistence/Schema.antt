-- ===== src/Persistence/Schema.antt =====
-- crates/persistence/migrations/0001_initial.sql and schema.rs: the tables of the database. The
-- columns that the program reads through `stored_u64` and its kin are integers with a sign.
use bx_ssh.Common.{ℕ, Option, List, []}
use bx_ssh.Common.Text.{Text}
use bx_ssh.Persistence.Integers.{ℤ}

pub record GroupRow : Type 0 where
  pub id : Text
  pub name : Text  -- COLLATE NOCASE
  pub color : Option Text
  pub sort_order : ℤ
  pub is_collapsed : ℤ
  pub created_at : ℤ
  pub updated_at : ℤ
  pub revision : ℤ

pub record ConnectionRow : Type 0 where
  pub id : Text
  pub group_id : Option Text
  pub key_reference_id : Option Text
  pub name : Text  -- COLLATE NOCASE
  pub host : Text  -- COLLATE NOCASE
  pub port : ℤ
  pub username : Text
  pub notes : Option Text
  pub color : Option Text
  pub auth_method : Text
  pub credential_ref : Option Text
  pub is_favorite : ℤ
  pub sort_order : ℤ
  pub created_at : ℤ
  pub updated_at : ℤ
  pub deleted_at : Option ℤ
  pub revision : ℤ

pub record SettingRow : Type 0 where
  pub key : Text
  pub value_json : Text
  pub group_id : Option Text
  pub connection_id : Option Text
  pub created_at : ℤ
  pub updated_at : ℤ
  pub revision : ℤ

pub record FingerprintRow : Type 0 where
  pub id : Text
  pub host : Text  -- COLLATE NOCASE
  pub port : ℤ
  pub key_algorithm : Text
  pub fingerprint_sha256 : Text
  pub first_seen_at : ℤ
  pub trusted_at : ℤ
  pub last_verified_at : ℤ
  pub revision : ℤ

pub record RecentRow : Type 0 where
  pub connection_id : Text
  pub last_connected_at : ℤ
  pub successful_connection_count : ℤ

pub record KeyReferenceRow : Type 0 where
  pub id : Text
  pub name : Text  -- COLLATE NOCASE
  pub storage_kind : Text
  pub file_path : Option Text
  pub encrypted_material : Option (List ℕ)
  pub material_key_ref : Option Text
  pub passphrase_credential_ref : Option Text
  pub public_key_algorithm : Option Text
  pub fingerprint_sha256 : Option Text
  pub comment : Option Text
  pub created_at : ℤ
  pub updated_at : ℤ
  pub revision : ℤ

pub record Database : Type 0 where
  pub connection_groups : List GroupRow
  pub connections : List ConnectionRow
  pub settings : List SettingRow
  pub host_fingerprints : List FingerprintRow
  pub recent_connections : List RecentRow
  pub key_references : List KeyReferenceRow

-- The tables as the migration creates them.
abbrev pub empty_database : Database
empty_database = record {
  connection_groups = [];
  connections = [];
  settings = [];
  host_fingerprints = [];
  recent_connections = [];
  key_references = [];
}
