-- ===== src/Persistence/PrivateKeys.antt =====
-- crates/persistence/src/repository.rs: the references to private keys, which the repository reads.
use bx_ssh.Common.{ℕ, Option, List, Result, ok, ◌>>◌, find, map_option}
use bx_ssh.Common.Text.{Text, codes, text_eq}
use bx_ssh.Persistence.Error.{PersistenceError}
use bx_ssh.Persistence.Schema.{KeyReferenceRow, Database}
use bx_ssh.Persistence.Driver.{Engine, call}
use bx_ssh.Persistence.Groups.{validate_id}

pub record PrivateKeyReference : Type 0 where
  pub id : Text
  pub storage_kind : Text
  pub file_path : Option Text
  pub encrypted_material : Option (List ℕ)
  pub material_key_ref : Option Text
  pub passphrase_credential_ref : Option Text
  pub public_key_algorithm : Option Text
  pub fingerprint_sha256 : Option Text
  pub comment : Option Text

-- The columns that the query selects.
abbrev pub selected : KeyReferenceRow → PrivateKeyReference
selected row = record {
  id = row.id;
  storage_kind = row.storage_kind;
  file_path = row.file_path;
  encrypted_material = row.encrypted_material;
  material_key_ref = row.material_key_ref;
  passphrase_credential_ref = row.passphrase_credential_ref;
  public_key_algorithm = row.public_key_algorithm;
  fingerprint_sha256 = row.fingerprint_sha256;
  comment = row.comment;
}

module _ {E : Type 0} (engine : Engine E) where
  -- `get_private_key_reference`.
  unfoldable pub get_private_key_reference :
      Text → Database → Result (PersistenceError E) (Option PrivateKeyReference)
  unfolding validate_id call
  get_private_key_reference id db = do
    validate_id id
    call engine (codes "prepare a private key query") db
    call engine (codes "query a private key") db
    ok (map_option selected (find (λ row. text_eq row.id id) db.key_references))
