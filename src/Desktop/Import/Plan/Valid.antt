-- ===== src/Desktop/Import/Plan/Valid.antt =====
-- What an import stores: valid configurations, of items that the preview can import.
use bx_ssh.Common.{
  ℕ, ◌≡◌, ◌≢◌, inl, inr, refl, sym, ◌∙◌, true, false, Option, List, [], ◌∷◌, ok, is_err, All, any,
  is_some, arith, Bool-cases, Option-cases, Result-cases,
}
use bx_ssh.Common.Text.{Text, text_eq, trim, is_whitespace}
use bx_ssh.Common.Text.Trim.{trim_eq_nil_iff}
use bx_ssh.Contracts.Connection.Validity.{IsWritten, IsWritten-iff, validate_ok_iff}
use bx_ssh.Common.Maps.{Map, lookup, insert, lookup-insert}
use bx_ssh.Contracts.Connection.{ConnectionConfig, is_blank, validate}
use bx_ssh.Contracts.Group.{ConnectionCatalog, ConnectionListItem}
use bx_ssh.Contracts.OpenSsh.{
  OpenSshImportItem, is_importable, OpenSshDuplicateStrategy, skip, overwrite, OpenSshImportRequest,
}
use bx_ssh.Common.Text.Sets.{contains}
use bx_ssh.Desktop.Import.Plan.{
  new_config, overwrite_config, Plan, no_plan, plan_duplicate, plan_item, plan_items, plan_import,
  index_by_id, selects_unknown,
}
use bx_ssh.Desktop.Import.Preview.{build_preview}
use bx_ssh.Desktop.Import.Preview.Items.{IsItem, build_preview-IsItem}

-- The index has every id that the catalog has.
index_by_id-keeps :
    (cs : List ConnectionListItem) (m : Map ConnectionListItem) (id : Text)
    → is_some (lookup id m) ≡ true
    → is_some (lookup id (index_by_id cs m)) ≡ true
unfolding index_by_id
index_by_id-keeps [] m id h = h
index_by_id-keeps (c ∷ cs) m id h =
    index_by_id-keeps cs (insert c.config.id c m) id
      (ground (arith, lookup-insert c.config.id id c m))

index_by_id-has :
    (cs : List ConnectionListItem) (m : Map ConnectionListItem) (id : Text)
    → any (λ c. text_eq c.config.id id) cs ≡ true
    → is_some (lookup id (index_by_id cs m)) ≡ true
unfolding index_by_id
index_by_id-has [] m id h = absurd (cc h)
index_by_id-has (c ∷ cs) m id h = elim (Bool-cases (text_eq c.config.id id)) [
  | inl e ↦
      index_by_id-keeps cs (insert c.config.id c m) id
        (ground (arith, lookup-insert c.config.id id c m))
  | inr e ↦ index_by_id-has cs (insert c.config.id c m) id (ground arith)
]

module _ (draws : ℕ → Text) (catalog : ConnectionCatalog) (by_id : Map ConnectionListItem)
    (has : (id : Text)
      → any (λ c. text_eq c.config.id id) catalog.connections ≡ true
      → is_some (lookup id by_id) ≡ true) where
  plan_duplicate-ok :
      (strategy : OpenSshDuplicateStrategy) (i : OpenSshImportItem) (id : Text) (p : Plan)
      → is_some (lookup id by_id) ≡ true
      → is_err (plan_duplicate draws by_id strategy i id p) ≡ false
  unfolding plan_duplicate
  plan_duplicate-ok skip i id p h = refl
  plan_duplicate-ok overwrite i id p h = elim (Option-cases (lookup id by_id)) [
    | inl e ↦ absurd (ground arith)
    | inr (c, e) ↦ rw (is_err, e) refl
  ]

  plan_item-ok :
      (strategy : OpenSshDuplicateStrategy) (i : OpenSshImportItem) (p : Plan)
      → IsItem catalog i
      → is_err (plan_item draws by_id strategy i p) ≡ false
  unfolding plan_item
  plan_item-ok strategy i p v = elim (Bool-cases (is_importable i)) [
    | inr e ↦ rw (is_err, e) refl
    | inl e ↦ elim (Option-cases i.duplicate_connection_id) [
      | inl d ↦ rw (is_err, e, d) refl
      | inr (id, d) ↦ rw (is_err, e, d) (plan_duplicate-ok strategy i id p (has id (v.known id d)))
    ]
  ]

  plan_items-ok :
      (strategy : OpenSshDuplicateStrategy) (selected : List Text) (items : List OpenSshImportItem)
      (p : Plan)
      → All (IsItem catalog) items
      → is_err (plan_items draws by_id strategy selected items p) ≡ false
  unfolding plan_items
  plan_items-ok strategy selected [] p h = refl
  plan_items-ok strategy selected (i ∷ is) p (v, vs) =
      elim (Bool-cases (contains i.source_id selected)) [
        | inr e ↦ rw (is_err, e) (plan_items-ok strategy selected is p vs)
        | inl e ↦ elim (Result-cases (plan_item draws by_id strategy i p)) [
          | inr (x, d) ↦ absurd (ground (arith, plan_item-ok strategy i p v))
          | inl (q, d) ↦ rw (is_err, e, d) (plan_items-ok strategy selected is q vs)
        ]
      ]

-- An import that selects only items of the preview never fails for a duplicate that is gone: the index
-- has every duplicate that the preview names, since both come from one catalog.
pub plan_import_total :
    (draws : ℕ → Text) (source_fingerprint : Text → Text) (path source : Text)
    (catalog : ConnectionCatalog) (default_username : Option Text) (home : Option (Text → Text))
    (request : OpenSshImportRequest)
    → let preview = build_preview source_fingerprint path source catalog default_username home in
      selects_unknown request.selected_source_ids preview.items ≡ false
      → is_err (plan_import draws catalog preview request) ≡ false
unfolding plan_import
plan_import_total draws source_fingerprint path source catalog default_username home request h =
    rw (is_err, h)
      (plan_items-ok draws catalog _ (index_by_id-has catalog.connections [])
        request.duplicate_strategy request.selected_source_ids _ no_plan
        (build_preview-IsItem source_fingerprint path source catalog default_username home))

id_starts : is_whitespace b'c' ≢ true
unfolding is_whitespace
id_starts h = cc h

IsWritten-of_trimmed : (t : Text) → trim t ≡ t → t ≢ [] → IsWritten t
IsWritten-of_trimmed t e n b = n (sym e ∙ (trim_eq_nil_iff t).1 b)

-- An item of a preview that can be imported, and whose alias is not blank, makes a valid
-- configuration: as a new connection, and in place of one that is valid.
pub import_config-valid :
    (catalog : ConnectionCatalog) (i : OpenSshImportItem) (uuid : Text)
    (existing : ConnectionConfig)
    → IsItem catalog i
    → is_importable i ≡ true
    → is_blank i.alias ≡ false
    → (validate (new_config uuid i) ≡ ok tt)
      × (validate existing ≡ ok tt → validate (overwrite_config existing i) ≡ ok tt)
unfolding new_config overwrite_config
import_config-valid catalog i uuid existing v importable alias =
    let (host, username) = v.complete importable in
    let (port, _) = v.port_range in
    (
      (validate_ok_iff (new_config uuid i)).1 (record {
        id_written = λ b. absurd (id_starts b.0);
        group_written = tt;
        name_written = (IsWritten-iff i.alias).0 alias;
        host_written = IsWritten-of_trimmed i.host v.host_trimmed host;
        port_used = omega arith;
        username_written = IsWritten-of_trimmed i.username v.username_trimmed username;
        color_hex = tt;
        credential_written = tt;
        key_written = tt;
        references = refl;
      }),
      λ h.
          let old = (validate_ok_iff existing).0 h in
          (validate_ok_iff (overwrite_config existing i)).1 (record {
            id_written = old.id_written;
            group_written = old.group_written;
            name_written = (IsWritten-iff i.alias).0 alias;
            host_written = IsWritten-of_trimmed i.host v.host_trimmed host;
            port_used = omega arith;
            username_written = IsWritten-of_trimmed i.username v.username_trimmed username;
            color_hex = old.color_hex;
            credential_written = old.credential_written;
            key_written = old.key_written;
            references = old.references;
          }),
    )
