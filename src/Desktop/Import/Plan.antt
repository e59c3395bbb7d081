-- ===== src/Desktop/Import/Plan.antt =====
-- `import_openssh_connections` of apps/desktop/src-tauri/src/openssh_import.rs: the checks of the
-- request against a new preview, the configurations to store, and the counts. A set of texts is a list;
-- ids of new connections are `connection-` and what `Uuid::new_v4` gives, in order.
pub mod Counts
pub mod Valid
use bx_ssh.Common.{
  ℕ, suc, ◌+◌, ◌%◌, ◌^◌, Bool, true, false, not, ◌||◌, Option, none, some, List, [], ◌∷◌, ◌++◌,
  Result, ok, err, ◌>>=◌, ◌>>◌, reject_if, any, is_empty, is_some, if◌then◌else◌,
}
use bx_ssh.Common.Text.{Text, codes, text_eq, trim}
use bx_ssh.Common.Text.Sets.{contains, has_repetition}
use bx_ssh.Common.Maps.{Map, lookup, insert}
use bx_ssh.Contracts.Connection
use bx_ssh.Contracts.Connection.{ConnectionConfig, password}
use bx_ssh.Contracts.Group.{ConnectionCatalog, ConnectionListItem}
use bx_ssh.Contracts.OpenSsh.{
  OpenSshImportItem, is_importable, OpenSshImportPreview, OpenSshDuplicateStrategy, skip, overwrite,
  OpenSshImportRequest, OpenSshImportResult,
}
use bx_ssh.Desktop.CommandError
use bx_ssh.Desktop.CommandError.{CommandError, open_ssh_config_invalid, open_ssh_config_not_found}
use bx_ssh.Desktop.Import.Preview.{build_preview}

unfoldable pub config_invalid : Text → CommandError
unfolding CommandError.new
config_invalid message = CommandError.new open_ssh_config_invalid message

unfoldable pub validate_selection : List Text → Result CommandError (Unit {0})
unfolding has_repetition
validate_selection ids =
    reject_if (is_empty ids || any (λ id. is_empty (trim id)) ids || has_repetition ids)
      (config_invalid (codes "OpenSSH import selection is invalid"))

-- `resolve_config_path`, with `home_config` the default path where there is a home directory.
unfoldable pub resolve_config_path : Option Text → Option Text → Result CommandError Text
resolve_config_path path home_config =
    let default : Result CommandError Text = elim home_config [
      | some config ↦ ok config
      | none ↦
          err (
            CommandError.new open_ssh_config_not_found (codes "user home directory is unavailable"))
    ] in
    elim path [
      | none ↦ default
      | some value ↦ if is_empty (trim value) then default else ok (trim value)
    ]

unfoldable pub identity_note : Option Text → Option Text
identity_note none = none
identity_note (some value) = some (codes "OpenSSH IdentityFile: " ++ value)

unfoldable pub new_config : Text → OpenSshImportItem → ConnectionConfig
unfolding Connection.new identity_note
new_config uuid item =
    record (Connection.new (codes "connection-" ++ uuid) item.alias item.host item.username) {
      port = item.port;
      notes = identity_note item.identity_file;
      auth_method = password;
    }

unfoldable pub overwrite_config : ConnectionConfig → OpenSshImportItem → ConnectionConfig
unfolding identity_note
overwrite_config existing item = record existing {
  name = item.alias;
  host = item.host;
  port = item.port;
  username = item.username;
  notes = if is_some item.identity_file then identity_note item.identity_file else existing.notes;
}

-- `connections_by_id`: a later connection takes the place of an earlier one with its id.
unfoldable pub index_by_id :
    List ConnectionListItem → Map ConnectionListItem → Map ConnectionListItem
index_by_id [] m = m
index_by_id (c ∷ cs) m = index_by_id cs (insert c.config.id c m)

-- The configurations to store so far, the counts (u32), and the number of ids that were drawn.
pub record Plan : Type 0 where
  pub configs : List ConnectionConfig
  pub result : OpenSshImportResult
  pub drawn : ℕ

abbrev pub no_plan : Plan
no_plan = record {
  configs = [];
  result = record { imported = 0; overwritten = 0; skipped = 0 };
  drawn = 0;
}

abbrev pub plan_skip : Plan → Plan
plan_skip p = record p { result = record p.result { skipped = (p.result.skipped + 1) % 2 ^ 32 } }

module _ (draws : ℕ → Text) (by_id : Map ConnectionListItem)
    (strategy : OpenSshDuplicateStrategy) where
  -- The loop's body, for an item that was selected.
  unfoldable pub plan_duplicate : OpenSshImportItem → Text → Plan → Result CommandError Plan
  unfolding overwrite_config
  plan_duplicate item id p = elim strategy [
    | skip ↦ ok (plan_skip p)
    | overwrite ↦ elim (lookup id by_id) [
      | none ↦ err (config_invalid (codes "duplicate connection changed after preview"))
      | some existing ↦ ok (record p {
        configs = p.configs ++ (overwrite_config existing.config item ∷ []);
        result = record p.result { overwritten = (p.result.overwritten + 1) % 2 ^ 32 };
      })
    ]
  ]

  unfoldable pub plan_item : OpenSshImportItem → Plan → Result CommandError Plan
  unfolding plan_duplicate is_importable new_config
  plan_item item p =
      if not (is_importable item) then ok (plan_skip p) else elim item.duplicate_connection_id [
        | some id ↦ plan_duplicate item id p
        | none ↦ ok (record p {
          configs = p.configs ++ (new_config (draws p.drawn) item ∷ []);
          result = record p.result { imported = (p.result.imported + 1) % 2 ^ 32 };
          drawn = suc p.drawn;
        })
      ]

  unfoldable pub plan_items : List Text → List OpenSshImportItem → Plan → Result CommandError Plan
  unfolding plan_item
  plan_items selected [] p = ok p
  plan_items selected (i ∷ is) p =
      (if contains i.source_id selected then plan_item i p else ok p) >>= plan_items selected is

-- The ids that were selected but are not in the preview.
unfoldable pub selects_unknown : List Text → List OpenSshImportItem → Bool
selects_unknown selected items =
    any (λ id. not (any (λ item. text_eq item.source_id id) items)) selected

-- The plan of a request, for the preview of the configuration that was read.
unfoldable pub plan_import :
    (ℕ → Text)
    → ConnectionCatalog
    → OpenSshImportPreview
    → OpenSshImportRequest
    → Result CommandError Plan
unfolding selects_unknown plan_items index_by_id
plan_import draws catalog preview request = do
  reject_if (selects_unknown request.selected_source_ids preview.items)
      (config_invalid (codes "OpenSSH config changed after preview"))
  plan_items draws (index_by_id catalog.connections []) request.duplicate_strategy
      request.selected_source_ids preview.items no_plan

-- What the command finds outside: the file, the catalog, the environment and the clock; and the
-- storage, which takes all configurations or none.
pub record Outside : Type 0 where
  pub home_config : Option Text
  pub read_config : Text → Result CommandError Text
  pub source_fingerprint : Text → Text
  pub list_catalog : Result CommandError ConnectionCatalog
  pub default_username : Option Text
  pub home : Option (Text → Text)
  pub uuids : ℕ → Text
  pub current_timestamp_ms : Result CommandError ℕ
  pub import_connections : List ConnectionConfig → ℕ → Result CommandError (Unit {0})

-- `import_openssh_connections`.
unfoldable pub import_openssh_connections :
    Outside → OpenSshImportRequest → Result CommandError OpenSshImportResult
unfolding validate_selection resolve_config_path build_preview plan_import
import_openssh_connections o request = do
  validate_selection request.selected_source_ids
  path ← resolve_config_path (some request.source_path) o.home_config
  source ← o.read_config path
  reject_if (not (text_eq request.source_fingerprint (o.source_fingerprint source)))
      (config_invalid (codes "OpenSSH config changed after preview"))
  catalog ← o.list_catalog
  plan ←
      plan_import o.uuids catalog
        (build_preview o.source_fingerprint path source catalog o.default_username o.home) request
  if is_empty plan.configs then ok plan.result else do
    now_ms ← o.current_timestamp_ms
    o.import_connections plan.configs now_ms
    ok plan.result
