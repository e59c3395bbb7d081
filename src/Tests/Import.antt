-- ===== src/Tests/Import.antt =====
-- Tests of the import.
use bx_ssh.Common.{
  ℕ, ◌≡◌, ◌<◌, ◌≤◌, ◌^◌, refl, none, some, List, [], ◌∷◌, ◌++◌, ok, err, true, false, length,
  is_err, All, arith, Bool, subst, Option,
}
use bx_ssh.Common.Text.{Text, codes}
use bx_ssh.Contracts.Connection.{is_blank, validate}
use bx_ssh.Contracts.OpenSsh
use bx_ssh.Contracts.OpenSsh.{
  OpenSshImportItem, is_importable, OpenSshImportPreview, OpenSshImportRequest, overwrite,
}
use bx_ssh.Desktop.Import.Lexer.{split_words}
use bx_ssh.Desktop.Import.Lexer.RoundTrip.{escape_all, split_words-escape_all}
use bx_ssh.Desktop.Import.Parser.{no_stanzas, Parsing}
use bx_ssh.Desktop.Import.Preview.{build_preview}
use bx_ssh.Desktop.Import.Preview.Items.{IsItem, build_preview-IsItem}
use bx_ssh.Desktop.Import.Plan.{Plan, plan_import, selects_unknown, new_config, overwrite_config}
use bx_ssh.Desktop.Import.Plan.Valid.{plan_import_total, import_config-valid}
use bx_ssh.Tests.Fixtures.{catalog, admin, server_config}

split_words-escape_all_example :
    split_words (escape_all (codes "a b" ∷ codes "#" ∷ [])) ≡ codes "a b" ∷ codes "#" ∷ []
split_words-escape_all_example =
    split_words-escape_all (codes "a b" ∷ codes "#" ∷ []) (refl, (refl, tt))

abbrev parsing : Parsing
parsing = record no_stanzas { defaults = record no_stanzas.defaults { user = some admin } }

abbrev fingerprint_of : Text → Text
fingerprint_of _ = codes "f"

abbrev line : Text
line = codes "Host server"

abbrev preview : OpenSshImportPreview
preview = build_preview fingerprint_of (codes "config") line catalog (some admin) none

build_preview-IsItem_example : All (IsItem catalog) preview.items
build_preview-IsItem_example =
    build_preview-IsItem fingerprint_of (codes "config") line catalog (some admin) none

abbrev item : OpenSshImportItem
item = record {
  source_id = codes "1:server";
  alias = codes "server";
  host = codes "server";
  port = 22;
  username = admin;
  identity_file = none;
  duplicate_connection_id = some (codes "connection-1");
  duplicate_connection_name = some (codes "server");
  errors = [];
  warnings = OpenSsh.duplicate ∷ [];
}

preview_items : preview.items ≡ item ∷ []
unfolding build_preview bx_ssh.Common.Text.trim bx_ssh.Common.Text.is_whitespace
    bx_ssh.Common.Text.strip_prefix
preview_items = refl

abbrev request : OpenSshImportRequest
request = record {
  source_path = codes "config";
  source_fingerprint = codes "f";
  selected_source_ids = codes "1:server" ∷ [];
  duplicate_strategy = overwrite;
}

all_known : selects_unknown request.selected_source_ids preview.items ≡ false
unfolding selects_unknown build_preview bx_ssh.Common.Text.trim bx_ssh.Common.Text.is_whitespace
    bx_ssh.Common.Text.strip_prefix
all_known = refl

abbrev no_ids : ℕ → Text
no_ids n = []

plan_import_total_example : is_err (plan_import no_ids catalog preview request) ≡ false
plan_import_total_example =
    plan_import_total no_ids fingerprint_of (codes "config") line catalog (some admin) none request
      all_known

abbrev planned : Plan
planned = record {
  configs = overwrite_config server_config item ∷ [];
  result = record { imported = 0; overwritten = 1; skipped = 0 };
  drawn = 0;
}

plans : plan_import no_ids catalog preview request ≡ ok planned
unfolding plan_import build_preview bx_ssh.Common.Text.trim bx_ssh.Common.Text.is_whitespace
    bx_ssh.Common.Text.strip_prefix bx_ssh.Common.Maps.lookup bx_ssh.Common.Maps.insert
plans = refl

item-IsItem : IsItem catalog item
item-IsItem =
    (subst (All (IsItem catalog)) preview_items
      (build_preview-IsItem fingerprint_of (codes "config") line catalog (some admin) none)).0

item_importable : is_importable item ≡ true
unfolding is_importable
item_importable = refl

item_named : is_blank item.alias ≡ false
unfolding is_blank bx_ssh.Common.Text.trim bx_ssh.Common.Text.is_whitespace
item_named = refl

import_config-valid_example :
    (validate (new_config (codes "1") item) ≡ ok tt)
    × (validate server_config ≡ ok tt → validate (overwrite_config server_config item) ≡ ok tt)
import_config-valid_example =
    import_config-valid catalog item (codes "1") server_config item-IsItem item_importable
      item_named
