-- ===== src/Desktop/Import/Plan/Counts.antt =====
-- The counts of an import, and the agreement of the catalog's index with the preview's duplicates.
use bx_ssh.Common.{
  ℕ, ◌+◌, ◌<◌, ◌^◌, ◌≡◌, inl, inr, refl, List, [], ◌∷◌, Result, ok, err, length, length-append,
  if◌then◌else◌, arith, Bool-cases, Option-cases, Result-cases, subst,
}
use bx_ssh.Common.Text.{Text}
use bx_ssh.Common.Maps.{Map, lookup}
use bx_ssh.Contracts.Group.{ConnectionCatalog, ConnectionListItem}
use bx_ssh.Contracts.OpenSsh.{
  OpenSshImportItem, is_importable, OpenSshImportPreview, OpenSshDuplicateStrategy, skip, overwrite,
  OpenSshImportRequest, OpenSshImportResult,
}
use bx_ssh.Desktop.CommandError.{CommandError}
use bx_ssh.Common.Text.Sets.{contains}
use bx_ssh.Desktop.Import.Plan.{
  new_config, overwrite_config, Plan, no_plan, plan_skip, plan_duplicate, plan_item, plan_items,
  plan_import, index_by_id, selects_unknown,
}

-- The items that a request selects.
abbrev pub number_selected : List Text → List OpenSshImportItem → ℕ
number_selected selected [] = 0
number_selected selected (i ∷ is) =
    (if contains i.source_id selected then 1 else 0) + number_selected selected is

abbrev pub total : OpenSshImportResult → ℕ
total r = r.imported + r.overwritten + r.skipped

-- A plan that accounts for n items: each was counted once, and each configuration to store is
-- counted as imported or as overwritten.
abbrev pub Accounts : ℕ → Plan → Type 0
Accounts n p = (total p.result ≡ n) × (length p.configs ≡ p.result.imported + p.result.overwritten)

abbrev pub AccountsOk : ℕ → Result CommandError Plan → Type 0
AccountsOk n (ok p) = Accounts n p
AccountsOk n (err e) = Unit

module _ (draws : ℕ → Text) (by_id : Map ConnectionListItem) where
  plan_skip-Accounts :
      (n : ℕ) (p : Plan) → n + 1 < 2 ^ 32 → Accounts n p → Accounts (n + 1) (plan_skip p)
  plan_skip-Accounts n p l (t, c) = (omega arith, c)

  plan_duplicate-Accounts :
      (n : ℕ) (strategy : OpenSshDuplicateStrategy) (item : OpenSshImportItem) (id : Text)
      (p : Plan)
      → n + 1 < 2 ^ 32
      → Accounts n p
      → AccountsOk (n + 1) (plan_duplicate draws by_id strategy item id p)
  unfolding plan_duplicate
  plan_duplicate-Accounts n skip item id p l a = plan_skip-Accounts n p l a
  plan_duplicate-Accounts n overwrite item id p l (t, c) = elim (Option-cases (lookup id by_id)) [
    | inl e ↦ rw (AccountsOk, e) tt
    | inr (x, e) ↦
        rw (AccountsOk, e)
          (
            omega arith,
            omega (arith, length-append p.configs (overwrite_config x.config item ∷ [])),
          )
  ]

  plan_item-Accounts :
      (n : ℕ) (strategy : OpenSshDuplicateStrategy) (item : OpenSshImportItem) (p : Plan)
      → n + 1 < 2 ^ 32
      → Accounts n p
      → AccountsOk (n + 1) (plan_item draws by_id strategy item p)
  unfolding plan_item
  plan_item-Accounts n strategy item p l (t, c) = elim (Bool-cases (is_importable item)) [
    | inr e ↦ rw (AccountsOk, e) (plan_skip-Accounts n p l (t, c))
    | inl e ↦ elim (Option-cases item.duplicate_connection_id) [
      | inl d ↦
          rw (AccountsOk, e, d)
            (
              omega arith,
              omega (arith, length-append p.configs (new_config (draws p.drawn) item ∷ [])),
            )
      | inr (id, d) ↦ rw (AccountsOk, e, d) (plan_duplicate-Accounts n strategy item id p l (t, c))
    ]
  ]

  plan_items-Accounts :
      (n m : ℕ) (strategy : OpenSshDuplicateStrategy) (selected : List Text)
      (items : List OpenSshImportItem) (p : Plan)
      → n + length items < 2 ^ 32
      → m ≡ n + number_selected selected items
      → Accounts n p
      → AccountsOk m (plan_items draws by_id strategy selected items p)
  unfolding plan_items
  plan_items-Accounts n m strategy selected [] p l e (t, c) = (omega arith, c)
  plan_items-Accounts n m strategy selected (i ∷ is) p l e a =
      elim (Bool-cases (contains i.source_id selected)) [
        | inr f ↦
            rw (AccountsOk, f)
              (plan_items-Accounts n m strategy selected is p (omega arith) (ground arith) a)
        | inl f ↦ elim (Result-cases (plan_item draws by_id strategy i p)) [
          | inr (x, d) ↦ rw (AccountsOk, f, d) tt
          | inl (q, d) ↦
              rw (AccountsOk, f, d)
                (plan_items-Accounts (n + 1) m strategy selected is q (omega arith) (ground arith) (
                  subst (AccountsOk (n + 1)) d (plan_item-Accounts n strategy i p (omega arith) a)))
        ]
      ]

-- An import counts every item that was selected once, as imported, overwritten or skipped, and stores
-- one configuration for each item imported or overwritten; a preview has less than 2 ^ 32 items.
pub plan_import-Accounts :
    (draws : ℕ → Text) (catalog : ConnectionCatalog) (preview : OpenSshImportPreview)
    (request : OpenSshImportRequest) (plan : Plan)
    → length preview.items < 2 ^ 32
    → plan_import draws catalog preview request ≡ ok plan
    → Accounts (number_selected request.selected_source_ids preview.items) plan
unfolding plan_import
plan_import-Accounts draws catalog preview request plan l h =
    elim (Bool-cases (selects_unknown request.selected_source_ids preview.items)) [
      | inl e ↦ absurd (ground arith)
      | inr e ↦
          let planned : plan_items draws (index_by_id catalog.connections [])
                request.duplicate_strategy request.selected_source_ids preview.items no_plan
              ≡ ok plan =
            ground arith in
          subst (AccountsOk (number_selected request.selected_source_ids preview.items)) planned (
            plan_items-Accounts draws _ 0 _ request.duplicate_strategy _ preview.items no_plan
              (omega arith) (omega arith) (refl, refl))
    ]
