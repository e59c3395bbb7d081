-- ===== src/Contracts/Settings.antt =====
-- crates/contracts/src/connection.rs: connection settings and the layers that override them.
use bx_ssh.Common.{ℕ, ◌≡◌, Option, none, some, List, [], ◌∷◌, or_else, unwrap_or, arith}
use bx_ssh.Common.Text.{Text}

abbrev pub default_connect_timeout_secs : ℕ
default_connect_timeout_secs = 10

abbrev pub default_keep_alive_secs : ℕ
default_keep_alive_secs = 30

pub record ConnectionSettings : Type 0 where
  pub connect_timeout_secs : ℕ  -- u32
  pub keep_alive_secs : ℕ  -- u32

-- `ConnectionSettings::default`.
abbrev pub default_settings : ConnectionSettings
default_settings = record {
  connect_timeout_secs = default_connect_timeout_secs;
  keep_alive_secs = default_keep_alive_secs;
}

pub record ConnectionSettingsOverride : Type 0 where
  pub connect_timeout_secs : Option ℕ
  pub keep_alive_secs : Option ℕ

pub record ConnectionSettingsLayers : Type 0 where
  pub global : Option ConnectionSettingsOverride
  pub group : Option ConnectionSettingsOverride
  pub connection : Option ConnectionSettingsOverride

pub data ConnectionSettingsScope : Type 0 where
  global_scope : ConnectionSettingsScope
  group_scope : Text → ConnectionSettingsScope
  connection_scope : Text → ConnectionSettingsScope

pub record ConnectionSettingsSnapshot : Type 0 where
  pub layers : ConnectionSettingsLayers
  pub resolved : ConnectionSettings

-- The body of the loop in `resolve`: an override writes the fields that it sets.
apply_layer : ConnectionSettings → ConnectionSettingsOverride → ConnectionSettings
apply_layer resolved layer =
    let timed : ConnectionSettings = elim layer.connect_timeout_secs [
      | none ↦ resolved
      | some value ↦ record resolved { connect_timeout_secs = value }
    ] in
    elim layer.keep_alive_secs [
      | none ↦ timed
      | some value ↦ record timed { keep_alive_secs = value }
    ]

-- `into_iter().flatten()`: the absent layers are skipped.
flatten_layers : List (Option ConnectionSettingsOverride) → List ConnectionSettingsOverride
flatten_layers [] = []
flatten_layers (none ∷ ls) = flatten_layers ls
flatten_layers (some l ∷ ls) = l ∷ flatten_layers ls

apply_layers : ConnectionSettings → List ConnectionSettingsOverride → ConnectionSettings
apply_layers resolved [] = resolved
apply_layers resolved (l ∷ ls) = apply_layers (apply_layer resolved l) ls

-- `ConnectionSettingsLayers::resolve`.
unfoldable pub resolve : ConnectionSettingsLayers → ConnectionSettings
unfolding apply_layers flatten_layers apply_layer
resolve layers =
    apply_layers default_settings
      (flatten_layers (layers.global ∷ layers.group ∷ layers.connection ∷ []))

-- The value that a layer sets for one field.
abbrev pub sets :
    (ConnectionSettingsOverride → Option ℕ) → Option ConnectionSettingsOverride → Option ℕ
sets field none = none
sets field (some layer) = field layer

-- The most specific layer that sets a value wins: connection, then group, then global, then default.
abbrev pub most_specific :
    (ConnectionSettingsOverride → Option ℕ) → ConnectionSettingsLayers → ℕ → ℕ
most_specific field layers otherwise =
    unwrap_or
      (or_else (sets field layers.connection)
        (or_else (sets field layers.group) (sets field layers.global)))
      otherwise

-- Each setting is resolved by itself: the connection's value if it sets one, else the group's,
-- else the global one, else the product's default.
pub resolve-most_specific :
    (layers : ConnectionSettingsLayers)
    → ((resolve layers).connect_timeout_secs
        ≡ most_specific (λ l. l.connect_timeout_secs) layers default_connect_timeout_secs)
      × ((resolve layers).keep_alive_secs
          ≡ most_specific (λ l. l.keep_alive_secs) layers default_keep_alive_secs)
unfolding resolve
resolve-most_specific layers = ground arith
