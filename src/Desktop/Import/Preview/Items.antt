-- ===== src/Desktop/Import/Preview/Items.antt =====
-- What the preview says of an item.
use bx_ssh.Common.{
  map_option, ℕ, ◌+◌, ◌*◌, ◌-◌, ◌≤◌, ◌<◌, ◌≡◌, ◌≢◌, inl, inr, refl, subst, ◌∙◌, Bool, true, false,
  Option, none, some, List, [], ◌∷◌, All, any, find, is_empty, or_else, unwrap_or, arith,
  Bool-cases, Option-cases, ◌==◌, ◌%◌, ◌^◌,
}
use bx_ssh.Common.Text.{Text, text_eq, text_eq_refl, trim, strip_prefix, eq_ignore_ascii_case}
use bx_ssh.Common.Text.Trim.{trim-trim, All-append}
use bx_ssh.Contracts.Group.{ConnectionCatalog, ConnectionListItem}
use bx_ssh.Contracts.OpenSsh.{
  invalid_port, missing_host, missing_username, OpenSshImportItem, is_importable,
}
use bx_ssh.Desktop.Import.Parser.{RawOptions, RawAlias, RawStanza, parse_config}
use bx_ssh.Desktop.Import.Preview.{
  parse_digits, parse_u16, parse_port, is_host_pattern, find_duplicate, push_if, preview_item,
  preview_aliases, preview_stanzas, build_preview,
}

parse_digits-bound : (t : Text) (n p : ℕ) → n < 65536 → parse_digits n t ≡ some p → p < 65536
unfolding parse_digits
parse_digits-bound [] n p l h = ground arith
parse_digits-bound (c ∷ cs) n p l h = ground (arith, parse_digits-bound cs (n * 10 + (c - b'0')) p)

parse_u16-bound : (t : Text) (p : ℕ) → parse_u16 t ≡ some p → p < 65536
unfolding parse_u16
parse_u16-bound t p h =
    ground (arith, parse_digits-bound (unwrap_or (strip_prefix (b'+' ∷ []) t) t) 0 p)

-- The port of a connection is between 1 and 65535, whatever the text.
pub parse_port-bound :
    (value : Option Text) → (1 ≤ (parse_port value).0) × ((parse_port value).0 < 65536)
unfolding parse_port
parse_port-bound none = (omega arith, omega arith)
parse_port-bound (some value) = elim (Option-cases (parse_u16 value)) [
  | inl e ↦ rw (parse_port, e) (omega arith, omega arith)
  | inr (p, e) ↦ elim (Bool-cases (p == 0)) [
    | inl z ↦ rw (parse_port, e, z) (omega arith, omega arith)
    | inr z ↦ rw (parse_port, e, z) (ground arith, parse_u16-bound value p e)
  ]
]

-- The alias of an item is no pattern; its port is one; host and user name are trimmed, and there
-- if the item can be imported; and a duplicate that it names is in the catalog.
pub record IsItem (catalog : ConnectionCatalog) (i : OpenSshImportItem) : Type 0 where
  pub named : is_host_pattern i.alias ≡ false
  pub port_range : (1 ≤ i.port) × (i.port < 65536)
  pub host_trimmed : trim i.host ≡ i.host
  pub username_trimmed : trim i.username ≡ i.username
  pub complete : is_importable i ≡ true → (i.host ≢ []) × (i.username ≢ [])
  pub known :
      (id : Text)
      → i.duplicate_connection_id ≡ some id
      → any (λ c. text_eq c.config.id id) catalog.connections ≡ true

find-any :
    (p : ConnectionListItem → Bool) (cs : List ConnectionListItem) (c : ConnectionListItem)
    → find p cs ≡ some c
    → any (λ d. text_eq d.config.id c.config.id) cs ≡ true
find-any p [] c h = absurd (cc h)
find-any p (d ∷ cs) c h = ground (arith, find-any p cs c, text_eq_refl c.config.id)

find_duplicate-any :
    (catalog : ConnectionCatalog) (alias host : Text) (port : ℕ) (username : Text)
    (c : ConnectionListItem)
    → find_duplicate catalog alias host port username ≡ some c
    → any (λ d. text_eq d.config.id c.config.id) catalog.connections ≡ true
unfolding find_duplicate
find_duplicate-any catalog alias host port username c h =
    elim (Option-cases
      (find (λ item. eq_ignore_ascii_case item.config.name alias) catalog.connections)) [
        | inl e ↦ find-any _ catalog.connections c (rw e at h)
        | inr (d, e) ↦ find-any _ catalog.connections c (e ∙ (rw e at h))
      ]

no_errors :
    (refused no_user no_host : Bool)
    → is_empty (
        push_if refused invalid_port
          (push_if no_user missing_username (push_if no_host missing_host [])))
      ≡ true
    → (no_user ≡ false) × (no_host ≡ false)
no_errors refused no_user no_host h = ground arith

known_of :
    (catalog : ConnectionCatalog) (id : Text) (o : Option ConnectionListItem)
    → ((c : ConnectionListItem)
        → o ≡ some c
        → any (λ d. text_eq d.config.id c.config.id) catalog.connections ≡ true)
    → map_option (λ item. item.config.id) o ≡ some id
    → any (λ d. text_eq d.config.id id) catalog.connections ≡ true
known_of catalog id none h e = absurd (cc e)
known_of catalog id (some c) h e =
    subst (λ i. any (λ d. text_eq d.config.id i) catalog.connections ≡ true) (cc e) (h c refl)

module _ (catalog : ConnectionCatalog) (default_username : Option Text)
    (home : Option (Text → Text)) (defaults : RawOptions) where
  preview_item-IsItem :
      (s : RawStanza) (a : RawAlias)
      → is_host_pattern a.value ≡ false
      → IsItem catalog (preview_item catalog default_username home defaults s a)
  unfolding preview_item is_importable
  preview_item-IsItem s a h = record {
    named = h;
    port_range = parse_port-bound (or_else s.options.port defaults.port);
    host_trimmed = trim-trim _;
    username_trimmed = trim-trim _;
    complete = λ e.
        let (user, there) = no_errors _ _ _ e in
        ((λ none_there. absurd (ground arith)), (λ none_there. absurd (ground arith)));
    known = λ id e. known_of catalog id _ (λ c f. find_duplicate-any catalog a.value _ _ _ c f) e;
  }

  preview_aliases-IsItem :
      (s : RawStanza) (aliases : List RawAlias) (items : List OpenSshImportItem) (n : ℕ)
      → All (IsItem catalog) items
      → All
          (IsItem catalog)
          (preview_aliases catalog default_username home defaults s aliases (items, n)).0
  unfolding preview_aliases
  preview_aliases-IsItem s [] items n h = h
  preview_aliases-IsItem s (a ∷ later) items n h = elim (Bool-cases (is_host_pattern a.value)) [
    | inl e ↦ rw (All, e) (preview_aliases-IsItem s later items ((n + 1) % 2 ^ 32) h)
    | inr e ↦
        rw (All, e)
          (preview_aliases-IsItem s later _ n
            (All-append (IsItem catalog) items _ h (preview_item-IsItem s a e, tt)))
  ]

  preview_stanzas-IsItem :
      (ss : List RawStanza) (found : List OpenSshImportItem × ℕ)
      → All (IsItem catalog) found.0
      → All (IsItem catalog) (preview_stanzas catalog default_username home defaults ss found).0
  unfolding preview_stanzas
  preview_stanzas-IsItem [] found h = h
  preview_stanzas-IsItem (s ∷ ss) (items, n) h =
      preview_stanzas-IsItem ss _ (preview_aliases-IsItem s s.aliases items n h)

-- Whatever the configuration and the catalog, every item of a preview has an alias that is no host
-- pattern, a port from 1 to 65535, and a trimmed host and user name; it can be imported only if
-- neither is empty; and a duplicate that it names is in the catalog.
pub build_preview-IsItem :
    (source_fingerprint : Text → Text) (path source : Text) (catalog : ConnectionCatalog)
    (default_username : Option Text) (home : Option (Text → Text))
    → All
        (IsItem catalog)
        (build_preview source_fingerprint path source catalog default_username home).items
unfolding build_preview
build_preview-IsItem source_fingerprint path source catalog default_username home =
    preview_stanzas-IsItem catalog default_username home (parse_config source).0
      (parse_config source).1 ([], 0) tt
