-- ===== src/Desktop/Import/Preview.antt =====
-- `build_preview` of apps/desktop/src-tauri/src/openssh_import.rs: what an import would do. `home` is
-- the join of a path to the home directory, where there is one.
pub mod Items
use mathlib.Core.List.{reverse}
use bx_ssh.Common.{
  ℕ, zero, suc, ◌+◌, ◌-◌, ◌*◌, ◌/◌, ◌%◌, ◌^◌, Bool, true, false, not, ◌&&◌, ◌||◌, Option, none,
  some, List, [], ◌∷◌, ◌++◌, ◌==◌, ltb, any, find, is_empty, is_some, is_some_and, or_else,
  unwrap_or, if◌then◌else◌,
}
use bx_ssh.Common.Text.{Text, codes, trim, strip_prefix, eq_ignore_ascii_case, is_ascii_digit}
use bx_ssh.Common.{map_option}
use bx_ssh.Common.Text.Decimal.{decimal}
use bx_ssh.Contracts.Connection.{ConnectionConfig, default_connection_port}
use bx_ssh.Contracts.Group.{ConnectionCatalog, ConnectionListItem}
use bx_ssh.Contracts.OpenSsh.{
  OpenSshImportError, invalid_port, missing_host, missing_username, OpenSshImportWarning, duplicate,
  identity_file_requires_key_setup, OpenSshImportItem, OpenSshImportPreview,
}
use bx_ssh.Desktop.Import.Parser.{RawOptions, RawAlias, RawStanza, parse_config}

-- `str::parse::<u16>`: decimal digits after one `+` at most, and no overflow.
unfoldable pub parse_digits : ℕ → Text → Option ℕ
unfolding is_ascii_digit
parse_digits n [] = some n
parse_digits n (c ∷ cs) =
    let m = n * 10 + (c - b'0') in
    let rest = parse_digits m cs in if is_ascii_digit c && ltb m 65536 then rest else none

unfoldable pub parse_u16 : Text → Option ℕ
unfolding parse_digits
parse_u16 t =
    let digits = unwrap_or (strip_prefix (b'+' ∷ []) t) t in
    if is_empty digits then none else parse_digits 0 digits

-- The port, and whether the value was refused.
unfoldable pub parse_port : Option Text → ℕ × Bool
unfolding parse_u16
parse_port none = (default_connection_port, false)
parse_port (some value) = elim (parse_u16 value) [
  | none ↦ (default_connection_port, true)
  | some port ↦ if port == 0 then (default_connection_port, true) else (port, false)
]

unfoldable pub is_host_pattern : Text → Bool
is_host_pattern alias =
    is_some (strip_prefix (b'!' ∷ []) alias) || any (λ c. c == b'*' || c == b'?') alias

unfoldable pub expand_home : Text → Option (Text → Text) → Text
expand_home value home =
    let trimmed = trim value in
    elim home [
      | none ↦ trimmed
      | some join ↦
          elim (or_else (strip_prefix (codes "~/") trimmed)
            (strip_prefix (b'~' ∷ b'\\' ∷ []) trimmed)) [
              | none ↦ trimmed
              | some relative ↦ join relative
            ]
    ]

unfoldable pub find_duplicate :
    ConnectionCatalog → Text → Text → ℕ → Text → Option ConnectionListItem
unfolding eq_ignore_ascii_case
find_duplicate catalog alias host port username =
    or_else (find (λ item. eq_ignore_ascii_case item.config.name alias) catalog.connections) (
      find
        (λ item.
          eq_ignore_ascii_case item.config.host host
          && item.config.port == port
          && eq_ignore_ascii_case item.config.username username)
        catalog.connections)

abbrev pub push_if {ℓ} : {A : Type ℓ} → Bool → A → List A → List A
push_if true a l = l ++ (a ∷ [])
push_if false a l = l

module _ (catalog : ConnectionCatalog) (default_username : Option Text)
    (home : Option (Text → Text)) (defaults : RawOptions) where
  -- The item of an alias.
  unfoldable pub preview_item : RawStanza → RawAlias → OpenSshImportItem
  unfolding find_duplicate parse_port expand_home decimal
  preview_item stanza alias =
      let o = stanza.options in
      let host = trim (unwrap_or (or_else o.host_name defaults.host_name) alias.value) in
      let username =
        trim (unwrap_or (or_else (or_else o.user defaults.user) default_username) []) in
      let (port, refused) = parse_port (or_else o.port defaults.port) in
      let identity_file =
        map_option (λ value. expand_home value home)
          (or_else o.identity_file defaults.identity_file) in
      let existing = find_duplicate catalog alias.value host port username in
      record {
        source_id = decimal alias.line ++ codes ":" ++ alias.value;
        alias = alias.value;
        host = host;
        port = port;
        username = username;
        identity_file = identity_file;
        duplicate_connection_id = map_option (λ item. item.config.id) existing;
        duplicate_connection_name = map_option (λ item. item.config.name) existing;
        errors = push_if refused invalid_port (
            push_if (is_empty username) missing_username (push_if (is_empty host) missing_host []));
        warnings =
            push_if (is_some identity_file) identity_file_requires_key_setup
              (push_if (is_some existing) duplicate []);
      }

  -- The loops, with the items so far and the number of patterns (u32).
  unfoldable pub preview_aliases :
      RawStanza → List RawAlias → List OpenSshImportItem × ℕ → List OpenSshImportItem × ℕ
  unfolding is_host_pattern preview_item
  preview_aliases stanza [] (items, ignored) = (items, ignored)
  preview_aliases stanza (a ∷ later) (items, ignored) = preview_aliases stanza later (
      if is_host_pattern a.value
      then (items, (ignored + 1) % 2 ^ 32)
      else (items ++ (preview_item stanza a ∷ []), ignored))

  unfoldable pub preview_stanzas :
      List RawStanza → List OpenSshImportItem × ℕ → List OpenSshImportItem × ℕ
  unfolding preview_aliases
  preview_stanzas [] found = found
  preview_stanzas (s ∷ ss) found = preview_stanzas ss (preview_aliases s s.aliases found)

-- `build_preview`, for the path's text and with `source_fingerprint` a parameter.
unfoldable pub build_preview :
    (Text → Text)
    → Text
    → Text
    → ConnectionCatalog
    → Option Text
    → Option (Text → Text)
    → OpenSshImportPreview
unfolding parse_config preview_stanzas
build_preview source_fingerprint path source catalog default_username home =
    let (defaults, stanzas) = parse_config source in
    let (items, ignored) = preview_stanzas catalog default_username home defaults stanzas ([], 0) in
    record {
      source_path = path;
      source_fingerprint = source_fingerprint source;
      items = items;
      ignored_host_patterns = ignored;
    }
