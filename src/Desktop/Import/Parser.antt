-- ===== src/Desktop/Import/Parser.antt =====
-- `parse_config` of apps/desktop/src-tauri/src/openssh_import.rs: the options before the first `Host`,
-- and a stanza for each `Host`. A stanza's four options are one record here, and `RawOptionsRef` is
-- what `set` updates.
pub mod Options
use bx_ssh.Common.{
  ℕ, suc, ◌+◌, Option, none, some, List, [], ◌∷◌, ◌++◌, or_else, map, if◌then◌else◌,
}
use bx_ssh.Common.Text.{Text, codes, eq_ignore_ascii_case, trim}
use bx_ssh.Desktop.Import.Lexer.{lines, split_directive, split_words, unquote}

pub record RawOptions : Type 0 where
  pub host_name : Option Text
  pub port : Option Text
  pub user : Option Text
  pub identity_file : Option Text

abbrev pub no_options : RawOptions
no_options = record { host_name = none; port = none; user = none; identity_file = none }

pub record RawAlias : Type 0 where
  pub line : ℕ
  pub value : Text

pub record RawStanza : Type 0 where
  pub aliases : List RawAlias
  pub options : RawOptions

-- `set`: the first value of an option stays.
unfoldable pub set : Text → Text → RawOptions → RawOptions
unfolding eq_ignore_ascii_case
set key value o =
    if eq_ignore_ascii_case key (codes "hostname")
    then record o { host_name = or_else o.host_name (some value) }
    else if eq_ignore_ascii_case key (codes "port")
    then record o { port = or_else o.port (some value) }
    else if eq_ignore_ascii_case key (codes "user")
    then record o { user = or_else o.user (some value) }
    else if eq_ignore_ascii_case key (codes "identityfile")
    then record o { identity_file = or_else o.identity_file (some value) }
    else o

-- `ParsedConfig`, and the stanza that is being read.
pub record Parsing : Type 0 where
  pub defaults : RawOptions
  pub stanzas : List RawStanza
  pub open_stanza : Option RawStanza

abbrev pub no_stanzas : Parsing
no_stanzas = record { defaults = no_options; stanzas = []; open_stanza = none }

unfoldable pub close_stanza : Parsing → List RawStanza
close_stanza p = elim p.open_stanza [ none ↦ p.stanzas | some stanza ↦ p.stanzas ++ (stanza ∷ []) ]

unfoldable pub open_host : ℕ → Text → Parsing → Parsing
unfolding close_stanza split_words
open_host index value p = record p {
  stanzas = close_stanza p;
  open_stanza = some (record {
    aliases = map (λ word. record { line = index + 1; value = word }) (split_words value);
    options = no_options;
  });
}

unfoldable pub set_option : Text → Text → Parsing → Parsing
unfolding set
set_option key value p = elim p.open_stanza [
  | none ↦ record p { defaults = set key value p.defaults }
  | some stanza ↦ record p {
    open_stanza = some (record stanza { options = set key value stanza.options });
  }
]

-- The loop's body.
unfoldable pub parse_line : ℕ → Text → Parsing → Parsing
unfolding eq_ignore_ascii_case split_directive unquote open_host set_option
parse_line index raw_line p = elim (split_directive raw_line) [
  | none ↦ p
  | some d ↦
      if eq_ignore_ascii_case d.0 (codes "host")
      then open_host index d.1 p
      else set_option d.0 (unquote (trim d.1)) p
]

unfoldable pub parse_lines : ℕ → List Text → Parsing → Parsing
unfolding parse_line
parse_lines index [] p = p
parse_lines index (l ∷ ls) p = parse_lines (suc index) ls (parse_line index l p)

-- `parse_config`: the defaults and the stanzas.
unfoldable pub parse_config : Text → RawOptions × List RawStanza
unfolding lines parse_lines close_stanza
parse_config source =
    let p = parse_lines 0 (lines source) no_stanzas in (p.defaults, close_stanza p)
