-- ===== src/Desktop/Import/Parser/Options.antt =====
-- Later lines of a configuration do not change what earlier lines said.
use bx_ssh.Common.{
  ℕ, suc, ◌≡◌, inl, inr, Option, none, some, List, [], ◌∷◌, or_else, Bool-cases, Option-cases,
}
use bx_ssh.Common.Text.{Text, codes, eq_ignore_ascii_case}
use bx_ssh.Desktop.Import.Lexer.{split_directive}
use bx_ssh.Desktop.Import.Parser.{
  RawOptions, set, Parsing, open_host, set_option, parse_line, parse_lines,
}

-- What one set of options says, another says too.
abbrev pub KeepsOption : Option Text → Option Text → Type 0
KeepsOption a b = (value : Text) → a ≡ some value → b ≡ some value

pub record Keeps (o o' : RawOptions) : Type 0 where
  pub host_name : KeepsOption o.host_name o'.host_name
  pub port : KeepsOption o.port o'.port
  pub user : KeepsOption o.user o'.user
  pub identity_file : KeepsOption o.identity_file o'.identity_file

or_else-KeepsOption : (a : Option Text) (value : Text) → KeepsOption a (or_else a (some value))
or_else-KeepsOption none value v h = absurd (cc h)
or_else-KeepsOption (some a) value v h = h

Keeps-refl : (o : RawOptions) → Keeps o o
Keeps-refl o = record {
  host_name = λ v h. h;
  port = λ v h. h;
  user = λ v h. h;
  identity_file = λ v h. h;
}

Keeps-trans : {a b c : RawOptions} → Keeps a b → Keeps b c → Keeps a c
Keeps-trans k l = record {
  host_name = λ v h. l.host_name v (k.host_name v h);
  port = λ v h. l.port v (k.port v h);
  user = λ v h. l.user v (k.user v h);
  identity_file = λ v h. l.identity_file v (k.identity_file v h);
}

set-Keeps : (key value : Text) (o : RawOptions) → Keeps o (set key value o)
unfolding set
set-Keeps key value o = elim (Bool-cases (eq_ignore_ascii_case key (codes "hostname"))) [
  | inl a ↦ rw a (record {
    host_name = or_else-KeepsOption o.host_name value;
    port = λ v h. h;
    user = λ v h. h;
    identity_file = λ v h. h;
  })
  | inr a ↦ elim (Bool-cases (eq_ignore_ascii_case key (codes "port"))) [
    | inl b ↦
        rw (a, b)
          (record {
            host_name = λ v h. h;
            port = or_else-KeepsOption o.port value;
            user = λ v h. h;
            identity_file = λ v h. h;
          })
    | inr b ↦ elim (Bool-cases (eq_ignore_ascii_case key (codes "user"))) [
      | inl c ↦
          rw (a, b, c)
            (record {
              host_name = λ v h. h;
              port = λ v h. h;
              user = or_else-KeepsOption o.user value;
              identity_file = λ v h. h;
            })
      | inr c ↦ elim (Bool-cases (eq_ignore_ascii_case key (codes "identityfile"))) [
        | inl d ↦
            rw (a, b, c, d)
              (record {
                host_name = λ v h. h;
                port = λ v h. h;
                user = λ v h. h;
                identity_file = or_else-KeepsOption o.identity_file value;
              })
        | inr d ↦ rw (a, b, c, d) (Keeps-refl o)
      ]
    ]
  ]
]

set_option-Keeps :
    (key value : Text) (p : Parsing) → Keeps p.defaults (set_option key value p).defaults
unfolding set_option
set_option-Keeps key value p = elim (Option-cases p.open_stanza) [
  | inl e ↦ rw e (set-Keeps key value p.defaults)
  | inr (s, e) ↦ rw e (Keeps-refl p.defaults)
]

parse_line-Keeps :
    (index : ℕ) (line : Text) (p : Parsing) → Keeps p.defaults (parse_line index line p).defaults
unfolding parse_line open_host
parse_line-Keeps index line p = elim (Option-cases (split_directive line)) [
  | inl e ↦ rw (parse_line, e) (Keeps-refl p.defaults)
  | inr ((key, value), e) ↦ elim (Bool-cases (eq_ignore_ascii_case key (codes "host"))) [
    | inl f ↦ rw (parse_line, e, f) (Keeps-refl p.defaults)
    | inr f ↦ rw (parse_line, e, f) (set_option-Keeps key _ p)
  ]
]

-- The first value of an option stays: whatever lines follow, they change no option that the
-- defaults have already.
pub parse_lines-Keeps :
    (index : ℕ) (lines : List Text) (p : Parsing)
    → Keeps p.defaults (parse_lines index lines p).defaults
unfolding parse_lines
parse_lines-Keeps index [] p = Keeps-refl p.defaults
parse_lines-Keeps index (l ∷ ls) p =
    Keeps-trans (parse_line-Keeps index l p)
      (parse_lines-Keeps (suc index) ls (parse_line index l p))
