-- ===== src/Contracts/Connection/Validity.antt =====
-- What `ConnectionConfig::validate` accepts, and what each of its errors says.
use bx_ssh.Common.{
  ◌<◌, ◌≡◌, ◌≢◌, ◌↔◌, refl, true, false, not, Option, none, some, [], ◌∷◌, ok, err, is_empty,
  is_some, is_some_and, ◌==◌, Bool-cases, inl, inr, arith,
}
use bx_ssh.Common.Text.{Text, trim}
use bx_ssh.Common.Text.Trim.{IsBlank, trim_eq_nil_iff}
use bx_ssh.Contracts.Colors.{is_hex_color, IsHexColor, is_hex_color_iff}
use bx_ssh.Contracts.Connection.{
  AuthMethod, password, private_key, keyboard_interactive, ConnectionConfig,
  ConnectionValidationError, missing_id, invalid_group_reference, missing_name, missing_host,
  invalid_port, missing_username, invalid_color, invalid_credential_reference,
  invalid_key_reference, missing_key_reference, conflicting_authentication_references, is_blank,
  validate_references, validate,
}

-- At least one character is no white space.
pub is_blank_iff : (t : Text) → (is_blank t ≡ true) ↔ IsBlank t
unfolding is_blank
is_blank_iff t =
    (λ h. (trim_eq_nil_iff t).0 (empty_eq_nil (trim t) h), λ b. rw ((trim_eq_nil_iff t).1 b))
  where
    empty_eq_nil : (u : Text) → is_empty u ≡ true → u ≡ []
    empty_eq_nil [] h = refl
    empty_eq_nil (c ∷ cs) h = cc

-- A reference may be absent, and is not blank where it is present.
abbrev pub IsOptional : (Text → Type 0) → Option Text → Type 0
IsOptional P none = Unit
IsOptional P (some t) = P t

abbrev pub IsWritten : Text → Type 0
IsWritten t = ¬ (IsBlank t)

-- The references that each method of authentication takes: a stored password needs no key, a
-- private key needs its reference and no stored password, and an interactive login takes neither.
abbrev pub References : AuthMethod → Option Text → Option Text → Type 0
References password credential key = key ≡ none
References private_key credential key = (key ≢ none) × (credential ≡ none)
References keyboard_interactive credential key = (credential ≡ none) × (key ≡ none)

pub record IsValidConfig (c : ConnectionConfig) : Type 0 where
  pub id_written : IsWritten c.id
  pub group_written : IsOptional IsWritten c.group_id
  pub name_written : IsWritten c.name
  pub host_written : IsWritten c.host
  pub port_used : 0 < c.port
  pub username_written : IsWritten c.username
  pub color_hex : IsOptional IsHexColor c.color
  pub credential_written : IsOptional IsWritten c.credential_ref
  pub key_written : IsOptional IsWritten c.key_reference_id
  pub references : References c.auth_method c.credential_ref c.key_reference_id

pub IsWritten-iff : (t : Text) → (is_blank t ≡ false) ↔ IsWritten t
IsWritten-iff t = elim (Bool-cases (is_blank t)) [
  | inl e ↦ (λ h. cc (e, h), λ w. absurd (w ((is_blank_iff t).0 e)))
  | inr e ↦ (λ h b. cc ((is_blank_iff t).1 b, e), λ w. e)
]

pub IsOptional-IsWritten_iff :
    (o : Option Text) → (is_some_and is_blank o ≡ false) ↔ IsOptional IsWritten o
IsOptional-IsWritten_iff none = (λ h. tt, λ h. refl)
IsOptional-IsWritten_iff (some t) = IsWritten-iff t

pub IsOptional-hex_iff :
    (o : Option Text)
    → (is_some_and (λ color. not (is_hex_color color)) o ≡ false) ↔ IsOptional IsHexColor o
IsOptional-hex_iff none = (λ h. tt, λ h. refl)
IsOptional-hex_iff (some t) =
    (λ h. (is_hex_color_iff t).0 (ground arith), λ h. rw ((is_hex_color_iff t).1 h))

-- The reference checks pass exactly for the references that the method takes.
validate_references_iff :
    (m : AuthMethod) (credential key : Option Text)
    → (validate_references m (is_some credential) (is_some key) ≡ ok tt)
      ↔ References m credential key
unfolding validate_references
validate_references_iff password credential key = ground arith
validate_references_iff private_key credential key = ground arith
validate_references_iff keyboard_interactive credential key = ground arith

validate-IsValidConfig : (c : ConnectionConfig) → validate c ≡ ok tt → IsValidConfig c
unfolding validate
validate-IsValidConfig c h = record {
  id_written = (IsWritten-iff c.id).0 (ground arith);
  group_written = (IsOptional-IsWritten_iff c.group_id).0 (ground arith);
  name_written = (IsWritten-iff c.name).0 (ground arith);
  host_written = (IsWritten-iff c.host).0 (ground arith);
  port_used = ground arith;
  username_written = (IsWritten-iff c.username).0 (ground arith);
  color_hex = (IsOptional-hex_iff c.color).0 (ground arith);
  credential_written = (IsOptional-IsWritten_iff c.credential_ref).0 (ground arith);
  key_written = (IsOptional-IsWritten_iff c.key_reference_id).0 (ground arith);
  references =
      (validate_references_iff c.auth_method c.credential_ref c.key_reference_id).0 (ground arith);
}

IsValidConfig-validate : (c : ConnectionConfig) → IsValidConfig c → validate c ≡ ok tt
unfolding validate
IsValidConfig-validate c v =
    let id : is_blank c.id ≡ false = (IsWritten-iff c.id).1 v.id_written in
    let name : is_blank c.name ≡ false = (IsWritten-iff c.name).1 v.name_written in
    let host : is_blank c.host ≡ false = (IsWritten-iff c.host).1 v.host_written in
    let user : is_blank c.username ≡ false = (IsWritten-iff c.username).1 v.username_written in
    let port : (c.port == 0) ≡ false = ground (arith, v.port_used) in
    rw (id, (IsOptional-IsWritten_iff c.group_id).1 v.group_written, name, host, port, user)
      (rw ((IsOptional-hex_iff c.color).1 v.color_hex) (
        rw ((IsOptional-IsWritten_iff c.credential_ref).1 v.credential_written) (
          rw ((IsOptional-IsWritten_iff c.key_reference_id).1 v.key_written) (
            (validate_references_iff c.auth_method c.credential_ref c.key_reference_id).1
              v.references))))

-- A configuration is accepted exactly when it is valid: no written field is blank, the port is not
-- 0, a color is a hash mark with six hexadecimal digits, and the references fit the method.
pub validate_ok_iff : (c : ConnectionConfig) → (validate c ≡ ok tt) ↔ IsValidConfig c
validate_ok_iff c = (validate-IsValidConfig c, IsValidConfig-validate c)

-- What each error of the validation says of the configuration.
abbrev pub Blames : ConnectionValidationError → ConnectionConfig → Type 0
Blames missing_id c = IsBlank c.id
Blames invalid_group_reference c = (g : Text) × (c.group_id ≡ some g) × IsBlank g
Blames missing_name c = IsBlank c.name
Blames missing_host c = IsBlank c.host
Blames invalid_port c = c.port ≡ 0
Blames missing_username c = IsBlank c.username
Blames invalid_color c = (t : Text) × (c.color ≡ some t) × ¬ (IsHexColor t)
Blames invalid_credential_reference c = (t : Text) × (c.credential_ref ≡ some t) × IsBlank t
Blames invalid_key_reference c = (t : Text) × (c.key_reference_id ≡ some t) × IsBlank t
Blames missing_key_reference c = (c.auth_method ≡ private_key) × (c.key_reference_id ≡ none)
Blames conflicting_authentication_references c =
    ¬ (References c.auth_method c.credential_ref c.key_reference_id)

IsBlank-reference :
    (o : Option Text) → is_some_and is_blank o ≡ true → (t : Text) × (o ≡ some t) × IsBlank t
IsBlank-reference none h = cc
IsBlank-reference (some t) h = (t, refl, (is_blank_iff t).0 h)

bad_color :
    (o : Option Text)
    → is_some_and (λ color. not (is_hex_color color)) o ≡ true
    → (t : Text) × (o ≡ some t) × ¬ (IsHexColor t)
bad_color none h = cc
bad_color (some t) h = (t, refl, λ v. let e = (is_hex_color_iff t).1 v in ground arith)

conflict_References :
    (m : AuthMethod) (credential key : Option Text)
    → validate_references m (is_some credential) (is_some key)
      ≡ err conflicting_authentication_references
    → ¬ (References m credential key)
conflict_References m credential key h r =
    let fine = (validate_references_iff m credential key).1 r in cc

-- The error that a configuration is refused with names a rule that the configuration breaks.
pub validate-Blames :
    (c : ConnectionConfig) (e : ConnectionValidationError) → validate c ≡ err e → Blames e c
unfolding validate
validate-Blames c missing_id h = (is_blank_iff c.id).0 (unfold validate_references in ground arith)
validate-Blames c invalid_group_reference h =
    IsBlank-reference c.group_id (unfold validate_references in ground arith)
validate-Blames c missing_name h =
    (is_blank_iff c.name).0 (unfold validate_references in ground arith)
validate-Blames c missing_host h =
    (is_blank_iff c.host).0 (unfold validate_references in ground arith)
validate-Blames c invalid_port h = unfold validate_references in ground arith
validate-Blames c missing_username h =
    (is_blank_iff c.username).0 (unfold validate_references in ground arith)
validate-Blames c invalid_color h = bad_color c.color (unfold validate_references in ground arith)
validate-Blames c invalid_credential_reference h =
    IsBlank-reference c.credential_ref (unfold validate_references in ground arith)
validate-Blames c invalid_key_reference h =
    IsBlank-reference c.key_reference_id (unfold validate_references in ground arith)
validate-Blames c missing_key_reference h = unfold validate_references in ground arith
validate-Blames c conflicting_authentication_references h =
    conflict_References c.auth_method c.credential_ref c.key_reference_id (ground arith)
