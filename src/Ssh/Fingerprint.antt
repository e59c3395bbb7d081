-- ===== src/Ssh/Fingerprint.antt =====
-- crates/ssh-core/src/fingerprint.rs: the SHA-256 fingerprint of a host key, as OpenSSH writes it.
use bx_ssh.Common.{
  ℕ, ◌<◌, ◌≡◌, ◌⊎◌, ◌↔◌, refl, sym, ap, subst, ◌∙◌, Bool, true, not, ◌||◌, Option, none, some, List,
  [], ◌∷◌, ◌++◌, Result, ok, err, ◌==◌, length, all, All, All-of_all, all_of_All, arith,
  if◌then◌else◌, Option-cases, inl, inr,
}
use bx_ssh.Common.Text.{Text, codes, strip_prefix, as_bytes, is_ascii_alphanumeric}
use bx_ssh.Common.Text.Bytes.{as_bytes-ascii, as_bytes_of_ascii}
use bx_ssh.Ssh.Foreign.{Foreign}
use bx_ssh.Ssh.Error.{SshError, invalid_fingerprint}

abbrev pub sha256_prefix : Text
sha256_prefix = codes "SHA256:"

abbrev pub sha256_base64_length : ℕ
sha256_base64_length = 43

pub record HostFingerprint : Type 0 where
  pub value : Text

unfoldable pub is_base64_byte : ℕ → Bool
unfolding is_ascii_alphanumeric
is_base64_byte b = is_ascii_alphanumeric b || b == b'+' || b == b'/'

-- The rest of `parse`, on the text behind the prefix.
unfoldable pub parse_encoded :
    {F : Foreign} → Text → Option Text → Result (SshError F) HostFingerprint
parse_encoded value none = err invalid_fingerprint
parse_encoded value (some encoded) =
    let bytes = as_bytes encoded in
    if not (length bytes == sha256_base64_length) || not (all is_base64_byte bytes)
    then err invalid_fingerprint
    else ok (record { value = value })

-- `HostFingerprint::parse`.
unfoldable pub parse : {F : Foreign} → Text → Result (SshError F) HostFingerprint
unfolding parse_encoded
parse value = parse_encoded value (strip_prefix sha256_prefix value)

-- A fingerprint as OpenSSH prints it: the prefix, and 43 digits of base 64 without padding.
pub record IsFingerprint (t : Text) : Type 0 where
  pub digits : Text
  pub reads : t ≡ sha256_prefix ++ digits
  pub count : length digits ≡ 43
  pub base64 : All (λ d. is_base64_byte d ≡ true) digits

is_base64_ascii : (b : ℕ) → is_base64_byte b ≡ true → b < 128
unfolding is_base64_byte
is_base64_ascii b h = ground arith

base64_ascii : (ds : List ℕ) → All (λ d. is_base64_byte d ≡ true) ds → All (λ d. d < 128) ds
base64_ascii [] h = tt
base64_ascii (d ∷ ds) h = (is_base64_ascii d h.0, base64_ascii ds h.1)

strip_prefix-append : (p t : Text) → strip_prefix p (p ++ t) ≡ some t
unfolding strip_prefix
strip_prefix-append [] t = refl
strip_prefix-append (c ∷ p) t = ground (arith, strip_prefix-append p t)

strip_prefix-eq_some : (p t u : Text) → strip_prefix p t ≡ some u → t ≡ p ++ u
unfolding strip_prefix
strip_prefix-eq_some [] t u h = cc
strip_prefix-eq_some (p ∷ ps) [] u h = cc
strip_prefix-eq_some (p ∷ ps) (c ∷ cs) u h = ground (arith, strip_prefix-eq_some ps cs u)

module _ {F : Foreign} where
  parse_encoded-IsFingerprint :
      (value digits : Text) (f : HostFingerprint)
      → value ≡ sha256_prefix ++ digits
      → parse_encoded {F = F} value (some digits) ≡ ok f
      → IsFingerprint value × (f.value ≡ value)
  unfolding parse_encoded
  parse_encoded-IsFingerprint value digits f e h =
      let plain : as_bytes digits ≡ digits =
        as_bytes-ascii is_base64_byte is_base64_ascii digits (ground arith) in
      (
        record {
          digits = digits;
          reads = e;
          count = subst (λ t. length t ≡ 43) plain (ground arith);
          base64 =
              All-of_all is_base64_byte digits
                (subst (λ t. all is_base64_byte t ≡ true) plain (ground arith));
        },
        ground arith,
      )

  parse-IsFingerprint :
      (value : Text) (f : HostFingerprint)
      → parse {F = F} value ≡ ok f
      → IsFingerprint value × (f.value ≡ value)
  unfolding parse
  parse-IsFingerprint value f h = elim (Option-cases (strip_prefix sha256_prefix value)) [
    | inl e ↦ absurd (let z = rw e at h in cc z)
    | inr (digits, e) ↦
        parse_encoded-IsFingerprint value digits f (strip_prefix-eq_some _ value digits e)
          (rw e at h)
  ]

  IsFingerprint-parse :
      (value : Text) → IsFingerprint value → parse {F = F} value ≡ ok (record { value = value })
  unfolding parse
  IsFingerprint-parse value v =
      rw (ap (strip_prefix sha256_prefix) v.reads ∙ strip_prefix-append sha256_prefix v.digits) (
        rw (as_bytes_of_ascii v.digits (base64_ascii v.digits v.base64))
          (ground (arith, v.count, all_of_All is_base64_byte v.digits v.base64)))

  -- A text is taken as a fingerprint exactly when it is one, and is kept as it is.
  pub parse_iff :
      (value : Text) (f : HostFingerprint)
      → (parse {F = F} value ≡ ok f) ↔ (IsFingerprint value × (f.value ≡ value))
  parse_iff value f = (
    parse-IsFingerprint value f,
    λ (v, e). IsFingerprint-parse value v ∙ ap ok (λ i. record { value = sym e i }),
  )

  -- The only error of `parse`, and its only value.
  pub parse_cases :
      (value : Text)
      → (parse {F = F} value ≡ err invalid_fingerprint)
        ⊎ (parse {F = F} value ≡ ok (record { value = value }))
  unfolding parse
  parse_cases value = ground arith
