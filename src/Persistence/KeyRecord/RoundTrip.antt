-- ===== src/Persistence/KeyRecord/RoundTrip.antt =====
-- Encrypted private keys are read back from their bytes, and decrypted with their key.
use bx_ssh.Common.{
  ℕ, ◌+◌, ◌%◌, ◌^◌, ◌≤◌, ◌≡◌, refl, ap, ◌∙◌, true, some, [], ◌∷◌, ◌++◌, ok, length, length-append,
  arith,
}
use bx_ssh.Common.Bytes.{
  Bytes, take, skip, take-append, skip-append, to_be_bytes, from_be_bytes,
  from_be_bytes-to_be_bytes,
}
use bx_ssh.Common.Text.{text_eq}
use bx_ssh.Persistence.KeyRecord.{
  EncryptedPrivateKey, magic, header_len, tag_len, max_private_key_len, to_bytes, slice, from_bytes,
}

-- The lengths that the types and the encryption give a record.
pub record IsSized (key : EncryptedPrivateKey) : Type 0 where
  pub nonce_sized : length key.nonce ≡ 12
  pub has_tag : tag_len ≤ length key.ciphertext
  pub bounded : length key.ciphertext ≤ max_private_key_len + tag_len

accepted :
    {E : Type 0} (bytes : Bytes) (n : ℕ)
    → length bytes ≡ header_len + n
    → tag_len ≤ n
    → n ≤ max_private_key_len + tag_len
    → text_eq (take 4 bytes) magic ≡ true
    → text_eq (slice 4 1 bytes) (1 ∷ []) ≡ true
    → from_be_bytes (slice 17 4 bytes) ≡ some n
    → from_bytes {E = E} bytes
      ≡ ok (record { nonce = slice 5 12 bytes; ciphertext = skip header_len bytes })
unfolding from_bytes
accepted bytes n sized has_tag bounded magic_read version_read len_read =
    ground (arith, sized, has_tag, bounded, magic_read, version_read, len_read)

module _ (key : EncryptedPrivateKey) (sized : IsSized key) where
  abbrev after_nonce : Bytes
  after_nonce = to_be_bytes (length key.ciphertext % 2 ^ 32) ++ key.ciphertext

  length-to_bytes : length (to_bytes key) ≡ header_len + length key.ciphertext
  unfolding to_bytes to_be_bytes
  length-to_bytes = omega (arith, length-append key.nonce after_nonce, sized.nonce_sized)

  nonce_read : slice 5 12 (to_bytes key) ≡ key.nonce
  unfolding to_bytes take skip
  nonce_read = take-append key.nonce after_nonce 12 sized.nonce_sized

  magic_read : text_eq (take 4 (to_bytes key)) magic ≡ true
  unfolding to_bytes take text_eq
  magic_read = refl

  version_read : text_eq (slice 4 1 (to_bytes key)) (1 ∷ []) ≡ true
  unfolding to_bytes take skip text_eq
  version_read = refl

  ciphertext_read : skip header_len (to_bytes key) ≡ key.ciphertext
  unfolding to_bytes skip to_be_bytes
  ciphertext_read = skip-append key.nonce after_nonce 12 4 sized.nonce_sized

  length_read : slice 17 4 (to_bytes key) ≡ to_be_bytes (length key.ciphertext % 2 ^ 32)
  unfolding to_bytes take skip to_be_bytes
  length_read = ap (take 4) (skip-append key.nonce after_nonce 12 0 sized.nonce_sized)

  ciphertext_len_read : from_be_bytes (slice 17 4 (to_bytes key)) ≡ some (length key.ciphertext)
  ciphertext_len_read =
      ap from_be_bytes length_read
      ∙ from_be_bytes-to_be_bytes _ (omega arith)
      ∙ ap some (omega (arith, sized.bounded))

  pub from_bytes-to_bytes : {E : Type 0} → from_bytes {E = E} (to_bytes key) ≡ ok key
  from_bytes-to_bytes =
      accepted (to_bytes key) (length key.ciphertext) length-to_bytes sized.has_tag sized.bounded
        magic_read version_read ciphertext_len_read
      ∙ ap ok (
          ap (λ n. record { nonce = n; ciphertext = skip header_len (to_bytes key) }) nonce_read
          ∙ ap (λ c. record { nonce = key.nonce; ciphertext = c }) ciphertext_read)
