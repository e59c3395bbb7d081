-- ===== src/Persistence/KeyRecord/Secrecy.antt =====
-- What the encryption of a private key stores, and that it is decrypted again.
use bx_ssh.Common.{
  ◌+◌, ◌≤◌, ◌<◌, ◌≡◌, ◌↔◌, ◌⊎◌, inl, inr, false, ◌||◌, some, [], ◌∷◌, ok, err, length, is_empty,
  ltb, arith, Bool-cases,
}
use bx_ssh.Common.Bytes.{Bytes}
use bx_ssh.Persistence.Error.{invalid_private_key}
use bx_ssh.Persistence.KeyRecord.{
  Aes256Gcm, EncryptedPrivateKey, aad, tag_len, max_private_key_len, to_bytes, from_bytes,
  encrypt_with_key, encrypt, decrypt,
}
use bx_ssh.Persistence.KeyRecord.RoundTrip.{from_bytes-to_bytes}

-- What AES-256-GCM promises: it takes keys of 32 bytes, it encrypts any message of this size, with a
-- tag, and decrypts what it encrypted.
pub record IsAead {K : Type 0} (aes : Aes256Gcm K) : Type 0 where
  pub takes : (key : Bytes) → length key ≡ 32 → (k : K) × (aes.new_from_slice key ≡ some k)
  pub encrypts :
      (k : K) (nonce ad message : Bytes)
      → length nonce ≡ 12
      → length message ≤ max_private_key_len
      → (c : Bytes) × (aes.encrypt k nonce ad message ≡ some c)
  pub tagged :
      (k : K) (nonce ad message c : Bytes)
      → aes.encrypt k nonce ad message ≡ some c
      → length c ≡ length message + tag_len
  pub decrypts :
      (k : K) (nonce ad message c : Bytes)
      → aes.encrypt k nonce ad message ≡ some c
      → aes.decrypt k nonce ad c ≡ some message

abbrev pub IsStorable : Bytes → Type 0
IsStorable plaintext = (0 < length plaintext) × (length plaintext ≤ max_private_key_len)

IsStorable-iff :
    (p : Bytes) → ((is_empty p || ltb max_private_key_len (length p)) ≡ false) ↔ IsStorable p
IsStorable-iff [] = ground arith
IsStorable-iff (x ∷ xs) = ground arith

module _ (E : Type 0) {K : Type 0} (aes : Aes256Gcm K) where
  -- The record of a plaintext, which comes back from its bytes and is decrypted with the key.
  abbrev pub Recovers : Bytes → Bytes → EncryptedPrivateKey → Type 0
  Recovers plaintext key stored =
      (from_bytes {E = E} (to_bytes stored) ≡ ok stored)
      × (decrypt {E = E} aes stored key ≡ ok plaintext)

  encrypted :
      (key nonce plaintext c : Bytes) (k : K)
      → aes.new_from_slice key ≡ some k
      → aes.encrypt k nonce aad plaintext ≡ some c
      → encrypt_with_key {E = E} aes (ok nonce) plaintext key
        ≡ ok (record { nonce = nonce; ciphertext = c })
  unfolding encrypt_with_key
  encrypted key nonce plaintext c k taken done = ground (arith, taken, done)

  decrypted :
      (key plaintext : Bytes) (stored : EncryptedPrivateKey) (k : K)
      → aes.new_from_slice key ≡ some k
      → aes.decrypt k stored.nonce aad stored.ciphertext ≡ some plaintext
      → decrypt {E = E} aes stored key ≡ ok plaintext
  unfolding decrypt
  decrypted key plaintext stored k taken done = ground (arith, taken, done)

  module _ (aead : IsAead aes) (key nonce plaintext : Bytes) where
    encrypt_with_key_lem :
        length key ≡ 32
        → length nonce ≡ 12
        → length plaintext ≤ max_private_key_len
        → (stored : EncryptedPrivateKey) × (encrypt_with_key {E = E} aes (ok nonce) plaintext key
            ≡ ok stored)
          × Recovers plaintext key stored
    encrypt_with_key_lem key_sized nonce_sized bounded =
        let (k, taken) = aead.takes key key_sized in
        let (c, done) = aead.encrypts k nonce aad plaintext nonce_sized bounded in
        let tagged = aead.tagged k nonce aad plaintext c done in
        let opens = aead.decrypts k nonce aad plaintext c done in
        (
          record { nonce = nonce; ciphertext = c },
          encrypted key nonce plaintext c k taken done,
          (
            from_bytes-to_bytes (record { nonce = nonce; ciphertext = c })
                (record {
                  nonce_sized = nonce_sized;
                  has_tag = omega (arith, tagged);
                  bounded = omega (arith, tagged, bounded);
                }),
            decrypted key plaintext (record { nonce = nonce; ciphertext = c }) k taken opens,
          ),
        )

    -- With a drawn key and nonce, a private key that is not empty and has at most 4 MiB is encrypted:
    -- its record is read back from its bytes, and decrypted with the key it is the private key.
    -- Any other private key is rejected as invalid.
    pub encrypt_lem :
        length key ≡ 32
        → length nonce ≡ 12
        → (IsStorable plaintext
            × ((stored : EncryptedPrivateKey) × (encrypt {E = E} aes (ok key) (ok nonce) plaintext
                  ≡ ok (stored, key))
                × Recovers plaintext key stored))
          ⊎ (¬ (IsStorable plaintext)
              × (encrypt {E = E} aes (ok key) (ok nonce) plaintext ≡ err invalid_private_key))
    unfolding encrypt
    encrypt_lem key_sized nonce_sized =
        elim (Bool-cases (is_empty plaintext || ltb max_private_key_len (length plaintext))) [
          | inl refused ↦ inr (ground (arith, refused, IsStorable-iff plaintext), simp refused)
          | inr accepted ↦
              let storable = (IsStorable-iff plaintext).0 accepted in
              let (stored, made, recovers) =
                encrypt_with_key_lem key_sized nonce_sized storable.1 in
              inl (storable, (stored, simp (accepted, made), recovers))
        ]
