-- ===== src/Persistence/Envelope/Opened.antt =====
-- A sealed envelope is read back from its bytes, and opened with its password.
use bx_ssh.Common.{
  ◌+◌, ◌≡◌, refl, ap, ◌∙◌, true, some, [], ◌∷◌, ◌++◌, Result, ok, length, length-append, arith,
}
use bx_ssh.Common.Bytes.{Bytes, take, skip, take-append, skip-append, to_be_bytes, from_be_bytes}
use bx_ssh.Common.Text.{text_eq}
use bx_ssh.Persistence.KeyRecord.{Aes256Gcm, slice}
use bx_ssh.Persistence.KeyRecord.Secrecy.{IsAead}
use bx_ssh.Persistence.Envelope.{
  MasterPasswordEnvelope, envelope_magic, envelope_header_len, ciphertext_len, envelope_aad,
  memory_cost_kib, time_cost, parallelism, reads, envelope_to_bytes, envelope_from_bytes,
  data_key_from_bytes, derive_wrapping_key, seal_with, seal, open_envelope,
}

pub record IsSizedEnvelope (envelope : MasterPasswordEnvelope) : Type 0 where
  pub salt_sized : length envelope.salt ≡ 16
  pub nonce_sized : length envelope.nonce ≡ 12
  pub ciphertext_sized : length envelope.ciphertext ≡ ciphertext_len

envelope_accepted :
    {E : Type 0} (bytes : Bytes)
    → length bytes ≡ envelope_header_len + ciphertext_len
    → text_eq (take 4 bytes) envelope_magic ≡ true
    → text_eq (slice 4 1 bytes) (1 ∷ []) ≡ true
    → reads (slice 5 4 bytes) memory_cost_kib ≡ true
    → reads (slice 9 4 bytes) time_cost ≡ true
    → reads (slice 13 4 bytes) parallelism ≡ true
    → envelope_from_bytes {E = E} bytes
      ≡ ok (record {
        salt = slice 17 16 bytes;
        nonce = slice 33 12 bytes;
        ciphertext = skip envelope_header_len bytes;
      })
unfolding envelope_from_bytes
envelope_accepted bytes sized magic version memory time lanes =
    simp (sized, magic, version, memory, time, lanes)

module _ (v : MasterPasswordEnvelope) (sized : IsSizedEnvelope v) where
  length-envelope_to_bytes : length (envelope_to_bytes v) ≡ envelope_header_len + ciphertext_len
  unfolding envelope_to_bytes to_be_bytes
  length-envelope_to_bytes = omega (
    arith,
    length-append v.salt (v.nonce ++ v.ciphertext),
    length-append v.nonce v.ciphertext,
    sized.salt_sized,
    sized.nonce_sized,
    sized.ciphertext_sized,
  )

  salt_read : slice 17 16 (envelope_to_bytes v) ≡ v.salt
  unfolding envelope_to_bytes take skip to_be_bytes
  salt_read = take-append v.salt (v.nonce ++ v.ciphertext) 16 sized.salt_sized

  nonce_read : slice 33 12 (envelope_to_bytes v) ≡ v.nonce
  unfolding envelope_to_bytes take skip to_be_bytes
  nonce_read =
      ap (take 12) (skip-append v.salt (v.nonce ++ v.ciphertext) 16 0 sized.salt_sized)
      ∙ take-append v.nonce v.ciphertext 12 sized.nonce_sized

  ciphertext_read : skip envelope_header_len (envelope_to_bytes v) ≡ v.ciphertext
  unfolding envelope_to_bytes skip to_be_bytes
  ciphertext_read =
      skip-append v.salt (v.nonce ++ v.ciphertext) 16 12 sized.salt_sized
      ∙ skip-append v.nonce v.ciphertext 12 0 sized.nonce_sized

  pub envelope_from_bytes-to_bytes :
      {E : Type 0} → envelope_from_bytes {E = E} (envelope_to_bytes v) ≡ ok v
  unfolding envelope_to_bytes take skip to_be_bytes from_be_bytes text_eq
  envelope_from_bytes-to_bytes =
      envelope_accepted (envelope_to_bytes v) length-envelope_to_bytes refl refl refl refl refl
      ∙ ap
          (λ s. ok (record {
            salt = s;
            nonce = slice 33 12 (envelope_to_bytes v);
            ciphertext = skip envelope_header_len (envelope_to_bytes v);
          }))
          salt_read
      ∙ ap
          (λ n. ok (record {
            salt = v.salt;
            nonce = n;
            ciphertext = skip envelope_header_len (envelope_to_bytes v);
          }))
          nonce_read
      ∙ ap (λ c. ok (record { salt = v.salt; nonce = v.nonce; ciphertext = c })) ciphertext_read

module _ (E : Type 0) {K : Type 0} (aes : Aes256Gcm K)
    (argon2 : Bytes → Bytes → Result E Bytes) where
  sealed :
      (salt nonce data_key password wrapping c : Bytes) (k : K)
      → argon2 password salt ≡ ok wrapping
      → aes.new_from_slice wrapping ≡ some k
      → aes.encrypt k nonce envelope_aad data_key ≡ some c
      → seal aes argon2 (ok salt) (ok nonce) data_key password
        ≡ ok (record { salt = salt; nonce = nonce; ciphertext = c })
  unfolding seal seal_with derive_wrapping_key
  sealed salt nonce data_key password wrapping c k derived taken done =
      ground (arith, derived, taken, done)

  opened :
      (v : MasterPasswordEnvelope) (data_key password wrapping : Bytes) (k : K)
      → argon2 password v.salt ≡ ok wrapping
      → aes.new_from_slice wrapping ≡ some k
      → aes.decrypt k v.nonce envelope_aad v.ciphertext ≡ some data_key
      → length data_key ≡ 32
      → open_envelope aes argon2 v password ≡ ok data_key
  unfolding open_envelope derive_wrapping_key data_key_from_bytes
  opened v data_key password wrapping k derived taken done sized =
      ground (arith, derived, taken, done, sized)

  -- If Argon2id derives a key of 32 bytes from the password and the salt, the key of the database is
  -- sealed into an envelope, which is read back from its bytes and opened with the password.
  pub open_envelope-seal :
      (aead : IsAead aes) (salt nonce data_key password wrapping : Bytes)
      → length salt ≡ 16
      → length nonce ≡ 12
      → length data_key ≡ 32
      → argon2 password salt ≡ ok wrapping
      → length wrapping ≡ 32
      → (v : MasterPasswordEnvelope) × (seal aes argon2 (ok salt) (ok nonce) data_key password
          ≡ ok v)
        × (envelope_from_bytes {E = E} (envelope_to_bytes v) ≡ ok v)
        × (open_envelope aes argon2 v password ≡ ok data_key)
  open_envelope-seal aead salt nonce data_key password wrapping salt_sized nonce_sized key_sized
        derived wrapping_sized =
      let (k, taken) = aead.takes wrapping wrapping_sized in
      let (c, done) =
        aead.encrypts k nonce envelope_aad data_key nonce_sized (omega (arith, key_sized)) in
      let tagged = aead.tagged k nonce envelope_aad data_key c done in
      let opens = aead.decrypts k nonce envelope_aad data_key c done in
      (
        record { salt = salt; nonce = nonce; ciphertext = c },
        sealed salt nonce data_key password wrapping c k derived taken done,
        envelope_from_bytes-to_bytes (record { salt = salt; nonce = nonce; ciphertext = c })
            (record {
              salt_sized = salt_sized;
              nonce_sized = nonce_sized;
              ciphertext_sized = omega (arith, tagged, key_sized);
            }),
        opened (record { salt = salt; nonce = nonce; ciphertext = c }) data_key password wrapping k
            derived taken opens key_sized,
      )
