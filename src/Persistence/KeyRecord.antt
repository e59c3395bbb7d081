-- ===== src/Persistence/KeyRecord.antt =====
-- crates/persistence/src/private_key.rs: imported private keys, each encrypted with a key of its own.
-- AES-256-GCM and the random source are parameters.
pub mod RoundTrip
pub mod Secrecy
use bx_ssh.Common.{
  ℕ, ◌+◌, ◌*◌, ◌%◌, ◌^◌, Bool, true, false, not, ◌&&◌, ◌||◌, Option, none, some, List, [], ◌∷◌,
  ◌++◌, Result, ok, err, length, is_empty, if◌then◌else◌, ◌==◌, ltb, leb,
}
use bx_ssh.Common.Bytes.{Bytes, take, skip, to_be_bytes, from_be_bytes}
use bx_ssh.Common.Text.{codes, text_eq}
use bx_ssh.Persistence.Error.{
  PersistenceError, authentication_failed, encryption_failed, invalid_private_key,
  invalid_private_key_record,
}

-- `Aes256Gcm`: the key, the nonce, the associated data, and the message or the ciphertext.
pub record Aes256Gcm (K : Type 0) : Type 0 where
  pub new_from_slice : Bytes → Option K
  pub encrypt : K → Bytes → Bytes → Bytes → Option Bytes
  pub decrypt : K → Bytes → Bytes → Bytes → Option Bytes

pub record EncryptedPrivateKey : Type 0 where
  pub nonce : Bytes
  pub ciphertext : Bytes

abbrev pub magic : Bytes
magic = codes "BXPK"

abbrev pub aad : Bytes
aad = codes "bx-ssh/imported-private-key/v1"

abbrev pub header_len : ℕ
header_len = 21

abbrev pub tag_len : ℕ
tag_len = 16

abbrev pub max_private_key_len : ℕ
max_private_key_len = 4 * 1024 * 1024

unfoldable pub to_bytes : EncryptedPrivateKey → Bytes
to_bytes key =
    magic
    ++ ((1 ∷ []) ++ (key.nonce ++ (to_be_bytes (length key.ciphertext % 2 ^ 32) ++ key.ciphertext)))

-- `bytes[from..to]` has the length to - from.
abbrev pub slice : ℕ → ℕ → Bytes → Bytes
slice from len bytes = take len (skip from bytes)

module _ {E : Type 0} where
  unfoldable pub from_bytes : Bytes → Result (PersistenceError E) EncryptedPrivateKey
  from_bytes bytes =
      if ltb (length bytes) (header_len + tag_len) || not (text_eq (take 4 bytes) magic)
      then err invalid_private_key_record
      else if not (text_eq (slice 4 1 bytes) (1 ∷ []))
      then err invalid_private_key_record
      else elim (from_be_bytes (slice 17 4 bytes)) [
        | none ↦ err invalid_private_key_record
        | some ciphertext_len ↦
            if not
                (leb tag_len ciphertext_len && leb ciphertext_len (max_private_key_len + tag_len))
              || not (length bytes == header_len + ciphertext_len)
            then err invalid_private_key_record
            else ok (record { nonce = slice 5 12 bytes; ciphertext = skip header_len bytes })
      ]

  module _ {K : Type 0} (aes : Aes256Gcm K) where
    -- `encrypt_with_key`; the random source draws the nonce, or fails.
    unfoldable pub encrypt_with_key :
        Result (PersistenceError E) Bytes
        → Bytes
        → Bytes
        → Result (PersistenceError E) EncryptedPrivateKey
    encrypt_with_key (err e) plaintext key = err e
    encrypt_with_key (ok nonce) plaintext key = elim (aes.new_from_slice key) [
      | none ↦ err encryption_failed
      | some cipher ↦ elim (aes.encrypt cipher nonce aad plaintext) [
        | none ↦ err encryption_failed
        | some ciphertext ↦ ok (record { nonce = nonce; ciphertext = ciphertext })
      ]
    ]

    -- The random source draws the key with `DataKey::generate`, and then the nonce.
    unfoldable pub encrypt :
        Result (PersistenceError E) Bytes
        → Result (PersistenceError E) Bytes
        → Bytes
        → Result (PersistenceError E) (EncryptedPrivateKey × Bytes)
    unfolding encrypt_with_key
    encrypt generated drawn plaintext =
        if is_empty plaintext || ltb max_private_key_len (length plaintext)
        then err invalid_private_key
        else elim generated [
          | err e ↦ err e
          | ok key ↦ elim (encrypt_with_key drawn plaintext key) [
            | err e ↦ err e
            | ok encrypted ↦ ok (encrypted, key)
          ]
        ]

    unfoldable pub decrypt : EncryptedPrivateKey → Bytes → Result (PersistenceError E) Bytes
    decrypt encrypted key = elim (aes.new_from_slice key) [
      | none ↦ err authentication_failed
      | some cipher ↦ elim (aes.decrypt cipher encrypted.nonce aad encrypted.ciphertext) [
        | none ↦ err authentication_failed
        | some plaintext ↦ ok plaintext
      ]
    ]
