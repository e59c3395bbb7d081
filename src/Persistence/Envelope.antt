-- ===== src/Persistence/Envelope.antt =====
-- crates/persistence/src/envelope.rs and key.rs: the key of the database, encrypted with a key that
-- Argon2id derives from the master password. Argon2id, AES-256-GCM and the random source are
-- parameters.
pub mod Opened
use bx_ssh.Common.{
  ℕ, ◌+◌, ◌*◌, Bool, true, false, not, ◌&&◌, ◌||◌, Option, none, some, List, [], ◌∷◌, ◌++◌, Result,
  ok, err, length, if◌then◌else◌, ◌==◌,
}
use bx_ssh.Common.Bytes.{Bytes, take, skip, to_be_bytes, from_be_bytes}
use bx_ssh.Common.Text.{codes, text_eq}
use bx_ssh.Persistence.Error.{
  PersistenceError, invalid_data_key_length, invalid_envelope, unsupported_envelope, key_derivation,
  encryption_failed, authentication_failed,
}
use bx_ssh.Persistence.KeyRecord.{Aes256Gcm, slice}

pub record MasterPasswordEnvelope : Type 0 where
  pub salt : Bytes
  pub nonce : Bytes
  pub ciphertext : Bytes

abbrev pub envelope_magic : Bytes
envelope_magic = codes "BXDK"

abbrev pub memory_cost_kib : ℕ
memory_cost_kib = 64 * 1024

abbrev pub time_cost : ℕ
time_cost = 3

abbrev pub parallelism : ℕ
parallelism = 1

abbrev pub envelope_header_len : ℕ
envelope_header_len = 45

abbrev pub ciphertext_len : ℕ
ciphertext_len = 48

abbrev pub envelope_aad : Bytes
envelope_aad = codes "bx-ssh/database-key/v1"

unfoldable pub envelope_to_bytes : MasterPasswordEnvelope → Bytes
envelope_to_bytes envelope =
    envelope_magic
    ++ ((1 ∷ [])
        ++ (to_be_bytes memory_cost_kib
            ++ (to_be_bytes time_cost
                ++ (to_be_bytes parallelism
                    ++ (envelope.salt ++ (envelope.nonce ++ envelope.ciphertext))))))

-- `read_u32`, compared with what the format requires.
abbrev pub reads : Bytes → ℕ → Bool
reads bytes n = elim (from_be_bytes bytes) [ none ↦ false | some m ↦ m == n ]

module _ {E : Type 0} where
  unfoldable pub envelope_from_bytes : Bytes → Result (PersistenceError E) MasterPasswordEnvelope
  envelope_from_bytes bytes =
      if not (length bytes == envelope_header_len + ciphertext_len)
        || not (text_eq (take 4 bytes) envelope_magic)
      then err invalid_envelope
      else if not (text_eq (slice 4 1 bytes) (1 ∷ []))
          || (not (reads (slice 5 4 bytes) memory_cost_kib)
              || (not (reads (slice 9 4 bytes) time_cost)
                  || not (reads (slice 13 4 bytes) parallelism)))
      then err unsupported_envelope
      else ok (record {
        salt = slice 17 16 bytes;
        nonce = slice 33 12 bytes;
        ciphertext = skip envelope_header_len bytes;
      })

  -- `DataKey::from_bytes`.
  unfoldable pub data_key_from_bytes : Bytes → Result (PersistenceError E) Bytes
  data_key_from_bytes bytes =
      if not (length bytes == 32) then err (invalid_data_key_length (length bytes)) else ok bytes

  -- `argon2` derives a key from a password and a salt, or fails.
  module _ {K : Type 0} (aes : Aes256Gcm K) (argon2 : Bytes → Bytes → Result E Bytes) where
    unfoldable pub derive_wrapping_key : Bytes → Bytes → Result (PersistenceError E) Bytes
    derive_wrapping_key password salt = elim (argon2 password salt) [
      | err e ↦ err (key_derivation e)
      | ok key ↦ ok key
    ]

    -- With the salt and the nonce that were drawn.
    unfoldable pub seal_with :
        Bytes → Bytes → Bytes → Bytes → Result (PersistenceError E) MasterPasswordEnvelope
    unfolding derive_wrapping_key
    seal_with salt nonce data_key password = elim (derive_wrapping_key password salt) [
      | err e ↦ err e
      | ok wrapping ↦ elim (aes.new_from_slice wrapping) [
        | none ↦ err encryption_failed
        | some cipher ↦ elim (aes.encrypt cipher nonce envelope_aad data_key) [
          | none ↦ err encryption_failed
          | some ciphertext ↦ ok (record { salt = salt; nonce = nonce; ciphertext = ciphertext })
        ]
      ]
    ]

    -- The random source draws the salt and then the nonce, or fails.
    unfoldable pub seal :
        Result (PersistenceError E) Bytes
        → Result (PersistenceError E) Bytes
        → Bytes
        → Bytes
        → Result (PersistenceError E) MasterPasswordEnvelope
    unfolding seal_with
    seal (err e) nonce data_key password = err e
    seal (ok salt) (err e) data_key password = err e
    seal (ok salt) (ok nonce) data_key password = seal_with salt nonce data_key password

    -- `open`.
    unfoldable pub open_envelope :
        MasterPasswordEnvelope → Bytes → Result (PersistenceError E) Bytes
    unfolding derive_wrapping_key data_key_from_bytes
    open_envelope envelope password = elim (derive_wrapping_key password envelope.salt) [
      | err e ↦ err e
      | ok wrapping ↦ elim (aes.new_from_slice wrapping) [
        | none ↦ err authentication_failed
        | some cipher ↦ elim (aes.decrypt cipher envelope.nonce envelope_aad envelope.ciphertext) [
          | none ↦ err authentication_failed
          | some plaintext ↦ data_key_from_bytes plaintext
        ]
      ]
    ]
