-- ===== src/Tests/Keys.antt =====
-- Tests of encrypted private keys.
use bx_ssh.Common.{
  ◌-◌, ◌≡◌, ◌⊎◌, refl, none, some, [], ◌∷◌, ◌++◌, Result, ok, err, length, length-append,
  if◌then◌else◌, ◌==◌, arith,
}
use bx_ssh.Common.Bytes.{Bytes, take, take-append}
use bx_ssh.Common.Text.{codes}
use bx_ssh.Persistence.Error.{invalid_private_key}
use bx_ssh.Persistence.KeyRecord.{Aes256Gcm, EncryptedPrivateKey, encrypt}
use bx_ssh.Persistence.Envelope.{
  MasterPasswordEnvelope, envelope_to_bytes, envelope_from_bytes, seal, open_envelope,
}
use bx_ssh.Persistence.Envelope.Opened.{open_envelope-seal}
use bx_ssh.Persistence.KeyRecord.Secrecy.{IsAead, IsStorable, Recovers, encrypt_lem}

abbrev zeros : Bytes
zeros = 0 ∷ 0 ∷ 0 ∷ 0 ∷ 0 ∷ 0 ∷ 0 ∷ 0 ∷ 0 ∷ 0 ∷ 0 ∷ 0 ∷ 0 ∷ 0 ∷ 0 ∷ 0 ∷ []

-- A cipher that appends a tag and hides nothing.
abbrev plain : Aes256Gcm (Unit {0})
plain = record {
  new_from_slice = λ key. if length key == 32 then some tt else none;
  encrypt = λ _ _ _ message. some (message ++ zeros);
  decrypt = λ _ _ _ c. some (take (length c - 16) c);
}

untag : (m : Bytes) → take (length (m ++ zeros) - 16) (m ++ zeros) ≡ m
untag m = take-append m zeros _ (omega (arith, length-append m zeros))

plain-Aead : IsAead plain
plain-Aead = record {
  takes = λ key sized. (tt, ground (arith, sized));
  encrypts = λ _ _ _ message _ _. (message ++ zeros, refl);
  tagged = λ _ _ _ message c h. ground (arith, h, length-append message zeros);
  decrypts = λ _ _ _ message c h. ground (arith, h, untag message);
}

abbrev data_key : Bytes
data_key = zeros ++ zeros

abbrev nonce : Bytes
nonce = codes "twelve bytes"

abbrev private_key : Bytes
private_key = codes "a private key"

encrypt_lem_example :
    (IsStorable private_key
      × ((stored : EncryptedPrivateKey) × (encrypt {E = Unit {0}} plain
              (ok data_key)
              (ok nonce)
              private_key
            ≡ ok (stored, data_key))
          × Recovers (Unit {0}) plain private_key data_key stored))
    ⊎ (¬ (IsStorable private_key)
        × (encrypt {E = Unit {0}} plain (ok data_key) (ok nonce) private_key
            ≡ err invalid_private_key))
encrypt_lem_example = encrypt_lem (Unit {0}) plain plain-Aead data_key nonce private_key refl refl

-- A derivation that gives every password the same key.
abbrev argon2 : Bytes → Bytes → Result (Unit {0}) Bytes
argon2 password salt = ok data_key

open_envelope-seal_example :
    (v : MasterPasswordEnvelope) × (seal plain argon2
        (ok zeros)
        (ok nonce)
        data_key
        (codes "secret")
      ≡ ok v)
    × (envelope_from_bytes {E = Unit {0}} (envelope_to_bytes v) ≡ ok v)
    × (open_envelope plain argon2 v (codes "secret") ≡ ok data_key)
open_envelope-seal_example =
    open_envelope-seal (Unit {0}) plain argon2 plain-Aead zeros nonce data_key (codes "secret")
      data_key refl refl refl refl refl
