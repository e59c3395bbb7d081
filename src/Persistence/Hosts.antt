-- ===== src/Persistence/Hosts.antt =====
-- crates/persistence/src/repository.rs: the host keys that the user trusts.
pub mod Pinning
pub mod Cases
pub mod Trust
pub mod Keys
use bx_ssh.Common.{
  ℕ, Bool, true, false, not, ◌&&◌, ◌||◌, Option, none, some, List, [], ◌∷◌, map, Result, ok, err,
  reject_if, ◌>>◌, ◌>>=◌, any, all, length, is_some_and, ◌==◌, if◌then◌else◌,
}
use bx_ssh.Common.Text.{Text, codes, text_eq, trim, strip_prefix, as_bytes, eq_ignore_ascii_case}
use bx_ssh.Contracts.Connection.{is_blank}
use bx_ssh.Ssh.Fingerprint.{sha256_prefix, is_base64_byte}
use bx_ssh.Ssh.Connect.{HostKeyInfo}
use bx_ssh.Persistence.Error.{
  PersistenceError, invalid_connection_configuration, invalid_stored_record, host_fingerprint,
  host_fingerprint_conflict,
}
use bx_ssh.Persistence.Integers.{ℤ, pos, negsuc, increment, timestamp_to_i64}
use bx_ssh.Persistence.Table.{select_where, update_where, upsert, order_by, text_at_most}
use bx_ssh.Persistence.Schema.{FingerprintRow, Database}
use bx_ssh.Persistence.Driver.{Outcome, call, step, transact, guarded}

-- `validate_host_endpoint` and `validate_host_key`.
unfoldable pub validate_host_endpoint :
    {E : Type 0} → Text → ℕ → Result (PersistenceError E) (Unit {0})
validate_host_endpoint host port =
    reject_if (is_blank host || port == 0) invalid_connection_configuration

unfoldable pub is_base64_digest : Text → Bool
is_base64_digest value = length (as_bytes value) == 43 && all is_base64_byte (as_bytes value)

unfoldable pub validate_host_key :
    {E : Type 0} → HostKeyInfo → Result (PersistenceError E) (Unit {0})
unfolding is_base64_digest
validate_host_key host_key =
    reject_if
      (is_blank host_key.algorithm
        || not
            (is_some_and is_base64_digest (strip_prefix sha256_prefix host_key.fingerprint_sha256)))
      (invalid_stored_record host_fingerprint)

-- `port = ?2` on the INTEGER column.
unfoldable pub port_is : ℕ → ℤ → Bool
port_is port (pos p) = p == port
port_is port (negsuc p) = false

-- `host = ?1 COLLATE NOCASE AND port = ?2`.
unfoldable pub at_endpoint : Text → ℕ → FingerprintRow → Bool
unfolding port_is
at_endpoint host port row = eq_ignore_ascii_case row.host host && port_is port row.port

abbrev pub row_key : FingerprintRow → HostKeyInfo
row_key row = record { algorithm = row.key_algorithm; fingerprint_sha256 = row.fingerprint_sha256 }

unfoldable pub differs : HostKeyInfo → FingerprintRow → Bool
differs host_key row =
    not (text_eq row.key_algorithm host_key.algorithm)
    || not (text_eq row.fingerprint_sha256 host_key.fingerprint_sha256)

-- The row that an insertion conflicts with: UNIQUE (host, port, key_algorithm).
unfoldable pub same_key : Text → ℕ → HostKeyInfo → FingerprintRow → Bool
unfolding at_endpoint
same_key host port host_key row =
    at_endpoint host port row && text_eq row.key_algorithm host_key.algorithm

abbrev pub new_row : Text → Text → ℕ → HostKeyInfo → ℤ → FingerprintRow
new_row row_id host port host_key now = record {
  id = row_id;
  host = host;
  port = pos port;
  key_algorithm = host_key.algorithm;
  fingerprint_sha256 = host_key.fingerprint_sha256;
  first_seen_at = now;
  trusted_at = now;
  last_verified_at = now;
  revision = pos 1;
}

unfoldable pub verified_again : ℤ → FingerprintRow → FingerprintRow
unfolding increment
verified_again now row = record row { last_verified_at = now; revision = increment row.revision }

module _ {E : Type 0} (engine : Text → Database → Option E) where
  -- `list_host_fingerprints`.
  unfoldable pub list_host_fingerprints :
      Text → ℕ → Database → Result (PersistenceError E) (List HostKeyInfo)
  unfolding validate_host_endpoint at_endpoint select_where order_by call
  list_host_fingerprints host port db = do
    validate_host_endpoint host port
    call engine (codes "prepare a host fingerprint query") db
    call engine (codes "query host fingerprints") db
    call engine (codes "read a host fingerprint") db
    ok (
        map row_key (
          order_by (λ a b. text_at_most a.id b.id)
            (select_where (at_endpoint (trim host) port) db.host_fingerprints)))

  -- The body of the transaction; `row_id` is what `lower(hex(randomblob(16)))` draws.
  unfoldable pub trust_body :
      Text
      → Text
      → ℕ
      → HostKeyInfo
      → ℤ
      → Database
      → Result (PersistenceError E) (Database × Unit {0})
  unfolding at_endpoint differs select_where same_key upsert call verified_again step
  trust_body row_id host port host_key now db = do
    call engine (codes "prepare a host fingerprint conflict query") db
    call engine (codes "query host fingerprint conflicts") db
    call engine (codes "read host fingerprint conflicts") db
    reject_if (any (differs host_key) (select_where (at_endpoint host port) db.host_fingerprints))
        host_fingerprint_conflict
    saved ←
        step engine (codes "save a host fingerprint")
          (λ work. record work {
            host_fingerprints =
                upsert (same_key host port host_key) (verified_again now)
                  (new_row row_id host port host_key now) work.host_fingerprints;
          })
          db
    ok (saved, tt)

  -- The checks before the transaction, and the transaction.
  unfoldable pub check_trust : Text → ℕ → HostKeyInfo → ℕ → Result (PersistenceError E) ℤ
  unfolding validate_host_endpoint validate_host_key timestamp_to_i64
  check_trust host port host_key now_ms =
      validate_host_endpoint host port >> validate_host_key host_key >> timestamp_to_i64 now_ms

  unfoldable pub trust_transaction :
      Text → Text → ℕ → HostKeyInfo → ℤ → Database → Outcome E (Unit {0})
  unfolding trust_body transact
  trust_transaction row_id host port host_key now =
      transact engine (codes "start a host fingerprint transaction")
        (trust_body row_id host port host_key now) (codes "commit a host fingerprint")

  -- `trust_host_fingerprint`.
  unfoldable pub trust_host_fingerprint :
      Text → Text → ℕ → HostKeyInfo → ℕ → Database → Outcome E (Unit {0})
  unfolding check_trust trust_transaction
  trust_host_fingerprint row_id host port host_key now_ms =
      guarded (check_trust host port host_key now_ms)
        (λ now. trust_transaction row_id (trim host) port host_key now)
