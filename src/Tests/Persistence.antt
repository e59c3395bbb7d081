-- ===== src/Tests/Persistence.antt =====
-- Tests of the repository.
use bx_ssh.Common.{
  ℕ, ◌<◌, ◌^◌, ◌-◌, ◌≡◌, ◌≢◌, ◌⊎◌, ◌↔◌, refl, Bool, true, false, Option, none, some, List, [], ◌∷◌,
  Result, ok, err, All, any, is_empty, arith,
}
use bx_ssh.Common.Text.{Text, codes, text_eq, trim}
use bx_ssh.Contracts.Connection
use bx_ssh.Contracts.Connection.{ConnectionConfig, is_blank}
use bx_ssh.Contracts.Connection.Validity.{IsWritten}
use bx_ssh.Contracts.Group.{ConnectionDetails}
use bx_ssh.Contracts.Settings.{ConnectionSettingsOverride, group_scope}
use bx_ssh.Ssh.Fingerprint.{parse}
use bx_ssh.Ssh.Connect.{HostKeyInfo}
use bx_ssh.Persistence.Error.{PersistenceError, invalid_connection_configuration}
use bx_ssh.Persistence.Integers.{pos}
use bx_ssh.Persistence.Schema.{Database, GroupRow, ConnectionRow, empty_database}
use bx_ssh.Persistence.Driver.{Engine}
use bx_ssh.Persistence.Driver.Cases.{Healthy, FailsSafely}
use bx_ssh.Persistence.Table.Ids.{Distinct}
use bx_ssh.Persistence.Hosts.{
  validate_host_endpoint, validate_host_key, list_host_fingerprints, trust_host_fingerprint,
}
use bx_ssh.Persistence.Hosts.Pinning.{Pinned}
use bx_ssh.Persistence.Hosts.Trust.{
  Settles, trust_host_fingerprint_lem, trust_host_fingerprint-lists,
}
use bx_ssh.Persistence.Hosts.Keys.{validate_host_key_iff}
use bx_ssh.Persistence.Groups.{group_is, delete_group}
use bx_ssh.Persistence.Groups.Deletion.{IsDissolved, delete_group_lem}
use bx_ssh.Persistence.Ordering.{listed_in, reorder_connections}
use bx_ssh.Persistence.Ordering.Arranged.{IsOrdered}
use bx_ssh.Persistence.Ordering.Orders.{blank_connection, reorder_connections_lem}
use bx_ssh.Persistence.Settings.{group, override_or_none, load_setting_override, save_settings}
use bx_ssh.Persistence.Settings.Loading.{owner_of, save_settings-loads}
use bx_ssh.Persistence.Connections.{save_connection, import_connections}
use bx_ssh.Persistence.Connections.Reading.{IsReadable}
use bx_ssh.Persistence.Connections.Rows.{get_connection}
use bx_ssh.Persistence.Connections.RoundTrip.{ReadsAs, IsReadableDatabase, save_connection-reads}
use bx_ssh.Persistence.Connections.Import.{IsListed, import_connections_lem}
use bx_ssh.Persistence.Commands.{trust, perform, here, later}
use bx_ssh.Persistence.Commands.Evolution.{connection_ids, group_ids}
use bx_ssh.Persistence.Commands.Reached.{perform-FailsSafely, reached_sound}
use bx_ssh.Tests.Fixtures.{foreign, host_key, host_fingerprint, server_config}

-- An engine that refuses nothing.
abbrev accepting : Engine (Unit {0})
accepting = λ _ _. none

accepting-Healthy : Healthy accepting
accepting-Healthy operation db = refl

abbrev host : Text
host = codes "server.example"

abbrev row_id : Text
row_id = codes "row-1"

host_written : validate_host_endpoint {E = Unit {0}} host 22 ≡ ok tt
unfolding validate_host_endpoint is_blank trim bx_ssh.Common.Text.is_whitespace
host_written = refl

key_valid : validate_host_key {E = Unit {0}} host_key ≡ ok tt
unfolding validate_host_key is_blank trim bx_ssh.Common.Text.is_whitespace
    bx_ssh.Common.Text.strip_prefix bx_ssh.Common.Text.as_bytes
    bx_ssh.Ssh.Fingerprint.is_base64_byte
key_valid = refl

trust_host_fingerprint_lem_example :
    Settles accepting
      (trim host)
      22
      host_key
      empty_database
      (trust_host_fingerprint accepting row_id host 22 host_key 1000 empty_database)
trust_host_fingerprint_lem_example =
    trust_host_fingerprint_lem accepting row_id host 22 host_key 1000 empty_database host_written
      key_valid (ground arith)

-- The database in which the key is trusted.
abbrev known : Database
known = (trust_host_fingerprint accepting row_id host 22 host_key 1000 empty_database).0

trusted : (trust_host_fingerprint accepting row_id host 22 host_key 1000 empty_database).1 ≡ ok tt
unfolding trust_host_fingerprint is_blank trim bx_ssh.Common.Text.is_whitespace
    bx_ssh.Common.Text.strip_prefix bx_ssh.Common.Text.as_bytes
    bx_ssh.Ssh.Fingerprint.is_base64_byte
trusted = refl

trust_host_fingerprint-lists_example :
    (keys : List HostKeyInfo) × (list_host_fingerprints accepting host 22 known ≡ ok keys)
    × All (λ k. k ≡ host_key) keys
    × (is_empty keys ≡ false)
trust_host_fingerprint-lists_example =
    trust_host_fingerprint-lists accepting accepting-Healthy row_id host 22 host_key 1000
      empty_database trusted

validate_host_key_iff_example : (validate_host_key {E = Unit {0}} host_key ≡ ok tt) ↔ (
    IsWritten host_key.algorithm
    × (parse {F = foreign} host_key.fingerprint_sha256
        ≡ ok (record { value = host_key.fingerprint_sha256 })))
validate_host_key_iff_example = validate_host_key_iff {F = foreign} (Unit {0}) host_key

-- A key of another algorithm.
abbrev other_key : HostKeyInfo
other_key = record { algorithm = codes "ssh-rsa"; fingerprint_sha256 = host_fingerprint }

perform-FailsSafely_example :
    FailsSafely known (perform accepting (trust row_id host 22 other_key 2000) known)
perform-FailsSafely_example =
    perform-FailsSafely accepting (trust row_id host 22 other_key 2000) known

reached_sound_example :
    Pinned
      (perform accepting (trust row_id host 22 host_key 1000) empty_database).0.host_fingerprints
    × Distinct
        (connection_ids (perform accepting (trust row_id host 22 host_key 1000) empty_database).0)
    × Distinct (group_ids (perform accepting (trust row_id host 22 host_key 1000) empty_database).0)
reached_sound_example =
    reached_sound accepting
      (perform accepting (trust row_id host 22 host_key 1000) empty_database).0
      (later here (trust row_id host 22 host_key 1000))

-- A database with one group and two connections in it.
abbrev team : GroupRow
team = record {
  id = codes "team";
  name = codes "Team";
  color = none;
  sort_order = pos 0;
  is_collapsed = pos 0;
  created_at = pos 1;
  updated_at = pos 1;
  revision = pos 1;
}

abbrev member : Text → ℕ → ConnectionRow
member id place = record {
  id = id;
  group_id = some (codes "team");
  key_reference_id = none;
  name = id;
  host = host;
  port = pos 22;
  username = codes "admin";
  notes = none;
  color = none;
  auth_method = codes "password";
  credential_ref = none;
  is_favorite = pos 0;
  sort_order = pos place;
  created_at = pos 1;
  updated_at = pos 1;
  deleted_at = none;
  revision = pos 1;
}

abbrev shared : Database
shared = record empty_database {
  connection_groups = team ∷ [];
  connections = member (codes "a") 0 ∷ member (codes "b") 1 ∷ [];
}

delete_group_lem_example :
    ((e : PersistenceError (Unit {0})) × (delete_group accepting (codes "team") 5 shared
        ≡ (shared, err e)))
    ⊎ (IsDissolved (codes "team") shared (delete_group accepting (codes "team") 5 shared).0
        × ((delete_group accepting (codes "team") 5 shared).1
            ≡ ok (any (group_is (codes "team")) shared.connection_groups)))
delete_group_lem_example = delete_group_lem accepting (codes "team") 5 shared

abbrev turned : List Text
turned = codes "b" ∷ codes "a" ∷ []

reorder_connections_lem_example :
    ((e : PersistenceError (Unit {0})) × (reorder_connections accepting
          (some (codes "team"))
          turned
          5
          shared
        ≡ (shared, err e)))
    ⊎ (((reorder_connections accepting (some (codes "team")) turned 5 shared).1 ≡ ok tt)
        × IsOrdered
            (λ row. row.id)
            (λ row. row.sort_order)
            (listed_in (some (codes "team")))
            blank_connection
            turned
            shared.connections
            (reorder_connections accepting (some (codes "team")) turned 5 shared).0.connections)
reorder_connections_lem_example =
    reorder_connections_lem accepting (some (codes "team")) turned 5 shared

abbrev settings : ConnectionSettingsOverride
settings = record { connect_timeout_secs = some 15; keep_alive_secs = none }

-- A parser that reads the one number.
abbrev parse_json : Text → Option ℕ
parse_json = λ _. some 15

save_settings-loads_example :
    ((save_settings accepting (group_scope (codes "team")) settings 5 shared).1 ≡ ok tt)
    × (load_setting_override accepting parse_json
          (owner_of (group_scope (codes "team")))
          (save_settings accepting (group_scope (codes "team")) settings 5 shared).0
        ≡ ok (override_or_none settings))
unfolding is_blank trim bx_ssh.Common.Text.is_whitespace
save_settings-loads_example =
    save_settings-loads parse_json accepting accepting-Healthy (group_scope (codes "team")) settings
      5 shared refl (ground arith) (refl, tt)

member-Readable : (id : Text) (place : ℕ) → place < 2 → IsReadable (2 ^ 32 - 1) (member id place)
member-Readable id place l = record {
  favorite = (0, refl, ground arith);
  place = (place, refl, omega (arith, l));
  version = (1, refl);
}

shared-Readable : IsReadableDatabase shared
shared-Readable = record {
  connections_readable = (
    member-Readable (codes "a") 0 (ground arith),
    (member-Readable (codes "b") 1 (ground arith), tt),
  );
  recents_readable = tt;
}

-- The first of the two, with another name.
abbrev renamed : ConnectionConfig
renamed = record server_config {
  id = codes "a";
  group_id = some (codes "team");
  name = codes "renamed";
  color = none;
}

config_valid : Connection.validate renamed ≡ ok tt
unfolding Connection.validate is_blank trim bx_ssh.Common.Text.is_whitespace
    Connection.validate_references
config_valid = refl

save_connection-reads_example :
    ((save_connection accepting renamed settings 5 shared).1 ≡ ok tt)
    × ((details : ConnectionDetails) × (get_connection accepting parse_json renamed.id
            (save_connection accepting renamed settings 5 shared).0
          ≡ ok (some details))
        × ReadsAs renamed none none (override_or_none settings) details)
unfolding load_setting_override bx_ssh.Persistence.Settings.load_group_override
save_connection-reads_example =
    save_connection-reads accepting accepting-Healthy parse_json renamed settings config_valid
      (ground arith) (refl, tt) 5 shared none none (ground arith) shared-Readable refl refl

import_connections_lem_example :
    (((import_connections accepting (renamed ∷ []) 5 shared).1 ≡ ok tt)
      × All (λ c. Connection.validate c ≡ ok tt) (renamed ∷ [])
      × All
          (λ c. IsListed (import_connections accepting (renamed ∷ []) 5 shared).0.connections c.id)
          (renamed ∷ [])
      × ((id : Text)
          → IsListed shared.connections id
          → IsListed (import_connections accepting (renamed ∷ []) 5 shared).0.connections id))
    ⊎ ((import_connections accepting (renamed ∷ []) 5 shared
          ≡ (shared, err invalid_connection_configuration))
        × ¬ (All (λ c. Connection.validate c ≡ ok tt) (renamed ∷ [])))
import_connections_lem_example =
    import_connections_lem accepting accepting-Healthy (renamed ∷ []) 5 shared (ground arith)
