-- ===== src/Persistence/Commands/Evolution/Bodies.antt =====
-- The bodies of the repository's statements and transactions evolve the database.
use bx_ssh.Common.{
  ℕ, suc, ◌≡◌, inl, inr, refl, subst, ◌∙◌, Bool, Option, none, List, [], ◌∷◌, ok, arith,
  Result-cases,
}
use bx_ssh.Common.Text.{Text, codes, text_eq}
use bx_ssh.Contracts.Connection.{ConnectionConfig}
use bx_ssh.Contracts.Group.{ConnectionGroup}
use bx_ssh.Contracts.Settings.{ConnectionSettingsOverride}
use bx_ssh.Ssh.Connect.{HostKeyInfo}
use bx_ssh.Persistence.Integers.{ℤ, pos}
use bx_ssh.Persistence.Table.{update_where}
use bx_ssh.Persistence.Table.Columns.{map-update_where}
use bx_ssh.Persistence.Table.Ids.{upsert-Distinct, upsert-contains, delete_where-Distinct}
use bx_ssh.Persistence.Schema.{Database, ConnectionRow, GroupRow}
use bx_ssh.Persistence.Driver.{Engine, call, step}
use bx_ssh.Persistence.Hosts.{trust_body}
use bx_ssh.Persistence.Hosts.Pinning.{stored-Pinned}
use bx_ssh.Persistence.Hosts.Cases.{trust_body-Trusted}
use bx_ssh.Persistence.Groups.{
  updated_group, collapsed_group, save_effect, collapse_effect, in_group, ungroup, group_is,
  delete_group_rows, delete_group_body,
}
use bx_ssh.Persistence.Ordering.{
  place_group, place_connection, place_group_rows, place_connection_rows, reorder_body,
}
use bx_ssh.Persistence.Ordering.Reordered.{place_each, reorder_body-ok}
use bx_ssh.Persistence.Settings
use bx_ssh.Persistence.Settings.{SettingOwner, no_override, apply_settings, apply_settings_as}
use bx_ssh.Persistence.Settings.RoundTrip.{apply_settings-writes}
use bx_ssh.Persistence.Connections.{
  next_sort_order, inserted_connection, updated_connection, is_listed, save_connection_rows,
  deleted_connection, favored_connection, delete_effect, favorite_effect, record_effect,
  save_connection_record, save_each,
}
use bx_ssh.Persistence.Commands.Evolution.{
  connection_ids, group_ids, Evolves, Evolves-refl, Evolves-trans,
}

-- The keys and the host keys are those of before.
pub Evolves-same :
    (db after : Database)
    → after.host_fingerprints ≡ db.host_fingerprints
    → connection_ids after ≡ connection_ids db
    → group_ids after ≡ group_ids db
    → Evolves db after
Evolves-same db after h c g = record {
  pins = λ p. rw h p;
  connections_distinct = λ d. rw c d;
  groups_distinct = λ d. rw g d;
  connections_kept = λ id k. rw c k;
}

update_connections-Evolves :
    (q : ConnectionRow → Bool) (f : ConnectionRow → ConnectionRow) (db : Database)
    → ((row : ConnectionRow) → (f row).id ≡ row.id)
    → Evolves db (record db { connections = update_where q f db.connections })
update_connections-Evolves q f db k =
    Evolves-same db _ refl (map-update_where (λ row. row.id) q f db.connections k) refl

update_groups-Evolves :
    (q : GroupRow → Bool) (f : GroupRow → GroupRow) (db : Database)
    → ((row : GroupRow) → (f row).id ≡ row.id)
    → Evolves db (record db { connection_groups = update_where q f db.connection_groups })
update_groups-Evolves q f db k =
    Evolves-same db _ refl refl (map-update_where (λ row. row.id) q f db.connection_groups k)

pub delete_effect-Evolves :
    (id : Text) (now : ℤ) (db : Database) → Evolves db (delete_effect id now db).0
delete_effect-Evolves id now db =
    update_connections-Evolves (is_listed id) (deleted_connection now) db
      (λ row. unfold deleted_connection in refl)

pub favorite_effect-Evolves :
    (id : Text) (favorite : Bool) (now : ℤ) (db : Database)
    → Evolves db (favorite_effect id favorite now db).0
favorite_effect-Evolves id favorite now db =
    update_connections-Evolves (is_listed id) (favored_connection favorite now) db
      (λ row. unfold favored_connection in refl)

pub record_effect-Evolves :
    (id : Text) (now : ℤ) (db : Database) → Evolves db (record_effect id now db).0
record_effect-Evolves id now db = Evolves-same db _ refl refl refl

pub collapse_effect-Evolves :
    (id : Text) (collapsed : Bool) (now : ℤ) (db : Database)
    → Evolves db (collapse_effect id collapsed now db).0
collapse_effect-Evolves id collapsed now db =
    update_groups-Evolves (group_is id) (collapsed_group collapsed now) db
      (λ row. unfold collapsed_group in refl)

pub save_effect-Evolves :
    (group : ConnectionGroup) (now : ℤ) (db : Database) → Evolves db (save_effect group now db).0
save_effect-Evolves group now db = record {
  pins = λ h. h;
  connections_distinct = λ h. h;
  groups_distinct =
      upsert-Distinct (λ row. row.id) group.id (updated_group group now) _
        (λ row. unfold updated_group in refl) refl db.connection_groups;
  connections_kept = λ id h. h;
}

-- The upsert of a connection.
save_rows-Evolves :
    (config : ConnectionConfig) (now : ℤ) (db : Database)
    → Evolves db (record db { connections = save_connection_rows config now db.connections })
unfolding save_connection_rows
save_rows-Evolves config now db =
    let place = next_sort_order config.group_id db.connections in
    record {
      pins = λ h. h;
      connections_distinct =
          upsert-Distinct (λ row. row.id) config.id (updated_connection config place now)
            (inserted_connection config place now) (λ row. unfold updated_connection in refl)
            (unfold inserted_connection in refl) db.connections;
      groups_distinct = λ h. h;
      connections_kept = λ id h.
          upsert-contains (λ row. row.id) config.id (updated_connection config place now)
            (inserted_connection config place now) (λ row. unfold updated_connection in refl)
            (unfold inserted_connection in refl) id db.connections h;
    }

place_each-Evolves :
    (place : Text → ℤ → Database → Database) (i : ℕ) (ids : List Text) (db : Database)
    → ((id : Text) (p : ℤ) (work : Database) → Evolves work (place id p work))
    → Evolves db (place_each place i ids db)
place_each-Evolves place i [] db k = Evolves-refl db
place_each-Evolves place i (id ∷ ids) db k =
    Evolves-trans (k id (pos i) db) (place_each-Evolves place (suc i) ids (place id (pos i) db) k)

pub place_group_rows-Evolves :
    (now : ℤ) (id : Text) (p : ℤ) (db : Database) → Evolves db (place_group_rows now id p db)
place_group_rows-Evolves now id p db =
    update_groups-Evolves (λ row. text_eq row.id id) (place_group now p) db
      (λ row. unfold place_group in refl)

pub place_connection_rows-Evolves :
    (group : Option Text) (now : ℤ) (id : Text) (p : ℤ) (db : Database)
    → Evolves db (place_connection_rows group now id p db)
place_connection_rows-Evolves group now id p db =
    update_connections-Evolves _ (place_connection now p) db
      (λ row. unfold place_connection in refl)

delete_rows-Evolves :
    (id : Text) (now : ℤ) (db : Database)
    → Evolves db (
        delete_group_rows id (record db {
          connections = update_where (λ row. in_group id row.group_id) (ungroup now) db.connections;
        }))
unfolding delete_group_rows
delete_rows-Evolves id now db =
    Evolves-trans
      (update_connections-Evolves (λ row. in_group id row.group_id) (ungroup now) db
        (λ row. unfold ungroup in refl))
      (Evolves-trans
        (update_connections-Evolves (λ row. in_group id row.group_id)
          (λ row. record row { group_id = none }) _ (λ row. refl))
        (record {
          pins = λ h. h;
          connections_distinct = λ h. h;
          groups_distinct =
              delete_where-Distinct (λ row. row.id) (group_is id) db.connection_groups;
          connections_kept = λ x h. h;
        }))

module _ {E : Type 0} (engine : Engine E) where
  pub trust_body-Evolves :
      (row_id host : Text) (port : ℕ) (key : HostKeyInfo) (now : ℤ) (db : Database)
      (after : Database × Unit {0})
      → trust_body engine row_id host port key now db ≡ ok after
      → Evolves db after.0
  trust_body-Evolves row_id host port key now db after b =
      let (c, e) = trust_body-Trusted engine row_id host port key now db after b in
      rw e (record {
        pins = stored-Pinned row_id host port key now db.host_fingerprints c;
        connections_distinct = λ h. h;
        groups_distinct = λ h. h;
        connections_kept = λ id h. h;
      })

  pub delete_group_body-Evolves :
      (id : Text) (now : ℤ) (db : Database) (after : Database × Bool)
      → delete_group_body engine id now db ≡ ok after
      → Evolves db after.0
  unfolding delete_group_body step
  delete_group_body-Evolves id now db after b =
      let e : after.0
          ≡ delete_group_rows id (record db {
            connections =
                update_where (λ row. in_group id row.group_id) (ungroup now) db.connections;
          }) =
        ground arith in
      rw e (delete_rows-Evolves id now db)

  pub reorder_body-Evolves :
      (query operation : Text) (stored : Database → List Text)
      (place : Text → ℤ → Database → Database) (ids : List Text) (db : Database)
      (after : Database × Unit {0})
      → ((id : Text) (p : ℤ) (work : Database) → Evolves work (place id p work))
      → reorder_body engine query operation stored place ids db ≡ ok after
      → Evolves db after.0
  reorder_body-Evolves query operation stored place ids db after k b =
      rw (reorder_body-ok engine query operation stored place ids db after b).1
        (place_each-Evolves place 0 ids db k)

  pub apply_settings_as-Evolves :
      (operation : Text) (owner : SettingOwner) (settings : ConnectionSettingsOverride) (now : ℤ)
      (db after : Database)
      → apply_settings_as engine operation owner settings now db ≡ ok after
      → Evolves db after
  unfolding apply_settings_as
  apply_settings_as-Evolves operation owner settings now db after h =
      elim (Result-cases (apply_settings engine owner settings now db)) [
        | inr (x, e) ↦ absurd (let z = rw (apply_settings_as, e) at h in cc z)
        | inl (work, e) ↦
            let same : after ≡ work =
              (let z = rw (apply_settings_as, e) at h in ground (arith, z)) in
            rw (same ∙ apply_settings-writes engine owner settings now db work e)
              (Evolves-same db _ refl refl refl)
      ]

  pub save_record-Evolves :
      (config : ConnectionConfig) (settings : ConnectionSettingsOverride) (now : ℤ)
      (db after : Database)
      → save_connection_record engine config settings now db ≡ ok after
      → Evolves db after
  unfolding save_connection_record step
  save_record-Evolves config settings now db after h =
      elim (Result-cases (call engine (codes "save a connection") db)) [
        | inr (x, e) ↦ absurd (let z = rw e at h in cc z)
        | inl (t, e) ↦ Evolves-trans (save_rows-Evolves config now db) (
            apply_settings_as-Evolves (codes "save connection settings")
              (Settings.connection config.id) settings now _ after (rw e at h))
      ]

  pub save_each-Evolves :
      (configs : List ConnectionConfig) (now : ℤ) (db after : Database)
      → save_each engine configs now db ≡ ok after
      → Evolves db after
  unfolding save_each
  save_each-Evolves [] now db after h =
      subst (Evolves db) (let z = h in ground (arith, z)) (Evolves-refl db)
  save_each-Evolves (c ∷ configs) now db after h =
      elim (Result-cases (save_connection_record engine c no_override now db)) [
        | inr (x, e) ↦ absurd (let z = rw e at h in cc z)
        | inl (work, e) ↦
            Evolves-trans (save_record-Evolves c no_override now db work e)
              (save_each-Evolves configs now work after (rw e at h))
      ]
