-- ===== src/Persistence/Groups.antt =====
-- crates/persistence/src/repository.rs: the groups of connections.
pub mod Deletion
use bx_ssh.Common.{
  ℕ, Bool, true, false, Option, none, some, List, [], ◌∷◌, Result, ok, err, reject_if, ◌>>◌, ◌>>=◌,
  any, is_some_and,
}
use bx_ssh.Common.Text.{Text, codes, text_eq, eq_ignore_ascii_case}
use bx_ssh.Contracts.Connection.{is_blank}
use bx_ssh.Contracts.Group
use bx_ssh.Contracts.Group.{ConnectionGroup}
use bx_ssh.Persistence.Error.{PersistenceError, invalid_connection_configuration, connection_group}
use bx_ssh.Persistence.Integers.{
  ℤ, pos, increment, bool_value, at_most, timestamp_to_i64, stored_u32, stored_u64, stored_bool,
}
use bx_ssh.Persistence.Table.{
  delete_where, update_where, upsert, order_by, text_at_most, no_case, then_by,
}
use bx_ssh.Persistence.Schema.{GroupRow, ConnectionRow, SettingRow, Database}
use bx_ssh.Persistence.Driver.{Outcome, Engine, call, execute, step, transact, guarded}

-- `validate_id`.
unfoldable pub validate_id : {E : Type 0} → Text → Result (PersistenceError E) (Unit {0})
validate_id id = reject_if (is_blank id) invalid_connection_configuration

-- `.map_err(|_| PersistenceError::InvalidConnectionConfiguration)` on a validation.
abbrev pub as_configuration :
    {E V : Type 0} → Result V (Unit {0}) → Result (PersistenceError E) (Unit {0})
as_configuration (ok _) = ok tt
as_configuration (err _) = err invalid_connection_configuration

-- The row of `RawGroup`.
pub record RawGroup : Type 0 where
  pub id : Text
  pub name : Text
  pub color : Option Text
  pub sort_order : ℤ
  pub is_collapsed : ℤ
  pub revision : ℤ

abbrev pub raw_group : GroupRow → RawGroup
raw_group row = record {
  id = row.id;
  name = row.name;
  color = row.color;
  sort_order = row.sort_order;
  is_collapsed = row.is_collapsed;
  revision = row.revision;
}

-- `RawGroup::into_group`.
unfoldable pub into_group : {E : Type 0} → RawGroup → Result (PersistenceError E) ConnectionGroup
unfolding stored_u32 stored_bool stored_u64
into_group raw = do
  sort_order ← stored_u32 raw.sort_order connection_group
  is_collapsed ← stored_bool raw.is_collapsed connection_group
  revision ← stored_u64 raw.revision connection_group
  ok (record {
    id = raw.id;
    name = raw.name;
    color = raw.color;
    sort_order = sort_order;
    is_collapsed = is_collapsed;
    revision = revision;
  })

-- `collect` of rows into a `Result`: the first error wins.
unfoldable pub collect :
    {E A B : Type 0}
    → (A → Result (PersistenceError E) B)
    → List A
    → Result (PersistenceError E) (List B)
collect f [] = ok []
collect f (a ∷ as') = do b ← f a; bs ← collect f as'; ok (b ∷ bs)

-- ORDER BY sort_order, name, id.
unfoldable pub group_before : GroupRow → GroupRow → Bool
unfolding at_most text_at_most
group_before a b = then_by (at_most a.sort_order b.sort_order) (at_most b.sort_order a.sort_order) (
    then_by (text_at_most (no_case a.name) (no_case b.name))
      (text_at_most (no_case b.name) (no_case a.name)) (text_at_most a.id b.id))

abbrev pub inserted_group : ConnectionGroup → ℤ → GroupRow
inserted_group group now = record {
  id = group.id;
  name = group.name;
  color = group.color;
  sort_order = pos group.sort_order;
  is_collapsed = bool_value group.is_collapsed;
  created_at = now;
  updated_at = now;
  revision = pos 1;
}

unfoldable pub updated_group : ConnectionGroup → ℤ → GroupRow → GroupRow
unfolding increment bool_value
updated_group group now row = record row {
  name = group.name;
  color = group.color;
  sort_order = pos group.sort_order;
  is_collapsed = bool_value group.is_collapsed;
  updated_at = now;
  revision = increment row.revision;
}

abbrev pub group_is : Text → GroupRow → Bool
group_is id row = text_eq row.id id

-- `group_id = ?1`, false on NULL.
abbrev pub in_group : Text → Option Text → Bool
in_group id group = is_some_and (λ g. text_eq g id) group

unfoldable pub ungroup : ℤ → ConnectionRow → ConnectionRow
unfolding increment
ungroup now row = record row {
  group_id = none;
  updated_at = now;
  revision = increment row.revision;
}

-- DELETE FROM connection_groups, with what the foreign keys add to it: ON DELETE SET NULL of the
-- connections and ON DELETE CASCADE of the settings.
unfoldable pub delete_group_rows : Text → Database → Database
unfolding update_where delete_where
delete_group_rows id db = record db {
  connection_groups = delete_where (group_is id) db.connection_groups;
  connections =
      update_where (λ row. in_group id row.group_id) (λ row. record row { group_id = none })
        db.connections;
  settings = delete_where (λ row. in_group id row.group_id) db.settings;
}

-- What the statements of the two operations on one group do.
abbrev pub save_effect : ConnectionGroup → ℤ → Database → Database × Unit {0}
save_effect group now db = (
  record db {
    connection_groups =
        upsert (group_is group.id) (updated_group group now) (inserted_group group now)
          db.connection_groups;
  },
  tt,
)

unfoldable pub collapsed_group : Bool → ℤ → GroupRow → GroupRow
unfolding increment bool_value
collapsed_group is_collapsed now row = record row {
  is_collapsed = bool_value is_collapsed;
  updated_at = now;
  revision = increment row.revision;
}

abbrev pub collapse_effect : Text → Bool → ℤ → Database → Database × Bool
collapse_effect id is_collapsed now db = (
  record db {
    connection_groups =
        update_where (group_is id) (collapsed_group is_collapsed now) db.connection_groups;
  },
  any (group_is id) db.connection_groups,
)

module _ {E : Type 0} (engine : Engine E) where
  -- `list_groups`.
  unfoldable pub list_groups : Database → Result (PersistenceError E) (List ConnectionGroup)
  unfolding call order_by group_before into_group collect
  list_groups db = do
    call engine (codes "prepare a group query") db
    call engine (codes "query connection groups") db
    call engine (codes "read a connection group") db
    collect (λ row. into_group (raw_group row)) (order_by group_before db.connection_groups)

  unfoldable pub check_saved_group : ConnectionGroup → ℕ → Result (PersistenceError E) ℤ
  unfolding timestamp_to_i64 Group.validate
  check_saved_group group now_ms =
      as_configuration (Group.validate group) >> timestamp_to_i64 now_ms

  -- `save_group`.
  unfoldable pub save_group : ConnectionGroup → ℕ → Database → Outcome E (Unit {0})
  unfolding execute upsert check_saved_group updated_group
  save_group group now_ms =
      guarded (check_saved_group group now_ms)
        (λ now. execute engine (codes "save a connection group") (save_effect group now))

  unfoldable pub delete_group_body :
      Text → ℤ → Database → Result (PersistenceError E) (Database × Bool)
  unfolding step update_where ungroup delete_group_rows
  delete_group_body id now db = do
    ungrouped ←
        step engine (codes "ungroup connections")
          (λ work. record work {
            connections =
                update_where (λ row. in_group id row.group_id) (ungroup now) work.connections;
          })
          db
    deleted ← step engine (codes "delete a connection group") (delete_group_rows id) ungrouped
    ok (deleted, any (group_is id) ungrouped.connection_groups)

  -- The two guards of an operation on one record.
  unfoldable pub check_id : Text → ℕ → Result (PersistenceError E) ℤ
  unfolding validate_id timestamp_to_i64
  check_id id now_ms = validate_id id >> timestamp_to_i64 now_ms

  unfoldable pub delete_group_transaction : Text → ℤ → Database → Outcome E Bool
  unfolding delete_group_body transact
  delete_group_transaction id now =
      transact engine (codes "start a group deletion transaction") (delete_group_body id now)
        (codes "commit a group deletion transaction")

  -- `delete_group`: whether there was such a group.
  unfoldable pub delete_group : Text → ℕ → Database → Outcome E Bool
  unfolding check_id delete_group_transaction
  delete_group id now_ms = guarded (check_id id now_ms) (delete_group_transaction id)

  -- `set_group_collapsed`.
  unfoldable pub set_group_collapsed : Text → Bool → ℕ → Database → Outcome E Bool
  unfolding check_id execute update_where collapsed_group
  set_group_collapsed id is_collapsed now_ms = guarded (check_id id now_ms) (λ now.
      execute engine (codes "update group collapse state") (collapse_effect id is_collapsed now))
