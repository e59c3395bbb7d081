-- ===== src/Persistence/Ordering.antt =====
-- crates/persistence/src/repository.rs: the order that the user gives to groups and connections.
pub mod Places
pub mod Reordered
pub mod Arranged
pub mod Orders
use bx_ssh.Common.{
  ℕ, suc, ◌+◌, ◌^◌, Bool, true, false, not, ◌&&◌, ◌||◌, Option, none, some, List, [], ◌∷◌, map,
  Result, ok, err, reject_if, ◌>>◌, ◌>>=◌, any, length, is_some_and, is_none, ltb, ◌==◌,
  if◌then◌else◌,
}
use bx_ssh.Common.Text.{Text, codes, text_eq}
use bx_ssh.Common.Text.Sets.{contains}
use bx_ssh.Contracts.Connection.{is_blank}
use bx_ssh.Persistence.Error.{PersistenceError, invalid_connection_configuration}
use bx_ssh.Persistence.Integers.{ℤ, pos, increment, timestamp_to_i64}
use bx_ssh.Persistence.Table.{select_where, update_where, order_by, text_at_most}
use bx_ssh.Persistence.Schema.{GroupRow, ConnectionRow, Database}
use bx_ssh.Persistence.Driver.{Outcome, Engine, call, step, transact, guarded}

-- `ids.iter().any(…)` over the set of the ids that came before.
unfoldable pub repeats_or_blank : List Text → List Text → Bool
repeats_or_blank unique_ids [] = false
repeats_or_blank unique_ids (id ∷ ids) =
    let rest = repeats_or_blank (id ∷ unique_ids) ids in
    is_blank id || contains id unique_ids || rest

-- `IS ?1`: equal, or both NULL.
unfoldable pub is_same : Option Text → Option Text → Bool
is_same none none = true
is_same (some a) (some b) = text_eq a b
is_same _ _ = false

-- The rows that an ordering of a group's connections is about.
abbrev pub listed_in : Option Text → ConnectionRow → Bool
listed_in group row = is_none row.deleted_at && is_same row.group_id group

unfoldable pub place_group : ℤ → ℤ → GroupRow → GroupRow
unfolding increment
place_group now position row = record row {
  sort_order = position;
  updated_at = now;
  revision = increment row.revision;
}

unfoldable pub place_connection : ℤ → ℤ → ConnectionRow → ConnectionRow
unfolding increment
place_connection now position row = record row {
  sort_order = position;
  updated_at = now;
  revision = increment row.revision;
}

-- The two UPDATE statements.
abbrev pub place_group_rows : ℤ → Text → ℤ → Database → Database
place_group_rows now id position db = record db {
  connection_groups =
      update_where (λ row. text_eq row.id id) (place_group now position) db.connection_groups;
}

abbrev pub place_connection_rows : Option Text → ℤ → Text → ℤ → Database → Database
place_connection_rows group now id position db = record db {
  connections =
      update_where (λ row. text_eq row.id id && listed_in group row) (place_connection now position)
        db.connections;
}

module _ {E : Type 0} where
  -- `validate_order_ids`.
  unfoldable pub validate_order_ids : List Text → Result (PersistenceError E) (Unit {0})
  unfolding repeats_or_blank
  validate_order_ids ids = reject_if (repeats_or_blank [] ids) invalid_connection_configuration

  -- `validate_complete_order`.
  unfoldable pub validate_complete_order :
      List Text → List Text → Result (PersistenceError E) (Unit {0})
  validate_complete_order stored_ids ids = do
    reject_if (not (length stored_ids == length ids)) invalid_connection_configuration
    reject_if (any (λ id. not (contains id ids)) stored_ids) invalid_connection_configuration

  -- `usize_to_i64`.
  unfoldable pub usize_to_i64 : ℕ → Result (PersistenceError E) ℤ
  usize_to_i64 value =
      if ltb value (2 ^ 63) then ok (pos value) else err invalid_connection_configuration

-- `SELECT id … ORDER BY id`, before the ordering.
abbrev pub ids_by_id : List Text → List Text
ids_by_id ids = order_by text_at_most ids

abbrev pub stored_groups : Database → List Text
stored_groups db = ids_by_id (map (λ row. row.id) db.connection_groups)

abbrev pub stored_connections : Option Text → Database → List Text
stored_connections group db =
    ids_by_id (map (λ row. row.id) (select_where (listed_in group) db.connections))

module _ {E : Type 0} (engine : Engine E) where
  -- `query_ids`: one name for the three calls.
  unfoldable pub query_ids : Text → List Text → Database → Result (PersistenceError E) (List Text)
  unfolding call
  query_ids operation ids db = do
    call engine operation db
    call engine operation db
    call engine operation db
    ok ids

  -- The loop `for (sort_order, id) in ids.iter().enumerate()`.
  unfoldable pub reorder_each :
      Text
      → (Text → ℤ → Database → Database)
      → ℕ
      → List Text
      → Database
      → Result (PersistenceError E) Database
  unfolding usize_to_i64 step
  reorder_each operation place sort_order [] db = ok db
  reorder_each operation place sort_order (id ∷ ids) db = do
    position ← usize_to_i64 sort_order
    placed ← step engine operation (place id position) db
    reorder_each operation place (suc sort_order) ids placed

  -- The body that the two orderings share: query, compare, update one by one.
  unfoldable pub reorder_body :
      Text
      → Text
      → (Database → List Text)
      → (Text → ℤ → Database → Database)
      → List Text
      → Database
      → Result (PersistenceError E) (Database × Unit {0})
  unfolding query_ids validate_complete_order reorder_each
  reorder_body query operation stored place ids db = do
    stored_ids ← query_ids query (stored db) db
    validate_complete_order stored_ids ids
    placed ← reorder_each operation place 0 ids db
    ok (placed, tt)

  unfoldable pub check_order : List Text → ℕ → Result (PersistenceError E) ℤ
  unfolding validate_order_ids timestamp_to_i64
  check_order ids now_ms = validate_order_ids ids >> timestamp_to_i64 now_ms

  unfoldable pub reorder_groups_transaction : List Text → ℤ → Database → Outcome E (Unit {0})
  unfolding transact reorder_body place_group
  reorder_groups_transaction ids now =
      transact engine (codes "start a group ordering transaction")
        (reorder_body (codes "query connection groups for ordering")
          (codes "reorder connection groups") stored_groups (place_group_rows now) ids)
        (codes "commit a group ordering transaction")

  -- `reorder_groups`.
  unfoldable pub reorder_groups : List Text → ℕ → Database → Outcome E (Unit {0})
  unfolding check_order reorder_groups_transaction
  reorder_groups ids now_ms = guarded (check_order ids now_ms) (reorder_groups_transaction ids)

  unfoldable pub reorder_connections_transaction :
      Option Text → List Text → ℤ → Database → Outcome E (Unit {0})
  unfolding transact reorder_body place_connection is_same
  reorder_connections_transaction group ids now =
      transact engine (codes "start a connection ordering transaction")
        (reorder_body (codes "query connections for ordering") (codes "reorder connections")
          (stored_connections group) (place_connection_rows group now) ids)
        (codes "commit a connection ordering transaction")

  -- The guards of `reorder_connections`.
  unfoldable pub check_group_order : Option Text → List Text → ℕ → Result (PersistenceError E) ℤ
  unfolding check_order
  check_group_order group ids now_ms =
      reject_if (is_some_and is_blank group) invalid_connection_configuration
      >> check_order ids now_ms

  -- `reorder_connections`.
  unfoldable pub reorder_connections : Option Text → List Text → ℕ → Database → Outcome E (Unit {0})
  unfolding check_group_order reorder_connections_transaction
  reorder_connections group ids now_ms =
      guarded (check_group_order group ids now_ms) (reorder_connections_transaction group ids)
