-- ===== src/Persistence/Migrations.antt =====
-- crates/persistence/src/database.rs: migrations of the schema. What a batch of SQL does to the
-- contents of a database is a parameter, `run`, and so are the refusals of the engine.
pub mod Applied
pub mod Pending
pub mod Complete
use bx_ssh.Common.{
  ℕ, Bool, true, false, not, ◌||◌, Option, none, some, List, [], ◌∷◌, Result, ok, err, ◌>>=◌, ◌>>◌,
  reject_if, ltb, leb, if◌then◌else◌, is_empty,
}
use bx_ssh.Common.Text.{Text}
use bx_ssh.Persistence.Error.{
  PersistenceError, invalid_migration_order, database_open, database_version_too_new,
  migration_failed,
}
use bx_ssh.Persistence.Table.{select_where}

pub record Migration : Type 0 where
  pub version : ℕ  -- u32
  pub sql : Text

-- A database file: its contents, and SQLite's `user_version`.
pub record Versioned (D : Type 0) : Type 0 where
  pub contents : D
  pub user_version : ℕ  -- u32

-- What the engine may refuse, by the state it is asked in.
pub record Refusals (E D : Type 0) : Type 0 where
  pub read_version : Versioned D → Option E
  pub begin : Versioned D → Option E
  pub write_version : ℕ → Versioned D → Option E
  pub commit : Versioned D → Option E

-- `windows(2).any(|pair| pair[0].version >= pair[1].version)`.
unfoldable pub out_of_order : List Migration → Bool
out_of_order [] = false
out_of_order (a ∷ []) = false
out_of_order (a ∷ b ∷ ms) = leb b.version a.version || out_of_order (b ∷ ms)

unfoldable pub last_migration : List Migration → Option Migration
last_migration [] = none
last_migration (m ∷ ms) = elim (last_migration ms) [ none ↦ some m | some last ↦ some last ]

-- `migrations.last().map_or(current_version, …)`.
unfoldable pub last_version : ℕ → List Migration → ℕ
unfolding last_migration
last_version current ms = elim (last_migration ms) [ none ↦ current | some last ↦ last.version ]

abbrev pub pending_migrations : ℕ → List Migration → List Migration
pending_migrations current ms = select_where (λ m. ltb current m.version) ms

-- A refusal, as the error that `map_err` makes of it.
abbrev pub refused :
    {E : Type 0} → (E → PersistenceError E) → Option E → Result (PersistenceError E) (Unit {0})
refused make none = ok tt
refused make (some source) = err (make source)

module _ {E D : Type 0} (refuses : Refusals E D) (run : Text → D → Result E D) where
  -- One round of the loop: the batch, then the version.
  unfoldable pub apply_one : Migration → Versioned D → Result (PersistenceError E) (Versioned D)
  apply_one m db = elim (run m.sql db.contents) [
    | err source ↦ err (migration_failed m.version source)
    | ok contents ↦
        refused (migration_failed m.version)
          (refuses.write_version m.version (record db { contents = contents }))
        >> ok (record { contents = contents; user_version = m.version })
  ]

  unfoldable pub apply_each :
      List Migration → Versioned D → Result (PersistenceError E) (Versioned D)
  unfolding apply_one
  apply_each [] db = ok db
  apply_each (m ∷ ms) db = apply_one m db >>= apply_each ms

  -- The checks before the transaction: the order, and a version that is too new.
  unfoldable pub check_migrations :
      List Migration → Versioned D → Result (PersistenceError E) (Unit {0})
  unfolding out_of_order last_version last_migration
  check_migrations ms db = do
    reject_if (out_of_order ms) invalid_migration_order
    refused database_open (refuses.read_version db)
    reject_if (ltb (last_version db.user_version ms) db.user_version)
        (database_version_too_new db.user_version (last_version db.user_version ms))

  -- The transaction over the migrations that are pending.
  unfoldable pub migrate : List Migration → Versioned D → Result (PersistenceError E) (Versioned D)
  unfolding select_where apply_each last_version last_migration
  migrate ms db = do
    refused database_open (refuses.begin db)
    after ← apply_each (pending_migrations db.user_version ms) db
    refused (migration_failed (last_version db.user_version ms)) (refuses.commit after)
    ok after

  unfoldable pub migrate_pending :
      List Migration → Versioned D → Result (PersistenceError E) (Versioned D)
  unfolding check_migrations migrate select_where
  migrate_pending ms db =
      let migrated = migrate ms db in
      check_migrations ms db
      >> (if is_empty (pending_migrations db.user_version ms) then ok db else migrated)

  -- `apply_migrations`: an error drops the transaction.
  unfoldable pub apply_migrations :
      List Migration → Versioned D → Versioned D × Result (PersistenceError E) (Unit {0})
  unfolding migrate_pending
  apply_migrations ms db = elim (migrate_pending ms db) [
    | ok after ↦ (after, ok tt)
    | err e ↦ (db, err e)
  ]
