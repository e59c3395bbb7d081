-- ===== src/Persistence/Driver.antt =====
-- How the repository calls rusqlite. The engine may refuse any call, a constraint of the schema
-- or a failure of the storage: `engine` gives the error of the call that goes by a name in a state
-- of the database. A statement that is refused changes nothing, and a transaction that is dropped
-- before its commit leaves what was committed before it.
pub mod Cases
use bx_ssh.Common.{Option, none, some, Result, ok, err, ◌>>◌, ◌>>=◌}
use bx_ssh.Common.Text.{Text, codes}
use bx_ssh.Persistence.Error.{PersistenceError, database_operation}
use bx_ssh.Persistence.Schema.{Database}

abbrev pub Engine : Type 0 → Type 0
Engine E = Text → Database → Option E

-- What a call leaves behind and returns.
abbrev pub Outcome : Type 0 → Type 0 → Type 0
Outcome E A = Database × Result (PersistenceError E) A

-- Back from a transaction: what it commits, or the state before it.
abbrev pub settle :
    {E A : Type 0} → Database → Result (PersistenceError E) (Database × A) → Outcome E A
settle db (ok after) = (after.0, ok after.1)
settle db (err e) = (db, err e)

-- A guard that returns before anything is done.
abbrev pub guarded :
    {E A B : Type 0}
    → Result (PersistenceError E) B
    → (B → Database → Outcome E A)
    → Database
    → Outcome E A
guarded (ok b) k db = k b db
guarded (err e) k db = (db, err e)

module _ {E : Type 0} (engine : Engine E) where
  -- `.map_err(|source| database_operation(operation, source))`.
  unfoldable pub call : Text → Database → Result (PersistenceError E) (Unit {0})
  call operation db = elim (engine operation db) [
    | none ↦ ok tt
    | some source ↦ err (database_operation operation source)
  ]

  -- A statement of its own, outside every transaction: `effect` is what it does when it succeeds.
  unfoldable pub execute : {A : Type 0} → Text → (Database → Database × A) → Database → Outcome E A
  unfolding call
  execute operation effect db = settle db (call operation db >> ok (effect db))

  -- A statement inside a transaction.
  unfoldable pub step :
      Text → (Database → Database) → Database → Result (PersistenceError E) Database
  unfolding call
  step operation effect db = call operation db >> ok (effect db)

  -- Start, statements, commit; an early return drops the transaction.
  unfoldable pub transact :
      {A : Type 0}
      → Text
      → (Database → Result (PersistenceError E) (Database × A))
      → Text
      → Database
      → Outcome E A
  unfolding call
  transact start body finish db =
      settle db (call start db >> (body db >>= λ after. call finish after.0 >> ok after))
