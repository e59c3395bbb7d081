-- ===== src/Persistence/Driver/Cases.antt =====
-- What a statement, a transaction and a guard leave behind: all that was meant, or nothing.
use bx_ssh.Common.{
  ◌≡◌, refl, ◌⊎◌, inl, inr, none, some, Result, ok, err, Result-cases, Option-cases,
}
use bx_ssh.Common.Text.{Text}
use bx_ssh.Persistence.Error.{PersistenceError, database_operation}
use bx_ssh.Persistence.Schema.{Database}
use bx_ssh.Persistence.Driver.{Engine, Outcome, settle, guarded, call, execute, transact}

-- An engine that refuses nothing.
abbrev pub Healthy : {E : Type 0} → Engine E → Type 0
Healthy engine = (operation : Text) (db : Database) → engine operation db ≡ none

-- A failed call left the database as it was.
abbrev pub FailsSafely : {E A : Type 0} → Database → Outcome E A → Type 0
FailsSafely {E = E} db out = (e : PersistenceError E) → out.1 ≡ err e → out.0 ≡ db

-- An error that the engine gave as the answer to a call.
abbrev pub Refuses : {E : Type 0} → Engine E → PersistenceError E → Type 0
Refuses {E} engine e =
    (operation : Text) × (db : Database) × (source : E) × (engine operation db ≡ some source)
    × (e ≡ database_operation operation source)

module _ {E : Type 0} (engine : Engine E) where
  -- A call succeeds, or the engine refuses it.
  pub call_traced :
      (operation : Text) (db : Database)
      → (call engine operation db ≡ ok tt)
        ⊎ ((e : PersistenceError E) × (call engine operation db ≡ err e) × Refuses engine e)
  unfolding call
  call_traced operation db = elim (Option-cases (engine operation db)) [
    | inl e ↦ inl (rw (call, e) refl)
    | inr (s, e) ↦
        inr (database_operation operation s, rw (call, e) refl, (operation, db, s, e, refl))
  ]

  call_cases :
      (operation : Text) (db : Database)
      → (call engine operation db ≡ ok tt)
        ⊎ ((e : PersistenceError E) × (call engine operation db ≡ err e))
  unfolding call
  call_cases operation db = elim (Option-cases (engine operation db)) [
    | inl e ↦ inl (rw (call, e) refl)
    | inr (s, e) ↦ inr (database_operation operation s, rw (call, e) refl)
  ]

  pub call-Healthy :
      Healthy engine → (operation : Text) (db : Database) → call engine operation db ≡ ok tt
  unfolding call
  call-Healthy healthy operation db = rw (call, healthy operation db) refl

module _ {E A : Type 0} where
  settle-FailsSafely :
      (db : Database) (r : Result (PersistenceError E) (Database × A))
      → FailsSafely db (settle db r)
  settle-FailsSafely db (ok after) e h = cc h
  settle-FailsSafely db (err e') e h = refl

  pub guarded-FailsSafely :
      {B : Type 0} (db : Database) (r : Result (PersistenceError E) B)
      (k : B → Database → Outcome E A)
      → ((b : B) → r ≡ ok b → FailsSafely db (k b db))
      → FailsSafely db (guarded r k db)
  guarded-FailsSafely db (ok b) k h = h b refl
  guarded-FailsSafely db (err e) k h = λ e' q. refl

  -- A guarded operation changes nothing, or does what follows the guard.
  pub guarded_cases :
      {B : Type 0} (db : Database) (r : Result (PersistenceError E) B)
      (k : B → Database → Outcome E A)
      → ((e : PersistenceError E) × (guarded r k db ≡ (db, err e)))
        ⊎ ((b : B) × (r ≡ ok b) × (guarded r k db ≡ k b db))
  guarded_cases db (ok b) k = inr (b, refl, refl)
  guarded_cases db (err e) k = inl (e, refl)

  module _ (engine : Engine E) where
    pub execute-FailsSafely :
        (operation : Text) (effect : Database → Database × A) (db : Database)
        → FailsSafely db (execute engine operation effect db)
    unfolding execute
    execute-FailsSafely operation effect db = settle-FailsSafely db _

    pub transact-FailsSafely :
        (start : Text) (body : Database → Result (PersistenceError E) (Database × A))
        (finish : Text) (db : Database)
        → FailsSafely db (transact engine start body finish db)
    unfolding transact
    transact-FailsSafely start body finish db = settle-FailsSafely db _

    -- A statement is refused and changes nothing, or it takes effect.
    pub execute_cases :
        (operation : Text) (effect : Database → Database × A) (db : Database)
        → ((e : PersistenceError E) × (execute engine operation effect db ≡ (db, err e)))
          ⊎ (execute engine operation effect db ≡ ((effect db).0, ok (effect db).1))
    unfolding execute
    execute_cases operation effect db = elim (call_cases engine operation db) [
      | inl e ↦ inr (rw e refl)
      | inr (x, e) ↦ inl (x, rw e refl)
    ]

    -- A transaction changes nothing, or commits what its body made of the database.
    pub transact_cases :
        (start : Text) (body : Database → Result (PersistenceError E) (Database × A))
        (finish : Text) (db : Database)
        → ((e : PersistenceError E) × (transact engine start body finish db ≡ (db, err e)))
          ⊎ ((after : Database × A) × (body db ≡ ok after)
              × (transact engine start body finish db ≡ (after.0, ok after.1)))
    unfolding transact
    transact_cases start body finish db = elim (call_cases engine start db) [
      | inr (x, e) ↦ inl (x, rw e refl)
      | inl e ↦ elim (Result-cases (body db)) [
        | inr (x, b) ↦ inl (x, rw (e, b) refl)
        | inl (after, b) ↦ elim (call_cases engine finish after.0) [
          | inr (x, f) ↦ inl (x, rw (e, b, f) refl)
          | inl f ↦ inr (after, b, rw (e, b, f) refl)
        ]
      ]
    ]

  module _ (engine : Engine E) where
    -- A transaction changes nothing, as the engine refuses a call or its body fails, or it commits.
    pub transact_traced :
        (start : Text) (body : Database → Result (PersistenceError E) (Database × A))
        (finish : Text) (db : Database)
        → ((e : PersistenceError E) × (transact engine start body finish db ≡ (db, err e))
            × (Refuses engine e ⊎ (body db ≡ err e)))
          ⊎ ((after : Database × A) × (body db ≡ ok after)
              × (transact engine start body finish db ≡ (after.0, ok after.1)))
    unfolding transact
    transact_traced start body finish db = elim (call_traced engine start db) [
      | inr (x, e, r) ↦ inl (x, rw e refl, inl r)
      | inl e ↦ elim (Result-cases (body db)) [
        | inr (x, b) ↦ inl (x, rw (e, b) refl, inr b)
        | inl (after, b) ↦ elim (call_traced engine finish after.0) [
          | inr (x, f, r) ↦ inl (x, rw (e, b, f) refl, inl r)
          | inl f ↦ inr (after, b, rw (e, b, f) refl)
        ]
      ]
    ]

  module _ (engine : Engine E) (healthy : Healthy engine) where
    pub execute_healthy :
        (operation : Text) (effect : Database → Database × A) (db : Database)
        → execute engine operation effect db ≡ ((effect db).0, ok (effect db).1)
    unfolding execute
    execute_healthy operation effect db = rw (call-Healthy engine healthy operation db) refl

    pub transact_healthy :
        (start : Text) (body : Database → Result (PersistenceError E) (Database × A))
        (finish : Text) (db : Database)
        → transact engine start body finish db ≡ settle db (body db)
    unfolding transact
    transact_healthy start body finish db =
        rw (call-Healthy engine healthy start db) (elim (Result-cases (body db)) [
          | inr (x, b) ↦ rw b refl
          | inl (after, b) ↦ rw b (rw (call-Healthy engine healthy finish after.0) refl)
        ])
