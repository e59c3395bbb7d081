-- ===== src/Tests/Database.antt =====
-- Tests of opening and migrating the database.
use bx_ssh.Common.{ℕ, ◌≡◌, ◌⊎◌, false, none, List, [], ◌∷◌, ◌++◌, Result, ok, err}
use bx_ssh.Common.Text.{Text, codes}
use bx_ssh.Persistence.Error.{PersistenceError}
use bx_ssh.Persistence.Migrations.{Migration, Versioned, Refusals, apply_migrations}
use bx_ssh.Persistence.Migrations.Complete.{IsMigrated, apply_migrations_lem}
use bx_ssh.Persistence.Opening.{Platform, open_or_initialize, IsSafe, open_or_initialize-IsSafe}

abbrev refusals : Refusals (Unit {0}) (List Text)
refusals = record {
  read_version = λ _. none;
  begin = λ _. none;
  write_version = λ _ _. none;
  commit = λ _. none;
}

-- The contents are the batches that were run.
abbrev run : Text → List Text → Result (Unit {0}) (List Text)
run sql contents = ok (contents ++ (sql ∷ []))

abbrev migrations : List Migration
migrations =
    record { version = 1; sql = codes "CREATE" } ∷ record { version = 2; sql = codes "ALTER" } ∷ []

abbrev old : Versioned (List Text)
old = record { contents = codes "CREATE" ∷ []; user_version = 1 }

apply_migrations_lem_example :
    ((e : PersistenceError (Unit {0})) × (apply_migrations refusals run migrations old
        ≡ (old, err e)))
    ⊎ (((apply_migrations refusals run migrations old).1 ≡ ok tt)
        × IsMigrated refusals run migrations old (apply_migrations refusals run migrations old).0)
apply_migrations_lem_example = apply_migrations_lem refusals run migrations old

abbrev platform : Platform (Unit {0}) ℕ Text
platform = record {
  load_refused = none;
  save_refused = none;
  delete_refused = none;
  generate = ok 7;
  open_with = λ _. ok (codes "db");
}

open_or_initialize-IsSafe_example : IsSafe platform none (open_or_initialize platform false none)
open_or_initialize-IsSafe_example = open_or_initialize-IsSafe platform false none
