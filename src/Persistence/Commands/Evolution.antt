-- ===== src/Persistence/Commands/Evolution.antt =====
-- How the calls of the repository change the database: each fails and changes nothing, or takes it
-- to a state that keeps what must be kept.
pub mod Bodies
pub mod Calls
use bx_ssh.Common.{
  ◌≡◌, ◌⊎◌, inl, inr, refl, sym, ap, subst, ◌∙◌, true, map, Option, List, Result, ok, err, Bool,
}
use bx_ssh.Common.Text.{Text}
use bx_ssh.Common.Text.Sets.{contains}
use bx_ssh.Persistence.Error.{PersistenceError}
use bx_ssh.Persistence.Table.Ids.{Distinct}
use bx_ssh.Persistence.Schema.{Database}
use bx_ssh.Persistence.Driver.{Engine, Outcome, guarded, execute, transact}
use bx_ssh.Persistence.Driver.Cases.{FailsSafely, guarded_cases, execute_cases, transact_cases}
use bx_ssh.Persistence.Hosts.Pinning.{Pinned}

abbrev pub connection_ids : Database → List Text
connection_ids db = map (λ row. row.id) db.connections

abbrev pub group_ids : Database → List Text
group_ids db = map (λ row. row.id) db.connection_groups

-- Each endpoint keeps one key at most, ids stay distinct, and no connection's row disappears.
pub record Evolves (db after : Database) : Type 0 where
  pub pins : Pinned db.host_fingerprints → Pinned after.host_fingerprints
  pub connections_distinct : Distinct (connection_ids db) → Distinct (connection_ids after)
  pub groups_distinct : Distinct (group_ids db) → Distinct (group_ids after)
  pub connections_kept :
      (id : Text)
      → contains id (connection_ids db) ≡ true
      → contains id (connection_ids after) ≡ true

pub Evolves-refl : (db : Database) → Evolves db db
Evolves-refl db = record {
  pins = λ h. h;
  connections_distinct = λ h. h;
  groups_distinct = λ h. h;
  connections_kept = λ id h. h;
}

pub Evolves-trans : {a b c : Database} → Evolves a b → Evolves b c → Evolves a c
Evolves-trans u v = record {
  pins = λ h. v.pins (u.pins h);
  connections_distinct = λ h. v.connections_distinct (u.connections_distinct h);
  groups_distinct = λ h. v.groups_distinct (u.groups_distinct h);
  connections_kept = λ id h. v.connections_kept id (u.connections_kept id h);
}

-- A call that fails and changes nothing, or succeeds and evolves the database.
abbrev pub Tame : {E A : Type 0} → Database → Outcome E A → Type 0
Tame {E = E} {A = A} db out =
    ((e : PersistenceError E) × (out ≡ (db, err e))) ⊎ ((a : A) × (out.1 ≡ ok a) × Evolves db out.0)

module _ {E A : Type 0} where
  pub guarded-Tame :
      {B : Type 0} (db : Database) (r : Result (PersistenceError E) B)
      (k : B → Database → Outcome E A)
      → ((b : B) → r ≡ ok b → Tame db (k b db))
      → Tame db (guarded r k db)
  guarded-Tame db (ok b) k h = h b refl
  guarded-Tame db (err e) k h = inl (e, refl)

  pub execute-Tame :
      (engine : Engine E) (operation : Text) (effect : Database → Database × A) (db : Database)
      → Evolves db (effect db).0
      → Tame db (execute engine operation effect db)
  execute-Tame engine operation effect db h = elim (execute_cases engine operation effect db) [
    | inl e ↦ inl e
    | inr e ↦ inr ((effect db).1, ap (λ o. o.1) e, subst (λ o. Evolves db o.0) (sym e) h)
  ]

  pub transact-Tame :
      (engine : Engine E) (start : Text)
      (body : Database → Result (PersistenceError E) (Database × A)) (finish : Text) (db : Database)
      → ((after : Database × A) → body db ≡ ok after → Evolves db after.0)
      → Tame db (transact engine start body finish db)
  transact-Tame engine start body finish db h = elim (transact_cases engine start body finish db) [
    | inl e ↦ inl e
    | inr (after, b, e) ↦
        inr (after.1, ap (λ o. o.1) e, subst (λ o. Evolves db o.0) (sym e) (h after b))
  ]

  pub Tame-Evolves : (db : Database) (out : Outcome E A) → Tame db out → Evolves db out.0
  Tame-Evolves db out (inl (e, p)) = rw p (Evolves-refl db)
  Tame-Evolves db out (inr (a, p, v)) = v

  pub Tame-FailsSafely : (db : Database) (out : Outcome E A) → Tame db out → FailsSafely db out
  Tame-FailsSafely db out (inl (x, p)) e q = ap (λ o. o.0) p
  Tame-FailsSafely db out (inr (a, p, v)) e q = cc (p, q)
