-- ===== src/Persistence/Migrations/Complete.antt =====
-- What a call of `apply_migrations` does: every pending migration, once, or nothing.
use bx_ssh.Common.{
  ◌<◌, ◌≤◌, ◌≡◌, ◌⊎◌, inl, inr, refl, sym, ap, subst, ◌∙◌, true, false, none, List, [], ◌++◌,
  Result, ok, err, ltb, is_empty, All, arith, Bool-cases, Result-cases,
}
use bx_ssh.Common.Text.{Text}
use bx_ssh.Persistence.Error.{PersistenceError}
use bx_ssh.Persistence.Migrations.{
  Migration, Versioned, Refusals, out_of_order, last_version, pending_migrations, apply_each,
  check_migrations, migrate, migrate_pending, apply_migrations,
}
use bx_ssh.Persistence.Migrations.Applied.{last_bound, none_pending, runs, apply_each-runs}
use bx_ssh.Persistence.Migrations.Pending.{
  pending-bound, last-at_most, last-pending, last-last, newer, append-[], pending-splits,
}

module _ {E D : Type 0} (refuses : Refusals E D) (run : Text → D → Result E D) where
  -- The migrations split into those up to the version of a state and those above it. The latter, which
  -- the state lacks, were run on it, each once and in their order, and the version is the last.
  pub record IsMigrated (ms : List Migration) (db after : Versioned D) : Type 0 where
    pub present : List Migration
    pub lacked : List Migration
    pub split : ms ≡ present ++ lacked
    pub had : All (λ m. m.version ≤ db.user_version) present
    pub lacks : All (λ m. db.user_version < m.version) lacked
    pub ran : runs refuses run lacked db.contents ≡ ok after.contents
    pub current : after.user_version ≡ last_version db.user_version ms
    pub done : All (λ m. m.version ≤ after.user_version) ms

  checked :
      (ms : List Migration) (db : Versioned D)
      → check_migrations refuses run ms db ≡ ok tt
      → (out_of_order ms ≡ false) × (db.user_version ≤ last_version db.user_version ms)
  unfolding check_migrations
  checked ms db h = (ground (arith, h), ground (arith, h))

  migrated :
      (ms : List Migration) (db after : Versioned D)
      → out_of_order ms ≡ false
      → db.user_version ≤ last_version db.user_version ms
      → migrate refuses run ms db ≡ ok after
      → is_empty (pending_migrations db.user_version ms) ≡ false
      → IsMigrated ms db after
  unfolding migrate
  migrated ms db after o l h n =
      let pending = pending_migrations db.user_version ms in
      elim (Result-cases (apply_each refuses run pending db)) [
        | inr (x, e) ↦ absurd (let z = rw (migrate, e) at h in ground (arith, z))
        | inl (work, e) ↦
            let same : after ≡ work = (let z = rw (migrate, e) at h in ground (arith, z)) in
            let (r, v) = apply_each-runs refuses run pending db work e in
            let reaches : work.user_version ≡ last_version db.user_version ms =
              v ∙ last-pending db.user_version ms (newer ms db.user_version o l n) in
            let (present, parts, had, lacks) = pending-splits db.user_version ms o in
            rw same (record {
              present = present;
              lacked = pending;
              split = parts;
              had = had;
              lacks = lacks;
              ran = r;
              current = reaches;
              done =
                  subst (λ c. All (λ m. m.version ≤ c) ms) (sym reaches)
                    (last_bound db.user_version ms o);
            })
      ]

  up_to_date :
      (ms : List Migration) (db : Versioned D)
      → db.user_version ≤ last_version db.user_version ms
      → is_empty (pending_migrations db.user_version ms) ≡ true
      → IsMigrated ms db db
  up_to_date ms db l n =
      let all_done = pending-bound db.user_version ms n in
      let bound = last-at_most db.user_version ms all_done in
      record {
        present = ms;
        lacked = [];
        split = sym (append-[] ms);
        had = all_done;
        lacks = tt;
        ran = refl;
        current = omega (arith, l, bound);
        done = all_done;
      }

  migrate_pending-IsMigrated :
      (ms : List Migration) (db after : Versioned D)
      → migrate_pending refuses run ms db ≡ ok after
      → IsMigrated ms db after
  unfolding migrate_pending
  migrate_pending-IsMigrated ms db after h =
      elim (Result-cases (check_migrations refuses run ms db)) [
        | inr (x, e) ↦ absurd (let z = rw (migrate_pending, e) at h in cc z)
        | inl (t, e) ↦
            let (o, l) = checked ms db e in
            elim (Bool-cases (is_empty (pending_migrations db.user_version ms))) [
              | inl n ↦
                  let same : db ≡ after =
                    (let z = rw (migrate_pending, e, n) at h in ground (arith, z)) in
                  subst (IsMigrated ms db) same (up_to_date ms db l n)
              | inr n ↦ migrated ms db after o l (rw (migrate_pending, e, n) at h) n
            ]
      ]

  -- A call fails and changes nothing, or it succeeds: the migrations above the version of the database,
  -- which end the list, were run on it, each once and in order, those before them were not run again,
  -- and the version is then the last one, which no migration exceeds.
  pub apply_migrations_lem :
      (ms : List Migration) (db : Versioned D)
      → ((e : PersistenceError E) × (apply_migrations refuses run ms db ≡ (db, err e)))
        ⊎ (((apply_migrations refuses run ms db).1 ≡ ok tt)
            × IsMigrated ms db (apply_migrations refuses run ms db).0)
  unfolding apply_migrations
  apply_migrations_lem ms db = elim (Result-cases (migrate_pending refuses run ms db)) [
    | inr (x, e) ↦ inl (x, rw (apply_migrations, e) refl)
    | inl (after, e) ↦
        let same : apply_migrations refuses run ms db ≡ (after, ok tt) =
          rw (apply_migrations, e) refl in
        inr (
          ap (λ o. o.1) same,
          subst (λ o. IsMigrated ms db o.0) (sym same) (migrate_pending-IsMigrated ms db after e),
        )
  ]

  -- A database that is migrated is not migrated again: where the version can be read, and the
  -- migrations are in order, a call succeeds and changes nothing.
  pub apply_migrations-again :
      (ms : List Migration) (db after : Versioned D)
      → IsMigrated ms db after
      → out_of_order ms ≡ false
      → refuses.read_version after ≡ none
      → apply_migrations refuses run ms after ≡ (after, ok tt)
  unfolding apply_migrations migrate_pending check_migrations
  apply_migrations-again ms db after v o r =
      let none_left = none_pending after.user_version ms v.done in
      let last : last_version after.user_version ms ≡ after.user_version =
        rw v.current (last-last db.user_version ms) in
      let upto : ltb (last_version after.user_version ms) after.user_version ≡ false =
        rw last (ground arith) in
      let checked_again : check_migrations refuses run ms after ≡ ok tt =
        rw (check_migrations, o) (rw r (rw upto refl)) in
      rw (apply_migrations, migrate_pending, checked_again) (rw none_left refl)
