-- ===== src/Persistence/Migrations/Applied.antt =====
-- What `apply_migrations` leaves: all of the pending migrations, or nothing.
use bx_ssh.Common.{
  ℕ, ◌≤◌, ◌≡◌, inl, inr, refl, sym, ap, subst, ◌∙◌, false, List, [], ◌∷◌, Result, ok, ◌>>=◌, All,
  arith, Result-cases,
}
use bx_ssh.Common.Text.{Text}
use bx_ssh.Persistence.Table.{select_where}
use bx_ssh.Persistence.Migrations.{
  Migration, Versioned, Refusals, out_of_order, last_migration, last_version, pending_migrations,
  apply_one, apply_each,
}

last_skip :
    (current : ℕ) (a b : Migration) (ms : List Migration)
    → last_version current (a ∷ b ∷ ms) ≡ last_version current (b ∷ ms)
unfolding last_version last_migration
last_skip current a b ms = ground arith

-- Versions that are in order are at most the last one.
pub last_bound :
    (current : ℕ) (ms : List Migration)
    → out_of_order ms ≡ false
    → All (λ m. m.version ≤ last_version current ms) ms
unfolding out_of_order
last_bound current [] h = tt
last_bound current (a ∷ []) h = (unfold last_version last_migration in omega arith, tt)
last_bound current (a ∷ b ∷ ms) h =
    let rest = last_bound current (b ∷ ms) (ground arith) in
    let e = last_skip current a b ms in
    let first : a.version ≤ last_version current (b ∷ ms) = ground (arith, rest.0) in
    subst (λ v. All (λ m. m.version ≤ v) (a ∷ b ∷ ms)) (sym e) (first, rest)

-- No migration is pending at a version that all of them have reached.
pub none_pending :
    (current : ℕ) (ms : List Migration)
    → All (λ m. m.version ≤ current) ms
    → pending_migrations current ms ≡ []
unfolding select_where
none_pending current [] h = refl
none_pending current (m ∷ ms) h = rw (none_pending current ms h.1) (ground (arith, h.0))

module _ {E D : Type 0} (refuses : Refusals E D) (run : Text → D → Result E D) where
  -- Batches that run one after the other.
  abbrev pub runs : List Migration → D → Result E D
  runs [] contents = ok contents
  runs (m ∷ ms) contents = run m.sql contents >>= runs ms

  apply_one-runs :
      (m : Migration) (db after : Versioned D)
      → apply_one refuses run m db ≡ ok after
      → (run m.sql db.contents ≡ ok after.contents) × (after.user_version ≡ m.version)
  unfolding apply_one
  apply_one-runs m db after h = elim (Result-cases (run m.sql db.contents)) [
    | inr (x, e) ↦ absurd (let z = rw (apply_one, e) at h in cc z)
    | inl (c, e) ↦ let z = rw (apply_one, e) at h in (e ∙ ground (arith, z), ground (arith, z))
  ]

  last_step :
      (current : ℕ) (m : Migration) (ms : List Migration)
      → last_version m.version ms ≡ last_version current (m ∷ ms)
  unfolding last_version last_migration
  last_step current m ms = ground arith

  -- The loop runs every batch, and leaves the version of the last one.
  pub apply_each-runs :
      (ms : List Migration) (db after : Versioned D)
      → apply_each refuses run ms db ≡ ok after
      → (runs ms db.contents ≡ ok after.contents)
        × (after.user_version ≡ last_version db.user_version ms)
  unfolding apply_each
  apply_each-runs [] db after h =
      let e : db ≡ after = ground (arith, h) in
      (
        ap (λ v. ok v.contents) e,
        unfold last_version last_migration in ap (λ v. v.user_version) (sym e),
      )
  apply_each-runs (m ∷ ms) db after h = elim (Result-cases (apply_one refuses run m db)) [
    | inr (x, e) ↦ absurd (let z = rw e at h in cc z)
    | inl (work, e) ↦
        let (r, v) = apply_one-runs m db work e in
        let (rs, w) = apply_each-runs ms work after (rw e at h) in
        (rw r rs, w ∙ ap (λ n. last_version n ms) v ∙ last_step db.user_version m ms)
  ]
