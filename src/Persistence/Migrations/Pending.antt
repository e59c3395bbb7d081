-- ===== src/Persistence/Migrations/Pending.antt =====
-- The migrations that are pending, and the version of the last one.
use bx_ssh.Common.{
  ℕ, ◌<◌, ◌≤◌, ◌≡◌, inl, inr, refl, sym, ap, subst, ◌∙◌, Bool, true, false, none, some, List, [],
  ◌∷◌, ◌++◌, ltb, is_empty, All, arith, Bool-cases, Option-cases,
}
use bx_ssh.Persistence.Table.{select_where}
use bx_ssh.Persistence.Migrations.{
  Migration, out_of_order, last_migration, last_version, pending_migrations,
}
use bx_ssh.Persistence.Migrations.Applied.{last_bound, none_pending}

pub pending-bound :
    (current : ℕ) (ms : List Migration)
    → is_empty (pending_migrations current ms) ≡ true
    → All (λ m. m.version ≤ current) ms
unfolding select_where
pending-bound current [] h = tt
pending-bound current (m ∷ ms) h = (ground arith, pending-bound current ms (ground arith))

pub last-at_most :
    (current : ℕ) (ms : List Migration)
    → All (λ m. m.version ≤ current) ms
    → last_version current ms ≤ current
unfolding last_version last_migration
last-at_most current [] h = omega arith
last-at_most current (m ∷ ms) h = ground (arith, h.0, last-at_most current ms h.1)

no_last : (ms : List Migration) → last_migration ms ≡ none → ms ≡ []
unfolding last_migration
no_last [] h = refl
no_last (m ∷ ms) h = absurd (ground arith)

last-select_where :
    (p : Migration → Bool) (ms : List Migration) (m : Migration)
    → last_migration ms ≡ some m
    → p m ≡ true
    → last_migration (select_where p ms) ≡ some m
unfolding select_where last_migration
last-select_where p [] m h t = absurd (cc h)
last-select_where p (x ∷ ms) m h t = elim (Option-cases (last_migration ms)) [
  | inl e ↦
      let same : x ≡ m = (let z = rw e at h in ground (arith, z)) in
      rw (no_last ms e) (rw (same, t) refl)
  | inr (l, e) ↦
      let same : l ≡ m = (let z = rw e at h in ground (arith, z)) in
      let rest = last-select_where p ms m (e ∙ ap some same) t in
      elim (Bool-cases (p x)) [ inl b ↦ rw (b, rest) refl | inr b ↦ rw (b, rest) refl ]
]

-- The last of all migrations is the last of those that are pending, if it is pending.
pub last-pending :
    (current : ℕ) (ms : List Migration)
    → current < last_version current ms
    → last_version current (pending_migrations current ms) ≡ last_version current ms
unfolding last_version
last-pending current ms h = elim (Option-cases (last_migration ms)) [
  | inl e ↦ absurd (let z = rw (last_version, e) at h in omega (arith, z))
  | inr (m, e) ↦
      let z = rw (last_version, e) at h in
      let p = last-select_where (λ x. ltb current x.version) ms m e (ground (arith, z)) in
      rw (last_version, p, e) refl
]

pub last-last :
    (current : ℕ) (ms : List Migration)
    → last_version (last_version current ms) ms ≡ last_version current ms
unfolding last_version
last-last current ms = elim (Option-cases (last_migration ms)) [
  | inl e ↦ rw (last_version, e) (rw (last_version, e) refl)
  | inr (m, e) ↦ rw (last_version, e) refl
]

-- If some migration is pending, the last one is.
pub newer :
    (ms : List Migration) (current : ℕ)
    → out_of_order ms ≡ false
    → current ≤ last_version current ms
    → is_empty (pending_migrations current ms) ≡ false
    → current < last_version current ms
newer ms current o l n = elim (Bool-cases (ltb current (last_version current ms))) [
  | inl e ↦ ground (arith, e)
  | inr e ↦
      let same : last_version current ms ≡ current = ground (arith, e, l) in
      let all_done = subst (λ c. All (λ m. m.version ≤ c) ms) same (last_bound current ms o) in
      let none_left = none_pending current ms all_done in absurd (let z = rw none_left at n in cc z)
]

tail_in_order :
    (m : Migration) (ms : List Migration) → out_of_order (m ∷ ms) ≡ false → out_of_order ms ≡ false
unfolding out_of_order
tail_in_order m [] o = refl
tail_in_order m (n ∷ ms) o = ground (arith, o)

-- Versions in order above one that a state has not reached are not reached either.
pub above :
    (current : ℕ) (m : Migration) (ms : List Migration)
    → out_of_order (m ∷ ms) ≡ false
    → current < m.version
    → All (λ x. current < x.version) ms
unfolding out_of_order
above current m [] o l = tt
above current m (n ∷ ms) o l =
    let next : current < n.version = ground (arith, o, l) in
    (next, above current n ms (ground (arith, o)) next)

all_pending :
    (current : ℕ) (ms : List Migration)
    → All (λ m. current < m.version) ms
    → pending_migrations current ms ≡ ms
unfolding select_where
all_pending current [] h = refl
all_pending current (m ∷ ms) h = rw (all_pending current ms h.1) (ground (arith, h.0))

pub append-[] : (ms : List Migration) → ms ++ [] ≡ ms
append-[] [] = refl
append-[] (m ∷ ms) = ap (λ l. m ∷ l) (append-[] ms)

-- Of migrations in order those that are pending are the last ones.
pub pending-splits :
    (current : ℕ) (ms : List Migration)
    → out_of_order ms ≡ false
    → (present : List Migration) × (ms ≡ present ++ pending_migrations current ms)
      × All (λ m. m.version ≤ current) present
      × All (λ m. current < m.version) (pending_migrations current ms)
unfolding select_where
pending-splits current [] o = ([], refl, tt, tt)
pending-splits current (m ∷ ms) o = elim (Bool-cases (ltb current m.version)) [
  | inl e ↦
      let l : current < m.version = ground (arith, e) in
      let rest = above current m ms o l in
      let same = all_pending current ms rest in
      (
        [],
        rw e (ap (λ p. m ∷ p) (sym same)),
        tt,
        rw e (l, subst (All (λ x. current < x.version)) (sym same) rest),
      )
  | inr e ↦
      let (present, parts, had, lacks) = pending-splits current ms (tail_in_order m ms o) in
      (m ∷ present, rw e (ap (λ p. m ∷ p) parts), (ground (arith, e), had), rw e lacks)
]
