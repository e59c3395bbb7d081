-- ===== src/Persistence/Ordering/Reordered.antt =====
-- What an ordering leaves: every listed row at the position of its id in the request.
use bx_ssh.Common.{
  ℕ, suc, ◌≡◌, inl, inr, sym, ap, ◌∙◌, true, false, not, List, [], ◌∷◌, ok, any, All, arith,
  Result-cases, length,
}
use bx_ssh.Common.Text.{Text}
use bx_ssh.Common.Text.Sets.{contains, index_of}
use bx_ssh.Persistence.Integers.{ℤ, pos}
use bx_ssh.Persistence.Table.{text_at_most}
use bx_ssh.Persistence.Table.Laws.{All-weaken, any-false-All}
use bx_ssh.Persistence.Table.Columns.{order_by-All, length-order_by}
use bx_ssh.Persistence.Schema.{Database}
use bx_ssh.Persistence.Driver.{Engine, step, call}
use bx_ssh.Persistence.Ordering.{
  validate_complete_order, usize_to_i64, ids_by_id, query_ids, reorder_each, reorder_body,
}

-- The loop's updates, one after the other.
abbrev pub place_each : (Text → ℤ → Database → Database) → ℕ → List Text → Database → Database
place_each place i [] db = db
place_each place i (id ∷ ids) db = place_each place (suc i) ids (place id (pos i) db)

abbrev pub position_in : List Text → Text → ℤ
position_in ids id = pos (index_of id ids)

module _ {E : Type 0} where
  pub complete_order :
      (stored ids : List Text)
      → validate_complete_order {E = E} (ids_by_id stored) ids ≡ ok tt
      → (length stored ≡ length ids) × All (λ s. contains s ids ≡ true) stored
  unfolding validate_complete_order
  complete_order stored ids h =
      let bad : any (λ id. not (contains id ids)) (ids_by_id stored) ≡ false = ground arith in
      (
        sym (length-order_by text_at_most stored) ∙ ground arith,
        order_by-All text_at_most (λ s. contains s ids ≡ true) stored
            (All-weaken (λ s. not (contains s ids) ≡ false) (λ s. contains s ids ≡ true)
              (ids_by_id stored) (λ s e. ground arith)
              (any-false-All (λ id. not (contains id ids)) (ids_by_id stored) bad)),
      )

  module _ (engine : Engine E) where
    usize_to_i64-pos : (n : ℕ) (p : ℤ) → usize_to_i64 {E = E} n ≡ ok p → p ≡ pos n
    unfolding usize_to_i64
    usize_to_i64-pos n p h = ground arith

    reorder_each-places :
        (operation : Text) (place : Text → ℤ → Database → Database) (i : ℕ) (ids : List Text)
        (db after : Database)
        → reorder_each engine operation place i ids db ≡ ok after
        → after ≡ place_each place i ids db
    unfolding reorder_each step
    reorder_each-places operation place i [] db after h = ground arith
    reorder_each-places operation place i (id ∷ ids) db after h =
        elim (Result-cases (usize_to_i64 {E = E} i)) [
          | inr (x, e) ↦ absurd (let z = rw e at h in cc z)
          | inl (p, e) ↦ elim (Result-cases (call engine operation db)) [
            | inr (x, c) ↦ absurd (let z = rw (e, c) at h in cc z)
            | inl (t, c) ↦
                let q : p ≡ pos i = usize_to_i64-pos i p e in
                let z = rw (e, c) at h in
                reorder_each-places operation place (suc i) ids (place id p db) after z
                ∙ ap (λ n. place_each place (suc i) ids (place id n db)) q
          ]
        ]

    pub reorder_body-ok :
        (query operation : Text) (stored : Database → List Text)
        (place : Text → ℤ → Database → Database) (ids : List Text) (db : Database)
        (after : Database × Unit {0})
        → reorder_body engine query operation stored place ids db ≡ ok after
        → (validate_complete_order {E = E} (stored db) ids ≡ ok tt)
          × (after.0 ≡ place_each place 0 ids db)
    unfolding reorder_body query_ids
    reorder_body-ok query operation stored place ids db after h =
        elim (Result-cases (reorder_each engine operation place 0 ids db)) [
          | inl (work, e) ↦
              (ground arith, ground (arith, reorder_each-places operation place 0 ids db work e))
          | inr (x, e) ↦ absurd (ground arith)
        ]
