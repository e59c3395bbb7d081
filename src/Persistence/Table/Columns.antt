-- ===== src/Persistence/Table/Columns.antt =====
-- Columns that a statement keeps, and rows that it leaves.
use bx_ssh.Common.{
  ◌≡◌, refl, ap, ◌∙◌, inl, inr, Bool, true, false, List, [], ◌∷◌, ◌++◌, any, All, map, arith,
  Bool-cases, length, suc,
}
use bx_ssh.Common.Text.Trim.{All-append}
use bx_ssh.Common.{is_empty, not}
use bx_ssh.Persistence.Table.{select_where, update_where, delete_where, upsert, insert_by, order_by}
use bx_ssh.Persistence.Table.Laws.{All-weaken, any-false-All}

module _ {ℓ} {R : Type ℓ} where
  pub map-update_where {κ} :
      {A : Type κ} (g : R → A) (q : R → Bool) (f : R → R) (rs : List R)
      → ((r : R) → g (f r) ≡ g r)
      → map g (update_where q f rs) ≡ map g rs
  unfolding update_where
  map-update_where g q f [] k = refl
  map-update_where g q f (r ∷ rs) k = elim (Bool-cases (q r)) [
    | inl e ↦ rw (e, k r, map-update_where g q f rs k) refl
    | inr e ↦ rw (e, map-update_where g q f rs k) refl
  ]

  -- What the rows satisfy that an update leaves, matched or not.
  pub All-updated {κ} :
      (P : R → Type κ) (q : R → Bool) (f : R → R) (rs : List R)
      → ((r : R) → q r ≡ true → P (f r))
      → ((r : R) → q r ≡ false → P r)
      → All P (update_where q f rs)
  unfolding update_where
  All-updated P q f [] k l = tt
  All-updated P q f (r ∷ rs) k l = elim (Bool-cases (q r)) [
    | inl e ↦ rw e (k r e, All-updated P q f rs k l)
    | inr e ↦ rw e (l r e, All-updated P q f rs k l)
  ]

  pub any-delete_where : (q : R → Bool) (rs : List R) → any q (delete_where q rs) ≡ false
  unfolding delete_where
  any-delete_where q [] = refl
  any-delete_where q (r ∷ rs) = ground (arith, any-delete_where q rs)

  pub All-deleted : (q : R → Bool) (rs : List R) → All (λ r. q r ≡ false) (delete_where q rs)
  unfolding delete_where
  All-deleted q [] = tt
  All-deleted q (r ∷ rs) = elim (Bool-cases (q r)) [
    | inl e ↦ rw e (All-deleted q rs)
    | inr e ↦ rw e (e, All-deleted q rs)
  ]

module _ {ℓ} {R : Type ℓ} (b : R → R → Bool) where
  insert_by-All {κ} :
      (P : R → Type κ) (r : R) (rs : List R) → All P (insert_by b r rs) → P r × All P rs
  unfolding insert_by
  insert_by-All P r [] h = h
  insert_by-All P r (s ∷ rs) h = elim (Bool-cases (b r s)) [
    | inl e ↦ rw e at h
    | inr e ↦ let (p, q) = rw e at h in let (u, v) = insert_by-All P r rs q in (u, (p, v))
  ]

  -- A sorted table has the rows of the table.
  pub order_by-All {κ} : (P : R → Type κ) (rs : List R) → All P (order_by b rs) → All P rs
  unfolding order_by
  order_by-All P [] h = tt
  order_by-All P (r ∷ rs) h =
      let (p, q) = insert_by-All P r (order_by b rs) h in (p, order_by-All P rs q)

  length-insert_by : (r : R) (rs : List R) → length (insert_by b r rs) ≡ suc (length rs)
  unfolding insert_by
  length-insert_by r [] = refl
  length-insert_by r (s ∷ rs) = ground (arith, length-insert_by r rs)

  pub length-order_by : (rs : List R) → length (order_by b rs) ≡ length rs
  unfolding order_by
  length-order_by [] = refl
  length-order_by (r ∷ rs) = length-insert_by r (order_by b rs) ∙ ap suc (length-order_by rs)

module _ {ℓ κ} {A : Type ℓ} {B : Type κ} (f : A → B) where
  pub map-All {ι} : (P : B → Type ι) (xs : List A) → All P (map f xs) → All (λ a. P (f a)) xs
  map-All P [] h = tt
  map-All P (x ∷ xs) h = (h.0, map-All P xs h.1)

module _ {ℓ} {R : Type ℓ} where
  -- What the rows satisfy that an upsert leaves: updated, not matched, or new.
  pub All-upserted {κ} :
      (P : R → Type κ) (q : R → Bool) (f : R → R) (new : R) (rs : List R)
      → ((r : R) → q r ≡ true → P (f r))
      → ((r : R) → q r ≡ false → P r)
      → P new
      → All P (upsert q f new rs)
  unfolding upsert
  All-upserted P q f new rs k l n = elim (Bool-cases (any q rs)) [
    | inl e ↦ rw e (All-updated P q f rs k l)
    | inr e ↦ rw e (All-append P rs (new ∷ []) (All-weaken _ P rs l (any-false-All q rs e)) (n, tt))
  ]

  pub any-select_where :
      (q : R → Bool) (rs : List R) → any q rs ≡ not (is_empty (select_where q rs))
  unfolding select_where
  any-select_where q [] = refl
  any-select_where q (r ∷ rs) = ground (arith, any-select_where q rs)

  -- A query that a statement does not touch returns what it returned.
  module _ (q p : R → Bool) (apart : (r : R) → q r ≡ true → p r ≡ false) where
    pub select-update_where :
        (f : R → R) (rs : List R)
        → ((r : R) → q r ≡ true → p (f r) ≡ false)
        → select_where p (update_where q f rs) ≡ select_where p rs
    unfolding select_where update_where
    select-update_where f [] k = refl
    select-update_where f (r ∷ rs) k = elim (Bool-cases (q r)) [
      | inl e ↦ rw (e, k r e, apart r e) (select-update_where f rs k)
      | inr e ↦ rw (e, select-update_where f rs k) refl
    ]

    select-append :
        (new : R) (rs : List R)
        → p new ≡ false
        → select_where p (rs ++ (new ∷ [])) ≡ select_where p rs
    unfolding select_where
    select-append new [] n = rw n refl
    select-append new (r ∷ rs) n = rw (select-append new rs n) refl

    pub select-upsert :
        (f : R → R) (new : R) (rs : List R)
        → ((r : R) → q r ≡ true → p (f r) ≡ false)
        → p new ≡ false
        → select_where p (upsert q f new rs) ≡ select_where p rs
    unfolding upsert
    select-upsert f new rs k n = elim (Bool-cases (any q rs)) [
      | inl e ↦ rw e (select-update_where f rs k)
      | inr e ↦ rw e (select-append new rs n)
    ]

    pub select-delete_where : (rs : List R) → select_where p (delete_where q rs) ≡ select_where p rs
    unfolding select_where delete_where
    select-delete_where [] = refl
    select-delete_where (r ∷ rs) = elim (Bool-cases (q r)) [
      | inl e ↦ rw (e, apart r e) (select-delete_where rs)
      | inr e ↦ rw (e, select-delete_where rs) refl
    ]
