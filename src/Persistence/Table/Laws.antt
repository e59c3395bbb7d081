-- ===== src/Persistence/Table/Laws.antt =====
-- Laws of the table operations.
use bx_ssh.Common.{
  ◌≡◌, refl, inl, inr, Bool, true, false, ◌||◌, List, [], ◌∷◌, ◌++◌, any, All, map, is_empty, arith,
  Bool-cases,
}
use bx_ssh.Common.Text.Trim.{All-append}
use bx_ssh.Persistence.Table.{select_where, delete_where, update_where, upsert, insert_by, order_by}

module _ {ℓ} {R : Type ℓ} where
  pub any-append : (p : R → Bool) (xs ys : List R) → any p (xs ++ ys) ≡ (any p xs || any p ys)
  any-append p [] ys = refl
  any-append p (x ∷ xs) ys = ground (arith, any-append p xs ys)

  pub any-false-All : (p : R → Bool) (rs : List R) → any p rs ≡ false → All (λ r. p r ≡ false) rs
  any-false-All p [] h = tt
  any-false-All p (r ∷ rs) h = (ground arith, any-false-All p rs (ground arith))

  pub All-any-false : (p : R → Bool) (rs : List R) → All (λ r. p r ≡ false) rs → any p rs ≡ false
  All-any-false p [] h = refl
  All-any-false p (r ∷ rs) h = ground (arith, h.0, All-any-false p rs h.1)

  -- Of a predicate at every row, what the rows satisfy after a statement.
  module _ {κ} (P : R → Type κ) where
    pub All-select_where :
        (q : R → Bool) (rs : List R) → All (λ r. q r ≡ true → P r) rs → All P (select_where q rs)
    unfolding select_where
    All-select_where q [] h = tt
    All-select_where q (r ∷ rs) h = elim (Bool-cases (q r)) [
      | inl e ↦ rw e (h.0 e, All-select_where q rs h.1)
      | inr e ↦ rw e (All-select_where q rs h.1)
    ]

    pub select_where-All :
        (q : R → Bool) (rs : List R) → All P (select_where q rs) → All (λ r. q r ≡ true → P r) rs
    unfolding select_where
    select_where-All q [] h = tt
    select_where-All q (r ∷ rs) h = elim (Bool-cases (q r)) [
      | inl e ↦ let u = rw e at h in ((λ _. u.0), select_where-All q rs u.1)
      | inr e ↦ ((λ t. cc (t, e)), select_where-All q rs (rw e at h))
    ]

    pub All-update_where :
        (q : R → Bool) (f : R → R) (rs : List R)
        → ((r : R) → q r ≡ true → P r → P (f r))
        → All P rs
        → All P (update_where q f rs)
    unfolding update_where
    All-update_where q f [] k h = tt
    All-update_where q f (r ∷ rs) k h = elim (Bool-cases (q r)) [
      | inl e ↦ rw e (k r e h.0, All-update_where q f rs k h.1)
      | inr e ↦ rw e (h.0, All-update_where q f rs k h.1)
    ]

    pub All-upsert :
        (q : R → Bool) (f : R → R) (new : R) (rs : List R)
        → ((r : R) → q r ≡ true → P r → P (f r))
        → P new
        → All P rs
        → All P (upsert q f new rs)
    unfolding upsert
    All-upsert q f new rs k n h = elim (Bool-cases (any q rs)) [
      | inl e ↦ rw e (All-update_where q f rs k h)
      | inr e ↦ rw e (All-append P rs (new ∷ []) h (n, tt))
    ]

    pub All-delete_where :
        (q : R → Bool) (rs : List R) → All (λ r. q r ≡ false → P r) rs → All P (delete_where q rs)
    unfolding delete_where
    All-delete_where q [] h = tt
    All-delete_where q (r ∷ rs) h = elim (Bool-cases (q r)) [
      | inl e ↦ rw e (All-delete_where q rs h.1)
      | inr e ↦ rw e (h.0 e, All-delete_where q rs h.1)
    ]

    All-insert_by :
        (b : R → R → Bool) (r : R) (rs : List R) → P r → All P rs → All P (insert_by b r rs)
    unfolding insert_by
    All-insert_by b r [] p h = (p, tt)
    All-insert_by b r (s ∷ rs) p h = elim (Bool-cases (b r s)) [
      | inl e ↦ rw e (p, h)
      | inr e ↦ rw e (h.0, All-insert_by b r rs p h.1)
    ]

    pub All-order_by : (b : R → R → Bool) (rs : List R) → All P rs → All P (order_by b rs)
    unfolding order_by
    All-order_by b [] h = tt
    All-order_by b (r ∷ rs) h = All-insert_by b r (order_by b rs) h.0 (All-order_by b rs h.1)

  pub All-weaken {κ κ'} :
      (P : R → Type κ) (Q : R → Type κ') (rs : List R) → ((r : R) → P r → Q r) → All P rs → All Q rs
  All-weaken P Q [] k h = tt
  All-weaken P Q (r ∷ rs) k h = (k r h.0, All-weaken P Q rs k h.1)

  pub any-update_where :
      (p q : R → Bool) (f : R → R) (rs : List R)
      → ((r : R) → q r ≡ true → p (f r) ≡ true)
      → any q rs ≡ true
      → any p (update_where q f rs) ≡ true
  unfolding update_where
  any-update_where p q f [] k h = cc
  any-update_where p q f (r ∷ rs) k h = elim (Bool-cases (q r)) [
    | inl e ↦ rw (e, k r e) refl
    | inr e ↦ ground (arith, any-update_where p q f rs k)
  ]

  -- An upsert leaves a row that is new or updated.
  pub any-upsert :
      (p q : R → Bool) (f : R → R) (new : R) (rs : List R)
      → ((r : R) → q r ≡ true → p (f r) ≡ true)
      → p new ≡ true
      → any p (upsert q f new rs) ≡ true
  unfolding upsert
  any-upsert p q f new rs k n = elim (Bool-cases (any q rs)) [
    | inl e ↦ rw e (any-update_where p q f rs k e)
    | inr e ↦ rw e (ground (arith, any-append p rs (new ∷ [])))
  ]

  select_where-any :
      (q : R → Bool) (rs : List R) → any q rs ≡ true → is_empty (select_where q rs) ≡ false
  unfolding select_where
  select_where-any q [] h = cc
  select_where-any q (r ∷ rs) h = ground (arith, select_where-any q rs)

  insert_by-is_empty :
      (b : R → R → Bool) (r : R) (rs : List R) → is_empty (insert_by b r rs) ≡ false
  unfolding insert_by
  insert_by-is_empty b r [] = refl
  insert_by-is_empty b r (s ∷ rs) = ground arith

  pub order_by-is_empty : (b : R → R → Bool) (rs : List R) → is_empty (order_by b rs) ≡ is_empty rs
  unfolding order_by
  order_by-is_empty b [] = refl
  order_by-is_empty b (r ∷ rs) = insert_by-is_empty b r (order_by b rs)

  -- A query that some row satisfies returns rows.
  pub select_where_some :
      (q : R → Bool) (b : R → R → Bool) (rs : List R)
      → any q rs ≡ true
      → is_empty (order_by b (select_where q rs)) ≡ false
  select_where_some q b rs h =
      rw (order_by-is_empty b (select_where q rs)) (select_where-any q rs h)

module _ {ℓ κ} {A : Type ℓ} {B : Type κ} (f : A → B) where
  pub All-map {ι} : (P : B → Type ι) (xs : List A) → All (λ a. P (f a)) xs → All P (map f xs)
  All-map P [] h = tt
  All-map P (x ∷ xs) h = (h.0, All-map P xs h.1)

  pub is_empty-map : (xs : List A) → is_empty (map f xs) ≡ is_empty xs
  is_empty-map [] = refl
  is_empty-map (x ∷ xs) = refl
