-- ===== src/Persistence/Table/Ids.antt =====
-- Primary keys: a statement keeps them distinct, and an upsert loses none.
use bx_ssh.Common.{
  ◌≡◌, refl, sym, ap, subst, inl, inr, Bool, true, false, List, [], ◌∷◌, ◌++◌, map, any, arith,
  Bool-cases,
}
use bx_ssh.Common.Text.{Text, text_eq, text_eq_iff}
use bx_ssh.Common.Text.Sets.{contains, has_repetition}
use bx_ssh.Persistence.Table.{delete_where, upsert}
use bx_ssh.Persistence.Table.Laws.{any-append}
use bx_ssh.Persistence.Table.Columns.{map-update_where}

abbrev pub Distinct : List Text → Type 0
Distinct ids = has_repetition ids ≡ false

Distinct-append :
    (xs : List Text) (x : Text) → contains x xs ≡ false → Distinct xs → Distinct (xs ++ (x ∷ []))
unfolding has_repetition
Distinct-append [] x n d = refl
Distinct-append (y ∷ xs) x n d = ground (
  arith,
  Distinct-append xs x,
  any-append (text_eq y) xs (x ∷ []),
  text_eq_iff x y,
  text_eq_iff y x,
)

module _ {R : Type 0} (id_of : R → Text) where
  map-append : (xs ys : List R) → map id_of (xs ++ ys) ≡ map id_of xs ++ map id_of ys
  map-append [] ys = refl
  map-append (x ∷ xs) ys = ap (◌∷◌ (id_of x)) (map-append xs ys)

  not_contained :
      (id : Text) (rows : List R)
      → any (λ r. text_eq (id_of r) id) rows ≡ false
      → contains id (map id_of rows) ≡ false
  not_contained id [] h = refl
  not_contained id (r ∷ rows) h =
      ground (arith, not_contained id rows, text_eq_iff (id_of r) id, text_eq_iff id (id_of r))

  module _ (id : Text) (f : R → R) (new : R) (keeps : (r : R) → id_of (f r) ≡ id_of r)
      (named : id_of new ≡ id) where
    pub upsert-Distinct :
        (rows : List R)
        → Distinct (map id_of rows)
        → Distinct (map id_of (upsert (λ r. text_eq (id_of r) id) f new rows))
    unfolding upsert
    upsert-Distinct rows d = elim (Bool-cases (any (λ r. text_eq (id_of r) id) rows)) [
      | inl e ↦ rw e (subst Distinct (sym (map-update_where id_of _ f rows keeps)) d)
      | inr e ↦ rw e (
          subst Distinct (sym (map-append rows (new ∷ [])))
            (rw named (Distinct-append (map id_of rows) id (not_contained id rows e) d)))
    ]

    pub upsert-contains :
        (x : Text) (rows : List R)
        → contains x (map id_of rows) ≡ true
        → contains x (map id_of (upsert (λ r. text_eq (id_of r) id) f new rows)) ≡ true
    unfolding upsert
    upsert-contains x rows h = elim (Bool-cases (any (λ r. text_eq (id_of r) id) rows)) [
      | inl e ↦ rw e (rw (map-update_where id_of (λ r. text_eq (id_of r) id) f rows keeps) h)
      | inr e ↦ rw e (
          rw (map-append rows (new ∷ []))
            (rw (any-append (text_eq x) (map id_of rows) (id_of new ∷ []), h) refl))
    ]

  contains-delete_where :
      (q : R → Bool) (x : Text) (rows : List R)
      → contains x (map id_of rows) ≡ false
      → contains x (map id_of (delete_where q rows)) ≡ false
  unfolding delete_where
  contains-delete_where q x [] h = refl
  contains-delete_where q x (r ∷ rows) h = ground (arith, contains-delete_where q x rows)

  pub delete_where-Distinct :
      (q : R → Bool) (rows : List R)
      → Distinct (map id_of rows)
      → Distinct (map id_of (delete_where q rows))
  unfolding delete_where has_repetition
  delete_where-Distinct q [] d = refl
  delete_where-Distinct q (r ∷ rows) d =
      ground (arith, delete_where-Distinct q rows, contains-delete_where q (id_of r) rows)
