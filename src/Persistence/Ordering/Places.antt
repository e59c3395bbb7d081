-- ===== src/Persistence/Ordering/Places.antt =====
-- The loop of an ordering, row by row: each row gets the position of its id in the request.
use bx_ssh.Common.{
  ℕ, suc, ◌+◌, ◌≡◌, ◌⊎◌, inl, inr, refl, sym, ap, subst, ◌∙◌, Bool, true, false, ◌&&◌, List, [],
  ◌∷◌, All, arith, Bool-cases,
}
use bx_ssh.Common.Text.{Text, text_eq, text_eq_iff, text_eq_refl}
use bx_ssh.Common.Text.Sets.{contains, has_repetition, index_of}
use bx_ssh.Persistence.Integers.{ℤ, pos}
use bx_ssh.Persistence.Table.{update_where}
use bx_ssh.Persistence.Table.Laws.{All-weaken}
use bx_ssh.Persistence.Ordering.{repeats_or_blank}

-- An assignment of positions that numbers a list from i on.
abbrev pub Numbers : (Text → ℤ) → ℕ → List Text → Type 0
Numbers f i [] = Unit
Numbers f i (x ∷ ids) = (f x ≡ pos i) × Numbers f (suc i) ids

Numbers-agree :
    (f g : Text → ℤ) (x : Text) (i : ℕ) (ids : List Text)
    → contains x ids ≡ false
    → ((y : Text) → text_eq y x ≡ false → f y ≡ g y)
    → Numbers f i ids
    → Numbers g i ids
Numbers-agree f g x i [] n k h = tt
Numbers-agree f g x i (y ∷ ids) n k h = (
  sym (k y (ground (arith, text_eq_iff x y, text_eq_iff y x))) ∙ h.0,
  Numbers-agree f g x (suc i) ids (ground arith) k h.1,
)

-- The positions of a list without repetitions number it.
index_of-Numbers :
    (i : ℕ) (ids : List Text)
    → has_repetition ids ≡ false
    → Numbers (λ x. pos (i + index_of x ids)) i ids
unfolding has_repetition
index_of-Numbers i [] h = tt
index_of-Numbers i (x ∷ ids) h = (
  rw (text_eq_refl x) (ap pos (omega arith)),
  Numbers-agree (λ y. pos (suc i + index_of y ids)) _ x (suc i) ids (ground arith)
      (λ y e. rw e (ap pos (omega arith))) (index_of-Numbers (suc i) ids (ground arith)),
)

pub positions-Numbers :
    (ids : List Text) → has_repetition ids ≡ false → Numbers (λ x. pos (index_of x ids)) 0 ids
positions-Numbers ids h =
    subst (λ f. Numbers f 0 ids) (λ i x. pos (unshift (index_of x ids) i))
      (index_of-Numbers 0 ids h)
  where
    unshift : (n : ℕ) → 0 + n ≡ n
    unshift n = omega arith

distinct_from :
    (x : Text) (ids seen : List Text)
    → contains x seen ≡ false
    → All (λ s. contains s ids ≡ false) seen
    → All (λ s. contains s (x ∷ ids) ≡ false) seen
distinct_from x ids [] n h = tt
distinct_from x ids (s ∷ seen) n h = (
  ground (arith, text_eq_iff s x, text_eq_iff x s, h.0),
  distinct_from x ids seen (ground arith) h.1,
)

repeats-distinct :
    (seen ids : List Text)
    → repeats_or_blank seen ids ≡ false
    → (has_repetition ids ≡ false) × All (λ s. contains s ids ≡ false) seen
unfolding repeats_or_blank has_repetition
repeats-distinct [] [] h = (refl, tt)
repeats-distinct (s ∷ seen) [] h = (refl, (refl, (repeats-distinct seen [] refl).1))
repeats-distinct seen (x ∷ ids) h =
    let (d, a) = repeats-distinct (x ∷ seen) ids (ground arith) in
    (ground (arith, d, a.0), distinct_from x ids seen (ground arith) a.1)

-- The ids that `validate_order_ids` lets through have no repetition.
pub validate_order_ids-distinct :
    (ids : List Text) → repeats_or_blank [] ids ≡ false → has_repetition ids ≡ false
validate_order_ids-distinct ids h = (repeats-distinct [] ids h).0

module _ {R : Type 0} (id_of : R → Text) (order : R → ℤ) (listed : R → Bool) (blank : R → R)
    (put : ℤ → R → R) where
  -- The loop's updates, as they change one table.
  unfoldable pub place_rows : ℕ → List Text → List R → List R
  unfolding update_where
  place_rows i [] rows = rows
  place_rows i (x ∷ ids) rows =
      place_rows (suc i) ids
        (update_where (λ r. text_eq (id_of r) x && listed r) (put (pos i)) rows)

  -- Updates of the position, and of columns that are blank without it.
  pub record IsPlacing : Type 0 where
    pub keeps_id : (p : ℤ) (r : R) → id_of (put p r) ≡ id_of r
    pub keeps_listed : (p : ℤ) (r : R) → listed (put p r) ≡ listed r
    pub sets_order : (p : ℤ) (r : R) → order (put p r) ≡ p
    pub keeps_rest : (p : ℤ) (r : R) → blank (put p r) ≡ blank r

  abbrev pub Pending : (Text → ℤ) → List Text → R → Type 0
  Pending f ids r = listed r ≡ true → (contains (id_of r) ids ≡ true) ⊎ (order r ≡ f (id_of r))

  abbrev pub Placed : (Text → ℤ) → R → Type 0
  Placed f r = listed r ≡ true → order r ≡ f (id_of r)

  module _ (placing : IsPlacing) (f : Text → ℤ) where
    updated-Pending :
        (i : ℕ) (x : Text) (ids : List Text) (r : R)
        → f x ≡ pos i
        → text_eq (id_of r) x && listed r ≡ true
        → Pending f ids (put (pos i) r)
    updated-Pending i x ids r e m l =
        let same : id_of r ≡ x = (text_eq_iff (id_of r) x).0 (ground arith) in
        inr (placing.sets_order (pos i) r ∙ sym e ∙ ap f (sym (placing.keeps_id (pos i) r ∙ same)))

    kept-Pending :
        (x : Text) (ids : List Text) (r : R)
        → text_eq (id_of r) x && listed r ≡ false
        → Pending f (x ∷ ids) r
        → Pending f ids r
    kept-Pending x ids r m p l = elim (p l) [ inl c ↦ inl (ground arith) | inr o ↦ inr o ]

    step-Pending :
        (i : ℕ) (x : Text) (ids : List Text) (rows : List R)
        → f x ≡ pos i
        → All (Pending f (x ∷ ids)) rows
        → All
            (Pending f ids)
            (update_where (λ r. text_eq (id_of r) x && listed r) (put (pos i)) rows)
    unfolding update_where
    step-Pending i x ids [] e h = tt
    step-Pending i x ids (r ∷ rows) e h = elim (Bool-cases (text_eq (id_of r) x && listed r)) [
      | inl m ↦ rw m (updated-Pending i x ids r e m, step-Pending i x ids rows e h.1)
      | inr m ↦ rw m (kept-Pending x ids r m h.0, step-Pending i x ids rows e h.1)
    ]

    pub place_rows-Placed :
        (i : ℕ) (ids : List Text) (rows : List R)
        → Numbers f i ids
        → All (Pending f ids) rows
        → All (Placed f) (place_rows i ids rows)
    unfolding place_rows
    place_rows-Placed i [] rows n h =
        All-weaken (Pending f []) (Placed f) rows
          (λ r p l. elim (p l) [ inl c ↦ absurd (cc c) | inr o ↦ o ]) h
    place_rows-Placed i (x ∷ ids) rows n h =
        place_rows-Placed (suc i) ids _ n.1 (step-Pending i x ids rows n.0 h)
