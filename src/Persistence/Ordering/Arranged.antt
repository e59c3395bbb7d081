-- ===== src/Persistence/Ordering/Arranged.antt =====
-- What an ordering makes of a table: the rows of the request in their places, and nothing else.
use bx_ssh.Common.{
  ℕ, suc, ◌≡◌, inl, inr, refl, sym, subst, ◌∙◌, Bool, true, false, ◌&&◌, List, [], ◌∷◌, map, All,
  arith, length, Bool-cases, if◌then◌else◌,
}
use bx_ssh.Common.Text.{Text, text_eq}
use bx_ssh.Common.Text.Sets.{contains, has_repetition, contains_all}
use bx_ssh.Persistence.Integers.{ℤ, pos}
use bx_ssh.Persistence.Table.{update_where, select_where}
use bx_ssh.Persistence.Table.Laws.{All-weaken, select_where-All}
use bx_ssh.Persistence.Table.Columns.{map-All}
use bx_ssh.Persistence.Ordering.{repeats_or_blank}
use bx_ssh.Persistence.Ordering.Places.{
  positions-Numbers, validate_order_ids-distinct, place_rows, IsPlacing, Pending, place_rows-Placed,
}
use bx_ssh.Persistence.Ordering.Reordered.{position_in}

module _ {R A : Type 0} (g : R → A) (q : R → Bool) (f : R → R) where
  map-update_matched :
      (rs : List R)
      → ((r : R) → q r ≡ true → g (f r) ≡ g r)
      → map g (update_where q f rs) ≡ map g rs
  unfolding update_where
  map-update_matched [] k = refl
  map-update_matched (r ∷ rs) k = elim (Bool-cases (q r)) [
    | inl e ↦ rw (e, k r e, map-update_matched rs k) refl
    | inr e ↦ rw (e, map-update_matched rs k) refl
  ]

  select_where-update :
      (p : R → Bool) (rs : List R)
      → ((r : R) → g (f r) ≡ g r)
      → ((r : R) → p (f r) ≡ p r)
      → map g (select_where p (update_where q f rs)) ≡ map g (select_where p rs)
  unfolding update_where select_where
  select_where-update p [] k l = refl
  select_where-update p (r ∷ rs) k l = elim (Bool-cases (q r)) [
    | inl e ↦
        rw (e, l r)
          (elim (Bool-cases (p r)) [
            | inl d ↦ rw (d, k r, select_where-update p rs k l) refl
            | inr d ↦ rw (d, select_where-update p rs k l) refl
          ])
    | inr e ↦ rw e (elim (Bool-cases (p r)) [
      | inl d ↦ rw (d, select_where-update p rs k l) refl
      | inr d ↦ rw (d, select_where-update p rs k l) refl
    ])
  ]

module _ {R : Type 0} (id_of : R → Text) (order : R → ℤ) (listed : R → Bool) (blank : R → R) where
  -- A listed row without the columns that an ordering writes, and any other row in full.
  abbrev pub unplaced : R → R
  unplaced r = if listed r then blank r else r

  -- The listed rows are those of the request, each at the position of its id; of these nothing but
  -- the columns of the ordering has changed, of the others nothing at all, and no row is lost.
  pub record IsOrdered (ids : List Text) (before after : List R) : Type 0 where
    pub placed : All (λ r. listed r ≡ true → order r ≡ position_in ids (id_of r)) after
    pub rest : map unplaced after ≡ map unplaced before
    pub listing : map id_of (select_where listed after) ≡ map id_of (select_where listed before)
    pub known : All (λ r. listed r ≡ true → contains (id_of r) ids ≡ true) after
    pub complete :
        has_repetition (map id_of (select_where listed after)) ≡ false
        → (v : Text) → contains v ids ≡ true
        → contains v (map id_of (select_where listed after)) ≡ true

  module _ (put : ℤ → R → R) (placing : IsPlacing id_of order listed blank put) where
    put-unplaced :
        (p : ℤ) (x : Text) (r : R)
        → (text_eq (id_of r) x && listed r) ≡ true
        → unplaced (put p r) ≡ unplaced r
    put-unplaced p x r m =
        let l : listed r ≡ true = ground arith in
        rw (placing.keeps_listed p r) (rw l (placing.keeps_rest p r))

    map-place_rows :
        (i : ℕ) (ids : List Text) (rows : List R)
        → map unplaced (place_rows id_of order listed blank put i ids rows) ≡ map unplaced rows
    unfolding place_rows
    map-place_rows i [] rows = refl
    map-place_rows i (x ∷ ids) rows =
        map-place_rows (suc i) ids _
        ∙ map-update_matched unplaced (λ r. text_eq (id_of r) x && listed r) (put (pos i)) rows
            (put-unplaced (pos i) x)

    listed-place_rows :
        (i : ℕ) (ids : List Text) (rows : List R)
        → map id_of (select_where listed (place_rows id_of order listed blank put i ids rows))
          ≡ map id_of (select_where listed rows)
    unfolding place_rows
    listed-place_rows i [] rows = refl
    listed-place_rows i (x ∷ ids) rows =
        listed-place_rows (suc i) ids _
        ∙ select_where-update id_of (λ r. text_eq (id_of r) x && listed r) (put (pos i)) listed rows
            (placing.keeps_id (pos i)) (placing.keeps_listed (pos i))

    -- The listed rows of a table whose listed ids are those of the request.
    listed-known :
        (ids : List Text) (rows : List R)
        → All (λ s. contains s ids ≡ true) (map id_of (select_where listed rows))
        → All (λ r. listed r ≡ true → contains (id_of r) ids ≡ true) rows
    listed-known ids rows h =
        select_where-All (λ r. contains (id_of r) ids ≡ true) listed rows
          (map-All id_of (λ s. contains s ids ≡ true) (select_where listed rows) h)

    pub place_rows-IsOrdered :
        (ids : List Text) (rows : List R)
        → repeats_or_blank [] ids ≡ false
        → (length (map id_of (select_where listed rows)) ≡ length ids)
          × All (λ s. contains s ids ≡ true) (map id_of (select_where listed rows))
        → IsOrdered ids rows (place_rows id_of order listed blank put 0 ids rows)
    place_rows-IsOrdered ids rows d c =
        let same = listed-place_rows 0 ids rows in
        let (l, h) =
          subst (λ found. (length found ≡ length ids) × All (λ s. contains s ids ≡ true) found)
            (sym same) c in
        record {
          placed =
              place_rows-Placed id_of order listed blank put placing (position_in ids) 0 ids rows
                (positions-Numbers ids (validate_order_ids-distinct ids d))
                (All-weaken (λ r. listed r ≡ true → contains (id_of r) ids ≡ true)
                  (Pending id_of order listed blank put (position_in ids) ids) rows
                  (λ r k t. inl (k t)) (listed-known ids rows c.1));
          rest = map-place_rows 0 ids rows;
          listing = same;
          known = listed-known ids (place_rows id_of order listed blank put 0 ids rows) h;
          complete = λ u v k. contains_all _ ids u l h v k;
        }
