-- ===== src/Persistence/Ordering/Orders.antt =====
-- The orders of groups and of connections that `reorder_groups` and `reorder_connections` leave.
use bx_ssh.Common.{
  ℕ, suc, ◌≡◌, ◌⊎◌, inl, inr, refl, sym, ap, subst, ◌∙◌, Bool, true, false, ◌&&◌, Option, List, [],
  ◌∷◌, map, ok, err, arith,
}
use bx_ssh.Common.Text.{Text, codes, text_eq}
use bx_ssh.Persistence.Error.{PersistenceError}
use bx_ssh.Persistence.Integers.{ℤ, pos}
use bx_ssh.Persistence.Table.{update_where, select_where}
use bx_ssh.Persistence.Schema.{GroupRow, ConnectionRow, Database}
use bx_ssh.Persistence.Driver.{Engine}
use bx_ssh.Persistence.Driver.Cases.{guarded_cases, transact_cases}
use bx_ssh.Persistence.Ordering.{
  repeats_or_blank, listed_in, place_group, place_connection, place_group_rows,
  place_connection_rows, validate_order_ids, stored_groups, stored_connections, reorder_body,
  check_order, check_group_order, reorder_groups_transaction, reorder_groups,
  reorder_connections_transaction, reorder_connections,
}
use bx_ssh.Persistence.Ordering.Places.{place_rows, IsPlacing}
use bx_ssh.Persistence.Ordering.Arranged.{IsOrdered, place_rows-IsOrdered}
use bx_ssh.Persistence.Ordering.Reordered.{place_each, complete_order, reorder_body-ok}

module _ {R : Type 0} where
  update_where-true :
      (p : R → Bool) (f : R → R) (rows : List R)
      → update_where p f rows ≡ update_where (λ r. p r && true) f rows
  unfolding update_where
  update_where-true p f [] = refl
  update_where-true p f (r ∷ rows) = ground (arith, update_where-true p f rows)

  select_where-true : (rows : List R) → select_where (λ r. true) rows ≡ rows
  unfolding select_where
  select_where-true [] = refl
  select_where-true (r ∷ rows) = ap (◌∷◌ r) (select_where-true rows)

-- The columns that an ordering writes, blanked.
abbrev pub blank_group : GroupRow → GroupRow
blank_group row = record row { sort_order = pos 0; updated_at = pos 0; revision = pos 0 }

abbrev pub blank_connection : ConnectionRow → ConnectionRow
blank_connection row = record row { sort_order = pos 0; updated_at = pos 0; revision = pos 0 }

place_group-IsPlacing :
    (now : ℤ)
    → IsPlacing (λ row. row.id) (λ row. row.sort_order) (λ _. true) blank_group (place_group now)
unfolding place_group
place_group-IsPlacing now = record {
  keeps_id = λ p r. refl;
  keeps_listed = λ p r. refl;
  sets_order = λ p r. refl;
  keeps_rest = λ p r. refl;
}

place_connection-IsPlacing :
    (group : Option Text) (now : ℤ)
    → IsPlacing
        (λ row. row.id)
        (λ row. row.sort_order)
        (listed_in group)
        blank_connection
        (place_connection now)
unfolding place_connection
place_connection-IsPlacing group now = record {
  keeps_id = λ p r. refl;
  keeps_listed = λ p r. refl;
  sets_order = λ p r. refl;
  keeps_rest = λ p r. refl;
}

place_each_groups :
    (now : ℤ) (i : ℕ) (ids : List Text) (db : Database)
    → (place_each (place_group_rows now) i ids db).connection_groups
      ≡ place_rows
          (λ row. row.id)
          (λ row. row.sort_order)
          (λ _. true)
          blank_group
          (place_group now)
          i
          ids
          db.connection_groups
unfolding place_rows
place_each_groups now i [] db = refl
place_each_groups now i (id ∷ ids) db =
    rw
      (sym (
        update_where-true (λ row. text_eq row.id id) (place_group now (pos i))
          db.connection_groups))
      (place_each_groups now (suc i) ids (place_group_rows now id (pos i) db))

place_each_connections :
    (group : Option Text) (now : ℤ) (i : ℕ) (ids : List Text) (db : Database)
    → (place_each (place_connection_rows group now) i ids db).connections
      ≡ place_rows
          (λ row. row.id)
          (λ row. row.sort_order)
          (listed_in group)
          blank_connection
          (place_connection now)
          i
          ids
          db.connections
unfolding place_rows
place_each_connections group now i [] db = refl
place_each_connections group now i (id ∷ ids) db =
    place_each_connections group now (suc i) ids (place_connection_rows group now id (pos i) db)

module _ {E : Type 0} (engine : Engine E) where
  checked-distinct :
      (ids : List Text) (now_ms : ℕ) (now : ℤ)
      → check_order engine ids now_ms ≡ ok now
      → repeats_or_blank [] ids ≡ false
  unfolding check_order validate_order_ids
  checked-distinct ids now_ms now h = ground arith

  -- The tables that the two bodies make.
  groups-IsOrdered :
      (ids : List Text) (now : ℤ) (db : Database) (after : Database × Unit {0})
      → repeats_or_blank [] ids ≡ false
      → reorder_body engine
          (codes "query connection groups for ordering")
          (codes "reorder connection groups")
          stored_groups
          (place_group_rows now)
          ids
          db
        ≡ ok after
      → IsOrdered
          (λ row. row.id)
          (λ row. row.sort_order)
          (λ _. true)
          blank_group
          ids
          db.connection_groups
          after.0.connection_groups
  groups-IsOrdered ids now db after d b =
      let (v, p) =
        reorder_body-ok engine (codes "query connection groups for ordering")
          (codes "reorder connection groups") stored_groups (place_group_rows now) ids db after b in
      let c = complete_order (map (λ row. row.id) db.connection_groups) ids v in
      subst
        (IsOrdered (λ row. row.id) (λ row. row.sort_order) (λ _. true) blank_group ids
          db.connection_groups)
        (sym (ap (λ o. o.connection_groups) p ∙ place_each_groups now 0 ids db))
        (place_rows-IsOrdered (λ row. row.id) (λ row. row.sort_order) (λ _. true) blank_group
          (place_group now) (place_group-IsPlacing now) ids db.connection_groups d
          (rw (select_where-true db.connection_groups) c))

  connections-IsOrdered :
      (group : Option Text) (ids : List Text) (now : ℤ) (db : Database)
      (after : Database × Unit {0})
      → repeats_or_blank [] ids ≡ false
      → reorder_body engine
          (codes "query connections for ordering")
          (codes "reorder connections")
          (stored_connections group)
          (place_connection_rows group now)
          ids
          db
        ≡ ok after
      → IsOrdered
          (λ row. row.id)
          (λ row. row.sort_order)
          (listed_in group)
          blank_connection
          ids
          db.connections
          after.0.connections
  connections-IsOrdered group ids now db after d b =
      let (v, p) =
        reorder_body-ok engine (codes "query connections for ordering")
          (codes "reorder connections") (stored_connections group) (place_connection_rows group now)
          ids db after b in
      let c =
        complete_order (map (λ row. row.id) (select_where (listed_in group) db.connections)) ids
          v in
      subst
        (IsOrdered (λ row. row.id) (λ row. row.sort_order) (listed_in group) blank_connection ids
          db.connections)
        (sym (ap (λ o. o.connections) p ∙ place_each_connections group now 0 ids db))
        (place_rows-IsOrdered (λ row. row.id) (λ row. row.sort_order) (listed_in group)
          blank_connection (place_connection now) (place_connection-IsPlacing group now) ids
          db.connections d c)

  -- A call of reorder_groups fails and changes nothing, or it succeeds: the groups are then those
  -- of the request, each with the position of its id as its order, and only the order, the time and
  -- the revision of a group have changed.
  pub reorder_groups_lem :
      (ids : List Text) (now_ms : ℕ) (db : Database)
      → ((e : PersistenceError E) × (reorder_groups engine ids now_ms db ≡ (db, err e)))
        ⊎ (((reorder_groups engine ids now_ms db).1 ≡ ok tt)
            × IsOrdered
                (λ row. row.id)
                (λ row. row.sort_order)
                (λ _. true)
                blank_group
                ids
                db.connection_groups
                (reorder_groups engine ids now_ms db).0.connection_groups)
  unfolding reorder_groups reorder_groups_transaction
  reorder_groups_lem ids now_ms db =
      elim (guarded_cases db (check_order engine ids now_ms)
        (reorder_groups_transaction engine ids)) [
          | inl (x, e) ↦ inl (x, e)
          | inr (now, v, e) ↦
              elim (transact_cases engine (codes "start a group ordering transaction")
                (reorder_body engine (codes "query connection groups for ordering")
                  (codes "reorder connection groups") stored_groups (place_group_rows now) ids)
                (codes "commit a group ordering transaction") db) [
                  | inl (x, f) ↦ inl (x, e ∙ f)
                  | inr (after, b, f) ↦ inr (
                    ap (λ o. o.1) (e ∙ f),
                    subst
                        (λ o.
                          IsOrdered (λ row. row.id) (λ row. row.sort_order) (λ _. true) blank_group
                            ids db.connection_groups o.0.connection_groups)
                        (sym (e ∙ f))
                        (groups-IsOrdered ids now db after (checked-distinct ids now_ms now v) b),
                  )
                ]
        ]

  -- A call of reorder_connections fails and changes nothing, or it succeeds: the connections of the
  -- group that are not deleted are then those of the request, each with the position of its id as
  -- its order (and every id of the request is among them, where these ids are distinct, as in a
  -- primary key). Only the order, the time and the revision of these connections have changed, and
  -- nothing of the others.
  pub reorder_connections_lem :
      (group : Option Text) (ids : List Text) (now_ms : ℕ) (db : Database)
      → ((e : PersistenceError E) × (reorder_connections engine group ids now_ms db ≡ (db, err e)))
        ⊎ (((reorder_connections engine group ids now_ms db).1 ≡ ok tt)
            × IsOrdered
                (λ row. row.id)
                (λ row. row.sort_order)
                (listed_in group)
                blank_connection
                ids
                db.connections
                (reorder_connections engine group ids now_ms db).0.connections)
  unfolding reorder_connections reorder_connections_transaction
  reorder_connections_lem group ids now_ms db =
      elim (guarded_cases db (check_group_order engine group ids now_ms)
        (reorder_connections_transaction engine group ids)) [
          | inl (x, e) ↦ inl (x, e)
          | inr (now, v, e) ↦
              elim (transact_cases engine (codes "start a connection ordering transaction")
                (reorder_body engine (codes "query connections for ordering")
                  (codes "reorder connections") (stored_connections group)
                  (place_connection_rows group now) ids)
                (codes "commit a connection ordering transaction") db) [
                  | inl (x, f) ↦ inl (x, e ∙ f)
                  | inr (after, b, f) ↦ inr (
                    ap (λ o. o.1) (e ∙ f),
                    subst
                        (λ o.
                          IsOrdered (λ row. row.id) (λ row. row.sort_order) (listed_in group)
                            blank_connection ids db.connections o.0.connections)
                        (sym (e ∙ f))
                        (connections-IsOrdered group ids now db after
                          (checked-distinct ids now_ms now
                            (unfold check_group_order in ground arith))
                          b),
                  )
                ]
        ]
