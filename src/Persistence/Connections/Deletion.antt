-- ===== src/Persistence/Connections/Deletion.antt =====
-- A deleted connection keeps its row, and is found no more.
use bx_ssh.Common.{
  ℕ, ◌≡◌, ◌⊎◌, inl, inr, refl, sym, ap, subst, ◌∙◌, Bool, false, Option, none, List, [], ◌∷◌, any,
  map, find, arith, ok, err,
}
use bx_ssh.Common.Text.{Text, codes}
use bx_ssh.Contracts.Connection.{is_blank}
use bx_ssh.Persistence.Error.{PersistenceError}
use bx_ssh.Persistence.Integers.{ℤ}
use bx_ssh.Persistence.Table.{update_where}
use bx_ssh.Persistence.Table.Columns.{map-update_where}
use bx_ssh.Persistence.Schema.{ConnectionRow, Database}
use bx_ssh.Persistence.Driver.{Engine, execute}
use bx_ssh.Persistence.Driver.Cases.{Healthy, call-Healthy, guarded_cases, execute_cases}
use bx_ssh.Persistence.Groups.{check_id}
use bx_ssh.Persistence.Connections.{is_listed, deleted_connection, delete_connection}
use bx_ssh.Persistence.Connections.Rows.{read_first, get_connection}

-- No listed row has the id, no row is lost, and a row that was deleted tells when.
pub record IsHidden (id : Text) (before after : Database) : Type 0 where
  pub hidden : any (is_listed id) after.connections ≡ false
  pub rows_kept : map (λ row. row.id) after.connections ≡ map (λ row. row.id) before.connections

none_listed :
    (id : Text) (now : ℤ) (rows : List ConnectionRow)
    → any (is_listed id) (update_where (is_listed id) (deleted_connection now) rows) ≡ false
unfolding update_where deleted_connection
none_listed id now [] = refl
none_listed id now (r ∷ rows) = ground (arith, none_listed id now rows)

find-none : {R : Type 0} (q : R → Bool) (rs : List R) → any q rs ≡ false → find q rs ≡ none
find-none q [] h = refl
find-none q (r ∷ rs) h = ground (arith, find-none q rs)

module _ {E : Type 0} (engine : Engine E) where
  -- A call of delete_connection fails and changes nothing, or it reports whether there was a
  -- connection of this id, which is listed no more, while every row is kept.
  pub delete_connection_lem :
      (id : Text) (now_ms : ℕ) (db : Database)
      → ((e : PersistenceError E) × (delete_connection engine id now_ms db ≡ (db, err e)))
        ⊎ (IsHidden id db (delete_connection engine id now_ms db).0
            × ((delete_connection engine id now_ms db).1 ≡ ok (any (is_listed id) db.connections)))
  unfolding delete_connection
  delete_connection_lem id now_ms db =
      let effect : ℤ → Database → Database × Bool = (λ now work. (
        record work {
          connections = update_where (is_listed id) (deleted_connection now) work.connections;
        },
        any (is_listed id) work.connections,
      )) in
      elim (guarded_cases db (check_id engine id now_ms)
        (λ now. execute engine (codes "delete a connection") (effect now))) [
          | inl (x, e) ↦ inl (x, e)
          | inr (now, v, e) ↦
              elim (execute_cases engine (codes "delete a connection") (effect now) db) [
                | inl (x, f) ↦ inl (x, e ∙ f)
                | inr f ↦ inr (
                  subst (λ o. IsHidden id db o.0) (sym (e ∙ f))
                      (record {
                        hidden = none_listed id now db.connections;
                        rows_kept =
                            map-update_where (λ row. row.id) (is_listed id) (deleted_connection now)
                              db.connections (λ row. unfold deleted_connection in refl);
                      }),
                  ap (λ o. o.1) (e ∙ f),
                )
              ]
        ]

  -- Where no connection of the id is listed, none is found, and no login is recorded.
  pub hidden-not_found :
      (parse_json : Text → Option ℕ) (id : Text) (db : Database)
      → Healthy engine
      → is_blank id ≡ false
      → any (is_listed id) db.connections ≡ false
      → get_connection engine parse_json id db ≡ ok none
  unfolding get_connection
  hidden-not_found parse_json id db healthy b h = rw b (
      rw (call-Healthy engine healthy (codes "prepare a connection query") db) (
        rw (call-Healthy engine healthy (codes "query a connection") db)
          (rw (find-none (is_listed id) db.connections h) (unfold read_first in refl))))

  -- After a deletion that succeeds nothing is found under the id, if the engine refuses nothing.
  pub delete_connection-gone :
      (parse_json : Text → Option ℕ) (id : Text) (now_ms : ℕ) (db : Database) (was : Bool)
      → Healthy engine
      → is_blank id ≡ false
      → (delete_connection engine id now_ms db).1 ≡ ok was
      → get_connection engine parse_json id (delete_connection engine id now_ms db).0 ≡ ok none
  delete_connection-gone parse_json id now_ms db was healthy b h =
      elim (delete_connection_lem id now_ms db) [
        | inl (x, e) ↦ absurd (let z = rw e at h in cc z)
        | inr (k, r) ↦ hidden-not_found parse_json id _ healthy b k.hidden
      ]
