-- ===== src/Persistence/Groups/Deletion.antt =====
-- What is left after a group was deleted.
use bx_ssh.Common.{
  ℕ, ◌≡◌, ◌⊎◌, inl, inr, refl, sym, subst, ap, ◌∙◌, Bool, false, map, ok, err, any, All, arith,
}
use bx_ssh.Common.Text.{Text, codes}
use bx_ssh.Persistence.Error.{PersistenceError}
use bx_ssh.Persistence.Integers.{ℤ}
use bx_ssh.Persistence.Table.{update_where}
use bx_ssh.Persistence.Table.Columns.{map-update_where, All-updated, any-delete_where, All-deleted}
use bx_ssh.Persistence.Schema.{Database}
use bx_ssh.Persistence.Driver.{Engine, step}
use bx_ssh.Persistence.Driver.Cases.{guarded_cases, transact_cases}
use bx_ssh.Persistence.Groups.{
  check_id, group_is, in_group, ungroup, delete_group_rows, delete_group_body,
  delete_group_transaction, delete_group,
}

-- Nothing refers to the group any more, and every connection is still there.
pub record IsDissolved (id : Text) (before after : Database) : Type 0 where
  pub group_gone : any (group_is id) after.connection_groups ≡ false
  pub connections_free : All (λ row. in_group id row.group_id ≡ false) after.connections
  pub settings_gone : All (λ row. in_group id row.group_id ≡ false) after.settings
  pub connections_kept :
      map (λ row. row.id) after.connections ≡ map (λ row. row.id) before.connections

delete_group_rows-IsDissolved :
    (id : Text) (now : ℤ) (db : Database)
    → IsDissolved id db (
        delete_group_rows id (record db {
          connections = update_where (λ row. in_group id row.group_id) (ungroup now) db.connections;
        }))
unfolding delete_group_rows ungroup
delete_group_rows-IsDissolved id now db = record {
  group_gone = any-delete_where (group_is id) db.connection_groups;
  connections_free =
      All-updated (λ row. in_group id row.group_id ≡ false) (λ row. in_group id row.group_id) _ _
        (λ row e. refl) (λ row e. e);
  settings_gone = All-deleted (λ row. in_group id row.group_id) db.settings;
  connections_kept =
      map-update_where (λ row. row.id) (λ row. in_group id row.group_id) _ _ (λ row. refl)
      ∙ map-update_where (λ row. row.id) (λ row. in_group id row.group_id) _ db.connections
          (λ row. refl);
}

module _ {E : Type 0} (engine : Engine E) where
  delete_group_body-IsDissolved :
      (id : Text) (now : ℤ) (db : Database) (after : Database × Bool)
      → delete_group_body engine id now db ≡ ok after
      → IsDissolved id db after.0 × (after.1 ≡ any (group_is id) db.connection_groups)
  unfolding delete_group_body step
  delete_group_body-IsDissolved id now db after h =
      let e : after.0
          ≡ delete_group_rows id (record db {
            connections =
                update_where (λ row. in_group id row.group_id) (ungroup now) db.connections;
          }) =
        ground arith in
      (rw e (delete_group_rows-IsDissolved id now db), ground arith)

  -- A call of delete_group fails and changes nothing, or it reports whether the group was there,
  -- and leaves no such group, no connection and no setting that refers to it, and every connection.
  pub delete_group_lem :
      (id : Text) (now_ms : ℕ) (db : Database)
      → ((e : PersistenceError E) × (delete_group engine id now_ms db ≡ (db, err e)))
        ⊎ (IsDissolved id db (delete_group engine id now_ms db).0
            × ((delete_group engine id now_ms db).1 ≡ ok (any (group_is id) db.connection_groups)))
  unfolding delete_group delete_group_transaction
  delete_group_lem id now_ms db =
      elim (guarded_cases db (check_id engine id now_ms) (delete_group_transaction engine id)) [
        | inl (x, e) ↦ inl (x, e)
        | inr (now, v, e) ↦
            elim (transact_cases engine (codes "start a group deletion transaction")
              (delete_group_body engine id now) (codes "commit a group deletion transaction") db) [
                | inl (x, f) ↦ inl (x, e ∙ f)
                | inr (after, b, f) ↦
                    let (d, c) = delete_group_body-IsDissolved id now db after b in
                    inr (
                      subst (λ o. IsDissolved id db o) (sym (ap (λ o. o.0) (e ∙ f))) d,
                      ap (λ o. o.1) (e ∙ f) ∙ ap ok c,
                    )
              ]
      ]
