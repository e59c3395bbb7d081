-- ===== src/Persistence/Connections/Saving.antt =====
-- The row that `save_connection_record` writes.
use bx_ssh.Common.{
  ℕ, suc, ◌<◌, ◌≡◌, inl, inr, refl, true, ◌&&◌, some, List, any, All, find, arith, Bool-cases,
  is_none,
}
use bx_ssh.Common.Text.{text_eq_iff, text_eq_refl}
use bx_ssh.Contracts.Connection.{ConnectionConfig}
use bx_ssh.Persistence.Integers.{ℤ, pos, increment}
use bx_ssh.Persistence.Table.Laws.{All-weaken, any-upsert}
use bx_ssh.Persistence.Table.Changes.{All-saved}
use bx_ssh.Persistence.Schema.{ConnectionRow}
use bx_ssh.Persistence.Ordering.{is_same}
use bx_ssh.Persistence.Connections.{
  next_sort_order, inserted_connection, updated_connection, connection_is, is_listed,
  save_connection_rows,
}
use bx_ssh.Persistence.Connections.Rows.{from_row}
use bx_ssh.Persistence.Connections.Reading.{Holds, IsReadable, next_sort_order-bound, find-All}

module _ (config : ConnectionConfig) (now : ℤ) where
  inserted-Holds : (place : ℤ) → Holds config (inserted_connection config place now)
  unfolding inserted_connection from_row
  inserted-Holds place = record {
    config_stored = refl;
    method_stored = refl;
    port_stored = refl;
    undeleted = refl;
  }

  updated-Holds :
      (place : ℤ) (row : ConnectionRow)
      → connection_is config.id row ≡ true
      → Holds config (updated_connection config place now row)
  unfolding updated_connection from_row
  updated-Holds place row h = record {
    config_stored = λ i. record config { id = (text_eq_iff row.id config.id).0 h i };
    method_stored = refl;
    port_stored = refl;
    undeleted = refl;
  }

  abbrev Saved : ℕ → ConnectionRow → Type 0
  Saved bound row = connection_is config.id row ≡ true → Holds config row × IsReadable bound row

  inserted-IsReadable :
      (bound n : ℕ) (place : ℤ)
      → place ≡ pos n
      → n < bound
      → IsReadable bound (inserted_connection config place now)
  unfolding inserted_connection
  inserted-IsReadable bound n place e l = record {
    favorite = (0, refl, omega arith);
    place = (n, e, l);
    version = (1, refl);
  }

  updated-IsReadable :
      (bound n : ℕ) (place : ℤ) (row : ConnectionRow)
      → place ≡ pos n
      → n < suc bound
      → IsReadable bound row
      → IsReadable (suc bound) (updated_connection config place now row)
  unfolding updated_connection increment
  updated-IsReadable bound n place row e l r =
      let (m, p, k) = r.place in
      let (w, v) = r.version in
      record {
        favorite = r.favorite;
        place = elim (Bool-cases (is_same row.group_id config.group_id && is_none row.deleted_at)) [
          | inl b ↦ (m, rw b p, omega (arith, k))
          | inr b ↦ (n, rw b e, l)
        ];
        version = (suc w, rw v refl);
      }

  -- The rows of the id hold the configuration, and there is one that is not deleted.
  Saved-rows :
      (bound : ℕ) (rows : List ConnectionRow)
      → All (IsReadable bound) rows
      → All (Saved (suc bound)) (save_connection_rows config now rows)
        × (any (is_listed config.id) (save_connection_rows config now rows) ≡ true)
  unfolding save_connection_rows
  Saved-rows bound rows h =
      let (n, e, l) = next_sort_order-bound bound config.group_id rows h in
      let place = next_sort_order config.group_id rows in
      (
        All-saved (IsReadable bound) (Saved (suc bound)) (connection_is config.id)
            (updated_connection config place now)
            (λ r q k _. (updated-Holds place r q, updated-IsReadable bound n place r e l k))
            (λ r q _ t. absurd (cc (t, q))) (inserted_connection config place now) rows
            (λ _. (inserted-Holds place, inserted-IsReadable (suc bound) n place e l)) h,
        any-upsert (is_listed config.id) (connection_is config.id)
            (updated_connection config place now) (inserted_connection config place now) rows
            (λ r q. unfold updated_connection in ground arith)
            (unfold inserted_connection in ground (arith, text_eq_refl config.id)),
      )

  -- The row that is found under the id afterwards.
  pub save_connection_rows-finds :
      (bound : ℕ) (rows : List ConnectionRow)
      → All (IsReadable bound) rows
      → (row : ConnectionRow) × (find (is_listed config.id) (save_connection_rows config now rows)
          ≡ some row)
        × (Holds config row × IsReadable (suc bound) row)
  save_connection_rows-finds bound rows h =
      let (s, a) = Saved-rows bound rows h in
      find-All (λ r. Holds config r × IsReadable (suc bound) r) (is_listed config.id)
        (save_connection_rows config now rows)
        (All-weaken (Saved (suc bound)) _ _ (λ r k t. k (ground arith)) s) a
