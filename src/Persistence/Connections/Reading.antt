-- ===== src/Persistence/Connections/Reading.antt =====
-- A connection that is saved is read back as it was saved.
use bx_ssh.Common.{
  ℕ, suc, ◌<◌, ◌^◌, ◌≡◌, ◌⊎◌, inl, inr, refl, ap, ◌∙◌, Bool, true, not, Option, none, some, List,
  [], ◌∷◌, ok, any, All, find, arith, Bool-cases, leb, ◌==◌,
}
use bx_ssh.Common.Text.{Text, text_eq}
use bx_ssh.Contracts.Connection
use bx_ssh.Contracts.Connection.{
  ConnectionConfig, AuthMethod, database_value, from_database_value, is_blank,
}
use bx_ssh.Contracts.Connection.Stored.{from_database_value_iff}
use bx_ssh.Contracts.Group.{ConnectionListItem}
use bx_ssh.Persistence.Error.{Entity, connection, recent_connection}
use bx_ssh.Persistence.Integers.{
  pos, increment, at_most, stored_below, stored_u16, stored_u32, stored_u64, stored_bool,
}
use bx_ssh.Persistence.Table.{select_where}
use bx_ssh.Persistence.Table.Laws.{All-weaken, All-select_where}
use bx_ssh.Persistence.Schema.{ConnectionRow, RecentRow}
use bx_ssh.Persistence.Ordering.{listed_in}
use bx_ssh.Persistence.Connections.{max_sort_order, next_sort_order}
use bx_ssh.Persistence.Connections.Rows.{
  raw_config, last_connected, connection_count, from_row, stored_time, into_list_item,
}

-- The columns that a configuration is stored in.
pub record Holds (config : ConnectionConfig) (row : ConnectionRow) : Type 0 where
  pub config_stored : raw_config (from_row [] row) config.port config.auth_method ≡ config
  pub method_stored : row.auth_method ≡ database_value config.auth_method
  pub port_stored : row.port ≡ pos config.port
  pub undeleted : row.deleted_at ≡ none

-- The numbers of a row that the repository can read, the place below a bound.
pub record IsReadable (bound : ℕ) (row : ConnectionRow) : Type 0 where
  pub favorite : (n : ℕ) × (row.is_favorite ≡ pos n) × (n < 2)
  pub place : (n : ℕ) × (row.sort_order ≡ pos n) × (n < bound)
  pub version : (n : ℕ) × (row.revision ≡ pos n)

abbrev pub IsCounted : RecentRow → Type 0
IsCounted recent =
    ((n : ℕ) × (recent.last_connected_at ≡ pos n))
    × ((n : ℕ) × (recent.successful_connection_count ≡ pos n))

pub find-All {κ} :
    {R : Type 0} (P : R → Type κ) (q : R → Bool) (rs : List R)
    → All (λ r. q r ≡ true → P r) rs
    → any q rs ≡ true
    → (r : R) × (find q rs ≡ some r) × P r
find-All P q [] h a = absurd (cc a)
find-All P q (r ∷ rs) h a = elim (Bool-cases (q r)) [
  | inl e ↦ (r, rw e refl, h.0 e)
  | inr e ↦ let (s, f, p) = find-All P q rs h.1 (rw e at a) in (s, rw (e, f) refl, p)
]

module _ {E : Type 0} where
  stored_below-ok :
      (bound n : ℕ) (entity : Entity) → n < bound → stored_below {E = E} bound (pos n) entity ≡ ok n
  unfolding stored_below
  stored_below-ok bound n entity l = ground arith

  stored_u64-ok : (n : ℕ) (entity : Entity) → stored_u64 {E = E} (pos n) entity ≡ ok n
  unfolding stored_u64
  stored_u64-ok n entity = refl

  stored_bool-ok :
      (n : ℕ) (entity : Entity) → n < 2 → (b : Bool) × (stored_bool {E = E} (pos n) entity ≡ ok b)
  unfolding stored_bool
  stored_bool-ok n entity l = (not (n == 0), ground arith)

  -- The summary of earlier connections can be read.
  read_recent :
      (q : RecentRow → Bool) (recents : List RecentRow)
      → All IsCounted recents
      → (time : Option ℕ) × (count : ℕ) × (stored_time {E = E} (last_connected (find q recents))
          ≡ ok time)
        × (stored_u64 {E = E} (connection_count (find q recents)) recent_connection ≡ ok count)
  read_recent q [] c = (none, 0, refl, stored_u64-ok 0 recent_connection)
  read_recent q (r ∷ recents) c = elim (Bool-cases (q r)) [
    | inr e ↦ rw e (read_recent q recents c.1)
    | inl e ↦
        let ((t, u), (n, w)) = c.0 in
        (
          some t,
          n,
          rw (e, u) (rw (stored_u64-ok t recent_connection) refl),
          rw (e, w) (stored_u64-ok n recent_connection),
        )
  ]

  -- A row that holds a valid configuration is read as this configuration.
  pub into_list_item-Holds :
      (config : ConnectionConfig) (recents : List RecentRow) (row : ConnectionRow)
      → Connection.validate config ≡ ok tt
      → config.port < 2 ^ 16
      → All IsCounted recents
      → Holds config row
      → IsReadable (2 ^ 32) row
      → (item : ConnectionListItem) × (into_list_item {E = E} (from_row recents row) ≡ ok item)
        × (item.config ≡ config)
  unfolding into_list_item from_row stored_u16 stored_u32
  into_list_item-Holds config recents row v p c h r =
      let (favorite, fe, fl) = r.favorite in
      let (b, fb) = stored_bool-ok favorite connection fl in
      let (place, pe, pl) = r.place in
      let (version, ve) = r.version in
      let (time, count, te, ce) =
        read_recent (λ recent. text_eq recent.connection_id row.id) recents c in
      let m : from_database_value row.auth_method ≡ some config.auth_method =
        (from_database_value_iff row.auth_method config.auth_method).1 h.method_stored in
      let sound : Connection.validate (raw_config (from_row [] row) config.port config.auth_method)
          ≡ ok tt =
        ap Connection.validate h.config_stored ∙ v in
      let port = stored_below-ok (2 ^ 16) config.port connection p in
      (
        record {
          config = raw_config (from_row [] row) config.port config.auth_method;
          is_favorite = b;
          sort_order = place;
          last_connected_at = time;
          successful_connection_count = count;
          revision = version;
        },
        rw m (
            rw h.port_stored (
              rw port (
                rw sound (
                  rw fe (
                    rw fb (
                      rw pe (
                        rw (stored_below-ok (2 ^ 32) place connection pl)
                          (rw te (rw ce (rw ve (unfold stored_u64 in refl))))))))))),
        h.config_stored,
      )

-- The place that a statement gives to a new connection.
max_sort_order-bound :
    (bound : ℕ) (rows : List ConnectionRow)
    → All (IsReadable bound) rows
    → (max_sort_order rows ≡ none) ⊎ ((n : ℕ) × (max_sort_order rows ≡ some (pos n)) × (n < bound))
unfolding max_sort_order
max_sort_order-bound bound [] h = inl refl
max_sort_order-bound bound (r ∷ rows) h =
    let (m, e, l) = h.0.place in
    elim (max_sort_order-bound bound rows h.1) [
      | inl none_of ↦ inr (m, rw (none_of, e) refl, l)
      | inr (n, some_of, k) ↦ elim (Bool-cases (leb n m)) [
        | inl b ↦ inr (m, rw (some_of, e) (unfold at_most in rw b refl), l)
        | inr b ↦ inr (n, rw (some_of, e) (unfold at_most in rw b refl), k)
      ]
    ]

pub next_sort_order-bound :
    (bound : ℕ) (group : Option Text) (rows : List ConnectionRow)
    → All (IsReadable bound) rows
    → (n : ℕ) × (next_sort_order group rows ≡ pos n) × (n < suc bound)
unfolding next_sort_order
next_sort_order-bound bound group rows h =
    elim (max_sort_order-bound bound (select_where (listed_in group) rows) (
      All-select_where (IsReadable bound) (listed_in group) rows
        (All-weaken (IsReadable bound) _ rows (λ r k _. k) h))) [
          | inl e ↦ (0, rw (next_sort_order, e) refl, omega arith)
          | inr (n, e, l) ↦
              (suc n, rw (next_sort_order, e) (unfold increment in refl), omega (arith, l))
        ]
