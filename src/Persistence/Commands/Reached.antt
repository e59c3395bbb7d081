-- ===== src/Persistence/Commands/Reached.antt =====
-- What every call of the repository keeps, and what holds of every database that calls reach.
use bx_ssh.Common.{◌≡◌, inl, inr, refl, ap, true, ok, err, []}
use bx_ssh.Common.Text.{Text}
use bx_ssh.Common.Text.Sets.{contains, has_repetition}
use bx_ssh.Persistence.Schema.{Database, empty_database}
use bx_ssh.Persistence.Driver.{Engine, Outcome}
use bx_ssh.Persistence.Driver.Cases.{FailsSafely}
use bx_ssh.Persistence.Table.Ids.{Distinct}
use bx_ssh.Persistence.Hosts.Pinning.{Pinned}
use bx_ssh.Persistence.Groups.{delete_group, set_group_collapsed}
use bx_ssh.Persistence.Connections.{
  delete_connection, set_connection_favorite, record_successful_connection,
}
use bx_ssh.Persistence.Commands.{
  Command, trust, store_group, drop_group, collapse_group, order_groups, store_connection,
  import_all, store_settings, drop_connection, favor_connection, order_connections, record_login,
  forget, perform, Reaches, here, later,
}
use bx_ssh.Persistence.Commands.Evolution.{
  connection_ids, group_ids, Evolves, Evolves-refl, Evolves-trans, Tame, Tame-Evolves,
  Tame-FailsSafely,
}
use bx_ssh.Persistence.Commands.Evolution.Calls.{
  trust_host_fingerprint-Tame, save_group-Tame, delete_group-Tame, set_group_collapsed-Tame,
  reorder_groups-Tame, save_connection-Tame, import_connections-Tame, save_settings-Tame,
  delete_connection-Tame, set_connection_favorite-Tame, reorder_connections-Tame,
  record_successful_connection-Tame,
}

module _ {E : Type 0} where
  forget-Tame :
      {A : Type 0} (db : Database) (out : Outcome E A) → Tame db out → Tame db (forget out)
  forget-Tame db (work, ok a) (inl (e, p)) = absurd (let z = ap (λ o. o.1) p in cc z)
  forget-Tame db (work, ok a) (inr (b, p, v)) = inr (tt, refl, v)
  forget-Tame db (work, err x) (inl (e, p)) = inl (x, λ i. ((ap (λ o. o.0) p) i, err x))
  forget-Tame db (work, err x) (inr (b, p, v)) = absurd (cc p)

  module _ (engine : Engine E) where
    perform-Tame : (c : Command) (db : Database) → Tame db (perform engine c db)
    unfolding perform
    perform-Tame (trust row_id host port key now) db =
        trust_host_fingerprint-Tame engine row_id host port key now db
    perform-Tame (store_group group now) db = save_group-Tame engine group now db
    perform-Tame (drop_group id now) db =
        forget-Tame db (delete_group engine id now db) (delete_group-Tame engine id now db)
    perform-Tame (collapse_group id collapsed now) db =
        forget-Tame db (set_group_collapsed engine id collapsed now db)
          (set_group_collapsed-Tame engine id collapsed now db)
    perform-Tame (order_groups ids now) db = reorder_groups-Tame engine ids now db
    perform-Tame (store_connection config settings now) db =
        save_connection-Tame engine config settings now db
    perform-Tame (import_all configs now) db = import_connections-Tame engine configs now db
    perform-Tame (store_settings scope settings now) db =
        save_settings-Tame engine scope settings now db
    perform-Tame (drop_connection id now) db =
        forget-Tame db (delete_connection engine id now db)
          (delete_connection-Tame engine id now db)
    perform-Tame (favor_connection id favorite now) db =
        forget-Tame db (set_connection_favorite engine id favorite now db)
          (set_connection_favorite-Tame engine id favorite now db)
    perform-Tame (order_connections group ids now) db =
        reorder_connections-Tame engine group ids now db
    perform-Tame (record_login id now) db =
        forget-Tame db (record_successful_connection engine id now db)
          (record_successful_connection-Tame engine id now db)

    -- Whatever call fails, with whatever error, the database is as it was before the call.
    pub perform-FailsSafely : (c : Command) (db : Database) → FailsSafely db (perform engine c db)
    perform-FailsSafely c db = Tame-FailsSafely db (perform engine c db) (perform-Tame c db)

    Reaches-Evolves : {start db : Database} → Reaches engine start db → Evolves start db
    Reaches-Evolves here = Evolves-refl _
    Reaches-Evolves (later {db = db} r c) =
        Evolves-trans (Reaches-Evolves r)
          (Tame-Evolves db (perform engine c db) (perform-Tame c db))

    -- Of every database that calls reach from an empty one: each endpoint has one host key at most,
    -- and the ids of connections and of groups are distinct.
    pub reached_sound :
        (db : Database)
        → Reaches engine empty_database db
        → Pinned db.host_fingerprints × Distinct (connection_ids db) × Distinct (group_ids db)
    reached_sound db r =
        let v = Reaches-Evolves r in
        (
          v.pins (λ host port. (record { algorithm = []; fingerprint_sha256 = [] }, tt)),
          v.connections_distinct (unfold has_repetition in refl),
          v.groups_distinct (unfold has_repetition in refl),
        )

    -- The row of a connection that was stored is still there after any calls, deletions included.
    pub reached_kept :
        (start db : Database) (id : Text)
        → Reaches engine start db
        → contains id (connection_ids start) ≡ true
        → contains id (connection_ids db) ≡ true
    reached_kept start db id r h = (Reaches-Evolves r).connections_kept id h
