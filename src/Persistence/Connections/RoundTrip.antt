-- ===== src/Persistence/Connections/RoundTrip.antt =====
-- A connection that is saved with its settings is read back with them.
use bx_ssh.Common.{
  ℕ, ◌-◌, ◌<◌, ◌^◌, ◌≡◌, refl, sym, ap, subst, ◌∙◌, false, Option, some, All, find, arith, ok,
  ◌>>=◌,
}
use bx_ssh.Common.Text.{Text, codes}
use bx_ssh.Contracts.Connection
use bx_ssh.Contracts.Connection.{ConnectionConfig, is_blank}
use bx_ssh.Contracts.Connection.Validity.{validate_ok_iff, IsWritten-iff}
use bx_ssh.Contracts.Group.{ConnectionDetails}
use bx_ssh.Contracts.Settings.{ConnectionSettingsOverride, ConnectionSettingsLayers, resolve}
use bx_ssh.Persistence.Integers.{ℤ, pos, timestamp_to_i64}
use bx_ssh.Persistence.Schema.{ConnectionRow, Database}
use bx_ssh.Persistence.Driver.{Engine, step}
use bx_ssh.Persistence.Driver.Cases.{Healthy, call-Healthy, transact_healthy}
use bx_ssh.Persistence.Settings
use bx_ssh.Persistence.Settings.{
  override_or_none, load_setting_override, load_group_override, load_settings_layers,
  apply_settings, apply_settings_as,
}
use bx_ssh.Persistence.Settings.RoundTrip.{StoresAll}
use bx_ssh.Persistence.Settings.Loading.{AllReadBack, load-StoresAll, apply_settings_healthy}
use bx_ssh.Persistence.Settings.Isolation.{same_load, same_group_load, global-kept, group-kept}
use bx_ssh.Persistence.Connections.{
  is_listed, save_connection_rows, save_connection_record, check_config,
  save_connection_transaction, save_connection,
}
use bx_ssh.Persistence.Connections.Rows.{read_details, read_first, get_connection}
use bx_ssh.Persistence.Connections.Reading.{Holds, IsReadable, IsCounted, into_list_item-Holds}
use bx_ssh.Persistence.Connections.Saving.{save_connection_rows-finds}

-- A database that the repository can read: the numbers of its connections are in range, with room
-- for one more place, and so are the summaries of earlier connections.
pub record IsReadableDatabase (db : Database) : Type 0 where
  pub connections_readable : All (IsReadable (2 ^ 32 - 1)) db.connections
  pub recents_readable : All IsCounted db.recent_connections

-- What is read back: the configuration, the settings given with it, and the layers that were there.
abbrev pub ReadsAs :
    ConnectionConfig
    → Option ConnectionSettingsOverride
    → Option ConnectionSettingsOverride
    → Option ConnectionSettingsOverride
    → ConnectionDetails
    → Type 0
ReadsAs config global_layer group_layer own details =
    (details.connection.config ≡ config)
    × (details.settings.layers
        ≡ record { global = global_layer; group = group_layer; connection = own })
    × (details.settings.resolved ≡ resolve details.settings.layers)

module _ {E : Type 0} (engine : Engine E) (healthy : Healthy engine) (parse_json : Text → Option ℕ)
    (config : ConnectionConfig) (settings : ConnectionSettingsOverride) where
  -- The state after the two statements.
  record Written (now : ℤ) (db after : Database) : Type 0 where
    pub written : save_connection_record engine config settings now db ≡ ok after
    pub rows : after.connections ≡ save_connection_rows config now db.connections
    pub recents : after.recent_connections ≡ db.recent_connections
    pub stored : StoresAll (Settings.connection config.id) settings after.settings
    pub global_kept :
        load_setting_override engine parse_json Settings.global after
        ≡ load_setting_override engine parse_json Settings.global db
    pub group_kept :
        load_group_override engine parse_json config.group_id after
        ≡ load_group_override engine parse_json config.group_id db

  record-Written : (now : ℤ) (db : Database) → (after : Database) × Written now db after
  unfolding save_connection_record step
  record-Written now db =
      let work : Database = record db {
        connections = save_connection_rows config now db.connections;
      } in
      let (after, e, a, s, f) =
        apply_settings_healthy parse_json engine healthy (codes "save connection settings")
          (Settings.connection config.id) settings now work in
      (
        after,
        record {
          written = rw (call-Healthy engine healthy (codes "save a connection") db) e;
          rows = ap (λ d. d.connections) f;
          recents = ap (λ d. d.recent_connections) f;
          stored = s;
          global_kept =
              global-kept engine config.id settings now work after a healthy parse_json
              ∙ same_load engine healthy parse_json db work Settings.global refl;
          group_kept =
              group-kept engine config.id settings now work after a healthy parse_json
                config.group_id
              ∙ same_group_load engine healthy parse_json db work config.group_id (λ g. refl);
        },
      )

  module _ (valid : Connection.validate config ≡ ok tt) (port : config.port < 2 ^ 16)
      (back : AllReadBack parse_json settings) where
    abbrev layers_of :
        Option ConnectionSettingsOverride
        → Option ConnectionSettingsOverride
        → ConnectionSettingsLayers
    layers_of g gl = record { global = g; group = gl; connection = override_or_none settings }

    layers-Written :
        (now : ℤ) (db after : Database) (g gl : Option ConnectionSettingsOverride)
        → Written now db after
        → load_setting_override engine parse_json Settings.global db ≡ ok g
        → load_group_override engine parse_json config.group_id db ≡ ok gl
        → load_settings_layers engine parse_json config.id config.group_id after
          ≡ ok (layers_of g gl)
    unfolding load_settings_layers
    layers-Written now db after g gl w eg egl = rw (w.global_kept ∙ eg) (
        rw (w.group_kept ∙ egl) (
          rw
            (load-StoresAll parse_json engine healthy (Settings.connection config.id) settings after
              back w.stored)
            refl))

    details-Written :
        (now : ℤ) (db after : Database) (g gl : Option ConnectionSettingsOverride)
        (row : ConnectionRow)
        → IsReadableDatabase db
        → Written now db after
        → load_setting_override engine parse_json Settings.global db ≡ ok g
        → load_group_override engine parse_json config.group_id db ≡ ok gl
        → Holds config row
        → IsReadable (2 ^ 32) row
        → (details : ConnectionDetails) × (read_details engine parse_json row after
            ≡ ok (some details))
          × ReadsAs config g gl (override_or_none settings) details
    unfolding read_details
    details-Written now db after g gl row r w eg egl h k =
        let (item, e, c) =
          into_list_item-Holds {E = E} config after.recent_connections row valid port
            (subst (All IsCounted) (sym w.recents) r.recents_readable) h k in
        let l : load_settings_layers engine parse_json item.config.id item.config.group_id after
            ≡ ok (layers_of g gl) =
          subst
            (λ d.
              load_settings_layers engine parse_json d.id d.group_id after ≡ ok (layers_of g gl))
            (sym c) (layers-Written now db after g gl w eg egl) in
        (
          record {
            connection = item;
            settings = record { layers = layers_of g gl; resolved = resolve (layers_of g gl) };
          },
          rw e (rw l refl),
          (c, refl, refl),
        )

    -- What `get_connection` returns of such a state.
    get-Written :
        (now : ℤ) (db after : Database) (g gl : Option ConnectionSettingsOverride)
        → IsReadableDatabase db
        → Written now db after
        → load_setting_override engine parse_json Settings.global db ≡ ok g
        → load_group_override engine parse_json config.group_id db ≡ ok gl
        → (details : ConnectionDetails) × (get_connection engine parse_json config.id after
            ≡ ok (some details))
          × ReadsAs config g gl (override_or_none settings) details
    unfolding get_connection
    get-Written now db after g gl r w eg egl =
        let (row, f, (h, k)) =
          save_connection_rows-finds config now (2 ^ 32 - 1) db.connections
            r.connections_readable in
        let (details, e, d) = details-Written now db after g gl row r w eg egl h k in
        let id : is_blank config.id ≡ false =
          (IsWritten-iff config.id).1 ((validate_ok_iff config).0 valid).id_written in
        (
          details,
          rw id (
              rw (call-Healthy engine healthy (codes "prepare a connection query") after) (
                rw (call-Healthy engine healthy (codes "query a connection") after)
                  (rw (ap (find (is_listed config.id)) w.rows ∙ f) (rw (read_first, e) refl)))),
          d,
        )

    -- A valid connection that is saved is found under its id, with the configuration and the settings
    -- given, the layers of its group and of all connections as they were, and the settings resolved
    -- from these layers. The database holds numbers in range; its settings can be read; the engine
    -- refuses nothing, and the parser reads back the numbers that are set.
    pub save_connection-reads :
        (now_ms : ℕ) (db : Database) (g gl : Option ConnectionSettingsOverride)
        → now_ms < 2 ^ 63
        → IsReadableDatabase db
        → load_setting_override engine parse_json Settings.global db ≡ ok g
        → load_group_override engine parse_json config.group_id db ≡ ok gl
        → ((save_connection engine config settings now_ms db).1 ≡ ok tt)
          × ((details : ConnectionDetails) × (get_connection engine parse_json config.id
                  (save_connection engine config settings now_ms db).0
                ≡ ok (some details))
              × ReadsAs config g gl (override_or_none settings) details)
    unfolding save_connection save_connection_transaction
    save_connection-reads now_ms db g gl l r eg egl =
        let now = pos now_ms in
        let checked : check_config engine config now_ms ≡ ok now =
          unfold check_config timestamp_to_i64 in rw valid (ground arith) in
        let (after, w) = record-Written now db in
        rw checked (
          rw
            (transact_healthy engine healthy (codes "start a connection transaction")
              (λ work.
                save_connection_record engine config settings now work >>= λ saved. ok (saved, tt))
              (codes "commit a connection transaction") db)
            (rw w.written (refl, get-Written now db after g gl r w eg egl)))
