-- ===== src/Persistence/Settings/Loading.antt =====
-- What is loaded from the settings that the table stores.
use bx_ssh.Common.{
  ℕ, ◌<◌, ◌^◌, not, ◌≡◌, refl, ap, ◌∙◌, Bool, true, false, Option, none, some, List, ok, any, All,
  arith, if◌then◌else◌, ◌>>=◌,
}
use bx_ssh.Common.Text.{Text, codes}
use bx_ssh.Common.Text.Decimal.{decimal}
use bx_ssh.Contracts.Connection.{is_blank}
use bx_ssh.Contracts.Settings.{
  ConnectionSettingsOverride, ConnectionSettingsScope, global_scope, group_scope, connection_scope,
}
use bx_ssh.Persistence.Integers.{ℤ, pos, timestamp_to_i64}
use bx_ssh.Persistence.Table.Laws.{All-weaken, any-false-All}
use bx_ssh.Persistence.Schema.{SettingRow, Database}
use bx_ssh.Persistence.Driver.{Engine}
use bx_ssh.Persistence.Driver.Cases.{Healthy, call-Healthy, transact_healthy}
use bx_ssh.Persistence.Settings.{
  connect_timeout_key, keep_alive_key, SettingOwner, global, group, connection, scope_owner,
  no_override, setting_is, override_or_none, write_rows, write_setting, apply_settings,
  apply_settings_as, load_setting_override, check_scope, save_settings_transaction, save_settings,
}
use bx_ssh.Persistence.Settings.RoundTrip.{Stores, StoresAll, apply_settings-StoresAll}
use bx_ssh.Persistence.Settings.Rows.{Reads, read_rows-found}

-- The owner of a scope's settings, and whether the scope names it.
abbrev pub owner_of : ConnectionSettingsScope → SettingOwner
owner_of global_scope = global
owner_of (group_scope id) = group id
owner_of (connection_scope id) = connection id

abbrev pub is_named : ConnectionSettingsScope → Bool
is_named global_scope = true
is_named (group_scope id) = not (is_blank id)
is_named (connection_scope id) = not (is_blank id)

check_scope-owner_of :
    {E : Type 0} (engine : Engine E) (scope : ConnectionSettingsScope) (now_ms : ℕ)
    → is_named scope ≡ true
    → now_ms < 2 ^ 63
    → check_scope engine scope now_ms ≡ ok (owner_of scope, pos now_ms)
unfolding check_scope scope_owner timestamp_to_i64
check_scope-owner_of engine global_scope now_ms n l = ground (arith, l)
check_scope-owner_of engine (group_scope id) now_ms n l = ground (arith, n, l)
check_scope-owner_of engine (connection_scope id) now_ms n l = ground (arith, n, l)

-- The parser reads the number that was printed for a value, where there is one.
abbrev pub ReadsBack : (Text → Option ℕ) → Option ℕ → Type 0
ReadsBack parse_json none = Unit
ReadsBack parse_json (some v) = parse_json (decimal v) ≡ some v

module _ (parse_json : Text → Option ℕ) where
  -- A value that is stored is the value that the rows of the key are read as.
  Stores-found :
      (owner : SettingOwner) (key : Text) (value : Option ℕ) (rows : List SettingRow)
      → ReadsBack parse_json value
      → Stores owner key value rows
      → All (Reads parse_json owner (setting_is owner key) value) rows
        × ((if any (setting_is owner key) rows then value else none) ≡ value)
  Stores-found owner key none rows h s = (
    All-weaken (λ r. setting_is owner key r ≡ false) _ rows (λ r e t. absurd (cc (t, e)))
        (any-false-All (setting_is owner key) rows s),
    rw s refl,
  )
  Stores-found owner key (some v) rows h (s, a) = (
    All-weaken (λ r. setting_is owner key r ≡ true → r.value_json ≡ decimal v) _ rows
        (λ r k t. (v, ap parse_json (k t) ∙ h, refl)) s,
    rw a refl,
  )

  -- Settings whose values the parser reads back.
  abbrev pub AllReadBack : ConnectionSettingsOverride → Type 0
  AllReadBack settings =
      ReadsBack parse_json settings.connect_timeout_secs
      × ReadsBack parse_json settings.keep_alive_secs

  module _ {E : Type 0} (engine : Engine E) (healthy : Healthy engine) where
    pub load-StoresAll :
        (owner : SettingOwner) (settings : ConnectionSettingsOverride) (db : Database)
        → AllReadBack settings
        → StoresAll owner settings db.settings
        → load_setting_override engine parse_json owner db ≡ ok (override_or_none settings)
    unfolding load_setting_override
    load-StoresAll owner settings db (ht, hk) (st, sk) =
        let (rt, et) =
          Stores-found owner connect_timeout_key settings.connect_timeout_secs db.settings ht st in
        let (rk, ek) =
          Stores-found owner keep_alive_key settings.keep_alive_secs db.settings hk sk in
        rw (call-Healthy engine healthy (codes "prepare scoped connection settings") db) (
          rw (call-Healthy engine healthy (codes "query scoped connection settings") db) (
            rw (call-Healthy engine healthy (codes "read scoped connection settings") db) (
              rw
                (read_rows-found parse_json owner settings.connect_timeout_secs
                  settings.keep_alive_secs E db.settings no_override rt rk)
                (rw (et, ek) refl))))

    write_healthy :
        (owner : SettingOwner) (key : Text) (value : Option ℕ) (now : ℤ) (db : Database)
        → write_setting engine owner key value now db
          ≡ ok (record db { settings = write_rows owner key value now db.settings })
    unfolding write_setting
    write_healthy owner key value now db = rw (write_setting, healthy key db) refl

    apply_healthy :
        (owner : SettingOwner) (settings : ConnectionSettingsOverride) (now : ℤ) (db : Database)
        → (after : Database) × (apply_settings engine owner settings now db ≡ ok after)
    unfolding apply_settings
    apply_healthy owner settings now db =
        let timed : Database = record db {
          settings =
              write_rows owner connect_timeout_key settings.connect_timeout_secs now db.settings;
        } in
        (
          record timed {
            settings = write_rows owner keep_alive_key settings.keep_alive_secs now timed.settings;
          },
          rw (write_healthy owner connect_timeout_key settings.connect_timeout_secs now db)
              (write_healthy owner keep_alive_key settings.keep_alive_secs now timed),
        )

    -- With such an engine the settings are always written.
    pub apply_settings_healthy :
        (operation : Text) (owner : SettingOwner) (settings : ConnectionSettingsOverride) (now : ℤ)
        (db : Database)
        → (after : Database) × (apply_settings_as engine operation owner settings now db ≡ ok after)
          × (apply_settings engine owner settings now db ≡ ok after)
          × StoresAll owner settings after.settings
          × (after ≡ record db { settings = after.settings })
    unfolding apply_settings_as
    apply_settings_healthy operation owner settings now db =
        let (after, e) = apply_healthy owner settings now db in
        let (s, f) = apply_settings-StoresAll engine owner settings now db after e in
        (after, rw (apply_settings_as, e) refl, e, s, f)

    saved_loads :
        (scope : ConnectionSettingsScope) (settings : ConnectionSettingsOverride) (now_ms : ℕ)
        (db : Database) (owner : SettingOwner) (now : ℤ)
        → AllReadBack settings
        → check_scope engine scope now_ms ≡ ok (owner, now)
        → ((save_settings engine scope settings now_ms db).1 ≡ ok tt)
          × (load_setting_override engine parse_json owner
                (save_settings engine scope settings now_ms db).0
              ≡ ok (override_or_none settings))
    unfolding save_settings save_settings_transaction
    saved_loads scope settings now_ms db owner now h c =
        let (after, e, _, s, _) =
          apply_settings_healthy (codes "save scoped connection settings") owner settings now db in
        rw c (
          rw
            (transact_healthy engine healthy (codes "start a settings transaction")
              (λ work.
                apply_settings_as engine (codes "save scoped connection settings") owner settings
                  now work
                >>= λ saved. ok (saved, tt))
              (codes "commit a settings transaction") db)
            (rw e (refl, load-StoresAll owner settings after h s)))

    -- The settings of a scope that names its group or connection, saved at a time below 2 ^ 63 ms, are
    -- those that are loaded for this owner, where the engine refuses nothing and the parser reads the
    -- numbers back that were printed: both are loaded as they were given, and nothing is loaded where
    -- nothing is set.
    pub save_settings-loads :
        (scope : ConnectionSettingsScope) (settings : ConnectionSettingsOverride) (now_ms : ℕ)
        (db : Database)
        → is_named scope ≡ true
        → now_ms < 2 ^ 63
        → AllReadBack settings
        → ((save_settings engine scope settings now_ms db).1 ≡ ok tt)
          × (load_setting_override engine parse_json
                (owner_of scope)
                (save_settings engine scope settings now_ms db).0
              ≡ ok (override_or_none settings))
    save_settings-loads scope settings now_ms db n l h =
        saved_loads scope settings now_ms db (owner_of scope) (pos now_ms) h
          (check_scope-owner_of engine scope now_ms n l)
