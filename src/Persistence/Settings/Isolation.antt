-- ===== src/Persistence/Settings/Isolation.antt =====
-- Settings of a connection leave those of the other scopes alone.
use bx_ssh.Common.{ℕ, ◌≡◌, refl, ap, ◌∙◌, Option, none, some, ok, arith}
use bx_ssh.Common.Text.{Text, codes}
use bx_ssh.Contracts.Settings.{ConnectionSettingsOverride}
use bx_ssh.Persistence.Integers.{ℤ}
use bx_ssh.Persistence.Table.{select_where}
use bx_ssh.Persistence.Schema.{SettingRow, Database}
use bx_ssh.Persistence.Driver.{Engine}
use bx_ssh.Persistence.Driver.Cases.{Healthy, call-Healthy}
use bx_ssh.Persistence.Settings.{
  connect_timeout_key, keep_alive_key, SettingOwner, global, group, connection, owned, setting_is,
  updated_setting, write_rows, reads, apply_settings, load_setting_override, load_group_override,
}
use bx_ssh.Persistence.Settings.RoundTrip.{Apart, select-write_rows, apply_settings-writes}

reads-updated :
    (owner : SettingOwner) (r : SettingRow) (value : ℕ) (now : ℤ)
    → reads owner (updated_setting value now r) ≡ reads owner r
unfolding reads updated_setting owned
reads-updated global r value now = refl
reads-updated (group id) r value now = refl
reads-updated (connection id) r value now = refl

Apart-global : (id key : Text) → Apart (setting_is (connection id) key) (reads global)
unfolding setting_is reads owned
Apart-global id key r h = ground arith

Apart-group : (id key other : Text) → Apart (setting_is (connection id) key) (reads (group other))
unfolding setting_is reads owned
Apart-group id key other r h = ground arith

module _ {E : Type 0} (engine : Engine E) (healthy : Healthy engine)
    (parse_json : Text → Option ℕ) where
  pub same_load :
      (db after : Database) (other : SettingOwner)
      → select_where (reads other) after.settings ≡ select_where (reads other) db.settings
      → load_setting_override engine parse_json other after
        ≡ load_setting_override engine parse_json other db
  unfolding load_setting_override
  same_load db after other e =
      rw (call-Healthy engine healthy (codes "prepare scoped connection settings") after) (
        rw (call-Healthy engine healthy (codes "query scoped connection settings") after) (
          rw (call-Healthy engine healthy (codes "read scoped connection settings") after) (
            rw (call-Healthy engine healthy (codes "prepare scoped connection settings") db) (
              rw (call-Healthy engine healthy (codes "query scoped connection settings") db) (
                rw (call-Healthy engine healthy (codes "read scoped connection settings") db)
                  (rw e refl))))))

  -- The group's layer, which is read as the settings of an owner where there is a group.
  pub same_group_load :
      (db after : Database) (other : Option Text)
      → ((g : Text)
          → select_where (reads (group g)) after.settings
            ≡ select_where (reads (group g)) db.settings)
      → load_group_override engine parse_json other after
        ≡ load_group_override engine parse_json other db
  unfolding load_group_override
  same_group_load db after none e = refl
  same_group_load db after (some g) e = same_load db after (group g) (e g)

module _ {E : Type 0} (engine : Engine E) (id : Text) (settings : ConnectionSettingsOverride)
    (now : ℤ) (db after : Database)
    (applied : apply_settings engine (connection id) settings now db ≡ ok after) where
  same_rows :
      (other : SettingOwner)
      → ((key : Text) → Apart (setting_is (connection id) key) (reads other))
      → select_where (reads other) after.settings ≡ select_where (reads other) db.settings
  same_rows other apart =
      let timed =
        write_rows (connection id) connect_timeout_key settings.connect_timeout_secs now
          db.settings in
      ap (λ d. select_where (reads other) d.settings)
        (apply_settings-writes engine (connection id) settings now db after applied)
      ∙ select-write_rows (reads other) (reads-updated other) (connection id) keep_alive_key
          settings.keep_alive_secs now timed (apart keep_alive_key)
      ∙ select-write_rows (reads other) (reads-updated other) (connection id) connect_timeout_key
          settings.connect_timeout_secs now db.settings (apart connect_timeout_key)

  module _ (healthy : Healthy engine) (parse_json : Text → Option ℕ) where
    pub global-kept :
        load_setting_override engine parse_json global after
        ≡ load_setting_override engine parse_json global db
    global-kept =
        same_load engine healthy parse_json db after global (same_rows global (Apart-global id))

    pub group-kept :
        (other : Option Text)
        → load_group_override engine parse_json other after
          ≡ load_group_override engine parse_json other db
    group-kept other =
        same_group_load engine healthy parse_json db after other
          (λ g. same_rows (group g) (λ key. Apart-group id key g))
