-- ===== src/Persistence/Settings/RoundTrip.antt =====
-- The settings that are written are those that are loaded.
use bx_ssh.Common.{
  ℕ, ◌≡◌, refl, sym, ap, subst, ◌∙◌, Bool, true, false, Option, none, some, List, ok, any, All,
  arith,
}
use bx_ssh.Common.Text.{Text, text_eq, text_eq_iff, text_eq_refl}
use bx_ssh.Common.Text.Decimal.{decimal}
use bx_ssh.Contracts.Settings.{ConnectionSettingsOverride}
use bx_ssh.Persistence.Integers.{ℤ}
use bx_ssh.Persistence.Table.{select_where}
use bx_ssh.Common.{is_empty, not}
use bx_ssh.Persistence.Table.Laws.{All-select_where, select_where-All, any-upsert}
use bx_ssh.Persistence.Table.Columns.{
  All-upserted, any-delete_where, any-select_where, select-upsert, select-delete_where,
}
use bx_ssh.Persistence.Schema.{SettingRow, Database}
use bx_ssh.Persistence.Driver.{Engine}
use bx_ssh.Persistence.Settings.{
  connect_timeout_key, keep_alive_key, SettingOwner, global, group, connection, owned, setting_is,
  inserted_setting, updated_setting, write_rows, write_setting, apply_settings,
}

-- What the table stores under a key for an owner: no row, or rows that all hold the value.
abbrev pub Stores : SettingOwner → Text → Option ℕ → List SettingRow → Type 0
Stores owner key none rows = any (setting_is owner key) rows ≡ false
Stores owner key (some value) rows =
    All (λ r. setting_is owner key r ≡ true → r.value_json ≡ decimal value) rows
    × (any (setting_is owner key) rows ≡ true)

owned-inserted :
    (owner : SettingOwner) (key : Text) (value : ℕ) (now : ℤ)
    → setting_is owner key (inserted_setting owner key value now) ≡ true
unfolding setting_is inserted_setting owned
owned-inserted global key value now = ground (arith, text_eq_refl key)
owned-inserted (group id) key value now = ground (arith, text_eq_refl key, text_eq_refl id)
owned-inserted (connection id) key value now = ground (arith, text_eq_refl key, text_eq_refl id)

setting_is-updated :
    (owner : SettingOwner) (key : Text) (value : ℕ) (now : ℤ) (r : SettingRow)
    → setting_is owner key (updated_setting value now r) ≡ setting_is owner key r
unfolding setting_is updated_setting owned
setting_is-updated global key value now r = refl
setting_is-updated (group id) key value now r = refl
setting_is-updated (connection id) key value now r = refl

-- Writing stores the value, or its absence.
pub write_rows-Stores :
    (owner : SettingOwner) (key : Text) (value : Option ℕ) (now : ℤ) (rows : List SettingRow)
    → Stores owner key value (write_rows owner key value now rows)
unfolding write_rows
write_rows-Stores owner key none now rows = any-delete_where (setting_is owner key) rows
write_rows-Stores owner key (some value) now rows = (
  All-upserted (λ r. setting_is owner key r ≡ true → r.value_json ≡ decimal value)
      (setting_is owner key) (updated_setting value now) (inserted_setting owner key value now) rows
      (λ r e t. unfold updated_setting in refl) (λ r e t. cc (t, e))
      (λ t. unfold inserted_setting in refl),
  any-upsert (setting_is owner key) (setting_is owner key) (updated_setting value now)
      (inserted_setting owner key value now) rows
      (λ r e. setting_is-updated owner key value now r ∙ e) (owned-inserted owner key value now),
)

-- Two queries that no row answers both.
abbrev pub Apart : (SettingRow → Bool) → (SettingRow → Bool) → Type 0
Apart q p = (r : SettingRow) → q r ≡ true → p r ≡ false

Apart-keys :
    (owner : SettingOwner) (key other : Text)
    → text_eq key other ≡ false
    → Apart (setting_is owner key) (setting_is owner other)
unfolding setting_is
Apart-keys owner key other n r h =
    ground (arith, text_eq_iff r.key key, text_eq_iff r.key other, text_eq_iff key other)

-- Writing leaves what another query returns, if the query does not ask for what an update changes.
module _ (p : SettingRow → Bool)
    (blind : (r : SettingRow) (value : ℕ) (now : ℤ) → p (updated_setting value now r) ≡ p r) where
  pub select-write_rows :
      (owner : SettingOwner) (key : Text) (value : Option ℕ) (now : ℤ) (rows : List SettingRow)
      → Apart (setting_is owner key) p
      → select_where p (write_rows owner key value now rows) ≡ select_where p rows
  unfolding write_rows
  select-write_rows owner key none now rows apart =
      select-delete_where (setting_is owner key) p apart rows
  select-write_rows owner key (some value) now rows apart =
      select-upsert (setting_is owner key) p apart (updated_setting value now)
        (inserted_setting owner key value now) rows (λ r e. blind r value now ∙ apart r e)
        (apart (inserted_setting owner key value now) (owned-inserted owner key value now))

same-Stores :
    (owner : SettingOwner) (key : Text) (value : Option ℕ) (rows rows' : List SettingRow)
    → select_where (setting_is owner key) rows' ≡ select_where (setting_is owner key) rows
    → Stores owner key value rows
    → Stores owner key value rows'
same-Stores owner key none rows rows' e h =
    any-select_where (setting_is owner key) rows'
    ∙ ap (λ l. not (is_empty l)) e
    ∙ sym (any-select_where (setting_is owner key) rows)
    ∙ h
same-Stores owner key (some v) rows rows' e (h, a) = (
  select_where-All (λ r. r.value_json ≡ decimal v) (setting_is owner key) rows'
      (subst (All (λ r. r.value_json ≡ decimal v)) (sym e)
        (All-select_where (λ r. r.value_json ≡ decimal v) (setting_is owner key) rows h)),
  any-select_where (setting_is owner key) rows'
      ∙ ap (λ l. not (is_empty l)) e
      ∙ sym (any-select_where (setting_is owner key) rows)
      ∙ a,
)

-- Both values of an owner are stored.
abbrev pub StoresAll : SettingOwner → ConnectionSettingsOverride → List SettingRow → Type 0
StoresAll owner settings rows =
    Stores owner connect_timeout_key settings.connect_timeout_secs rows
    × Stores owner keep_alive_key settings.keep_alive_secs rows

write_both-StoresAll :
    (owner : SettingOwner) (settings : ConnectionSettingsOverride) (now : ℤ)
    (rows : List SettingRow)
    → StoresAll owner settings (
        write_rows owner keep_alive_key settings.keep_alive_secs now
          (write_rows owner connect_timeout_key settings.connect_timeout_secs now rows))
write_both-StoresAll owner settings now rows =
    let timed = write_rows owner connect_timeout_key settings.connect_timeout_secs now rows in
    (
      same-Stores owner connect_timeout_key settings.connect_timeout_secs timed _
          (select-write_rows (setting_is owner connect_timeout_key)
            (λ r v n. setting_is-updated owner connect_timeout_key v n r) owner keep_alive_key
            settings.keep_alive_secs now timed
            (Apart-keys owner keep_alive_key connect_timeout_key (unfold text_eq in refl)))
          (write_rows-Stores owner connect_timeout_key settings.connect_timeout_secs now rows),
      write_rows-Stores owner keep_alive_key settings.keep_alive_secs now timed,
    )

module _ {E : Type 0} (engine : Engine E) where
  -- The two writes of apply_settings.
  pub apply_settings-writes :
      (owner : SettingOwner) (settings : ConnectionSettingsOverride) (now : ℤ) (db after : Database)
      → apply_settings engine owner settings now db ≡ ok after
      → after ≡ record db {
        settings =
            write_rows owner keep_alive_key settings.keep_alive_secs now
              (write_rows owner connect_timeout_key settings.connect_timeout_secs now db.settings);
      }
  unfolding apply_settings write_setting
  apply_settings-writes owner settings now db after h = ground arith

  pub apply_settings-StoresAll :
      (owner : SettingOwner) (settings : ConnectionSettingsOverride) (now : ℤ) (db after : Database)
      → apply_settings engine owner settings now db ≡ ok after
      → StoresAll owner settings after.settings × (after ≡ record db { settings = after.settings })
  apply_settings-StoresAll owner settings now db after h =
      rw (apply_settings-writes owner settings now db after h)
        (write_both-StoresAll owner settings now db.settings, refl)
