-- ===== src/Persistence/Settings/Rows.antt =====
-- What the loop over an owner's rows makes of the settings.
use bx_ssh.Common.{
  ℕ, ◌≡◌, inl, inr, refl, Bool, true, false, Option, some, List, [], ◌∷◌, ok, any, All, arith,
  Bool-cases, if◌then◌else◌,
}
use bx_ssh.Common.Text.{Text, text_eq, text_eq_iff}
use bx_ssh.Contracts.Settings.{ConnectionSettingsOverride}
use bx_ssh.Persistence.Table.{select_where}
use bx_ssh.Persistence.Schema.{SettingRow}
use bx_ssh.Persistence.Settings.{
  connect_timeout_key, keep_alive_key, SettingOwner, setting_is, put_value, reads, read_rows,
}

keys_apart :
    (key : Text) → text_eq key keep_alive_key ≡ true → text_eq key connect_timeout_key ≡ false
keys_apart key h = rw ((text_eq_iff key keep_alive_key).0 h) (unfold text_eq in refl)

put_timeout :
    (key : Text) (v : ℕ) (values : ConnectionSettingsOverride)
    → text_eq key connect_timeout_key ≡ true
    → put_value key v values ≡ record values { connect_timeout_secs = some v }
unfolding put_value
put_timeout key v values h = rw h refl

put_keep_alive :
    (key : Text) (v : ℕ) (values : ConnectionSettingsOverride)
    → text_eq key keep_alive_key ≡ true
    → put_value key v values ≡ record values { keep_alive_secs = some v }
unfolding put_value
put_keep_alive key v values h = rw (keys_apart key h, h) refl

module _ (parse_json : Text → Option ℕ) (owner : SettingOwner) where
  abbrev is_timeout : SettingRow → Bool
  is_timeout = setting_is owner connect_timeout_key

  abbrev is_keep_alive : SettingRow → Bool
  is_keep_alive = setting_is owner keep_alive_key

  -- A row of the query holds the number that is set.
  abbrev pub Reads : (SettingRow → Bool) → Option ℕ → SettingRow → Type 0
  Reads q set r = q r ≡ true → (v : ℕ) × (parse_json r.value_json ≡ some v) × (set ≡ some v)

  reads-neither :
      (r : SettingRow) → is_timeout r ≡ false → is_keep_alive r ≡ false → reads owner r ≡ false
  unfolding reads setting_is
  reads-neither r t k = ground arith

  reads-timeout : (r : SettingRow) → is_timeout r ≡ true → reads owner r ≡ true
  unfolding reads setting_is
  reads-timeout r t = ground arith

  reads-keep_alive : (r : SettingRow) → is_keep_alive r ≡ true → reads owner r ≡ true
  unfolding reads setting_is
  reads-keep_alive r t = ground arith

  key-of : (key : Text) (r : SettingRow) → setting_is owner key r ≡ true → text_eq r.key key ≡ true
  unfolding setting_is
  key-of key r h = ground arith

  one_key : (r : SettingRow) → is_timeout r ≡ true → is_keep_alive r ≡ false
  one_key r t = elim (Bool-cases (is_keep_alive r)) [
    | inr e ↦ e
    | inl e ↦ cc (keys_apart r.key (key-of keep_alive_key r e), key-of connect_timeout_key r t)
  ]

  module _ (timeout keep_alive : Option ℕ) where
    abbrev found : List SettingRow → ConnectionSettingsOverride → ConnectionSettingsOverride
    found rows values = record {
      connect_timeout_secs = if any is_timeout rows then timeout else values.connect_timeout_secs;
      keep_alive_secs = if any is_keep_alive rows then keep_alive else values.keep_alive_secs;
    }

    pub read_rows-found :
        (E : Type 0) (rows : List SettingRow) (values : ConnectionSettingsOverride)
        → All (Reads is_timeout timeout) rows
        → All (Reads is_keep_alive keep_alive) rows
        → read_rows {E = E} parse_json values (select_where (reads owner) rows)
          ≡ ok (found rows values)
    unfolding read_rows select_where
    read_rows-found E [] values t k = refl
    read_rows-found E (r ∷ rows) values t k = elim (Bool-cases (is_timeout r)) [
      | inl e ↦
          let (v, p, s) = t.0 e in
          rw (reads-timeout r e) (
            rw p (
              rw (put_timeout r.key v values (key-of connect_timeout_key r e)) (
                rw
                  (read_rows-found E rows (record values { connect_timeout_secs = some v }) t.1 k.1)
                  (rw (e, one_key r e) (ground (arith, s))))))
      | inr e ↦ elim (Bool-cases (is_keep_alive r)) [
        | inl f ↦
            let (v, p, s) = k.0 f in
            rw (reads-keep_alive r f) (
              rw p (
                rw (put_keep_alive r.key v values (key-of keep_alive_key r f)) (
                  rw (read_rows-found E rows (record values { keep_alive_secs = some v }) t.1 k.1)
                    (rw (e, f) (ground (arith, s))))))
        | inr f ↦
            rw (reads-neither r e f) (rw (read_rows-found E rows values t.1 k.1) (rw (e, f) refl))
      ]
    ]
