-- ===== src/Settings/SqlStore/Purge.antt =====
-- `SqlSettingsStore.purge_setting` of settings/sql_store.py: one setting's rows go, of every account.
use settings_api.Prelude.{
  ℕ, ◌≡◌, refl, arith, true, not, ◌&&◌, String, none, List, [], ◌∷◌, length, filter, is_nil,
  if◌then◌else◌, ◌==◌, string_eq, ok,
}
use settings_api.Storage.{Instant, SettingRow, PrimaryKey, key_eq, key_beq_iff, primary_key, Db}
use settings_api.Storage.Exec.{transact}
use settings_api.Events.{append_in}
use settings_api.Settings.Rows.{revision_of}
use settings_api.Settings.Rows.Find.{find_row}
use settings_api.Settings.SqlStore.{is_setting, append_purges, purge_setting}
use settings_api.Settings.SqlStore.Changes.{value_at}

module _ (namespace key : String) (now : Instant) (event_cap : ℕ) where
  abbrev pub kept_rows : List SettingRow → List SettingRow
  kept_rows rs = filter (λ r. not (is_setting namespace key r)) rs

  abbrev pub affected_rows : List SettingRow → List SettingRow
  affected_rows rs = filter (is_setting namespace key) rs

  pub find_row_kept :
      (k : PrimaryKey) (rs : List SettingRow)
      → find_row k (kept_rows rs)
        ≡ (if k.namespace == namespace && k.key == key then none else find_row k rs)
  unfolding find_row filter
  find_row_kept k [] = ground arith
  find_row_kept k (r ∷ rs) = ground (arith, key_beq_iff (primary_key r) k, find_row_kept k rs)

  kept_all : (rs : List SettingRow) → is_nil (affected_rows rs) ≡ true → kept_rows rs ≡ rs
  unfolding filter
  kept_all [] h = refl
  kept_all (r ∷ rs) h = ground (arith, kept_all rs)

  append_purges-frame :
      (rs : List SettingRow) (db : Db)
      → ((append_purges namespace key now event_cap rs db).settings ≡ db.settings)
        × ((append_purges namespace key now event_cap rs db).accounts ≡ db.accounts)
  unfolding append_purges append_in
  append_purges-frame [] db = (refl, refl)
  append_purges-frame (r ∷ rs) db = append_purges-frame rs _

  pub purge_frame :
      (db : Db)
      → ((purge_setting namespace key now event_cap db).1.settings ≡ kept_rows db.settings)
        × ((purge_setting namespace key now event_cap db).1.accounts ≡ db.accounts)
        × ((purge_setting namespace key now event_cap db).0
            ≡ ok (length (affected_rows db.settings)))
  unfolding purge_setting transact
  purge_frame db = ground (
    arith,
    kept_all db.settings,
    append_purges-frame (affected_rows db.settings)
        (record db { settings = kept_rows db.settings }),
  )

  -- A purge returns the number of rows that it removed: all rows of the setting and no others, of every
  -- account and profile. No account's revision moves.
  pub purge_setting-value :
      (db : Db) (k : PrimaryKey) (account_id : String)
      → let (removed, end) = purge_setting namespace key now event_cap db in
        (removed ≡ ok (length (affected_rows db.settings)))
        × (value_at end k
            ≡ (if k.namespace == namespace && k.key == key then none else value_at db k))
        × (revision_of end account_id ≡ revision_of db account_id)
  unfolding value_at revision_of
  purge_setting-value db k account_id = ground (arith, purge_frame db, find_row_kept k db.settings)
