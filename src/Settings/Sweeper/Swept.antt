-- ===== src/Settings/Sweeper/Swept.antt =====
-- Which rows the loop of `sweep_once` of settings/sweeper.py destroys.
use settings_api.Prelude.{
  ℕ, ◌+◌, ◌≡◌, refl, ◌∙◌, arith, Bool, not, ◌&&◌, String, none, List, [], ◌∷◌, any, length, filter,
  if◌then◌else◌, ◌==◌, ok, string_eq,
}
use settings_api.Domain.Types.{SettingDef}
use settings_api.Storage.{Instant, SettingRow, PrimaryKey, Db}
use settings_api.Settings.Rows.{revision_of}
use settings_api.Settings.SqlStore.{is_setting, purge_setting}
use settings_api.Settings.SqlStore.Changes.{value_at}
use settings_api.Settings.SqlStore.Purge.{purge_setting-value, purge_frame}
use settings_api.Settings.Sweeper.{sweep}

-- The row's setting is the entry.
abbrev pub names : PrimaryKey → SettingDef → Bool
names k d = k.namespace == d.namespace && k.key == d.key

abbrev key_in : String → String → PrimaryKey
key_in namespace key = record { account_id = ""; profile = ""; namespace = namespace; key = key }

length-parts :
    (p : SettingRow → Bool) (rs : List SettingRow)
    → length (filter p rs) + length (filter (λ r. not (p r)) rs) ≡ length rs
unfolding filter
length-parts p [] = refl
length-parts p (r ∷ rs) = ground (arith, length-parts p rs)

module _ (now : Instant) (event_cap : ℕ) where
  purge-length :
      (namespace key : String) (db : Db)
      → length (filter (is_setting namespace key) db.settings)
          + length (purge_setting namespace key now event_cap db).1.settings
        ≡ length db.settings
  purge-length namespace key db =
      let (rows, _, _) = purge_frame namespace key now event_cap db in
      rw rows (length-parts (is_setting namespace key) db.settings)

  sweep-cons :
      (d : SettingDef) (ds : List SettingDef) (db : Db) (n m : ℕ)
      → (purge_setting d.namespace d.key now event_cap db).0 ≡ ok n
      → (sweep ds now event_cap (purge_setting d.namespace d.key now event_cap db).1).0 ≡ ok m
      → sweep (d ∷ ds) now event_cap db ≡ (
        ok (n + m),
        (sweep ds now event_cap (purge_setting d.namespace d.key now event_cap db).1).1,
      )
  unfolding sweep
  sweep-cons d ds db n m first later = rw (first, later) refl

  -- A sweep returns, and counts the rows that are gone: every row of a setting that is on the list, of
  -- every account and profile, and no others. No account's revision moves.
  pub sweep-value :
      (ds : List SettingDef) (db : Db)
      → let (answer, end) = sweep ds now event_cap db in
        (removed : ℕ) × (answer ≡ ok removed)
        × (removed + length end.settings ≡ length db.settings)
        × ((k : PrimaryKey) → value_at end k ≡ (if any (names k) ds then none else value_at db k))
        × ((account_id : String) → revision_of end account_id ≡ revision_of db account_id)
  unfolding sweep any
  sweep-value [] db = (0, refl, omega arith, λ k. refl, λ a. refl)
  sweep-value (d ∷ ds) db =
      let mid = (purge_setting d.namespace d.key now event_cap db).1 in
      let first = purge_setting-value d.namespace d.key now event_cap db in
      let counted = purge-length d.namespace d.key db in
      let (later, answered, gone, values, revisions) = sweep-value ds mid in
      let (found, _, _) = first (key_in d.namespace d.key) "" in
      let done = sweep-cons d ds db _ later found answered in
      rw done (
        length (filter (is_setting d.namespace d.key) db.settings) + later,
        refl,
        omega (arith, counted, gone),
        λ k. values k ∙ ground (arith, first k ""),
        λ a. revisions a ∙ (first (key_in d.namespace d.key) a).2,
      )
