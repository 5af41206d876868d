-- ===== src/Settings/Service/Kept.antt =====
-- `_stored_for` of settings/service.py: of the account's rows, a read sees for each entry the one row in
-- the column of the entry's scope.
use settings_api.Prelude.{
  ℕ, ◌≡◌, refl, ap, ◌∙◌, arith, false, ◌&&◌, String, Option, none, some, List, [], ◌∷◌, inl, inr,
  Bool-cases, if◌then◌else◌, ◌==◌, string_eq, pair_eq,
}
use settings_api.Prelude.Dict.{Dict, get, insert, get-insert, KeysUnique, insert-KeysUnique}
use settings_api.Domain.Platform.{Platform}
use settings_api.Domain.Value.{Value}
use settings_api.Domain.Types.{SettingDef, account_profile}
use settings_api.Domain.Catalogue.{Catalogue, by_qualified}
use settings_api.Domain.Policy.{Policy}
use settings_api.Domain.Resolution.{Stored}
use settings_api.Storage.{SettingRow}
use settings_api.Settings.Store.{StoredSetting, RowKey, stored_key}
use settings_api.Settings.Rows.{collect_rows, stored_of}
use settings_api.Settings.Service.{keep_row, keep_rows}
use settings_api.Settings.Service.Guards.{GoesTo}

-- The value of a row, or what is there without it.
abbrev pub value_or : Option StoredSetting → Option Value → Option Value
value_or none old = old
value_or (some row) old = some row.value

pub collect_rows-KeysUnique :
    (account_id : String) (stored : Dict RowKey StoredSetting) (rs : List SettingRow)
    → KeysUnique stored
    → KeysUnique (collect_rows account_id stored rs)
unfolding collect_rows
collect_rows-KeysUnique account_id stored [] u = u
collect_rows-KeysUnique account_id stored (r ∷ rs) u =
    elim (Bool-cases (r.account_id == account_id)) [
      | inl same ↦ rw same (
          collect_rows-KeysUnique account_id
            (insert stored (stored_key (stored_of r)) (stored_of r)) rs
            (insert-KeysUnique stored (stored_key (stored_of r)) (stored_of r) u))
      | inr other ↦ rw other (collect_rows-KeysUnique account_id stored rs u)
    ]

module _ (py : Platform) (catalogue : Catalogue) (policy : Policy) (max_value_bytes : ℕ) where
  kept : Option String → String → StoredSetting → String → Option SettingDef → Stored → Stored
  kept = keep_row py catalogue policy max_value_bytes

  -- A row of another name leaves the name as it is.
  kept_other :
      (profile : Option String) (row_profile name row_name : String) (row : StoredSetting)
      (o : Option SettingDef) (stored : Stored)
      → (row_name == name) ≡ false
      → get (kept profile row_profile row row_name o stored) name ≡ get stored name
  unfolding kept
  kept_other profile row_profile name row_name row none stored apart = refl
  kept_other none row_profile name row_name row (some e) stored apart =
      ground (arith, get-insert stored row_name name row.value)
  kept_other (some p) row_profile name row_name row (some e) stored apart =
      ground (arith, get-insert stored row_name name row.value)

  -- A row of this name is seen if it stands in the column of the scope.
  kept_same :
      (d : SettingDef) (profile : Option String) (column row_profile name : String)
      (row : StoredSetting) (stored : Stored)
      → GoesTo d profile column
      → get (kept profile row_profile row name (some d) stored) name
        ≡ (if row_profile == column then some row.value else get stored name)
  unfolding kept
  kept_same d none column row_profile name row stored goes = ground (
    arith,
    get-insert stored name name row.value,
    string_eq.beq_iff name name,
    string_eq.beq_iff row_profile column,
    string_eq.beq_iff row_profile account_profile,
  )
  kept_same d (some p) column row_profile name row stored goes = ground (
    arith,
    get-insert stored name name row.value,
    string_eq.beq_iff name name,
    string_eq.beq_iff row_profile column,
    string_eq.beq_iff row_profile p,
    string_eq.beq_iff row_profile account_profile,
  )

  kept_at :
      (d : SettingDef) (profile : Option String) (column row_profile name row_name : String)
      (row : StoredSetting) (o : Option SettingDef) (stored : Stored)
      → (row_name ≡ name → o ≡ some d)
      → GoesTo d profile column
      → get (kept profile row_profile row row_name o stored) name
        ≡ (if row_profile == column && row_name == name then some row.value else get stored name)
  kept_at d profile column row_profile name row_name row o stored listed goes =
      elim (Bool-cases (row_name == name)) [
        | inl same ↦
            let e = (string_eq.beq_iff row_name name).0 same in
            rw (listed e, e)
              (ground (
                arith,
                string_eq.beq_iff name name,
                kept_same d profile column row_profile name row stored goes,
              ))
        | inr apart ↦
            ground (arith, kept_other profile row_profile name row_name row o stored apart)
      ]

  pub keep_rows-get :
      (d : SettingDef) (profile : Option String) (column name : String)
      (rows : Dict RowKey StoredSetting) (stored : Stored)
      → get (by_qualified catalogue) name ≡ some d
      → GoesTo d profile column
      → KeysUnique rows
      → get (keep_rows py catalogue policy max_value_bytes profile rows stored) name
        ≡ value_or (get rows (column, name)) (get stored name)
  unfolding keep_rows get kept
  keep_rows-get d profile column name [] stored listed goes u = refl
  keep_rows-get d profile column name (((row_profile, row_name), row) ∷ rows) stored listed goes
        (h, u) =
      let o = get (by_qualified catalogue) row_name in
      let later = kept profile row_profile row row_name o stored in
      let at =
        kept_at d profile column row_profile name row_name row o stored
          (λ e. ap (get (by_qualified catalogue)) e ∙ listed) goes in
      ground (
        arith,
        string_eq.beq_iff row_profile column,
        string_eq.beq_iff row_name name,
        at,
        keep_rows-get d profile column name rows later listed goes u,
      )
