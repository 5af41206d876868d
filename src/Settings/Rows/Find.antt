-- ===== src/Settings/Rows/Find.antt =====
-- The rows of settings/sql_store.py as a map from primary keys.
use settings_api.Prelude.{
  ◌≡◌, refl, Bool, not, Option, none, some, List, [], ◌∷◌, arith, All, filter, if◌then◌else◌, ◌==◌,
  string_eq, pair_eq, eq_iff,
}
use settings_api.Prelude.Dict.{Dict, get, insert, get-insert}
use settings_api.Domain.Types.{qualify}
use settings_api.Domain.Types.Names.{HasNoDot}
use settings_api.Domain.Catalogue.Qualified.{qualify_inj}
use settings_api.Storage.{SettingRow, PrimaryKey, key_eq, key_beq, key_beq_iff, primary_key}
use settings_api.Settings.Store.{StoredSetting, RowKey, stored_key}
use settings_api.Settings.Rows.{upsert_row, stored_of, collect_rows}

unfoldable pub find_row : PrimaryKey → List SettingRow → Option SettingRow
find_row k [] = none
find_row k (r ∷ rs) = let rest = find_row k rs in if primary_key r == k then some r else rest

pub find_row-upsert :
    (k : PrimaryKey) (new : SettingRow) (rs : List SettingRow)
    → find_row k (upsert_row new rs) ≡ (if primary_key new == k then some new else find_row k rs)
unfolding find_row upsert_row
find_row-upsert k new [] = refl
find_row-upsert k new (r ∷ rs) = ground (
  arith,
  key_beq_iff (primary_key r) (primary_key new),
  key_beq_iff (primary_key r) k,
  key_beq_iff (primary_key new) k,
  find_row-upsert k new rs,
)

pub find_row-delete :
    (k j : PrimaryKey) (rs : List SettingRow)
    → find_row k (filter (λ r. not (primary_key r == j)) rs)
      ≡ (if j == k then none else find_row k rs)
unfolding find_row filter
find_row-delete k j [] = ground arith
find_row-delete k j (r ∷ rs) = ground (
  arith,
  key_beq_iff (primary_key r) j,
  key_beq_iff (primary_key r) k,
  key_beq_iff j k,
  find_row-delete k j rs,
)

-- No two rows have one primary key.
abbrev pub Unique : List SettingRow → Type 0
Unique [] = Unit
Unique (r ∷ rs) = (find_row (primary_key r) rs ≡ none) × Unique rs

pub upsert-Unique :
    (new : SettingRow) (rs : List SettingRow) → Unique rs → Unique (upsert_row new rs)
unfolding upsert_row find_row
upsert-Unique new [] u = ground arith
upsert-Unique new (r ∷ rs) u = ground (
  arith,
  key_beq_iff (primary_key r) (primary_key new),
  key_beq_iff (primary_key new) (primary_key r),
  upsert-Unique new rs,
  find_row-upsert (primary_key r) new rs,
)

find_row-filter_none :
    (p : SettingRow → Bool) (k : PrimaryKey) (rs : List SettingRow)
    → find_row k rs ≡ none
    → find_row k (filter p rs) ≡ none
unfolding find_row filter
find_row-filter_none p k [] h = refl
find_row-filter_none p k (r ∷ rs) h = ground (arith, find_row-filter_none p k rs)

pub filter-Unique :
    (p : SettingRow → Bool) (rs : List SettingRow) → Unique rs → Unique (filter p rs)
unfolding filter
filter-Unique p [] u = tt
filter-Unique p (r ∷ rs) u =
    ground (arith, filter-Unique p rs, find_row-filter_none p (primary_key r) rs)

-- The names of a row hold no dot.
abbrev pub IsNamed : SettingRow → Type 0
IsNamed r = HasNoDot r.namespace × HasNoDot r.key

abbrev pub or_else {ℓ} : {A : Type ℓ} → Option A → Option A → Option A
or_else none b = b
or_else (some a) b = some a

abbrev pub as_stored : Option SettingRow → Option StoredSetting
as_stored none = none
as_stored (some r) = some (stored_of r)

-- Among the rows of one account the name decides the primary key.
name_decides :
    (k : PrimaryKey) (r : SettingRow)
    → IsNamed r
    → r.account_id ≡ k.account_id
    → (stored_key (stored_of r) == (k.profile, qualify k.namespace k.key)) ≡ (primary_key r == k)
unfolding key_beq
name_decides k r (hn, hk) a = ground (
  arith,
  eq_iff r.account_id k.account_id,
  eq_iff r.profile k.profile,
  eq_iff r.namespace k.namespace,
  eq_iff r.key k.key,
  eq_iff (qualify r.namespace r.key) (qualify k.namespace k.key),
  qualify_inj r.namespace r.key k.namespace k.key hn hk,
)

-- What the loop of `_read_state` holds under a row's key is the row of that primary key.
pub get-collect_rows :
    (k : PrimaryKey) (stored : Dict RowKey StoredSetting) (rs : List SettingRow)
    → Unique rs
    → All IsNamed rs
    → get (collect_rows k.account_id stored rs) (k.profile, qualify k.namespace k.key)
      ≡ or_else (as_stored (find_row k rs)) (get stored (k.profile, qualify k.namespace k.key))
unfolding collect_rows find_row
get-collect_rows k stored [] u ns = refl
get-collect_rows k stored (r ∷ rs) u ns =
    let kept = insert stored (stored_key (stored_of r)) (stored_of r) in
    ground (
      arith,
      eq_iff r.account_id k.account_id,
      key_beq_iff (primary_key r) k,
      name_decides k r ns.0,
      get-insert stored (stored_key (stored_of r)) (k.profile, qualify k.namespace k.key)
          (stored_of r),
      get-collect_rows k kept rs u.1 ns.1,
      get-collect_rows k stored rs u.1 ns.1,
    )
