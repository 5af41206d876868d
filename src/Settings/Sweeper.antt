-- ===== src/Settings/Sweeper.antt =====
-- settings/sweeper.py: destroying the rows of keys that left the catalogue. A day is its ordinal; the
-- checkpoint that follows a sweep is the file's, and not modelled.
pub mod Due
pub mod Swept
use settings_api.Prelude.{
  ℕ, ◌+◌, ◌-◌, Bool, false, String, Option, none, some, List, [], ◌∷◌, if◌then◌else◌, leb, ltb,
}
use settings_api.Domain.Platform.{Platform}
use settings_api.Domain.Types.{SettingDef}
use settings_api.Domain.Catalogue.{Catalogue, every_entry}
use settings_api.Storage.{Instant}
use settings_api.Storage.Exec.{Exec, pure, ◌>>=◌}
use settings_api.Settings.SqlStore.{purge_setting}

-- `now().date() - timedelta(days=...)`: the first day is 1, and an earlier one raises OverflowError.
unfoldable pub cutoff_of : ℕ → ℕ → Option ℕ
cutoff_of retention_days today =
    if leb today retention_days then none else some (today - retention_days)

module _ (py : Platform) (cutoff : ℕ) where
  -- `none` where `date.fromisoformat` raises.
  abbrev pub is_before : Option ℕ → Option Bool
  is_before none = none
  is_before (some day) = some (ltb day cutoff)

  abbrev pub is_due : Option String → Option Bool
  is_due none = some false
  is_due (some text) = is_before (py.from_iso_date text)

  abbrev pub add_due :
      SettingDef → Option Bool → Option (List SettingDef) → Option (List SettingDef)
  add_due d none rest = none
  add_due d (some b) none = none
  add_due d (some b) (some ds) = some (if b then d ∷ ds else ds)

  -- The comprehension of `due`; `none` where a date does not parse.
  unfoldable pub due_of : List SettingDef → Option (List SettingDef)
  due_of [] = some []
  due_of (d ∷ ds) = let rest = due_of ds in add_due d (is_due d.retired_at) rest

abbrev pub due_before : Platform → Catalogue → Option ℕ → Option (List SettingDef)
due_before py catalogue none = none
due_before py catalogue (some cutoff) = due_of py cutoff (every_entry catalogue)

-- `due`
unfoldable pub due : Platform → ℕ → ℕ → Catalogue → Option (List SettingDef)
unfolding due_of every_entry cutoff_of
due py retention_days today catalogue = due_before py catalogue (cutoff_of retention_days today)

-- The loop of `sweep_once`: each purge is a transaction of its own.
unfoldable pub sweep : List SettingDef → Instant → ℕ → Exec ℕ
sweep [] now event_cap = pure 0
sweep (d ∷ ds) now event_cap = do
  removed ← purge_setting d.namespace d.key now event_cap
  more ← sweep ds now event_cap
  pure (removed + more)
