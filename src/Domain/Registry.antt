-- ===== src/Domain/Registry.antt =====
-- domain/registry.py: looking things up in the catalogue. `NAMESPACES` are the catalogue's keys.
pub mod Lookup
use settings_api.Prelude.{
  Bool, not, String, Option, none, some, List, filter, if◌then◌else◌, ◌==◌, string_eq, Result, ok,
  err, ◌>>=◌, ◌>>◌,
}
use settings_api.Prelude.Dict.{Dict, get, keys}
use settings_api.Domain.Types.{SettingDef, qualify, retired}
use settings_api.Domain.Errors.{Error, unknown_namespace, unknown_setting}
use settings_api.Domain.Catalogue.{Catalogue, by_qualified}

module _ (catalogue : Catalogue) where
  abbrev pub namespaces : List String
  namespaces = keys catalogue

  abbrev found_entries : String → Option (List SettingDef) → Result Error (List SettingDef)
  found_entries namespace none = err (unknown_namespace namespace)
  found_entries namespace (some entries) = ok entries

  unfoldable pub entries_in : String → Result Error (List SettingDef)
  unfolding get
  entries_in namespace = found_entries namespace (get catalogue namespace)

  unfoldable pub live_entries_in : String → Result Error (List SettingDef)
  unfolding entries_in filter
  live_entries_in namespace = do
    entries ← entries_in namespace
    ok (filter (λ entry. not (retired entry)) entries)

  abbrev found_live : String → String → Option SettingDef → Result Error SettingDef
  found_live namespace key none = err (unknown_setting namespace key)
  found_live namespace key (some entry) =
      if retired entry then err (unknown_setting namespace key) else ok entry

  unfoldable pub definition_for : String → String → Result Error SettingDef
  unfolding entries_in get by_qualified
  definition_for namespace key = do
    entries ← entries_in namespace
    found_live namespace key (get (by_qualified catalogue) (qualify namespace key))
