-- ===== src/Domain/Catalogue.antt =====
-- domain/catalogue/__init__.py: the namespaces put together and checked at import. A namespace
-- module is its `NAMESPACE` and its `SETTINGS`; the list holds the built-in modules, then those that
-- installed packages register.
pub mod Qualified
pub mod Assembled
pub mod Exact
pub mod Entry
pub mod Common
pub mod Keyring
pub mod User
pub mod Persona
pub mod Memory
pub mod Lucy
pub mod Spotify
pub mod Search
pub mod Environments
pub mod Github
pub mod BuiltIn
use mathlib.Core.List.{foldl}
use settings_api.Prelude.{
  Bool, not, String, List, [], ◌∷◌, ◌++◌, contains, if◌then◌else◌, ◌==◌, string_eq, Result, ok, err,
  raise_if, ◌>>=◌, ◌>>◌, map_err,
}
use settings_api.Prelude.Dict.{Dict, insert, has_key, get}
use settings_api.Domain.Platform.{Platform}
use settings_api.Domain.Types.{SettingDef, Rule, qualified}
use settings_api.Domain.Types.Check.{check}

abbrev pub common : String
common = "common"

abbrev pub Catalogue : Type 0
Catalogue = Dict String (List SettingDef)

abbrev pub NamespaceModule : Type 0
NamespaceModule = String × List SettingDef

-- The `ValueError`s of `_assemble`.
pub data AssemblyError : Type 0 where
  two_modules : String → AssemblyError
  misplaced declared_twice : (setting : String) → AssemblyError
  bad_entry : (setting : String) → Rule → AssemblyError

module _ (py : Platform) where
  -- The inner loop; `seen` holds the keys of the entries above.
  unfoldable pub check_entries :
      String → List String → List SettingDef → Result AssemblyError (Unit {0})
  unfolding contains
  check_entries namespace seen [] = ok tt
  check_entries namespace seen (entry ∷ entries) =
      let rest = check_entries namespace (entry.key ∷ seen) entries in
      (do
        raise_if (not (entry.namespace == namespace)) (misplaced (qualified entry))
        raise_if (contains seen entry.key) (declared_twice (qualified entry))
        map_err (bad_entry (qualified entry)) (check py entry)
        rest)

  unfoldable pub assemble_from : Catalogue → List NamespaceModule → Result AssemblyError Catalogue
  unfolding check_entries insert get
  assemble_from catalogue [] = ok catalogue
  assemble_from catalogue ((namespace, entries) ∷ modules) =
      let rest = assemble_from (insert catalogue namespace entries) modules in
      (do
        raise_if (has_key catalogue namespace) (two_modules namespace)
        check_entries namespace [] entries
        rest)

  -- `_assemble`
  abbrev pub assemble : List NamespaceModule → Result AssemblyError Catalogue
  assemble = assemble_from []

-- `every_entry` of domain/registry.py: namespace by namespace, in declared order.
unfoldable pub every_entry : Catalogue → List SettingDef
every_entry [] = []
every_entry ((namespace, entries) ∷ rest) = entries ++ every_entry rest

-- The comprehension of `BY_QUALIFIED`: a later entry replaces an earlier one of its name.
unfoldable pub index_entries : Dict String SettingDef → List SettingDef → Dict String SettingDef
unfolding insert
index_entries index [] = index
index_entries index (entry ∷ entries) = index_entries (insert index (qualified entry) entry) entries

unfoldable pub by_qualified : Catalogue → Dict String SettingDef
unfolding index_entries every_entry
by_qualified catalogue = index_entries [] (every_entry catalogue)
