-- ===== src/Settings/Service.antt =====
-- settings/service.py: where a request becomes a change. Logging is not modelled.
pub mod Writes
pub mod Reads
pub mod Guards
pub mod Kept
pub mod ReadBack
pub mod Reset
use settings_api.Prelude.{
  is_nil, ℕ, Bool, true, false, not, ◌&&◌, ◌||◌, String, Option, none, some, List, [], ◌∷◌, ◌++◌,
  map, filter, any, is_some, if◌then◌else◌, ◌==◌, string_eq, Result, ok, err, raise_if, map_m,
  ◌>>=◌, ◌>>◌,
}
use settings_api.Prelude.Dict.{Dict, get, insert, keys}
use settings_api.Domain.Platform.{Platform}
use settings_api.Domain.Value.{Value, null}
use settings_api.Domain.Types.{
  SettingDef, SettingScope, account_profile, qualify, qualified, is_profile_scoped,
}
use settings_api.Domain.Types.Names.{is_profile_name}
use settings_api.Domain.Errors.{
  Error, unknown_settings, setting_scope, setting_not_writable, setting_pinned, invalid_value,
  bad_profile,
}
use settings_api.Domain.Catalogue.{Catalogue, by_qualified}
use settings_api.Domain.Registry.{namespaces, live_entries_in, definition_for}
use settings_api.Domain.Namespaces.{require_known, require_granted}
use settings_api.Domain.Policy.{Policy, definition_of, is_pinned}
use settings_api.Domain.Resolution.{Stored}
use settings_api.Domain.Values
use settings_api.Identity.{Identity}
use settings_api.Settings.Store.{StoredSetting, RowKey, AccountState, Change}

-- A document: namespace, then key, then value.
abbrev pub Document : Type 0
Document = Dict String (Dict String Value)

-- `_normalise_profile`
unfoldable pub normalise_profile : Option String → Result Error (Option String)
unfolding is_profile_name
normalise_profile none = ok none
normalise_profile (some p) =
    if p == ""
    then ok none
    else if not (is_profile_name p)
    then err (invalid_value "profile" bad_profile)
    else ok (some p)

abbrev pub profile_or : SettingDef → Option String → Result Error String
profile_or d none = err (setting_scope (qualified d ∷ []))
profile_or d (some p) = ok p

-- `_storage_profile`
unfoldable pub storage_profile : SettingDef → Option String → Result Error String
storage_profile d profile =
    if not (is_profile_scoped d) then ok account_profile else profile_or d profile

-- `_require_profile_for`
unfoldable pub require_profile_for : List SettingDef → Option String → Result Error (Unit {0})
unfolding filter
require_profile_for ds (some p) = ok tt
require_profile_for ds none =
    let missing = map qualified (filter is_profile_scoped ds) in
    raise_if (not (is_nil missing)) (setting_scope missing)

-- What the loop of `_changes_for` has found: the names that are no setting, and the rest.
pub record Found : Type 0 where
  pub unknown : List String
  pub pending : List (SettingDef × Value)

-- `{entry.key: entry for entry in entries}`
unfoldable pub index_by_key : Dict String SettingDef → List SettingDef → Dict String SettingDef
unfolding insert
index_by_key index [] = index
index_by_key index (d ∷ ds) = index_by_key (insert index d.key d) ds

abbrev pub found_or : Option SettingDef → String → Value → Found → Found
found_or none name v found = record found { unknown = found.unknown ++ name ∷ [] }
found_or (some d) name v found = record found { pending = found.pending ++ (d, v) ∷ [] }

unfoldable pub find_entries : String → Dict String SettingDef → Dict String Value → Found → Found
unfolding get
find_entries namespace known [] found = found
find_entries namespace known ((key, v) ∷ entries) found =
    find_entries namespace known entries (found_or (get known key) (qualify namespace key) v found)

module _ (py : Platform) (catalogue : Catalogue) (policy : Policy) (max_value_bytes : ℕ) where
  -- `_permit`
  unfoldable pub permit : Identity → String → Result Error (Unit {0})
  unfolding require_known require_granted
  permit identity namespace = do
    require_known namespace (namespaces catalogue)
    require_granted namespace identity.namespaces

  -- `_definition`
  unfoldable pub definition : Identity → String → String → Result Error SettingDef
  unfolding definition_for
  definition identity namespace key = do
    permit identity namespace
    definition_for catalogue namespace key

  -- `_may_write`
  unfoldable pub may_write : Identity → SettingDef → Bool
  unfolding is_pinned
  may_write identity d =
      not (is_pinned policy d) && not (d.owner_writable_only && is_some identity.service)

  -- `_check_writable`
  unfoldable pub check_writable : Identity → SettingDef → Result Error (Unit {0})
  unfolding is_pinned
  check_writable identity d = do
    raise_if (is_pinned policy d) (setting_pinned (qualified d))
    raise_if (d.owner_writable_only && is_some identity.service)
        (setting_not_writable (qualified d))

  -- `_change_for`
  unfoldable pub change_for : Identity → Option String → SettingDef → Value → Result Error Change
  unfolding definition_of storage_profile
  change_for identity profile d v = do
    check_writable identity d
    checked ← Values.validate py (definition_of policy d) v max_value_bytes
    p ← storage_profile d profile
    ok (record {
      namespace = d.namespace;
      key = d.key;
      value = checked;
      reset = false;
      profile = p;
    })

  -- The two loops of `_changes_for`.
  unfoldable pub find_all : Identity → Document → Found → Result Error Found
  unfolding live_entries_in index_by_key find_entries
  find_all identity [] found = ok found
  find_all identity ((namespace, entries) ∷ document) found = do
    permit identity namespace
    live ← live_entries_in catalogue namespace
    find_all identity document (find_entries namespace (index_by_key [] live) entries found)

  unfoldable pub pending_changes :
      Identity → Option String → List (SettingDef × Value) → Result Error (List Change)
  pending_changes identity profile [] = ok []
  pending_changes identity profile ((d, v) ∷ pending) = do
    c ← change_for identity profile d v
    cs ← pending_changes identity profile pending
    ok (c ∷ cs)

  -- `_changes_for`
  unfoldable pub changes_for : Identity → Option String → Document → Result Error (List Change)
  changes_for identity profile document = do
    found ← find_all identity document (record { unknown = []; pending = [] })
    raise_if (not (is_nil found.unknown)) (unknown_settings found.unknown)
    require_profile_for (map (λ p. p.0) found.pending) profile
    pending_changes identity profile found.pending

  -- The body of the loop of `_stored_for`.
  abbrev pub keep_row :
      Option String → String → StoredSetting → String → Option SettingDef → Stored → Stored
  keep_row profile row_profile row name none stored = stored
  keep_row profile row_profile row name (some d) stored =
      if not (is_profile_scoped d)
      then if row_profile == account_profile then insert stored name row.value else stored
      else elim profile [
        | none ↦ stored
        | some p ↦ if row_profile == p then insert stored name row.value else stored
      ]

  unfoldable pub keep_rows : Option String → Dict RowKey StoredSetting → Stored → Stored
  unfolding insert get by_qualified
  keep_rows profile [] stored = stored
  keep_rows profile (((row_profile, name), row) ∷ rows) stored =
      keep_rows profile rows
        (keep_row profile row_profile row name (get (by_qualified catalogue) name) stored)

  -- `_stored_for`
  abbrev pub stored_for : AccountState → Option String → Stored
  stored_for state profile = keep_rows profile state.rows []
