-- ===== src/Settings/Service/Reads.antt =====
-- The reading operations of `SettingsService`.
use Prim.Native.String.{compare}
use text.Mathlib.Text.{is_lt}
use settings_api.Prelude.{
  ℕ, Bool, not, String, Option, none, some, List, [], ◌∷◌, any, contains, dedup, if◌then◌else◌,
  ◌==◌, string_eq, Result, ok, ◌>>=◌, ◌>>◌,
}
use settings_api.Prelude.Dict.{Dict, get, insert}
use settings_api.Domain.Platform.{Platform}
use settings_api.Domain.Types.{SettingDef, account_profile, is_profile_scoped}
use settings_api.Domain.Errors.{Error}
use settings_api.Domain.Catalogue.{Catalogue, by_qualified}
use settings_api.Domain.Registry.{live_entries_in}
use settings_api.Domain.Policy.{Policy}
use settings_api.Domain.Resolution.{Resolved, Stored, resolve}
use settings_api.Domain.Resolution
use settings_api.Identity.{Identity}
use settings_api.Storage.{EventRow, Db}
use settings_api.Events
use settings_api.Settings.Store.{StoredSetting, RowKey, AccountState, stored_key}
use settings_api.Settings.Rows.{read_state}
use settings_api.Settings.Service.{Document, normalise_profile, permit, definition, stored_for}
use settings_api.Settings.Service.Writes.{etag, set_default}

-- `Document`: what is answered, and the revision that it was read at.
pub record Answer : Type 0 where
  pub namespaces : Dict String (Dict String Resolved)
  pub revision : ℕ
  pub etag : List ℕ

-- `_document`
abbrev pub answer_of : Identity → AccountState → Dict String (Dict String Resolved) → Answer
answer_of identity state found = record {
  namespaces = found;
  revision = state.revision;
  etag = etag identity.account_id state.revision;
}

-- `sorted`, by code points.
unfoldable pub insert_sorted : String → List String → List String
insert_sorted s [] = s ∷ []
insert_sorted s (t ∷ ts) =
    let rest = insert_sorted s ts in if is_lt (compare s t) then s ∷ t ∷ ts else t ∷ rest

unfoldable pub sorted : List String → List String
unfolding insert_sorted
sorted [] = []
sorted (s ∷ ss) = insert_sorted s (sorted ss)

-- `Export`, without its version and its time.
pub record Export : Type 0 where
  pub revision : ℕ
  pub settings : Document
  pub profiles : Dict String Document

-- `profiles.setdefault(profile, {}).setdefault(namespace, {})[key] = value`
abbrev profile_or_empty : Option Document → Document
profile_or_empty none = []
profile_or_empty (some d) = d

unfoldable pub export_row : StoredSetting → SettingDef → Export → Export
unfolding get insert set_default
export_row row d found =
    if not (is_profile_scoped d)
    then (if row.profile == account_profile
        then record found { settings = set_default found.settings row.namespace row.key row.value }
        else found)
    else if row.profile == account_profile
    then found
    else record found {
      profiles = insert found.profiles row.profile (
          set_default (profile_or_empty (get found.profiles row.profile)) row.namespace row.key
            row.value);
    }

module _ (py : Platform) (catalogue : Catalogue) (policy : Policy) (max_value_bytes : ℕ) where
  abbrev permitted : Identity → String → Result Error (Unit {0})
  permitted = permit py catalogue policy max_value_bytes

  abbrev stored_of_state : AccountState → Option String → Stored
  stored_of_state = stored_for py catalogue policy max_value_bytes

  -- The comprehension of `get_all`.
  unfoldable pub resolve_all :
      Stored
      → List String
      → Dict String (Dict String Resolved)
      → Result Error (Dict String (Dict String Resolved))
  unfolding insert
  resolve_all stored [] found = ok found
  resolve_all stored (namespace ∷ names) found = do
    resolved ← Resolution.resolve_namespace policy catalogue namespace stored
    resolve_all stored names (insert found namespace resolved)

  -- `get_all`, and `describe`
  unfoldable pub get_all : Identity → Option String → Db → Result Error Answer
  unfolding sorted dedup read_state
  get_all identity profile db = do
    p ← normalise_profile profile
    let state = read_state identity.account_id db
    found ← resolve_all (stored_of_state state p) (sorted (dedup identity.namespaces)) []
    ok (answer_of identity state found)

  -- `get_namespace`
  unfoldable pub get_namespace : Identity → String → Option String → Db → Result Error Answer
  unfolding read_state
  get_namespace identity namespace profile db = do
    p ← normalise_profile profile
    permitted identity namespace
    let state = read_state identity.account_id db
    resolved ← Resolution.resolve_namespace policy catalogue namespace (stored_of_state state p)
    ok (answer_of identity state ((namespace, resolved) ∷ []))

  -- `get_setting`
  unfoldable pub get_setting :
      Identity → String → String → Option String → Db → Result Error Resolved
  get_setting identity namespace key profile db = do
    p ← normalise_profile profile
    d ← definition py catalogue policy max_value_bytes identity namespace key
    ok (resolve policy d (stored_of_state (read_state identity.account_id db) p))

  -- `resolve_for`
  unfoldable pub resolve_for : Identity → String → Option String → Db → Result Error Answer
  unfolding read_state
  resolve_for identity namespace profile db = do
    p ← normalise_profile profile
    permitted identity namespace
    let state = read_state identity.account_id db
    resolved ← Resolution.resolve_for_service policy catalogue namespace (stored_of_state state p)
    ok (answer_of identity state ((namespace, resolved) ∷ []))

  -- `_is_live`; `live_entries_in` raises on a namespace that is gone.
  unfoldable pub is_live : String → String → Result Error Bool
  unfolding live_entries_in any
  is_live namespace key = do
    live ← live_entries_in catalogue namespace
    ok (any (λ d. d.key == key) live)

  abbrev pub export_known : StoredSetting → Option SettingDef → Export → Export
  export_known row none found = found
  export_known row (some d) found = export_row row d found

  -- The loop of `export`; a live key is in the index.
  unfoldable pub export_rows : Identity → Dict RowKey StoredSetting → Export → Result Error Export
  unfolding contains get by_qualified export_row is_live
  export_rows identity [] found = ok found
  export_rows identity ((k, row) ∷ rows) found =
      let skipped = export_rows identity rows found in
      let kept =
        export_rows identity rows
          (export_known row (get (by_qualified catalogue) (stored_key row).1) found) in
      if not (contains identity.namespaces row.namespace)
      then skipped
      else (do live ← is_live row.namespace row.key; if live then kept else skipped)

  -- `export`
  unfoldable pub export : Identity → Db → Result Error Export
  unfolding read_state
  export identity db =
      let state = read_state identity.account_id db in
      export_rows identity state.rows
        (record { revision = state.revision; settings = []; profiles = [] })

-- `read_events`
abbrev pub read_events : Identity → ℕ → Option ℕ → Db → List EventRow
read_events identity limit before db = Events.read identity.account_id limit before db
