-- ===== src/Tests/Service.antt =====
-- A request to set `voice.volume`, from its token to the rows.
use settings_api.Prelude.{
  ◌≡◌, refl, arith, eq_iff, All, true, false, none, some, [], ◌∷◌, string_eq, nat_eq, pair_eq, ok,
  err,
}
use settings_api.Prelude.Int.{pos}
use settings_api.Domain.Value.{int, py_eq}
use settings_api.Domain.Catalogue.Assembled.{assemble-ModuleOk}
use settings_api.Domain.Errors.{invalid_value, broken_rule}
use settings_api.Domain.Values
use settings_api.Domain.Values.{Acceptable, validate_iff-Acceptable}
use settings_api.Domain.Resolution.{Source, Resolved}
use settings_api.Identity.{Identity}
use settings_api.Storage.{Db}
use settings_api.Settings.Store.{Change}
use settings_api.Settings.SqlStore
use settings_api.Settings.Rows.{revision_of}
use settings_api.Settings.SqlStore.Changes.{value_at}
use settings_api.Settings.SqlStore.Apply.{IsSound}
use settings_api.Settings.SqlStore.Sound.{apply-IsSound}
use settings_api.Settings.SqlStore.Forget.{view, fresh, forget-erases}
use settings_api.Settings.SqlStore.Purge.{purge_setting-value}
use settings_api.Settings.Service.{
  changes_for, normalise_profile, definition, permit, change_for, check_writable, find_all,
  pending_changes, index_by_key, find_entries, require_profile_for, storage_profile,
}
use settings_api.Domain.Registry.{live_entries_in}
use settings_api.Settings.Service.Writes.{
  apply_changes_of, set_changes, update_changes, etag, Request, Written, set_setting,
}
use settings_api.Settings.Service.Reads.{get_setting}
use settings_api.Settings.Service.Guards.{IsPermitted, changes_for-IsPermitted}
use settings_api.Settings.Service.Reset.{reset_setting-get_setting}
use settings_api.Settings.Service.Writes.{reset_setting, reset_changes}
use settings_api.Settings.Service.ReadBack.{set_setting-get_setting}
use settings_api.Domain.Json.{Json, obj, field, end}
use settings_api.Domain.Types.{above_maximum}
use settings_api.Domain.Policy.{Policy}
use settings_api.Domain.Policy.Parse.{parse}
use settings_api.Tests.{machine, volume}
use settings_api.Tests.Domain.{modules, assembled, runs_domain}
use settings_api.Tests.Store.{
  tables, tables-IsSound, runs_store, write, applied, after, returned, volume_row, writes_named,
  change,
}

abbrev pub ada : Identity
ada = record {
  account_id = "ada";
  audience = "settings";
  namespaces = "voice" ∷ [];
  service = none;
}

abbrev request : Request
request = record { identity = ada; now = 20; event_cap = 500; if_revision = none }

-- Everything that a request runs.
unfoldable pub runs_service : Unit {0}
unfolding runs_store runs_domain set_setting set_changes update_changes normalise_profile definition
    permit change_for check_writable Values.validate Values.refuse_credentials Values.check_size
    apply_changes_of changes_for find_all pending_changes live_entries_in index_by_key find_entries
    require_profile_for storage_profile
runs_service = tt

-- `{"voice": {"volume": {"maximum": 8}}}`
abbrev narrowing : Json
narrowing =
    obj
      (field "voice" (obj (field "volume" (obj (field "maximum" (Json.int (pos 8)) end)) end)) end)

abbrev pub narrowed : Policy
narrowed = record {
  overrides = ("voice.volume", record volume { maximum = some (pos 8) }) ∷ [];
  pins = [];
}

parsed_narrowing : parse machine modules narrowing ≡ ok narrowed
unfolding runs_domain
parsed_narrowing = refl

abbrev done : Written
done = record { revision = 2; etag = etag "ada" 2; changed = "voice.volume" ∷ [] }

abbrev tables_after : Db
tables_after =
    (set_setting machine modules narrowed 1000 request "voice" "volume" (int (pos 7)) none tables).1

set_done :
    set_setting machine modules narrowed 1000 request "voice" "volume" (int (pos 7)) none tables
    ≡ (ok done, tables_after)
unfolding runs_service
set_done = refl

set_refused :
    set_setting machine modules narrowed 1000 request "voice" "volume" (int (pos 9)) none tables
    ≡ (err (invalid_value "voice.volume" (broken_rule above_maximum)), tables)
unfolding runs_service
set_refused = refl

set_setting-get_setting_example :
    (r : Resolved) × (get_setting machine modules narrowed 1000 ada "voice" "volume" none
        tables_after
      ≡ ok r)
    × (py_eq r.value (int (pos 7)) ≡ true)
    × (r.source ≡ Source.account)
    × (r.pinned ≡ false)
set_setting-get_setting_example =
    set_setting-get_setting machine modules narrowed 1000 modules narrowing request "voice" "volume"
      (int (pos 7)) none tables tables_after done assembled parsed_narrowing tables-IsSound set_done

abbrev set_to_seven : Change
set_to_seven = change "volume" (int (pos 7)) false

all_checked :
    changes_for machine modules narrowed 1000 ada none
      (("voice", ("volume", int (pos 7)) ∷ []) ∷ [])
    ≡ ok (set_to_seven ∷ [])
unfolding runs_service
all_checked = refl

changes_for-IsPermitted_example :
    All (IsPermitted machine modules narrowed 1000 ada none) (set_to_seven ∷ [])
changes_for-IsPermitted_example =
    changes_for-IsPermitted machine modules narrowed 1000 ada none
      (("voice", ("volume", int (pos 7)) ∷ []) ∷ []) (set_to_seven ∷ [])
      (assemble-ModuleOk machine modules modules assembled) all_checked

forget-erases_example :
    let (removed, left) = SqlStore.forget "ada" tables in
    (removed ≡ ok 1) × (view "ada" left ≡ (fresh, [])) × (view "bob" left ≡ view "bob" tables)
unfolding runs_store
forget-erases_example = forget-erases "ada" "bob" tables (ground (arith, eq_iff "ada" "bob"))

purge_setting-value_example :
    let (removed, left) = SqlStore.purge_setting "voice" "volume" 30 500 tables in
    (removed ≡ ok 1)
    × (value_at left volume_row ≡ none)
    × (revision_of left "ada" ≡ revision_of tables "ada")
unfolding runs_store
purge_setting-value_example = purge_setting-value "voice" "volume" 30 500 tables volume_row "ada"

apply-IsSound_example : IsSound after
apply-IsSound_example =
    apply-IsSound "ada" (write (some 1)) tables applied after writes_named tables-IsSound returned

abbrev reset_answer : Written
reset_answer = record { revision = 2; etag = etag "ada" 2; changed = "voice.volume" ∷ [] }

abbrev tables_reset : Db
tables_reset = (reset_setting machine modules narrowed 1000 request "voice" "volume" none tables).1

reset_done :
    reset_setting machine modules narrowed 1000 request "voice" "volume" none tables
    ≡ (ok reset_answer, tables_reset)
unfolding runs_service reset_setting reset_changes
reset_done = refl

reset_setting-get_setting_example :
    (r : Resolved) × (get_setting machine modules narrowed 1000 ada "voice" "volume" none
        tables_reset
      ≡ ok r)
    × (r.value ≡ r.definition.default)
    × (r.set_by_account ≡ false)
    × (r.pinned ≡ false)
reset_setting-get_setting_example =
    reset_setting-get_setting machine modules narrowed 1000 modules narrowing request "voice"
      "volume" none tables tables_reset reset_answer assembled parsed_narrowing tables-IsSound
      reset_done
