-- ===== src/Settings/SqlStore.antt =====
-- settings/sql_store.py: one account's choices as rows, with the revision that tracks them.
pub mod Changes
pub mod Effects
pub mod Revision
pub mod Apply
pub mod Logged
pub mod Sound
pub mod Forget
pub mod Purge
pub mod Returns
pub mod Ideal
pub mod Others
pub mod Raises
pub mod Refinement
pub mod Unmoved
pub mod Cap
use settings_api.Prelude.{
  is_nil, ℕ, suc, ◌+◌, Bool, true, false, not, ◌&&◌, ◌||◌, String, Option, none, some, List, [],
  ◌∷◌, ◌++◌, map, length, filter, any, contains, dedup, is_some, if◌then◌else◌, ◌==◌, string_eq,
  pair_eq, nat_eq, leb, ltb,
}
use settings_api.Prelude.Text.{partition_dot}
use settings_api.Prelude.Dict.{Dict, get, insert, has_key}
use settings_api.Domain.Value.{Value, py_eq}
use settings_api.Domain.Types.{qualify, account_profile}
use settings_api.Domain.Errors.{
  Error, revision_mismatch, invalid_value, too_many_profiles, integrity_error,
}
use settings_api.Storage.{Instant, Detail, purge_retired, AccountRow, SettingRow, primary_key, Db}
use settings_api.Storage.Exec.{Exec, pure, raise, gets, modify, raise_when, ◌>>=◌, ◌>>◌, transact}
use settings_api.Events.{Appended, append_in, delete_for_account_in}
use settings_api.Settings.Store.{
  StoredSetting, RowKey, stored_key, AccountState, Change, change_name, change_key, Applied, Write,
  max_profiles_per_account,
}
use settings_api.Settings.Rows.{
  account_is, revision_of, read_state, ensure_account, exceeds_profile_cap, upsert, delete_row,
}

-- `existing is not None and existing.value == change.value`
abbrev pub is_unchanged : Option StoredSetting → Value → Bool
is_unchanged none v = false
is_unchanged (some s) v = py_eq s.value v

module _ (account_id : String) (state : AccountState) (now : Instant) (actor : String) where
  abbrev new_row : Change → SettingRow
  new_row c = record {
    account_id = account_id;
    profile = c.profile;
    namespace = c.namespace;
    key = c.key;
    value = c.value;
    set_at = now;
    set_by = actor;
  }

  -- One round of the loop of `_apply_changes`: the names that it adds to `changed`.
  unfoldable pub apply_change : Change → Exec (List String)
  unfolding upsert
  apply_change c =
      if c.reset
      then if is_some (get state.rows (change_key c))
        then (do modify (delete_row (primary_key (new_row c))); pure (change_name c ∷ []))
        else pure []
      else if is_unchanged (get state.rows (change_key c)) c.value
      then pure []
      else (do upsert (new_row c); pure (change_name c ∷ []))

  -- `_apply_changes`: every change is compared with the state from before the first.
  unfoldable pub apply_changes : List Change → Exec (List String)
  unfolding apply_change
  apply_changes [] = pure []
  apply_changes (c ∷ cs) = do
    changed ← apply_change c
    later ← apply_changes cs
    pure (changed ++ later)

-- `_bump`: the account's row at the next revision, and what it became.
unfoldable pub bump_rows : String → Instant → List AccountRow → List AccountRow
bump_rows account_id now [] = []
bump_rows account_id now (r ∷ rs) =
    let rest = bump_rows account_id now rs in
    if account_is account_id r
    then record r { revision = r.revision + 1; updated_at = now } ∷ rest
    else r ∷ rest

unfoldable pub bump : String → Instant → Exec ℕ
bump account_id now = do
  modify (λ db. record db { accounts = bump_rows account_id now db.accounts })
  gets (λ db. revision_of db account_id)

abbrev namespace_in : String → String
namespace_in name = (partition_dot name).0

abbrev only : List String → Option String
only (n ∷ []) = some n
only _ = none

-- `_common_namespace`
unfoldable pub common_namespace : List String → Option String
unfolding partition_dot dedup
common_namespace changed = only (dedup (map namespace_in changed))

-- `_common_key`; every name in `changed` holds a dot.
unfoldable pub common_key : List String → Option String
unfolding partition_dot
common_key (name ∷ []) = some (partition_dot name).2
common_key _ = none

abbrev pub is_stale : Option ℕ → ℕ → Bool
is_stale none revision = false
is_stale (some expected) revision = not (expected == revision)

abbrev pub expected_or : Option ℕ → ℕ
expected_or none = 0
expected_or (some n) = n

abbrev pub event_of : String → Write → ℕ → List String → Appended
event_of account_id w revision changed = record {
  account_id = account_id;
  at = w.now;
  action = w.action;
  namespace = common_namespace changed;
  key = common_key changed;
  revision = revision;
  actor = w.actor;
  service = w.service;
  detail = some (record { changed = changed; count = length changed });
}

-- What follows `_apply_changes`.
unfoldable pub record_changes : String → Write → ℕ → List String → Exec Applied
record_changes account_id w revision changed =
    if is_nil changed then pure (record { revision = revision; changed = [] }) else (do
      next ← bump account_id w.now
      modify (append_in (event_of account_id w next changed) w.event_cap)
      pure (record { revision = next; changed = changed }))

-- `work` of `SqlSettingsStore.apply`
unfoldable pub apply_work : String → Write → Exec Applied
apply_work account_id w = do
  modify (ensure_account account_id w.now)
  state ← gets (read_state account_id)
  raise_when (is_stale w.if_revision state.revision)
      (revision_mismatch state.revision (expected_or w.if_revision))
  raise_when (exceeds_profile_cap w.changes state) (invalid_value "profile" too_many_profiles)
  changed ← apply_changes account_id state w.now w.actor w.changes
  record_changes account_id w state.revision changed

-- `SqlSettingsStore.apply`
unfoldable pub apply : String → Write → Exec Applied
apply account_id w = transact (apply_work account_id w)

-- `SqlSettingsStore.forget`
unfoldable pub forget_work : String → Exec ℕ
unfolding filter
forget_work account_id = do
  removed ← gets (λ db. length (filter (λ r. r.account_id == account_id) db.settings))
  modify (λ db. record db { settings = filter (λ r. not (r.account_id == account_id)) db.settings })
  modify (delete_for_account_in account_id)
  modify (λ db. record db { accounts = filter (λ r. not (account_is account_id r)) db.accounts })
  pure removed

unfoldable pub forget : String → Exec ℕ
forget account_id = transact (forget_work account_id)

-- `WHERE namespace = ? AND key = ?`
abbrev pub is_setting : String → String → SettingRow → Bool
is_setting namespace key r = r.namespace == namespace && r.key == key

-- One event for each row that the `SELECT` found, at the account's revision.
unfoldable pub append_purges : String → String → Instant → ℕ → List SettingRow → Db → Db
append_purges namespace key now event_cap [] db = db
append_purges namespace key now event_cap (r ∷ rs) db =
    append_purges namespace key now event_cap rs (
      append_in
        (record {
          account_id = r.account_id;
          at = now;
          action = purge_retired;
          namespace = some namespace;
          key = some key;
          revision = revision_of db r.account_id;
          actor = "sweeper";
          service = none;
          detail = some (record { changed = qualify namespace key ∷ []; count = 1 });
        })
        event_cap db)

-- `SqlSettingsStore.purge_setting`
unfoldable pub purge_setting : String → String → Instant → ℕ → Exec ℕ
unfolding filter
purge_setting namespace key now event_cap = transact (do
  affected ← gets (λ db. filter (is_setting namespace key) db.settings)
  if is_nil affected then pure 0 else do
    modify
        (λ db. record db { settings = filter (λ r. not (is_setting namespace key r)) db.settings })
    modify (append_purges namespace key now event_cap affected)
    pure (length affected))
