-- ===== src/Settings/Rows.antt =====
-- settings/sql_store.py: its statements and reads over the tables, one function each.
pub mod Find
use Prim.Native.String.{count}
use Prim.Native.Char.{code}
use settings_api.Prelude.{
  is_nil, ℕ, suc, ◌+◌, Bool, true, false, not, ◌&&◌, ◌||◌, String, Option, none, some, List, [],
  ◌∷◌, ◌++◌, length, filter, any, contains, dedup, is_some, if◌then◌else◌, ◌==◌, string_eq, pair_eq,
  nat_eq, leb, ltb,
}
use settings_api.Prelude.Dict.{Dict, get, insert, has_key}
use settings_api.Domain.Value.{Value, py_eq}
use settings_api.Domain.Types.{account_profile}
use settings_api.Domain.Errors.{
  Error, revision_mismatch, invalid_value, too_many_profiles, integrity_error,
}
use settings_api.Storage.{
  Instant, Detail, purge_retired, AccountRow, SettingRow, PrimaryKey, key_eq, key_beq, primary_key,
  Db,
}
use settings_api.Storage.Exec.{Exec, pure, raise, gets, modify, raise_when, ◌>>=◌, ◌>>◌, transact}
use settings_api.Events.{Appended, append_in, delete_for_account_in}
use settings_api.Settings.Store.{
  StoredSetting, RowKey, stored_key, AccountState, Change, change_name, change_key, Applied, Write,
  max_profiles_per_account,
}

-- `WHERE account_id = ?`
abbrev pub account_is : String → AccountRow → Bool
account_is account_id r = r.account_id == account_id

unfoldable pub find_account : String → List AccountRow → Option AccountRow
find_account account_id [] = none
find_account account_id (r ∷ rs) =
    let rest = find_account account_id rs in if account_is account_id r then some r else rest

abbrev pub revision_or_zero : Option AccountRow → ℕ
revision_or_zero none = 0
revision_or_zero (some r) = r.revision

-- `_revision_of`
unfoldable pub revision_of : Db → String → ℕ
unfolding find_account
revision_of db account_id = revision_or_zero (find_account account_id db.accounts)

abbrev pub stored_of : SettingRow → StoredSetting
stored_of r = record {
  namespace = r.namespace;
  key = r.key;
  value = r.value;
  set_at = r.set_at;
  set_by = r.set_by;
  profile = r.profile;
}

-- The loop of `_read_state` over the account's rows.
unfoldable pub collect_rows :
    String → Dict RowKey StoredSetting → List SettingRow → Dict RowKey StoredSetting
unfolding insert
collect_rows account_id stored [] = stored
collect_rows account_id stored (r ∷ rs) =
    collect_rows account_id
      (if r.account_id == account_id
        then insert stored (stored_key (stored_of r)) (stored_of r)
        else stored)
      rs

-- `_read_state`, and `SettingsStore.read`
unfoldable pub read_state : String → Db → AccountState
read_state account_id db = record {
  is_known = is_some (find_account account_id db.accounts);
  revision = revision_of db account_id;
  rows = collect_rows account_id [] db.settings;
}

-- `_ensure_account`: `INSERT OR IGNORE`.
unfoldable pub ensure_account : String → Instant → Db → Db
unfolding find_account
ensure_account account_id now db =
    if is_some (find_account account_id db.accounts) then db else record db {
      accounts =
          db.accounts
          ++ record { account_id = account_id; revision = 0; created_at = now; updated_at = now }
            ∷ [];
    }

-- The profiles that a set of changes writes to.
unfoldable pub incoming_profiles : List Change → List String
incoming_profiles [] = []
incoming_profiles (c ∷ cs) =
    let rest = incoming_profiles cs in
    if not (c.profile == account_profile) && not c.reset then c.profile ∷ rest else rest

unfoldable pub existing_profiles : Dict RowKey StoredSetting → List String
existing_profiles [] = []
existing_profiles (((profile, name), r) ∷ rows) =
    let rest = existing_profiles rows in
    if not (profile == account_profile) then profile ∷ rest else rest

-- `_enforce_profile_cap`
unfoldable pub exceeds_profile_cap : List Change → AccountState → Bool
unfolding incoming_profiles existing_profiles dedup
exceeds_profile_cap changes state =
    not (is_nil (incoming_profiles changes))
    && ltb max_profiles_per_account
        (length (dedup (existing_profiles state.rows ++ incoming_profiles changes)))

-- The `UPSERT`: a row of the same primary key takes the new value, stamp and provenance in place.
unfoldable pub upsert_row : SettingRow → List SettingRow → List SettingRow
upsert_row new [] = new ∷ []
upsert_row new (r ∷ rs) =
    let rest = upsert_row new rs in if primary_key r == primary_key new then new ∷ rs else r ∷ rest

-- `CHECK (length(profile) BETWEEN 1 AND 64)`
abbrev pub fits_column : String → Bool
fits_column profile = leb 1 (count profile) && leb (count profile) 64

unfoldable pub upsert : SettingRow → Exec (Unit {0})
upsert new = do
  raise_when (not (fits_column new.profile)) integrity_error
  modify (λ db. record db { settings = upsert_row new db.settings })

unfoldable pub delete_row : PrimaryKey → Db → Db
unfolding filter key_beq
delete_row k db = record db { settings = filter (λ r. not (primary_key r == k)) db.settings }
