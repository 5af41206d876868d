-- ===== src/Settings/SqlStore/Forget.antt =====
-- `SqlSettingsStore.forget` of settings/sql_store.py leaves nothing of the account, and all of the others.
use settings_api.Prelude.{
  ◌≡◌, ◌≢◌, refl, ap, ap₂, ◌∙◌, inl, inr, Bool-cases, arith, Bool, true, false, not, String, none,
  List, [], ◌∷◌, length, filter, if◌then◌else◌, ◌==◌, string_eq, pair_eq, eq_iff, ok,
}
use settings_api.Prelude.Dict.{Dict, insert}
use settings_api.Storage.{AccountRow, SettingRow, EventRow, key_eq, Db}
use settings_api.Storage.Exec.{transact}
use settings_api.Events.{is_of, events_of, delete_for_account_in}
use settings_api.Settings.Store.{stored_key, StoredSetting, RowKey, AccountState}
use settings_api.Settings.Rows.{
  account_is, find_account, revision_of, collect_rows, read_state, stored_of,
}
use settings_api.Settings.SqlStore.{forget, forget_work}

-- The state of an account that has never chosen anything.
abbrev pub fresh : AccountState
fresh = record { is_known = false; revision = 0; rows = [] }

abbrev pub owned : String → SettingRow → Bool
owned a r = r.account_id == a

collect_rows_gone :
    (a : String) (stored : Dict RowKey StoredSetting) (rs : List SettingRow)
    → collect_rows a stored (filter (λ r. not (owned a r)) rs) ≡ stored
unfolding collect_rows filter
collect_rows_gone a stored [] = refl
collect_rows_gone a stored (r ∷ rs) = ground (arith, collect_rows_gone a stored rs)

pub find_account_gone :
    (a : String) (rs : List AccountRow)
    → find_account a (filter (λ r. not (account_is a r)) rs) ≡ none
unfolding find_account filter
find_account_gone a [] = refl
find_account_gone a (r ∷ rs) = ground (arith, find_account_gone a rs)

pub find_account_kept :
    (a b : String) (rs : List AccountRow)
    → a ≢ b
    → find_account b (filter (λ r. not (account_is a r)) rs) ≡ find_account b rs
unfolding find_account filter
find_account_kept a b [] apart = refl
find_account_kept a b (r ∷ rs) apart =
    ground (arith, eq_iff r.account_id a, eq_iff r.account_id b, find_account_kept a b rs apart)

events_gone :
    (a : String) (es : List EventRow) → filter (is_of a) (filter (λ e. not (is_of a e)) es) ≡ []
unfolding filter
events_gone a [] = refl
events_gone a (e ∷ es) = ground (arith, events_gone a es)

events_kept :
    (a b : String) (es : List EventRow)
    → a ≢ b
    → filter (is_of b) (filter (λ e. not (is_of a e)) es) ≡ filter (is_of b) es
unfolding filter
events_kept a b [] apart = refl
events_kept a b (e ∷ es) apart =
    ground (arith, eq_iff e.account_id a, eq_iff e.account_id b, events_kept a b es apart)

owned_by_one : (a b : String) (r : SettingRow) → a ≢ b → owned a r ≡ true → owned b r ≡ false
owned_by_one a b r apart own = ground (arith, eq_iff r.account_id a, eq_iff r.account_id b)

collect_rows_kept :
    (a b : String) (stored : Dict RowKey StoredSetting) (rs : List SettingRow)
    → a ≢ b
    → collect_rows b stored (filter (λ r. not (owned a r)) rs) ≡ collect_rows b stored rs
unfolding collect_rows filter
collect_rows_kept a b stored [] apart = refl
collect_rows_kept a b stored (r ∷ rs) apart = elim (Bool-cases (owned a r)) [
  | inl own ↦ rw (own, owned_by_one a b r apart own) (collect_rows_kept a b stored rs apart)
  | inr other ↦ rw other (
      collect_rows_kept a b
        (if owned b r then insert stored (stored_key (stored_of r)) (stored_of r) else stored) rs
        apart)
]

-- The tables without the account.
abbrev pub without : String → Db → Db
without a db = record db {
  accounts = filter (λ r. not (account_is a r)) db.accounts;
  settings = filter (λ r. not (owned a r)) db.settings;
  events = filter (λ e. not (is_of a e)) db.events;
}

pub forget_db :
    (a : String) (db : Db)
    → forget a db ≡ (ok (length (filter (owned a) db.settings)), without a db)
unfolding forget transact forget_work delete_for_account_in
forget_db a db = refl

-- What an account's reads see: its state and its events.
abbrev pub view : String → Db → AccountState × List EventRow
view a db = (read_state a db, events_of a db.events)

state_gone : (a : String) (db : Db) → read_state a (without a db) ≡ fresh
unfolding read_state revision_of
state_gone a db = rw (find_account_gone a db.accounts, collect_rows_gone a [] db.settings) refl

state_kept : (a b : String) (db : Db) → a ≢ b → read_state b (without a db) ≡ read_state b db
unfolding read_state revision_of
state_kept a b db apart =
    rw (find_account_kept a b db.accounts apart, collect_rows_kept a b [] db.settings apart) refl

-- An erasure returns the number of rows that it removed. It leaves the account as one that never chose
-- anything, with no event, and what any other account sees as it was.
pub forget-erases :
    (a b : String) (db : Db)
    → a ≢ b
    → let (removed, end) = forget a db in
      (removed ≡ ok (length (filter (owned a) db.settings)))
      × (view a end ≡ (fresh, []))
      × (view b end ≡ view b db)
unfolding events_of
forget-erases a b db apart =
    let done = forget_db a db in
    (
      ap (λ x. x.0) done,
      ap (λ x. view a x.1) done ∙ ap₂ (λ s es. (s, es)) (state_gone a db) (events_gone a db.events),
      ap (λ x. view b x.1) done
          ∙ ap₂ (λ s es. (s, es)) (state_kept a b db apart) (events_kept a b db.events apart),
    )
