-- ===== src/Settings/SqlStore/Revision.antt =====
-- The accounts table of settings/sql_store.py: the first write creates the row, a bump moves it on.
use settings_api.Prelude.{
  suc, ◌+◌, ◌≡◌, ◌≢◌, ap, Bool, true, String, Option, none, some, List, [], ◌∷◌, ◌++◌, arith,
  is_some, if◌then◌else◌, ◌==◌, string_eq, eq_iff,
}
use text.Mathlib.TextPositions.{eq_refl}
use settings_api.Storage.{Instant, AccountRow, Db}
use settings_api.Settings.Rows.{find_account, revision_of, ensure_account}
use settings_api.Settings.SqlStore.{bump_rows}

-- Whether the account has a row.
abbrev pub is_known : Db → String → Bool
is_known db a = is_some (find_account a db.accounts)

find_account-append :
    (a b : String) (now : Instant) (rs : List AccountRow)
    → find_account b
        (rs ++ record { account_id = a; revision = 0; created_at = now; updated_at = now } ∷ [])
      ≡ (if is_some (find_account b rs)
          then find_account b rs
          else if a == b
          then some (record { account_id = a; revision = 0; created_at = now; updated_at = now })
          else none)
unfolding find_account
find_account-append a b now [] = ground arith
find_account-append a b now (r ∷ rs) = ground (arith, find_account-append a b now rs)

pub ensure_account_known :
    (a : String) (now : Instant) (db : Db) → is_known (ensure_account a now db) a ≡ true
unfolding ensure_account
ensure_account_known a now db = ground (arith, find_account-append a a now db.accounts, eq_refl a)

-- Creating the row changes no account's revision: an account without one is at revision 0.
pub revision_of-ensure_account :
    (a b : String) (now : Instant) (db : Db)
    → revision_of (ensure_account a now db) b ≡ revision_of db b
unfolding ensure_account revision_of
revision_of-ensure_account a b now db = ground (arith, find_account-append a b now db.accounts)

pub ensure_account-frame :
    (a : String) (now : Instant) (db : Db)
    → ensure_account a now db ≡ record db { accounts = (ensure_account a now db).accounts }
unfolding ensure_account
ensure_account-frame a now db = ground arith

pub settings-ensure_account :
    (a : String) (now : Instant) (db : Db) → (ensure_account a now db).settings ≡ db.settings
settings-ensure_account a now db = ap (λ x. x.settings) (ensure_account-frame a now db)

abbrev bumped : Instant → Option AccountRow → Option AccountRow
bumped now none = none
bumped now (some r) = some (record r { revision = r.revision + 1; updated_at = now })

find_account-bump_rows :
    (a b : String) (now : Instant) (rs : List AccountRow)
    → find_account b (bump_rows a now rs)
      ≡ (if a == b then bumped now (find_account b rs) else find_account b rs)
unfolding find_account bump_rows
find_account-bump_rows a b now [] = ground arith
find_account-bump_rows a b now (r ∷ rs) = ground (
  arith,
  eq_iff r.account_id a,
  eq_iff r.account_id b,
  eq_iff a b,
  find_account-bump_rows a b now rs,
)

abbrev pub bump_db : String → Instant → Db → Db
bump_db a now db = record db { accounts = bump_rows a now db.accounts }

pub revision_of-bump :
    (a : String) (now : Instant) (db : Db)
    → is_known db a ≡ true
    → revision_of (bump_db a now db) a ≡ suc (revision_of db a)
unfolding revision_of
revision_of-bump a now db known =
    ground (arith, find_account-bump_rows a a now db.accounts, eq_refl a)

pub revision_of-bump_other :
    (a b : String) (now : Instant) (db : Db)
    → a ≢ b
    → revision_of (bump_db a now db) b ≡ revision_of db b
unfolding revision_of
revision_of-bump_other a b now db h =
    ground (arith, find_account-bump_rows a b now db.accounts, eq_iff a b)
