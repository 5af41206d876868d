-- ===== src/Settings/SqlStore/Changes.antt =====
-- What `_apply_changes` of settings/sql_store.py does to the rows.
use settings_api.Prelude.{
  ◌≡◌, ◌≢◌, refl, ap, ◌∙◌, Bool, false, not, String, Option, none, some, List, [], ◌∷◌, ◌++◌, arith,
  All, is_some, if◌then◌else◌, ◌==◌, string_eq, pair_eq, ok,
}
use settings_api.Prelude.Dict.{get}
use settings_api.Domain.Value.{Value, py_eq}
use settings_api.Domain.Types.{qualify}
use settings_api.Storage.{Instant, SettingRow, PrimaryKey, key_eq, key_beq_iff, Db}
use settings_api.Storage.Exec.{Exec, >>=-eq-ok}
use settings_api.Settings.Store.{StoredSetting, AccountState, Change, change_name, change_key}
use settings_api.Settings.Rows.{upsert_row, delete_row, read_state}
use settings_api.Settings.Rows.Find.{
  Unique, IsNamed, as_stored, or_else, get-collect_rows, find_row, find_row-upsert, find_row-delete,
}
use settings_api.Settings.SqlStore.{new_row, apply_change, apply_changes}

abbrev pub value_of : Option SettingRow → Option Value
value_of none = none
value_of (some r) = some r.value

-- The value stored under a primary key.
unfoldable pub value_at : Db → PrimaryKey → Option Value
unfolding find_row
value_at db k = value_of (find_row k db.settings)

abbrev pub value_in : Option StoredSetting → Option Value
value_in none = none
value_in (some s) = some s.value

drop_else : (o : Option SettingRow) → value_in (or_else (as_stored o) none) ≡ value_of o
drop_else none = refl
drop_else (some r) = refl

-- A read finds the value of every primary key under the row's key.
pub read_state-value :
    (k : PrimaryKey) (db : Db)
    → Unique db.settings
    → All IsNamed db.settings
    → value_in (get (read_state k.account_id db).rows (k.profile, qualify k.namespace k.key))
      ≡ value_at db k
unfolding read_state value_at get
read_state-value k db u n =
    ap value_in (get-collect_rows k [] db.settings u n) ∙ drop_else (find_row k db.settings)

-- Whether a change, compared with what is stored, changes something.
abbrev pub is_same : Option Value → Value → Bool
is_same none v = false
is_same (some w) v = py_eq w v

abbrev pub changes_something : Change → Option Value → Bool
changes_something c old = if c.reset then is_some old else not (is_same old c.value)

-- What is stored after a change.
abbrev pub outcome : Change → Option Value → Option Value
outcome c old = if c.reset then none else if is_same old c.value then old else some c.value

abbrev pub outcome_of : Option Change → Option Value → Option Value
outcome_of none old = old
outcome_of (some c) old = outcome c old

-- The row that a change of the account addresses.
abbrev pub key_of : String → Change → PrimaryKey
key_of account_id c = record {
  account_id = account_id;
  profile = c.profile;
  namespace = c.namespace;
  key = c.key;
}

module _ (account_id : String) where
  -- No two changes of a set address one row.
  abbrev pub Distinct : List Change → Type 0
  Distinct [] = Unit
  Distinct (c ∷ cs) = All (λ d. key_of account_id c ≢ key_of account_id d) cs × Distinct cs

  unfoldable pub find_change : PrimaryKey → List Change → Option Change
  find_change k [] = none
  find_change k (c ∷ cs) =
      let rest = find_change k cs in if key_of account_id c == k then some c else rest

  find_change_none :
      (k : PrimaryKey) (cs : List Change)
      → All (λ d. k ≢ key_of account_id d) cs
      → find_change k cs ≡ none
  unfolding find_change
  find_change_none k [] h = refl
  find_change_none k (c ∷ cs) h =
      ground (arith, key_beq_iff (key_of account_id c) k, find_change_none k cs)

module _ (account_id : String) (state : AccountState) (now : Instant) (actor : String) where
  abbrev pub seen : Change → Option Value
  seen c = value_in (get state.rows (change_key c))

  abbrev pub run_change : Change → Exec (List String)
  run_change = apply_change account_id state now actor

  -- The statement that a change runs.
  abbrev pub write_row : Change → Db → Db
  write_row c db =
      if c.reset
      then delete_row (key_of account_id c) db
      else record db { settings = upsert_row (new_row account_id state now actor c) db.settings }

  pub apply_change-db :
      (c : Change) (db end : Db) (names : List String)
      → run_change c db ≡ (ok names, end)
      → end ≡ (if changes_something c (seen c) then write_row c db else db)
  unfolding apply_change
  apply_change-db c db end names h = ground arith

  pub apply_change-names :
      (c : Change) (db end : Db) (names : List String)
      → run_change c db ≡ (ok names, end)
      → names ≡ (if changes_something c (seen c) then change_name c ∷ [] else [])
  unfolding apply_change
  apply_change-names c db end names h = ground arith

  write_row-value :
      (c : Change) (db : Db) (k : PrimaryKey)
      → value_at (write_row c db) k ≡ (
          if key_of account_id c == k
          then (if c.reset then none else some c.value)
          else value_at db k)
  unfolding value_at delete_row
  write_row-value c db k = ground (
    arith,
    find_row-upsert k (new_row account_id state now actor c) db.settings,
    find_row-delete k (key_of account_id c) db.settings,
  )

  -- A round of the loop changes the one row that it is about, if it changes anything.
  apply_change-value :
      (c : Change) (db end : Db) (names : List String) (k : PrimaryKey)
      → run_change c db ≡ (ok names, end)
      → value_at db (key_of account_id c) ≡ seen c
      → value_at end k
        ≡ (if key_of account_id c == k then outcome c (value_at db k) else value_at db k)
  apply_change-value c db end names k h same =
      rw (apply_change-db c db end names h)
        (ground (arith, key_beq_iff (key_of account_id c) k, write_row-value c db k))

  -- The tables hold, for each change, what the state says.
  abbrev pub Agrees : Db → List Change → Type 0
  Agrees db cs = All (λ c. value_at db (key_of account_id c) ≡ seen c) cs

  -- A written row stays as it is while changes of other rows run.
  apply_change-Agrees :
      (c : Change) (db end : Db) (names : List String) (cs : List Change)
      → run_change c db ≡ (ok names, end)
      → value_at db (key_of account_id c) ≡ seen c
      → All (λ d. key_of account_id c ≢ key_of account_id d) cs
      → Agrees db cs
      → Agrees end cs
  apply_change-Agrees c db end names [] h same apart a = tt
  apply_change-Agrees c db end names (d ∷ cs) h same (p, apart) (q, a) = (
    ground (
      arith,
      key_beq_iff (key_of account_id c) (key_of account_id d),
      apply_change-value c db end names (key_of account_id d) h same,
    ),
    apply_change-Agrees c db end names cs h same apart a,
  )

  abbrev pub run_changes : List Change → Exec (List String)
  run_changes = apply_changes account_id state now actor

  -- The two halves of a loop that returned.
  pub run_changes_cons :
      (c : Change) (cs : List Change) (db end : Db) (names : List String)
      → run_changes (c ∷ cs) db ≡ (ok names, end)
      → (first later : List String) × (mid : Db) × (run_change c db ≡ (ok first, mid))
        × (run_changes cs mid ≡ (ok later, end))
        × (names ≡ first ++ later)
  unfolding apply_changes
  run_changes_cons c cs db end names h =
      let (first, e₁, h₁) = >>=-eq-ok (run_change c) _ db h in
      let mid = (run_change c db).1 in
      let (later, e₂, h₂) = >>=-eq-ok (run_changes cs) _ mid h₁ in
      (first, later, mid, ap (λ r. (r, mid)) e₁, cc, cc)

  -- A loop that returned has done each of its changes, and nothing else: the rows hold afterwards
  -- what the change of their key makes of what they held before.
  pub apply_changes-value :
      (cs : List Change) (db end : Db) (names : List String) (k : PrimaryKey)
      → Distinct account_id cs
      → Agrees db cs
      → run_changes cs db ≡ (ok names, end)
      → value_at end k ≡ outcome_of (find_change account_id k cs) (value_at db k)
  unfolding apply_changes find_change
  apply_changes-value [] db end names k d a h = ap (λ x. value_at x k) (cc)
  apply_changes-value (c ∷ cs) db end names k (apart, d) (same, a) h =
      let (first, later, mid, h₁, h₂, e) = run_changes_cons c cs db end names h in
      ground (
        arith,
        key_beq_iff (key_of account_id c) k,
        apply_change-value c db mid first k h₁ same,
        find_change_none account_id (key_of account_id c) cs apart,
        apply_changes-value cs mid end later k d
            (apply_change-Agrees c db mid first cs h₁ same apart a) h₂,
      )
