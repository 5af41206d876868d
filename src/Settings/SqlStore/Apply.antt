-- ===== src/Settings/SqlStore/Apply.antt =====
-- `SqlSettingsStore.apply` of settings/sql_store.py: one transaction that does all of its changes,
-- moves the revision on by one and logs one event, or does nothing.
use settings_api.Prelude.{
  ℕ, ◌≡◌, sym, ap, ◌∙◌, subst, String, List, [], ◌∷◌, arith, All, Result, ok, err, string_eq,
  pair_eq,
}
use settings_api.Domain.Errors.{Error}
use settings_api.Storage.{PrimaryKey, Db}
use settings_api.Storage.Exec.{>>=-eq-ok, raise_when_ok, transact, settle}
use settings_api.Events.{append_in}
use settings_api.Events.Cap.{IsOrdered}
use settings_api.Settings.Store.{AccountState, Change, Applied, Write}
use settings_api.Settings.Rows.{exceeds_profile_cap, read_state, ensure_account}
use settings_api.Settings.Rows.Find.{find_row, Unique, IsNamed}
use settings_api.Settings.SqlStore.{
  is_stale, apply_work, apply, record_changes, bump, apply_changes,
}
use settings_api.Settings.SqlStore.Changes.{
  value_of, read_state-value, value_at, key_of, seen, Distinct, Agrees, find_change, outcome_of,
  apply_changes-value,
}
use settings_api.Settings.SqlStore.Revision.{settings-ensure_account}

-- What the code relies on: the primary key, names without a dot, and the order of the log.
pub record IsSound (db : Db) : Type 0 where
  pub unique : Unique db.settings
  pub named : All IsNamed db.settings
  pub ordered : IsOrdered db

settle_err :
    {A : Type 0} (db end : Db) (r : Result Error A × Db) (e : Error)
    → settle db r ≡ (err e, end)
    → end ≡ db
settle_err db end (ok a, after) e h = cc
settle_err db end (err f, after) e h = cc

settle_ok :
    {A : Type 0} (db end : Db) (r : Result Error A × Db) (a : A)
    → settle db r ≡ (ok a, end)
    → r ≡ (ok a, end)
settle_ok db end (ok b, after) a h = h
settle_ok db end (err f, after) a h = cc

-- A write that raises leaves the tables as they were, whatever it had written before it raised.
pub apply_atomic :
    (a : String) (w : Write) (db end : Db) (e : Error) → apply a w db ≡ (err e, end) → end ≡ db
unfolding apply transact
apply_atomic a w db end e h = settle_err db end (apply_work a w db) e h

module _ (a : String) (w : Write) (db : Db) where
  -- The tables and the state that the changes are compared with.
  abbrev pub opened : Db
  opened = ensure_account a w.now db

  abbrev pub start : AccountState
  start = read_state a (ensure_account a w.now db)

  abbrev pub changes_key : Change → PrimaryKey
  changes_key = key_of a

  -- A write that returned: its changes ran, and what followed recorded them.
  pub apply_steps :
      (r : Applied) (end : Db)
      → apply a w db ≡ (ok r, end)
      → (names : List String) × (mid : Db) × (apply_changes a start w.now w.actor w.changes opened
          ≡ (ok names, mid))
        × (record_changes a w start.revision names mid ≡ (ok r, end))
  unfolding apply transact apply_work
  apply_steps r end h =
      let worked = settle_ok db end (apply_work a w db) r h in
      let (fresh, capped) =
        raise_when_ok (is_stale w.if_revision start.revision) _ _ opened worked in
      let (_, ran) = raise_when_ok (exceeds_profile_cap w.changes start) _ _ opened capped in
      let run = apply_changes a start w.now w.actor w.changes in
      let (names, e, rest) = >>=-eq-ok run _ opened ran in
      (names, (run opened).1, ap (λ x. (x, (run opened).1)) e, rest)

  pub opened-value : (k : PrimaryKey) → value_at opened k ≡ value_at db k
  unfolding value_at
  opened-value k = ap (λ rs. value_of (find_row k rs)) (settings-ensure_account a w.now db)

  seen-value :
      (c : Change) → IsSound db → value_at opened (changes_key c) ≡ seen a start w.now w.actor c
  seen-value c s =
      let rows = settings-ensure_account a w.now db in
      sym (
        read_state-value (changes_key c) opened (subst Unique (sym rows) s.unique)
          (subst (All IsNamed) (sym rows) s.named))

  pub opened-Agrees : (cs : List Change) → IsSound db → Agrees a start w.now w.actor opened cs
  opened-Agrees [] s = tt
  opened-Agrees (c ∷ cs) s = (seen-value c s, opened-Agrees cs s)

  pub record_changes-settings :
      (revision : ℕ) (names : List String) (mid end : Db) (r : Applied)
      → record_changes a w revision names mid ≡ (ok r, end)
      → end.settings ≡ mid.settings
  unfolding record_changes bump append_in
  record_changes-settings revision names mid end r h = ground arith

  value_at_rows :
      (x y : Db) (k : PrimaryKey) → x.settings ≡ y.settings → value_at x k ≡ value_at y k
  unfolding value_at
  value_at_rows x y k same = ap (λ rs. value_of (find_row k rs)) same

  -- After a write that returns, from sound tables and with no two changes of one row: a reset row is
  -- gone, a written row has its new value unless the old one equals it, and every other row of every
  -- account holds what it held.
  pub apply-value :
      (r : Applied) (end : Db) (k : PrimaryKey)
      → IsSound db
      → Distinct a w.changes
      → apply a w db ≡ (ok r, end)
      → value_at end k ≡ outcome_of (find_change a k w.changes) (value_at db k)
  apply-value r end k s d h =
      let (names, mid, ran, recorded) = apply_steps r end h in
      let same = record_changes-settings start.revision names mid end r recorded in
      let rows =
        apply_changes-value a start w.now w.actor w.changes opened mid names k d
          (opened-Agrees w.changes s) ran in
      value_at_rows end mid k same
      ∙ rows
      ∙ ap (outcome_of (find_change a k w.changes)) (opened-value k)
