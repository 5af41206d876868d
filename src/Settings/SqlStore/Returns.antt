-- ===== src/Settings/SqlStore/Returns.antt =====
-- When `SqlSettingsStore.apply` of settings/sql_store.py returns, and how it refuses.
use settings_api.Prelude.{
  ℕ, ◌≡◌, refl, sym, ap, subst, ◌∙◌, arith, some, Result, All, true, false, String, List, [], ◌∷◌,
  ◌||◌, ◌++◌, ◌||◌, is_some, if◌then◌else◌, ok, err, Bool-cases, inl, inr, string_eq, pair_eq,
}
use settings_api.Prelude.Dict.{get}
use settings_api.Domain.Errors.{Error, revision_mismatch, invalid_value, too_many_profiles}
use settings_api.Storage.{Instant, Db}
use settings_api.Storage.Exec.{transact}
use settings_api.Settings.Store.{AccountState, Change, Applied, Write, change_key}
use settings_api.Settings.Rows.{
  exceeds_profile_cap, fits_column, revision_of, read_state, ensure_account,
}
use settings_api.Settings.SqlStore.{
  is_stale, expected_or, is_unchanged, apply_change, apply_changes, record_changes, apply_work,
  apply, bump,
}
use settings_api.Settings.SqlStore.Revision.{revision_of-ensure_account}
use settings_api.Settings.SqlStore.Apply.{opened, start}

-- A change whose profile the column takes.
abbrev pub FitsColumn : Change → Type 0
FitsColumn c = fits_column c.profile ≡ true

module _ (account_id : String) (state : AccountState) (now : Instant) (actor : String) where
  apply_change-returns :
      (c : Change) (db : Db)
      → FitsColumn c
      → (names : List String) × (end : Db) × (apply_change account_id state now actor c db
          ≡ (ok names, end))
  unfolding apply_change
  apply_change-returns c db fits = elim (Bool-cases c.reset) [
    | inl reset ↦ elim (Bool-cases (is_some (get state.rows (change_key c)))) [
      | inl here ↦ rw (reset, here) (_, _, refl)
      | inr gone ↦ rw (reset, gone) (_, _, refl)
    ]
    | inr set ↦ elim (Bool-cases (is_unchanged (get state.rows (change_key c)) c.value)) [
      | inl same ↦ rw (set, same) (_, _, refl)
      | inr other ↦ rw (set, other, fits) (_, _, refl)
    ]
  ]

  apply_changes-returns :
      (cs : List Change) (db : Db)
      → All FitsColumn cs
      → (names : List String) × (end : Db) × (apply_changes account_id state now actor cs db
          ≡ (ok names, end))
  unfolding apply_changes
  apply_changes-returns [] db h = ([], db, refl)
  apply_changes-returns (c ∷ cs) db (h, hs) =
      let (first, mid, here) = apply_change-returns c db h in
      let (later, end, rest) = apply_changes-returns cs mid hs in
      (first ++ later, end, rw (here, rest) refl)

pub record_changes-returns :
    (a : String) (w : Write) (revision : ℕ) (names : List String) (db : Db)
    → (r : Applied) × (end : Db) × (record_changes a w revision names db ≡ (ok r, end))
unfolding record_changes bump
record_changes-returns a w revision [] db = (_, _, refl)
record_changes-returns a w revision (n ∷ ns) db = (_, _, refl)

fresh_of : (n m : ℕ) → is_stale (some n) m ≡ false → m ≡ n
fresh_of n m h = ground arith

pub not_both :
    {e : Error} {r : Applied} → ◌≡◌ {A = Result Error Applied} (err e) (ok r) → (P : Type 0) → P
not_both h P = cc

module _ (a : String) (w : Write) (db : Db) where
  -- A write returns if its revision is not stale, no profile is one too many, and the column takes the
  -- profile of each change.
  pub apply-returns :
      is_stale w.if_revision (start a w db).revision ≡ false
      → exceeds_profile_cap w.changes (start a w db) ≡ false
      → All FitsColumn w.changes
      → (r : Applied) × (end : Db) × (apply a w db ≡ (ok r, end))
  unfolding apply transact apply_work
  apply-returns fresh few fits =
      let (names, mid, ran) =
        apply_changes-returns a (start a w db) w.now w.actor w.changes (opened a w db) fits in
      let (r, end, recorded) = record_changes-returns a w (start a w db).revision names mid in
      (r, end, rw (fresh, few, ran, recorded) refl)

  -- Why a write is refused: the mismatch, with the revision there is and the one that was expected, comes
  -- before the invalid value of one profile too many.
  abbrev pub refusal : Error
  refusal =
      if is_stale w.if_revision (start a w db).revision
      then revision_mismatch (start a w db).revision (expected_or w.if_revision)
      else invalid_value "profile" too_many_profiles

  -- A write whose revision is stale, or which has one profile too many, raises and leaves the tables as
  -- they were; if both are true it is the stale revision that is told.
  pub apply-refusal :
      (is_stale w.if_revision (start a w db).revision
          || exceeds_profile_cap w.changes (start a w db))
        ≡ true
      → apply a w db ≡ (err refusal, db)
  unfolding apply transact apply_work
  apply-refusal h = elim (Bool-cases (is_stale w.if_revision (start a w db).revision)) [
    | inl stale ↦ rw stale refl
    | inr fresh ↦ rw (fresh, (rw fresh at h)) refl
  ]

  -- A write that expects a revision and returns found the account at that revision.
  pub apply-fresh :
      (r : Applied) (end : Db) (n : ℕ)
      → apply a w db ≡ (ok r, end)
      → w.if_revision ≡ some n
      → revision_of db a ≡ n
  unfolding revision_of ensure_account read_state
  apply-fresh r end n h e = elim (Bool-cases (is_stale w.if_revision (start a w db).revision)) [
    | inl stale ↦
        let refused = apply-refusal (rw stale refl) in
        not_both (sym (ap (λ x. x.0) refused) ∙ ap (λ x. x.0) h) (revision_of db a ≡ n)
    | inr fresh ↦
        sym (revision_of-ensure_account a a w.now db)
        ∙ fresh_of n _ (subst (λ o. is_stale o (start a w db).revision ≡ false) e fresh)
  ]
