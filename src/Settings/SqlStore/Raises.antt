-- ===== src/Settings/SqlStore/Raises.antt =====
-- Why `SqlSettingsStore.apply` of settings/sql_store.py raises.
use settings_api.Prelude.{
  ◌≡◌, ◌⊎◌, refl, sym, ap, ◌∙◌, subst, arith, ℕ, Bool, true, false, not, ◌&&◌, ◌||◌, String, List,
  [], ◌∷◌, Result, ok, err, inl, inr, Bool-cases, is_nil, ◌==◌, string_eq, pair_eq, eq_iff,
}
use settings_api.Domain.Types.{account_profile}
use settings_api.Domain.Errors.{
  Error, revision_mismatch, invalid_value, too_many_profiles, integrity_error,
}
use settings_api.Storage.{Instant, Db}
use settings_api.Storage.Exec.{transact, settle, >>=-raises}
use settings_api.Settings.Store.{AccountState, Change, Write}
use settings_api.Settings.Rows.{exceeds_profile_cap, incoming_profiles, fits_column, revision_of}
use settings_api.Settings.SqlStore.{
  is_stale, expected_or, apply_change, apply_changes, record_changes, apply_work, apply,
}
use settings_api.Settings.SqlStore.Apply.{opened, start}
use settings_api.Settings.SqlStore.Logged.{start_revision}
use settings_api.Settings.SqlStore.Returns.{
  refusal, not_both, apply-refusal, record_changes-returns,
}

-- A change that writes to a profile of the account.
abbrev writes_profile : Change → Bool
writes_profile c = not (c.profile == account_profile) && not c.reset

fits_account_profile : (p : String) → fits_column p ≡ false → (p == account_profile) ≡ false
fits_account_profile p h = elim (Bool-cases (p == account_profile)) [
  | inl same ↦
      let star = subst (λ q. fits_column q ≡ false) ((eq_iff p account_profile).0 same) h in cc
  | inr other ↦ other
]

module _ (account_id : String) (state : AccountState) (now : Instant) (actor : String) where
  apply_change-raises :
      (c : Change) (db : Db) (e : Error)
      → (apply_change account_id state now actor c db).0 ≡ err e
      → (e ≡ integrity_error) × (writes_profile c ≡ true)
  unfolding apply_change
  apply_change-raises c db e h = ground (arith, fits_account_profile c.profile)

  pub apply_changes-raises :
      (cs : List Change) (db : Db) (e : Error)
      → (apply_changes account_id state now actor cs db).0 ≡ err e
      → (e ≡ integrity_error) × (is_nil (incoming_profiles cs) ≡ false)
  unfolding apply_changes incoming_profiles
  apply_changes-raises [] db e h = cc
  apply_changes-raises (c ∷ cs) db e h =
      elim (>>=-raises (apply_change account_id state now actor c) _ db e h) [
        | inl first ↦ ground (arith, apply_change-raises c db e first)
        | inr (names, later) ↦
            elim (>>=-raises (apply_changes account_id state now actor cs) _ _ e later) [
              | inl rest ↦ ground (arith, apply_changes-raises cs _ e rest)
              | inr (more, done) ↦ cc
            ]
      ]

settle-raises :
    {A : Type 0} (db : Db) (r : Result Error A × Db) (e : Error)
    → (settle db r).0 ≡ err e
    → r.0 ≡ err e
settle-raises db (ok x, after) e h = h
settle-raises db (err x, after) e h = h

-- Why a write raises: its revision is stale, or it writes to a profile of the account that is one too
-- many or that the column does not take.
abbrev pub Raised : Write → ℕ → Error → Type 0
Raised w revision e =
    ((is_stale w.if_revision revision ≡ true)
      × (e ≡ revision_mismatch revision (expected_or w.if_revision)))
    ⊎ ((is_stale w.if_revision revision ≡ false)
        × (is_nil (incoming_profiles w.changes) ≡ false)
        × ((e ≡ invalid_value "profile" too_many_profiles) ⊎ (e ≡ integrity_error)))

module _ (a : String) (w : Write) (db : Db) where
  exceeds-incoming :
      (state : AccountState)
      → exceeds_profile_cap w.changes state ≡ true
      → is_nil (incoming_profiles w.changes) ≡ false
  unfolding exceeds_profile_cap
  exceeds-incoming state h = ground arith

  record_changes-silent :
      (revision : ℕ) (names : List String) (mid : Db) (e : Error) (P : Type 0)
      → (record_changes a w revision names mid).0 ≡ err e
      → P
  record_changes-silent revision names mid e P h =
      let (r, end, done) = record_changes-returns a w revision names mid in
      not_both (sym h ∙ ap (λ x. x.0) done) P

  pub apply-raised :
      (e : Error)
      → is_stale w.if_revision (start a w db).revision ≡ false
      → exceeds_profile_cap w.changes (start a w db) ≡ false
      → (apply a w db).0 ≡ err e
      → (apply_changes a (start a w db) w.now w.actor w.changes (opened a w db)).0 ≡ err e
  unfolding apply transact apply_work
  apply-raised e fresh few h =
      let worked = settle-raises db (apply_work a w db) e h in
      elim (>>=-raises (apply_changes a (start a w db) w.now w.actor w.changes) _ (opened a w db) e
        (rw (fresh, few) at worked)) [
          | inl raised ↦ raised
          | inr (names, recorded) ↦
              record_changes-silent (start a w db).revision names _ e _ recorded
        ]

  -- A write that the two tests refuse raises the error of `refusal`.
  is_refusal :
      (e : Error)
      → (is_stale w.if_revision (start a w db).revision
          || exceeds_profile_cap w.changes (start a w db))
        ≡ true
      → (apply a w db).0 ≡ err e
      → e ≡ refusal a w db
  is_refusal e h raised = let why = ap (λ x. x.0) (apply-refusal a w db h) in cc

  Raised-at_start : (e : Error) → (apply a w db).0 ≡ err e → Raised w (start a w db).revision e
  Raised-at_start e h = elim (Bool-cases (is_stale w.if_revision (start a w db).revision)) [
    | inl stale ↦ inl (stale, is_refusal e (rw stale refl) h ∙ rw stale refl)
    | inr fresh ↦ elim (Bool-cases (exceeds_profile_cap w.changes (start a w db))) [
      | inl many ↦ inr (
        fresh,
        exceeds-incoming (start a w db) many,
        inl (is_refusal e (rw (fresh, many) refl) h ∙ rw fresh refl),
      )
      | inr few ↦
          let (integrity, incoming) =
            apply_changes-raises a (start a w db) w.now w.actor w.changes (opened a w db) e
              (apply-raised e fresh few h) in
          inr (fresh, incoming, inr integrity)
    ]
  ]

  pub apply-Raised : (e : Error) → (apply a w db).0 ≡ err e → Raised w (revision_of db a) e
  apply-Raised e h = subst (λ n. Raised w n e) (start_revision a w db) (Raised-at_start e h)
