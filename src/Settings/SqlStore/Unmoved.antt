-- ===== src/Settings/SqlStore/Unmoved.antt =====
-- Where an account's revision of settings/sql_store.py has not moved, none of its values has.
use settings_api.Prelude.{
  ◌≤◌, ◌≡◌, ◌≢◌, refl, sym, ap, ◌∙◌, subst, arith, true, false, ◌&&◌, String, Option, none, some,
  List, [], ◌∷◌, All, inl, inr, Bool-cases, is_nil, ◌==◌, string_eq, eq_iff,
}
use settings_api.Domain.Value.{Value}
use settings_api.Storage.{PrimaryKey, key_eq, key_beq_iff, Db}
use settings_api.Settings.Store.{Change, Write}
use settings_api.Settings.Rows.{revision_of}
use settings_api.Settings.SqlStore.Changes.{
  value_at, key_of, find_change, outcome, outcome_of, changes_something,
}
use settings_api.Settings.SqlStore.Apply.{IsSound}
use settings_api.Settings.SqlStore.Ideal.{
  Ideal, Call, apply_write, forget_account, purge, Reply, ideal_changed, ideal_write, ideal_forget,
  IdealStep, refuses, writes, forgets, purges, IdealSteps, stop, step, run, run_all, IsProper,
}
use settings_api.Settings.SqlStore.Refinement.{run_all-Refines}

outcome-same :
    (c : Change) (old : Option Value) → changes_something c old ≡ false → outcome c old ≡ old
outcome-same c none h = ground arith
outcome-same c (some v) h = ground arith

abbrev held : Db → Ideal
held db = record { value = value_at db; revision = revision_of db }

module _ (k : PrimaryKey) where
  -- The call neither erases the row's account nor purges its setting. Any write may be one.
  abbrev pub Spares : Call → Type 0
  Spares (apply_write a w) = Unit
  Spares (forget_account a) = a ≢ k.account_id
  Spares (purge namespace key now event_cap) = (k.namespace == namespace && k.key == key) ≡ false

  -- If the ideal store notes no change, the value of each key is what it was.
  ideal_changed-none :
      (a : String) (value : PrimaryKey → Option Value) (cs : List Change)
      → is_nil (ideal_changed a value cs) ≡ true
      → outcome_of (find_change a k cs) (value k) ≡ value k
  unfolding ideal_changed find_change
  ideal_changed-none a value [] h = refl
  ideal_changed-none a value (c ∷ cs) h =
      elim (Bool-cases (changes_something c (value (key_of a c)))) [
        | inl some_change ↦ (let impossible = (rw some_change at h) in cc)
        | inr no_change ↦ elim (Bool-cases (key_of a c == k)) [
          | inl same ↦
              let here = (key_beq_iff (key_of a c) k).0 same in
              rw same (
                outcome-same c (value k)
                  (subst (λ j. changes_something c (value j) ≡ false) here no_change))
          | inr other ↦ rw other (ideal_changed-none a value cs (rw no_change at h))
        ]
      ]

  find_change_other : (a : String) (cs : List Change) → a ≢ k.account_id → find_change a k cs ≡ none
  unfolding find_change
  find_change_other a [] apart = refl
  find_change_other a (c ∷ cs) apart =
      ground (arith, key_beq_iff (key_of a c) k, find_change_other a cs apart)

  -- The revision has moved on, or it and the value are as they were.
  abbrev Advances : Ideal → Ideal → Type 0
  Advances s t =
      (s.revision k.account_id ≤ t.revision k.account_id)
      × (t.revision k.account_id ≡ s.revision k.account_id → t.value k ≡ s.value k)

  write-Advances : (a : String) (w : Write) (s : Ideal) → Advances s (ideal_write a w s)
  write-Advances a w s = elim (Bool-cases (a == k.account_id)) [
    | inl same ↦ elim (Bool-cases (is_nil (ideal_changed a s.value w.changes))) [
      | inl nothing ↦
          let here = (eq_iff a k.account_id).0 same in
          rw (same, nothing)
            (
              subst (λ b. s.revision k.account_id ≤ s.revision b) (sym here) (omega arith),
              λ e. ideal_changed-none a s.value w.changes nothing,
            )
      | inr something ↦
          let here = ap s.revision ((eq_iff a k.account_id).0 same) in
          rw (same, something) (omega (arith, here), λ e. absurd (omega (arith, here, e)))
    ]
    | inr other ↦
        let apart = find_change_other a w.changes (ground (arith, eq_iff a k.account_id)) in
        rw (other, apart) (omega arith, λ e. refl)
  ]

  forget-Advances : (a : String) (s : Ideal) → a ≢ k.account_id → Advances s (ideal_forget a s)
  forget-Advances a s apart = ground (arith, eq_iff a k.account_id)

  IdealStep-Advances :
      {c : Call} {r : Reply} {s t : Ideal} → Spares c → IdealStep c r s t → Advances s t
  IdealStep-Advances {s} h (refuses a w e _ why) = (omega arith, λ e. refl)
  IdealStep-Advances {s} h (writes a w _ now) = write-Advances a w s
  IdealStep-Advances {s} h (forgets a n _) = forget-Advances a s h
  IdealStep-Advances {s} h (purges namespace key now event_cap n _) = (omega arith, λ e. rw h refl)

  Advances-trans : (s t u : Ideal) → Advances s t → Advances t u → Advances s u
  Advances-trans s t u (up, still) (up', still') = (
    omega (arith, up, up'),
    λ e. still' (omega (arith, up, up', e)) ∙ still (omega (arith, up, up', e)),
  )

  IdealSteps-Advances :
      (cs : List Call) (db : Db) {s t : Ideal}
      → All Spares cs
      → IdealSteps (run_all cs db).0 s t
      → Advances s t
  unfolding run_all
  IdealSteps-Advances [] db h (stop _) = (omega arith, λ e. refl)
  IdealSteps-Advances (c ∷ cs) db {s} {t = u} (h, hs) (step _ _ _ _ m _ st later) =
      Advances-trans s m u (IdealStep-Advances h st) (IdealSteps-Advances cs (run c db).1 hs later)

  -- Between two states of sound tables with only proper calls, none of which erases the row's account or
  -- purges its setting: if the account's revision is the same at both, so is the row's value.
  pub run_all-unmoved :
      (cs : List Call) (db : Db)
      → All IsProper cs
      → All Spares cs
      → IsSound db
      → revision_of (run_all cs db).1 k.account_id ≡ revision_of db k.account_id
      → value_at (run_all cs db).1 k ≡ value_at db k
  run_all-unmoved cs db proper spares sound same =
      let (t, steps, (values, revisions), _) =
        run_all-Refines cs db (held db) proper sound (λ j. refl, λ b. refl) in
      let (_, still) = IdealSteps-Advances cs db spares steps in
      values k ∙ still (sym (revisions k.account_id) ∙ same)
