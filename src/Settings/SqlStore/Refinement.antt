-- ===== src/Settings/SqlStore/Refinement.antt =====
-- The store of settings/sql_store.py implements the ideal one.
use settings_api.Prelude.{
  ◌≡◌, refl, sym, ap, ◌∙◌, subst, arith, false, String, List, [], ◌∷◌, All, Result, ok, err, inl,
  inr, Bool-cases, if◌then◌else◌, ◌==◌, string_eq, pair_eq, eq_iff, Option, none, ◌&&◌,
}
use settings_api.Domain.Value.{Value}
use settings_api.Domain.Errors.{Error}
use settings_api.Storage.{PrimaryKey, Db}
use settings_api.Settings.Store.{Change, Applied, Write}
use settings_api.Settings.Rows.{revision_of}
use settings_api.Settings.SqlStore.{is_stale, apply}
use settings_api.Settings.SqlStore.Changes.{value_at, key_of, Agrees, find_change, outcome_of}
use settings_api.Settings.SqlStore.Effects.{effective_names}
use settings_api.Settings.SqlStore.Apply.{
  IsSound, opened, start, apply_atomic, opened-value, opened-Agrees, apply-value,
}
use settings_api.Settings.SqlStore.Logged.{Records, changing, start_revision, apply-Records}
use settings_api.Settings.SqlStore.Returns.{not_both, apply-refusal}
use settings_api.Settings.SqlStore.Raises.{Raised, apply-Raised}
use settings_api.Settings.SqlStore.Sound.{apply-IsSound}
use settings_api.Settings.SqlStore.Forget.{forget_db}
use settings_api.Settings.SqlStore.Purge.{purge_frame, purge_setting-value}
use settings_api.Settings.SqlStore.Others.{
  apply-revision_other, without-value, without-revision, without-IsSound, purge-IsSound,
}
use settings_api.Settings.SqlStore.Ideal.{
  Ideal, Call, apply_write, forget_account, purge, Reply, applied, ideal_changed, next_revision,
  ideal_applied, ideal_write, ideal_forget, ideal_purge, IdealStep, refuses, writes, forgets,
  purges, IdealSteps, stop, step, answer_write, answer_count, run, run_all, Refines, IsProper,
}

module _ (a : String) (w : Write) (db : Db) where
  -- The comparison with the state that was read is one with the values that are stored.
  effective_names-ideal :
      (value : PrimaryKey → Option Value) (cs : List Change)
      → ((k : PrimaryKey) → value_at (opened a w db) k ≡ value k)
      → Agrees a (start a w db) w.now w.actor (opened a w db) cs
      → effective_names a (start a w db) w.now w.actor cs ≡ ideal_changed a value cs
  unfolding effective_names ideal_changed
  effective_names-ideal value [] same agrees = refl
  effective_names-ideal value (c ∷ cs) same (here, agrees) =
      let there = sym here ∙ same (key_of a c) in
      rw (there, effective_names-ideal value cs same agrees) refl

  Records-revision :
      (names : List String) (r : Applied) (end : Db)
      → Records a w db names r end
      → r.revision ≡ next_revision (revision_of db a) names
  Records-revision [] r end (h, _, _) = h
  Records-revision (n ∷ ns) r end (h, _) = h ∙ omega arith

  apply-not_stale :
      (r : Applied) (end : Db)
      → apply a w db ≡ (ok r, end)
      → is_stale w.if_revision (revision_of db a) ≡ false
  apply-not_stale r end h = elim (Bool-cases (is_stale w.if_revision (start a w db).revision)) [
    | inl stale ↦
        let refusal = apply-refusal a w db (rw stale refl) in
        not_both (sym (ap (λ x. x.0) refusal) ∙ ap (λ x. x.0) h) _
    | inr now ↦ subst (λ n. is_stale w.if_revision n ≡ false) (start_revision a w db) now
  ]

  module _ (s : Ideal) (sound : IsSound db) (refines : Refines db s) where
    changing-ideal : changing a w db ≡ ideal_changed a s.value w.changes
    changing-ideal =
        effective_names-ideal s.value w.changes (λ k. opened-value a w db k ∙ refines.0 k)
          (opened-Agrees a w db w.changes sound)

    apply-ideal_applied :
        (r : Applied) (end : Db) → apply a w db ≡ (ok r, end) → r ≡ ideal_applied a w s
    apply-ideal_applied r end h =
        let (names, _, records) = apply-Records a w db r end sound h in
        let revision = Records-revision (changing a w db) r end records in
        let changed = names ∙ changing-ideal in
        let moved =
          revision
          ∙ ap (λ n. next_revision n (changing a w db)) (refines.1 a)
          ∙ ap (next_revision (s.revision a)) changing-ideal in
        λ i. record { revision = moved i; changed = changed i }

    apply-revision :
        (r : Applied) (end : Db) (b : String)
        → apply a w db ≡ (ok r, end)
        → revision_of end b ≡ (ideal_write a w s).revision b
    apply-revision r end b h = elim (Bool-cases (a == b)) [
      | inl same ↦
          let (_, reached, _) = apply-Records a w db r end sound h in
          rw same (
            subst (λ x. revision_of end x ≡ (ideal_applied a w s).revision) ((eq_iff a b).0 same)
              (reached ∙ ap (λ x. x.revision) (apply-ideal_applied r end h)))
      | inr other ↦
          rw other
            (apply-revision_other a b w db end r (ground (arith, eq_iff a b)) h ∙ refines.1 b)
    ]

-- The ideal store takes a step that gives the same reply, and the tables still hold what it holds.
abbrev pub Follows : Call → Ideal → Reply → Db → Type 0
Follows c s reply end = (t : Ideal) × IdealStep c reply s t × Refines end t × IsSound end

write-Follows :
    (a : String) (w : Write) (db : Db) (s : Ideal) (answer : Result Error Applied) (end : Db)
    → IsProper (apply_write a w)
    → IsSound db
    → Refines db s
    → apply a w db ≡ (answer, end)
    → Follows (apply_write a w) s (answer_write answer) end
write-Follows a w db s (err e) end proper sound refines h =
    let same = sym (apply_atomic a w db end e h) in
    (
      s,
      refuses a w e s
          (subst (λ n. Raised w n e) (refines.1 a) (apply-Raised a w db e (ap (λ x. x.0) h))),
      subst (λ x. Refines x s) same refines,
      subst IsSound same sound,
    )
write-Follows a w db s (ok r) end (apart, named) sound refines h = (
  ideal_write a w s,
  subst (λ x. IdealStep (apply_write a w) (applied x) s (ideal_write a w s))
      (sym (apply-ideal_applied a w db s sound refines r end h))
      (writes a w s (
        subst (λ n. is_stale w.if_revision n ≡ false) (refines.1 a)
          (apply-not_stale a w db r end h))),
  (
    λ k.
        apply-value a w db r end k sound apart h
        ∙ ap (outcome_of (find_change a k w.changes)) (refines.0 k),
    λ b. apply-revision a w db s sound refines r end b h,
  ),
  apply-IsSound a w db r end named sound h,
)

-- A call to sound tables that hold what the ideal store holds gets the reply that the ideal store
-- allows, and leaves tables that are sound and hold what the ideal store then holds.
run-Follows :
    (c : Call) (db : Db) (s : Ideal)
    → IsProper c
    → IsSound db
    → Refines db s
    → Follows c s (run c db).0 (run c db).1
run-Follows (apply_write a w) db s proper sound refines =
    write-Follows a w db s (apply a w db).0 (apply a w db).1 proper sound refines refl
run-Follows (forget_account a) db s proper sound (values, revisions) =
    subst (λ x. Follows (forget_account a) s (answer_count x.0) x.1) (sym (forget_db a db))
      (
        ideal_forget a s,
        forgets a _ s,
        (
          λ k. without-value a db k ∙ ap (λ v. if a == k.account_id then none else v) (values k),
          λ b. without-revision a db b ∙ ap (λ n. if a == b then 0 else n) (revisions b),
        ),
        without-IsSound a db sound,
      )
run-Follows (purge namespace key now event_cap) db s proper sound (values, revisions) =
    let (_, _, counted) = purge_frame namespace key now event_cap db in
    let kept = purge_setting-value namespace key now event_cap db in
    (
      ideal_purge namespace key s,
      subst
          (λ x.
            IdealStep (purge namespace key now event_cap) (answer_count x) s
              (ideal_purge namespace key s))
          (sym counted) (purges namespace key now event_cap _ s),
      (
        λ k.
            (kept k "").1
            ∙ ap (λ v. if k.namespace == namespace && k.key == key then none else v) (values k),
        λ b.
            (kept (record { account_id = b; profile = ""; namespace = ""; key = "" }) b).2
            ∙ revisions b,
      ),
      purge-IsSound namespace key now event_cap db sound,
    )

-- The store implements the ideal one: however many writes, erasures and purges are made from sound tables
-- that hold what the ideal store holds, no two changes of one write addressing one row and no name
-- holding a dot, the ideal store has steps with the same calls and the same replies (the number of rows
-- removed is left open), after which the tables hold what it holds and are sound. A write is refused
-- only for a stale revision or for a profile that it writes to.
pub run_all-Refines :
    (cs : List Call) (db : Db) (s : Ideal)
    → All IsProper cs
    → IsSound db
    → Refines db s
    → let (log, end) = run_all cs db in
      (t : Ideal) × IdealSteps log s t × Refines end t × IsSound end
unfolding run_all
run_all-Refines [] db s proper sound refines = (s, stop s, refines, sound)
run_all-Refines (c ∷ cs) db s (proper, propers) sound refines =
    let (t, stepped, mid_refines, mid_sound) = run-Follows c db s proper sound refines in
    let (u, later, end_refines, end_sound) =
      run_all-Refines cs (run c db).1 t propers mid_sound mid_refines in
    (u, step c _ _ s t u stepped later, end_refines, end_sound)
