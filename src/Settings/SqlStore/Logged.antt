-- ===== src/Settings/SqlStore/Logged.antt =====
-- The revision and the log after `SqlSettingsStore.apply` of settings/sql_store.py.
use settings_api.Prelude.{
  ℕ, suc, ◌≡◌, refl, sym, ap, ◌∙◌, subst, true, String, List, [], ◌∷◌, arith, take, ok, string_eq,
  is_some,
}
use settings_api.Storage.{EventRow, Db}
use settings_api.Events.{events_of, Appended, event_row, append_in}
use settings_api.Events.Cap.{Descends, append_in-events_of}
use settings_api.Settings.Store.{Applied, Write}
use settings_api.Settings.Rows.{find_account, revision_or_zero, read_state, revision_of}
use settings_api.Settings.SqlStore.{apply, record_changes, event_of, bump, apply_changes}
use settings_api.Settings.SqlStore.Effects.{
  effective_names, apply_changes-names, apply_changes-nothing, apply_changes-frame,
}
use settings_api.Settings.SqlStore.Revision.{
  is_known, bump_db, ensure_account_known, revision_of-ensure_account, ensure_account-frame,
  revision_of-bump,
}
use settings_api.Settings.SqlStore.Apply.{IsSound, opened, start, apply_steps}

module _ (a : String) (w : Write) (db : Db) where
  -- What a write that changed these names leaves: nothing at all, or one revision more and one event.
  abbrev pub Records : List String → Applied → Db → Type 0
  Records [] r end =
      (r.revision ≡ revision_of db a) × (end.settings ≡ db.settings) × (end.events ≡ db.events)
  Records (n ∷ ns) r end =
      (r.revision ≡ suc (revision_of db a))
      × (events_of a end.events
          ≡ take w.event_cap (
              event_row db.next_sequence (event_of a w r.revision (n ∷ ns))
              ∷ events_of a db.events))

  -- The names that the write changes, by comparison with what is stored.
  abbrev pub changing : List String
  changing = effective_names a (start a w db) w.now w.actor w.changes

  pub after_changes :
      (mid : Db)
      → mid ≡ record (opened a w db) { settings = mid.settings }
      → (is_known mid a ≡ true)
        × (revision_of mid a ≡ revision_of db a)
        × (mid.events ≡ db.events)
        × (mid.next_sequence ≡ db.next_sequence)
  unfolding revision_of
  after_changes mid frame =
      let rows = ap (λ x. x.accounts) frame in
      let kept = ensure_account-frame a w.now db in
      (
        ap (λ xs. is_some (find_account a xs)) rows ∙ ensure_account_known a w.now db,
        ap (λ xs. revision_or_zero (find_account a xs)) rows
            ∙ revision_of-ensure_account a a w.now db,
        ap (λ x. x.events) frame ∙ ap (λ x. x.events) kept,
        ap (λ x. x.next_sequence) frame ∙ ap (λ x. x.next_sequence) kept,
      )

  pub record_some :
      (n : String) (ns : List String) (revision : ℕ) (mid end : Db) (r : Applied)
      → record_changes a w revision (n ∷ ns) mid ≡ (ok r, end)
      → (r ≡ record { revision = revision_of (bump_db a w.now mid) a; changed = n ∷ ns })
        × (end
            ≡ append_in
                (event_of a w (revision_of (bump_db a w.now mid) a) (n ∷ ns))
                w.event_cap
                (bump_db a w.now mid))
  unfolding record_changes bump
  record_some n ns revision mid end r h = ground arith

  pub revision_of-append_in :
      (x : Db) (b : String) (e : Appended) (most : ℕ)
      → revision_of (append_in e most x) b ≡ revision_of x b
  unfolding append_in revision_of
  revision_of-append_in x b e most = refl

  pub start_revision : (start a w db).revision ≡ revision_of db a
  unfolding read_state
  start_revision = revision_of-ensure_account a a w.now db

  start_reads : (start a w db).revision ≡ revision_of (opened a w db) a
  unfolding read_state
  start_reads = refl

  pub record_none :
      (revision : ℕ) (mid end : Db) (r : Applied)
      → record_changes a w revision [] mid ≡ (ok r, end)
      → (r ≡ record { revision = revision; changed = [] }) × (end ≡ mid)
  unfolding record_changes
  record_none revision mid end r h = ground arith

  Returned : List String → Applied → Db → Type 0
  Returned names r end =
      (r.changed ≡ names) × (revision_of end a ≡ r.revision) × Records names r end

  record_changes-Returned :
      (names : List String) (mid end : Db) (r : Applied)
      → IsSound db
      → apply_changes a (start a w db) w.now w.actor w.changes (opened a w db) ≡ (ok names, mid)
      → record_changes a w (start a w db).revision names mid ≡ (ok r, end)
      → Returned names r end
  unfolding Returned
  record_changes-Returned [] mid end r s ran recorded =
      let (e, same) = record_none (start a w db).revision mid end r recorded in
      let untouched =
        same
        ∙ apply_changes-nothing a (start a w db) w.now w.actor w.changes (opened a w db) mid [] ran
            refl in
      let kept = ensure_account-frame a w.now db in
      let at_start = ap {A = Applied} (λ x. x.revision) e in
      (
        ap {A = Applied} (λ x. x.changed) e,
        ap (λ x. revision_of x a) untouched ∙ sym start_reads ∙ sym at_start,
        (
          at_start ∙ start_revision,
          ap (λ x. x.settings) untouched ∙ ap (λ x. x.settings) kept,
          ap (λ x. x.events) untouched ∙ ap (λ x. x.events) kept,
        ),
      )
  record_changes-Returned (n ∷ ns) mid end r s ran recorded =
      let frame =
        apply_changes-frame a (start a w db) w.now w.actor w.changes (opened a w db) mid (n ∷ ns)
          ran in
      let (known, revision, events, sequence) = after_changes mid frame in
      let (e, ended) = record_some n ns _ mid end r recorded in
      let moved = revision_of-bump a w.now mid known in
      let ordered =
        subst (λ q. Descends q mid.events) (sym sequence)
          (subst (λ es. Descends db.next_sequence es) (sym events) s.ordered) in
      let at_end = ap {A = Applied} (λ x. x.revision) e in
      (
        ap {A = Applied} (λ x. x.changed) e,
        ap (λ x. revision_of x a) ended
            ∙ revision_of-append_in (bump_db a w.now mid) a _ _
            ∙ sym at_end,
        (
          at_end ∙ moved ∙ ap suc revision,
          ap (λ x. events_of a x.events) ended
              ∙ append_in-events_of (event_of a w (revision_of (bump_db a w.now mid) a) (n ∷ ns))
                  w.event_cap (bump_db a w.now mid) ordered
              ∙ ap
                  (λ es. take w.event_cap (
                    logged (revision_of (bump_db a w.now mid) a) mid.next_sequence
                    ∷ events_of a es))
                  events
              ∙ ap
                  (λ q.
                    take w.event_cap
                      (logged (revision_of (bump_db a w.now mid) a) q ∷ events_of a db.events))
                  sequence
              ∙ ap (λ v. take w.event_cap (logged v db.next_sequence ∷ events_of a db.events))
                  (sym at_end),
        ),
      )
    where
      logged : ℕ → ℕ → EventRow
      logged v q = event_row q (event_of a w v (n ∷ ns))

  -- A write that returns, from sound tables, reports the names that it changed and the account's
  -- revision. If nothing changed, the revision, the rows and the log are as before. Otherwise the
  -- revision is one more, and the account's log is the event of this write before the older events, cut
  -- to the newest `event_cap`.
  pub apply-Records :
      (r : Applied) (end : Db)
      → IsSound db
      → apply a w db ≡ (ok r, end)
      → (r.changed ≡ changing) × (revision_of end a ≡ r.revision) × Records changing r end
  unfolding Returned
  apply-Records r end s h =
      let (names, mid, ran, recorded) = apply_steps a w db r end h in
      let named =
        apply_changes-names a (start a w db) w.now w.actor w.changes (opened a w db) mid names
          ran in
      subst (λ ns. Returned ns r end) named (record_changes-Returned names mid end r s ran recorded)
