-- ===== src/Settings/SqlStore/Sound.antt =====
-- A write of settings/sql_store.py keeps the tables sound.
use settings_api.Prelude.{
  ◌≡◌, sym, subst, All, Bool, true, false, String, List, [], ◌∷◌, filter, inl, inr, Bool-cases,
  if◌then◌else◌, ◌==◌, ok, string_eq, pair_eq,
}
use settings_api.Domain.Types.Names.{HasNoDot}
use settings_api.Storage.{Instant, SettingRow, key_eq, primary_key, Db}
use settings_api.Events.Cap.{Descends, IsOrdered, append_in-IsOrdered}
use settings_api.Settings.Store.{AccountState, Change, Applied, Write}
use settings_api.Settings.Rows.{upsert_row, delete_row}
use settings_api.Settings.Rows.Find.{Unique, IsNamed, upsert-Unique, filter-Unique}
use settings_api.Settings.SqlStore.{new_row, apply_changes, apply, record_changes, event_of}
use settings_api.Settings.SqlStore.Changes.{write_row, apply_change-db, run_changes_cons}
use settings_api.Settings.SqlStore.Effects.{apply_changes-frame}
use settings_api.Settings.SqlStore.Revision.{bump_db, settings-ensure_account}
use settings_api.Settings.SqlStore.Apply.{
  IsSound, apply_steps, opened, start, record_changes-settings,
}
use settings_api.Settings.SqlStore.Logged.{after_changes, record_none, record_some}

-- The rows of a table that is sound.
abbrev pub RowsSound : List SettingRow → Type 0
RowsSound rs = Unique rs × All IsNamed rs

upsert-IsNamed :
    (new : SettingRow) (rs : List SettingRow)
    → IsNamed new
    → All IsNamed rs
    → All IsNamed (upsert_row new rs)
unfolding upsert_row
upsert-IsNamed new [] h hs = (h, tt)
upsert-IsNamed new (r ∷ rs) h (g, gs) = elim (Bool-cases (primary_key r == primary_key new)) [
  | inl same ↦ rw same (h, gs)
  | inr other ↦ rw other (g, upsert-IsNamed new rs h gs)
]

pub filter-IsNamed :
    (p : SettingRow → Bool) (rs : List SettingRow) → All IsNamed rs → All IsNamed (filter p rs)
unfolding filter
filter-IsNamed p [] h = tt
filter-IsNamed p (r ∷ rs) (h, hs) = elim (Bool-cases (p r)) [
  | inl kept ↦ rw kept (h, filter-IsNamed p rs hs)
  | inr gone ↦ rw gone (filter-IsNamed p rs hs)
]

-- The names that a change addresses hold no dot.
abbrev pub HasName : Change → Type 0
HasName c = HasNoDot c.namespace × HasNoDot c.key

module _ (account_id : String) (state : AccountState) (now : Instant) (actor : String) where
  write_row-RowsSound :
      (c : Change) (db : Db)
      → HasName c
      → RowsSound db.settings
      → RowsSound (write_row account_id state now actor c db).settings
  unfolding delete_row
  write_row-RowsSound c db named (u, n) = elim (Bool-cases c.reset) [
    | inl reset ↦ rw reset (filter-Unique _ db.settings u, filter-IsNamed _ db.settings n)
    | inr set ↦ rw set (
      upsert-Unique (new_row account_id state now actor c) db.settings u,
      upsert-IsNamed (new_row account_id state now actor c) db.settings named n,
    )
  ]

  chosen-RowsSound :
      (test : Bool) (x y : Db)
      → RowsSound x.settings
      → RowsSound y.settings
      → RowsSound (if test then x else y).settings
  chosen-RowsSound true x y hx hy = hx
  chosen-RowsSound false x y hx hy = hy

  apply_changes-RowsSound :
      (cs : List Change) (db end : Db) (names : List String)
      → All HasName cs
      → RowsSound db.settings
      → apply_changes account_id state now actor cs db ≡ (ok names, end)
      → RowsSound end.settings
  unfolding apply_changes
  apply_changes-RowsSound [] db end names hs s h =
      subst {A = Db} (λ x. RowsSound x.settings) {x = db} {y = end} (cc) s
  apply_changes-RowsSound (c ∷ cs) db end names (named, hs) s h =
      let (first, later, mid, h₁, h₂, e) =
        run_changes_cons account_id state now actor c cs db end names h in
      let made = apply_change-db account_id state now actor c db mid first h₁ in
      apply_changes-RowsSound cs mid end later hs
        (subst {A = Db} (λ x. RowsSound x.settings) (sym made)
          (chosen-RowsSound _ _ db (write_row-RowsSound c db named s) s))
        h₂

module _ (a : String) (w : Write) (db : Db) where
  record_changes-IsOrdered :
      (names : List String) (mid end : Db) (r : Applied)
      → IsSound db
      → mid ≡ record (opened a w db) { settings = mid.settings }
      → record_changes a w (start a w db).revision names mid ≡ (ok r, end)
      → IsOrdered end
  record_changes-IsOrdered names mid end r s frame recorded =
      let (known, revision, events, sequence) = after_changes a w db mid frame in
      let ordered =
        subst (λ q. Descends q mid.events) (sym sequence)
          (subst (λ es. Descends db.next_sequence es) (sym events) s.ordered) in
      from_names names ordered recorded
    where
      from_names :
          (ns : List String)
          → IsOrdered mid
          → record_changes a w (start a w db).revision ns mid ≡ (ok r, end)
          → IsOrdered end
      from_names [] ordered h =
          let (e, same) = record_none a w db (start a w db).revision mid end r h in
          subst IsOrdered (sym same) ordered
      from_names (n ∷ ns) ordered h =
          let (e, ended) = record_some a w db n ns _ mid end r h in
          subst IsOrdered (sym ended) (
            append_in-IsOrdered (event_of a w _ (n ∷ ns)) w.event_cap (bump_db a w.now mid) ordered)

  -- A write that returns keeps sound tables sound, if the names that it writes hold no dot.
  pub apply-IsSound :
      (r : Applied) (end : Db)
      → All HasName w.changes
      → IsSound db
      → apply a w db ≡ (ok r, end)
      → IsSound end
  apply-IsSound r end named s h =
      let (names, mid, ran, recorded) = apply_steps a w db r end h in
      let frame =
        apply_changes-frame a (start a w db) w.now w.actor w.changes (opened a w db) mid names
          ran in
      let before = subst RowsSound (sym (settings-ensure_account a w.now db)) (s.unique, s.named) in
      let rows =
        apply_changes-RowsSound a (start a w db) w.now w.actor w.changes (opened a w db) mid names
          named before ran in
      let same = record_changes-settings a w db (start a w db).revision names mid end r recorded in
      record {
        unique = subst Unique (sym same) rows.0;
        named = subst (All IsNamed) (sym same) rows.1;
        ordered = record_changes-IsOrdered names mid end r s frame recorded;
      }
