-- ===== src/Settings/SqlStore/Others.antt =====
-- What the calls of settings/sql_store.py leave as it was, and that they keep the tables sound.
use settings_api.Prelude.{
  ◌≡◌, ◌≢◌, sym, ap, ◌∙◌, subst, ℕ, not, String, none, List, [], ◌∷◌, arith, All, filter, inl, inr,
  Bool-cases, is_nil, if◌then◌else◌, ◌==◌, ok, string_eq, pair_eq, eq_iff,
}
use settings_api.Storage.{Instant, SettingRow, PrimaryKey, key_eq, key_beq_iff, primary_key, Db}
use settings_api.Storage.Exec.{transact}
use settings_api.Events.Cap.{IsOrdered, append_in-IsOrdered, Descends-filter}
use settings_api.Settings.Store.{Applied, Write}
use settings_api.Settings.Rows.{find_account, revision_or_zero, revision_of}
use settings_api.Settings.Rows.Find.{find_row, filter-Unique, Unique, IsNamed}
use settings_api.Settings.SqlStore.{apply, record_changes, is_setting, append_purges, purge_setting}
use settings_api.Settings.SqlStore.Changes.{value_at}
use settings_api.Settings.SqlStore.Effects.{apply_changes-frame}
use settings_api.Settings.SqlStore.Revision.{
  bump_db, revision_of-ensure_account, revision_of-bump_other,
}
use settings_api.Settings.SqlStore.Apply.{IsSound, opened, start, apply_steps}
use settings_api.Settings.SqlStore.Logged.{record_none, record_some, revision_of-append_in}
use settings_api.Settings.SqlStore.Sound.{filter-IsNamed}
use settings_api.Settings.SqlStore.Forget.{owned, without, find_account_gone, find_account_kept}
use settings_api.Settings.SqlStore.Purge.{purge_frame}

record_changes-revision_other :
    (a b : String) (w : Write) (db mid end : Db) (names : List String) (r : Applied)
    → a ≢ b
    → record_changes a w (start a w db).revision names mid ≡ (ok r, end)
    → revision_of end b ≡ revision_of mid b
record_changes-revision_other a b w db mid end [] r apart h =
    let (_, same) = record_none a w db _ mid end r h in ap (λ x. revision_of x b) same
record_changes-revision_other a b w db mid end (n ∷ ns) r apart h =
    let (_, ended) = record_some a w db n ns _ mid end r h in
    ap (λ x. revision_of x b) ended
    ∙ revision_of-append_in a w db (bump_db a w.now mid) b _ _
    ∙ revision_of-bump_other a b w.now mid apart

-- A write of one account moves no other account's revision.
pub apply-revision_other :
    (a b : String) (w : Write) (db end : Db) (r : Applied)
    → a ≢ b
    → apply a w db ≡ (ok r, end)
    → revision_of end b ≡ revision_of db b
unfolding revision_of
apply-revision_other a b w db end r apart h =
    let (names, mid, ran, recorded) = apply_steps a w db r end h in
    let frame =
      apply_changes-frame a (start a w db) w.now w.actor w.changes (opened a w db) mid names ran in
    record_changes-revision_other a b w db mid end names r apart recorded
    ∙ ap (λ x. revision_or_zero (find_account b x.accounts)) frame
    ∙ revision_of-ensure_account a b w.now db

find_row_gone :
    (a : String) (k : PrimaryKey) (rs : List SettingRow)
    → find_row k (filter (λ r. not (owned a r)) rs)
      ≡ (if a == k.account_id then none else find_row k rs)
unfolding find_row filter
find_row_gone a k [] = ground arith
find_row_gone a k (r ∷ rs) = ground (
  arith,
  key_beq_iff (primary_key r) k,
  eq_iff r.account_id a,
  eq_iff a k.account_id,
  find_row_gone a k rs,
)

pub without-value :
    (a : String) (db : Db) (k : PrimaryKey)
    → value_at (without a db) k ≡ (if a == k.account_id then none else value_at db k)
unfolding value_at
without-value a db k = ground (arith, find_row_gone a k db.settings)

pub without-revision :
    (a : String) (db : Db) (b : String)
    → revision_of (without a db) b ≡ (if a == b then 0 else revision_of db b)
unfolding revision_of
without-revision a db b =
    ground (arith, eq_iff a b, find_account_gone a db.accounts, find_account_kept a b db.accounts)

pub without-IsSound : (a : String) (db : Db) → IsSound db → IsSound (without a db)
without-IsSound a db s = record {
  unique = filter-Unique _ db.settings s.unique;
  named = filter-IsNamed _ db.settings s.named;
  ordered = Descends-filter _ db.next_sequence db.events s.ordered;
}

module _ (namespace key : String) (now : Instant) (event_cap : ℕ) where
  append_purges-IsOrdered :
      (rs : List SettingRow) (db : Db)
      → IsOrdered db
      → IsOrdered (append_purges namespace key now event_cap rs db)
  unfolding append_purges
  append_purges-IsOrdered [] db d = d
  append_purges-IsOrdered (r ∷ rs) db d =
      append_purges-IsOrdered rs _ (append_in-IsOrdered _ event_cap db d)

  purge-IsOrdered :
      (db : Db) → IsOrdered db → IsOrdered (purge_setting namespace key now event_cap db).1
  unfolding purge_setting transact
  purge-IsOrdered db d =
      elim (Bool-cases (is_nil (filter (is_setting namespace key) db.settings))) [
        | inl gone ↦ rw gone d
        | inr some_rows ↦ rw some_rows (append_purges-IsOrdered _ _ d)
      ]

  pub purge-IsSound :
      (db : Db) → IsSound db → IsSound (purge_setting namespace key now event_cap db).1
  purge-IsSound db s =
      let (rows, _, _) = purge_frame namespace key now event_cap db in
      record {
        unique = subst Unique (sym rows) (filter-Unique _ db.settings s.unique);
        named = subst (All IsNamed) (sym rows) (filter-IsNamed _ db.settings s.named);
        ordered = purge-IsOrdered db s.ordered;
      }
