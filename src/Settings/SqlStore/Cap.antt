-- ===== src/Settings/SqlStore/Cap.antt =====
-- `_enforce_profile_cap` of settings/sql_store.py, and what a write answers, told by the tables.
use settings_api.Prelude.{
  Option-cases, ℕ, ◌<◌, ◌≡◌, ◌≢◌, refl, sym, ap, ◌∙◌, arith, Bool, true, false, not, ◌&&◌, ◌||◌,
  String, none, some, List, [], ◌∷◌, ◌++◌, length, any, contains, is_nodup, dedup, is_nil, ◌==◌,
  string_eq, pair_eq, nat_eq, eq_iff, inl, inr, ◌⊎◌, ◌↔◌, Bool-cases, err,
}
use settings_api.Prelude.Dict.{Dict, insert}
use settings_api.Prelude.Distinct.{contains-append, contains-dedup, dedup-nodup, length-nodup-le}
use settings_api.Domain.Types.{account_profile}
use settings_api.Domain.Errors.{revision_mismatch, invalid_value, too_many_profiles}
use settings_api.Storage.{SettingRow, Db}
use settings_api.Settings.Store.{StoredSetting, RowKey, stored_key, Change, Write}
use settings_api.Settings.Rows.{
  incoming_profiles, existing_profiles, exceeds_profile_cap, collect_rows, read_state, stored_of,
  revision_of, ensure_account,
}
use settings_api.Settings.SqlStore.{is_stale, apply}
use settings_api.Settings.SqlStore.Revision.{settings-ensure_account}
use settings_api.Settings.SqlStore.Apply.{start, opened}
use settings_api.Settings.SqlStore.Logged.{start_revision}
use settings_api.Settings.SqlStore.Returns.{apply-refusal}
use settings_api.Settings.SqlStore.Raises.{apply_changes-raises, apply-raised, apply-Raised}

-- The row is the account's, in the profile.
abbrev pub holds : String → String → SettingRow → Bool
holds a p r = r.account_id == a && r.profile == p

-- The change gives a value to a setting in the profile.
abbrev pub fills : String → Change → Bool
fills p c = c.profile == p && not c.reset

-- A profile in which the account has a row, or would have one if the write were done.
abbrev pub in_use : String → List Change → Db → String → Bool
in_use a cs db p = any (holds a p) db.settings || any (fills p) cs

existing-insert :
    (rows : Dict RowKey StoredSetting) (k : RowKey) (s : StoredSetting) (p : String)
    → contains (existing_profiles (insert rows k s)) p
      ≡ (contains (existing_profiles rows) p || (k.0 == p && not (p == account_profile)))
unfolding existing_profiles insert contains
existing-insert [] (q, name) s p = ground (arith, eq_iff q p)
existing-insert (((q, name), t) ∷ rows) (q', name') s p =
    ground (arith, eq_iff q q', eq_iff q' p, eq_iff q p, existing-insert rows (q', name') s p)

existing-collect_rows :
    (a p : String) (rows : Dict RowKey StoredSetting) (rs : List SettingRow)
    → contains (existing_profiles (collect_rows a rows rs)) p
      ≡ (contains (existing_profiles rows) p || (not (p == account_profile) && any (holds a p) rs))
unfolding collect_rows any
existing-collect_rows a p rows [] = ground arith
existing-collect_rows a p rows (r ∷ rs) = ground (
  arith,
  existing-insert rows (stored_key (stored_of r)) (stored_of r) p,
  existing-collect_rows a p (insert rows (stored_key (stored_of r)) (stored_of r)) rs,
  existing-collect_rows a p rows rs,
)

contains-incoming :
    (p : String) (cs : List Change)
    → contains (incoming_profiles cs) p ≡ (not (p == account_profile) && any (fills p) cs)
unfolding incoming_profiles contains any
contains-incoming p [] = ground arith
contains-incoming p (c ∷ cs) = ground (arith, eq_iff c.profile p, contains-incoming p cs)

-- The change gives a value to a setting in some profile of the account.
abbrev pub fills_profile : Change → Bool
fills_profile c = not (c.profile == account_profile) && not c.reset

is_nil-incoming : (cs : List Change) → is_nil (incoming_profiles cs) ≡ not (any fills_profile cs)
unfolding incoming_profiles any
is_nil-incoming [] = refl
is_nil-incoming (c ∷ cs) = ground (arith, is_nil-incoming cs)

module _ (a : String) (w : Write) (db : Db) where
  -- The write fills a profile, and there are 33 profiles or more that would then be in use.
  abbrev pub TooMany : Type 0
  TooMany =
      (any fills_profile w.changes ≡ true)
      × (ps : List String) × (is_nodup ps ≡ true)
      × (32 < length ps)
      × ((p : String)
          → contains ps p ≡ true
          → (p ≢ account_profile) × (in_use a w.changes db p ≡ true))

  abbrev counted : List String
  counted = dedup (existing_profiles (start a w db).rows ++ incoming_profiles w.changes)

  contains-counted :
      (p : String) → contains counted p ≡ (not (p == account_profile) && in_use a w.changes db p)
  unfolding read_state existing_profiles contains
  contains-counted p = ground (
    arith,
    contains-dedup (existing_profiles (start a w db).rows ++ incoming_profiles w.changes) p,
    contains-append (existing_profiles (start a w db).rows) (incoming_profiles w.changes) p,
    contains-incoming p w.changes,
    existing-collect_rows a p [] (ensure_account a w.now db).settings,
    settings-ensure_account a w.now db,
  )

  counted_once :
      (p : String)
      → contains counted p ≡ true
      → (p ≢ account_profile) × (in_use a w.changes db p ≡ true)
  counted_once p h =
      let both = sym (contains-counted p) ∙ h in ground (arith, eq_iff p account_profile)

  TooMany-exceeds : TooMany → exceeds_profile_cap w.changes (start a w db) ≡ true
  unfolding exceeds_profile_cap
  TooMany-exceeds (filled, ps, once, many, inside) =
      let most = length-nodup-le ps counted once (λ p h.
        let (apart, used) = inside p h in
        contains-counted p ∙ ground (arith, eq_iff p account_profile)) in
      ground (arith, is_nil-incoming w.changes)

  exceeds-TooMany : exceeds_profile_cap w.changes (start a w db) ≡ true → TooMany
  unfolding exceeds_profile_cap
  exceeds-TooMany h = (
    ground (arith, is_nil-incoming w.changes),
    counted,
    dedup-nodup (existing_profiles (start a w db).rows ++ incoming_profiles w.changes),
    ground arith,
    counted_once,
  )

  -- The revision that the write expects, if it expects one, is the account's.
  abbrev pub IsCurrent : Type 0
  IsCurrent = (w.if_revision ≡ none) ⊎ (w.if_revision ≡ some (revision_of db a))

  IsCurrent-fresh : IsCurrent → is_stale w.if_revision (start a w db).revision ≡ false
  IsCurrent-fresh (inl any_revision) = rw any_revision refl
  IsCurrent-fresh (inr current) = rw (current, start_revision a w db) (ground (arith, nat_eq))

  expects-stale :
      (n : ℕ)
      → w.if_revision ≡ some n
      → n ≢ revision_of db a
      → is_stale w.if_revision (start a w db).revision ≡ true
  expects-stale n expected other = rw (expected, start_revision a w db) (ground arith)

  expected-mismatch :
      (m n : ℕ)
      → apply a w db ≡ (err (revision_mismatch m n), db)
      → (w.if_revision ≡ some n) × (n ≢ revision_of db a) × (m ≡ revision_of db a)
  expected-mismatch m n h = elim (apply-Raised a w db (revision_mismatch m n) (ap (λ x. x.0) h)) [
    | inl (stale, same) ↦ elim (Option-cases w.if_revision) [
      | inl nothing ↦ ground (arith, nothing, stale, same)
      | inr (other, expected) ↦ ground (arith, expected, stale, same)
    ]
    | inr (_, _, inl same) ↦ cc
    | inr (_, _, inr same) ↦ cc
  ]

  -- A write raises a revision mismatch, and leaves the tables as they were, exactly if it expects a revision
  -- that is not the account's; the mismatch names the account's revision and the expected one. So a
  -- stale write is told that it is stale, whatever else is wrong with it.
  pub apply-stale_iff :
      (m n : ℕ)
      → (apply a w db ≡ (err (revision_mismatch m n), db))
        ↔ ((w.if_revision ≡ some n) × (n ≢ revision_of db a) × (m ≡ revision_of db a))
  apply-stale_iff m n = (
    expected-mismatch m n,
    λ (expected, other, named).
        let stale = expects-stale n expected other in
        apply-refusal a w db (rw stale refl)
        ∙ rw (stale, expected, start_revision a w db, named) refl,
  )

  too_many-TooMany :
      IsCurrent → (apply a w db).0 ≡ err (invalid_value "profile" too_many_profiles) → TooMany
  too_many-TooMany current h = elim (Bool-cases (exceeds_profile_cap w.changes (start a w db))) [
    | inl many ↦ exceeds-TooMany many
    | inr few ↦
        let raised =
          apply-raised a w db (invalid_value "profile" too_many_profiles) (IsCurrent-fresh current)
            few h in
        let (integrity, _) =
          apply_changes-raises a (start a w db) w.now w.actor w.changes (opened a w db)
            (invalid_value "profile" too_many_profiles) raised in
        (cc)
  ]

  -- A write that does not expect another revision than the account's is refused for its profiles exactly if
  -- it gives a value in a profile and there are more than 32 different profiles, the account-wide
  -- one not counted, in which the account has a row or the write gives a value.
  pub apply-too_many_iff :
      IsCurrent → ((apply a w db).0 ≡ err (invalid_value "profile" too_many_profiles)) ↔ TooMany
  apply-too_many_iff current = (
    too_many-TooMany current,
    λ many.
        let fresh = IsCurrent-fresh current in
        ap (λ x. x.0) (apply-refusal a w db (rw (fresh, TooMany-exceeds many) refl))
        ∙ rw fresh refl,
  )
