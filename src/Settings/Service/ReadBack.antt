-- ===== src/Settings/Service/ReadBack.antt =====
-- What `set_setting` of settings/service.py writes is what `get_setting` then answers.
use settings_api.Prelude.{
  ℕ, ◌≡◌, refl, ap, subst, ◌∙◌, arith, true, false, String, Option, none, some, List, [], ◌∷◌, inl,
  inr, Bool-cases, string_eq, pair_eq, Result, ok, >>=-eq-ok,
}
use settings_api.Prelude.Dict.{get}
use settings_api.Domain.Platform.{Platform}
use settings_api.Domain.Value.{Value, py_eq, py_eq_refl}
use settings_api.Domain.Json.{Json}
use settings_api.Domain.Types.{SettingDef, qualified}
use settings_api.Domain.Errors.{Error}
use settings_api.Domain.Catalogue.{Catalogue, NamespaceModule, assemble, by_qualified}
use settings_api.Domain.Catalogue.Assembled.{entry_names_ok, assemble-All-IsChecked}
use settings_api.Domain.Registry.{definition_for}
use settings_api.Domain.Registry.Lookup.{definition_for_exact}
use settings_api.Domain.Policy.Parse.{parse}
use settings_api.Domain.Policy.Safe.{definition_of-Narrower}
use settings_api.Domain.Policy.{Policy, definition_of, is_pinned}
use settings_api.Domain.Resolution.{Source, Resolved, Stored, resolve}
use settings_api.Domain.Values
use settings_api.Domain.Values.{validate_same_value}
use settings_api.Identity.{Identity}
use settings_api.Storage.{Action, PrimaryKey, key_eq, key_beq_iff, Db}
use settings_api.Storage.Exec
use settings_api.Settings.Store.{StoredSetting, Change, Applied}
use settings_api.Settings.Rows.{read_state}
use settings_api.Settings.SqlStore
use settings_api.Settings.SqlStore.Changes.{
  value_at, value_in, read_state-value, outcome, outcome_of, find_change, key_of,
}
use settings_api.Settings.SqlStore.Apply.{IsSound, apply-value}
use settings_api.Settings.SqlStore.Sound.{apply-IsSound}
use settings_api.Settings.Service.Reads.{get_setting}
use settings_api.Settings.Service.{
  permit, normalise_profile, storage_profile, definition, check_writable, change_for, stored_for,
}
use settings_api.Settings.Service.Writes.{
  Request, Written, write_of, perform, apply_changes_of, set_changes, set_setting,
}
use settings_api.Settings.Service.Guards.{GoesTo, storage_profile-GoesTo, check_writable_ok}
use settings_api.Settings.Service.Kept.{value_or, collect_rows-KeysUnique, keep_rows-get}

-- An operation that returned: its request was turned into changes, and the store applied them.
pub perform_ok :
    (q : Request) (action : Action) (r : Result Error (List Change)) (db end : Db) (w : Written)
    → perform q action r db ≡ (ok w, end)
    → (cs : List Change) × (applied : Applied) × (r ≡ ok cs)
      × (SqlStore.apply q.identity.account_id (write_of q action cs) db ≡ (ok applied, end))
unfolding apply_changes_of
perform_ok q action r db end w h =
    let (cs, made, rest) = Exec.>>=-eq-ok (Exec.lift r) (apply_changes_of q action) db h in
    let run = SqlStore.apply q.identity.account_id (write_of q action cs) in
    let (applied, ran, finished) = Exec.>>=-eq-ok run _ db rest in (cs, applied, made, cc)

module _ (py : Platform) (catalogue : Catalogue) (policy : Policy) (max_value_bytes : ℕ) where
  -- The change that `set_setting` makes.
  abbrev set_change : SettingDef → Value → String → Change
  set_change d v column = record {
    namespace = d.namespace;
    key = d.key;
    value = v;
    reset = false;
    profile = column;
  }

  -- What the request of a `set_setting` that was not refused is turned into.
  record Turned (q : Request) (namespace key : String) (v : Value) (profile : Option String)
      (cs : List Change) : Type 0 where
    p : Option String
    d : SettingDef
    column : String
    normalised : normalise_profile profile ≡ ok p
    found : definition py catalogue policy max_value_bytes q.identity namespace key ≡ ok d
    not_pinned : is_pinned policy d ≡ false
    goes : storage_profile d p ≡ ok column
    one : cs ≡ set_change d v column ∷ []

  set_changes-Turned :
      (q : Request) (namespace key : String) (v : Value) (profile : Option String)
      (cs : List Change)
      → set_changes py catalogue policy max_value_bytes q namespace key v profile ≡ ok cs
      → Turned q namespace key v profile cs
  unfolding set_changes change_for
  set_changes-Turned q namespace key v profile cs h =
      let (p, normalised, h₁) = >>=-eq-ok (normalise_profile profile) _ h in
      let (d, found, h₂) =
        >>=-eq-ok (definition py catalogue policy max_value_bytes q.identity namespace key) _ h₁ in
      let (c, made, h₃) =
        >>=-eq-ok (change_for py catalogue policy max_value_bytes q.identity p d v) _ h₂ in
      let (_, writable, m₁) =
        >>=-eq-ok (check_writable py catalogue policy max_value_bytes q.identity d) _ made in
      let (x, valid, m₂) =
        >>=-eq-ok (Values.validate py (definition_of policy d) v max_value_bytes) _ m₁ in
      let (column, goes, m₃) = >>=-eq-ok (storage_profile d p) _ m₂ in
      let same = validate_same_value py (definition_of policy d) v x max_value_bytes valid in
      record {
        p = p;
        d = d;
        column = column;
        normalised = normalised;
        found = found;
        not_pinned =
            (check_writable_ok py catalogue policy max_value_bytes q.identity d writable).0;
        goes = goes;
        one = cc;
      }

  -- What a read sees under an entry's name is the row in the column of its scope.
  pub stored_for-value :
      (d : SettingDef) (profile : Option String) (column account_id : String) (db : Db)
      → get (by_qualified catalogue) (qualified d) ≡ some d
      → GoesTo d profile column
      → IsSound db
      → get
          (stored_for py catalogue policy max_value_bytes (read_state account_id db) profile)
          (qualified d)
        ≡ value_at db (record {
          account_id = account_id;
          profile = column;
          namespace = d.namespace;
          key = d.key;
        })
  unfolding read_state get
  stored_for-value d profile column account_id db listed goes s =
      let rows = (read_state account_id db).rows in
      let k : PrimaryKey = record {
        account_id = account_id;
        profile = column;
        namespace = d.namespace;
        key = d.key;
      } in
      keep_rows-get py catalogue policy max_value_bytes d profile column (qualified d) rows []
        listed goes (collect_rows-KeysUnique account_id [] db.settings tt)
      ∙ value_or_none (get rows (column, qualified d))
      ∙ read_state-value k db s.unique s.named
    where
      value_or_none : (o : Option StoredSetting) → value_or o none ≡ value_in o
      value_or_none none = refl
      value_or_none (some r) = refl

  pub definition_ok :
      (identity : Identity) (namespace key : String) (d : SettingDef)
      → definition py catalogue policy max_value_bytes identity namespace key ≡ ok d
      → definition_for catalogue namespace key ≡ ok d
  unfolding definition
  definition_ok identity namespace key d h =
      let (u, permitted, found) =
        >>=-eq-ok (permit py catalogue policy max_value_bytes identity namespace) _ h in
      found

  pub find_change_only : (a : String) (c : Change) → find_change a (key_of a c) (c ∷ []) ≡ some c
  unfolding find_change
  find_change_only a c = ground (arith, key_beq_iff (key_of a c) (key_of a c))

  outcome_set :
      (d : SettingDef) (v : Value) (column : String) (old : Option Value)
      → (x : Value) × (outcome (set_change d v column) old ≡ some x) × (py_eq x v ≡ true)
  outcome_set d v column none = (v, refl, py_eq_refl v)
  outcome_set d v column (some x) = elim (Bool-cases (py_eq x v)) [
    | inl same ↦ (x, rw same refl, same)
    | inr other ↦ (v, rw other refl, py_eq_refl v)
  ]

  resolve_row :
      (d : SettingDef) (stored : Stored) (x : Value)
      → qualified (definition_of policy d) ≡ qualified d
      → is_pinned policy d ≡ false
      → get stored (qualified d) ≡ some x
      → ((resolve policy d stored).value ≡ x)
        × ((resolve policy d stored).source ≡ Source.account)
        × ((resolve policy d stored).pinned ≡ false)
  unfolding resolve
  resolve_row d stored x same unpinned found = rw same (ground arith)

  -- A setting that was set reads back: over an assembled catalogue, a parsed policy and sound tables,
  -- once `set_setting` has returned, `get_setting` with the same arguments returns a value equal to the
  -- one that was set, from the account's layer and not pinned.
  pub set_setting-get_setting :
      (modules : List NamespaceModule) (document : Json) (q : Request) (namespace key : String)
      (v : Value) (profile : Option String) (db end : Db) (w : Written)
      → assemble py modules ≡ ok catalogue
      → parse py catalogue document ≡ ok policy
      → IsSound db
      → set_setting py catalogue policy max_value_bytes q namespace key v profile db ≡ (ok w, end)
      → (r : Resolved) × (get_setting py catalogue policy max_value_bytes q.identity namespace key
            profile end
          ≡ ok r)
        × (py_eq r.value v ≡ true)
        × (r.source ≡ Source.account)
        × (r.pinned ≡ false)
  unfolding set_setting get_setting
  set_setting-get_setting modules document q namespace key v profile db end w assembled parsed s h =
      let a = q.identity.account_id in
      let request = set_changes py catalogue policy max_value_bytes q namespace key v profile in
      let (cs, applied, made, done) = perform_ok q Action.set request db end w h in
      let t = set_changes-Turned q namespace key v profile cs made in
      let c = set_change t.d v t.column in
      let ran =
        subst (λ xs. SqlStore.apply a (write_of q Action.set xs) db ≡ (ok applied, end)) t.one
          done in
      let all_ = assemble-All-IsChecked py modules catalogue assembled in
      let (_, _, _, checked_, listed) =
        definition_for_exact py catalogue namespace key t.d all_
          (definition_ok q.identity namespace key t.d t.found) in
      let one = write_of q Action.set (c ∷ []) in
      let after = apply-IsSound a one db applied end (entry_names_ok py t.d checked_, tt) s ran in
      let rows = apply-value a one db applied end (key_of a c) s (tt, tt) ran in
      let (x, becomes, equal) = outcome_set t.d v t.column (value_at db (key_of a c)) in
      let goes =
        storage_profile-GoesTo py catalogue policy max_value_bytes t.d t.p t.column t.goes in
      let seen =
        stored_for-value t.d t.p t.column a end listed goes after
        ∙ rows
        ∙ ap (λ o. outcome_of o (value_at db (key_of a c))) (find_change_only a c)
        ∙ becomes in
      let same =
        ap qualified
          (definition_of-Narrower py catalogue document policy all_ parsed t.d listed).frame in
      let state = stored_for py catalogue policy max_value_bytes (read_state a end) t.p in
      let (value, source, pinned) = resolve_row t.d state x same t.not_pinned seen in
      (resolve policy t.d state, rw (t.normalised, t.found) refl, rw value equal, source, pinned)
