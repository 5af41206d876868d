-- ===== src/Settings/Service/Reset.antt =====
-- What `reset_setting` of settings/service.py clears reads as the deployment's default again.
use settings_api.Prelude.{
  ℕ, ◌≡◌, refl, ap, subst, ◌∙◌, arith, true, false, String, Option, none, List, [], ◌∷◌, string_eq,
  pair_eq, ok, >>=-eq-ok,
}
use settings_api.Prelude.Dict.{get}
use settings_api.Domain.Platform.{Platform}
use settings_api.Domain.Value.{null}
use settings_api.Domain.Json.{Json}
use settings_api.Domain.Types.{SettingDef, qualified}
use settings_api.Domain.Catalogue.{Catalogue, NamespaceModule, assemble}
use settings_api.Domain.Catalogue.Assembled.{entry_names_ok, assemble-All-IsChecked}
use settings_api.Domain.Registry.Lookup.{definition_for_exact}
use settings_api.Domain.Policy.{Policy, definition_of, is_pinned}
use settings_api.Domain.Policy.Parse.{parse}
use settings_api.Domain.Policy.Safe.{definition_of-Narrower}
use settings_api.Domain.Resolution.{Resolved, Stored, resolve}
use settings_api.Storage.{Action, Db}
use settings_api.Settings.Store.{Change}
use settings_api.Settings.Rows.{read_state}
use settings_api.Settings.SqlStore
use settings_api.Settings.SqlStore.Changes.{value_at, outcome_of, key_of}
use settings_api.Settings.SqlStore.Apply.{IsSound, apply-value}
use settings_api.Settings.SqlStore.Sound.{apply-IsSound}
use settings_api.Settings.Service.{
  normalise_profile, storage_profile, definition, check_writable, stored_for,
}
use settings_api.Settings.Service.Writes.{Request, Written, write_of, reset_changes, reset_setting}
use settings_api.Settings.Service.Reads.{get_setting}
use settings_api.Settings.Service.Guards.{storage_profile-GoesTo, check_writable_ok}
use settings_api.Settings.Service.ReadBack.{
  perform_ok, stored_for-value, definition_ok, find_change_only,
}

module _ (py : Platform) (catalogue : Catalogue) (policy : Policy) (max_value_bytes : ℕ) where
  abbrev reset_change : SettingDef → String → Change
  reset_change d column = record {
    namespace = d.namespace;
    key = d.key;
    value = null;
    reset = true;
    profile = column;
  }

  -- What the request of a `reset_setting` that was not refused is turned into.
  record Turned (q : Request) (namespace key : String) (profile : Option String) (cs : List Change)
      : Type 0 where
    p : Option String
    d : SettingDef
    column : String
    normalised : normalise_profile profile ≡ ok p
    found : definition py catalogue policy max_value_bytes q.identity namespace key ≡ ok d
    not_pinned : is_pinned policy d ≡ false
    goes : storage_profile d p ≡ ok column
    one : cs ≡ reset_change d column ∷ []

  reset_changes-Turned :
      (q : Request) (namespace key : String) (profile : Option String) (cs : List Change)
      → reset_changes py catalogue policy max_value_bytes q namespace key profile ≡ ok cs
      → Turned q namespace key profile cs
  unfolding reset_changes
  reset_changes-Turned q namespace key profile cs h =
      let (p, normalised, h₁) = >>=-eq-ok (normalise_profile profile) _ h in
      let (d, found, h₂) =
        >>=-eq-ok (definition py catalogue policy max_value_bytes q.identity namespace key) _ h₁ in
      let (_, writable, h₃) =
        >>=-eq-ok (check_writable py catalogue policy max_value_bytes q.identity d) _ h₂ in
      let (column, goes, h₄) = >>=-eq-ok (storage_profile d p) _ h₃ in
      record {
        p = p;
        d = d;
        column = column;
        normalised = normalised;
        found = found;
        not_pinned =
            (check_writable_ok py catalogue policy max_value_bytes q.identity d writable).0;
        goes = goes;
        one = cc;
      }

  resolve_unset :
      (d : SettingDef) (stored : Stored)
      → qualified (definition_of policy d) ≡ qualified d
      → is_pinned policy d ≡ false
      → get stored (qualified d) ≡ none
      → ((resolve policy d stored).value ≡ (resolve policy d stored).definition.default)
        × ((resolve policy d stored).set_by_account ≡ false)
        × ((resolve policy d stored).pinned ≡ false)
  unfolding resolve
  resolve_unset d stored same unpinned unset = rw same (ground arith)

  -- A setting that was reset reads as the default: over an assembled catalogue, a parsed policy and sound
  -- tables, once `reset_setting` has returned, `get_setting` with the same arguments returns the default of
  -- the entry that it answers with, not set by the account and not pinned.
  pub reset_setting-get_setting :
      (modules : List NamespaceModule) (document : Json) (q : Request) (namespace key : String)
      (profile : Option String) (db end : Db) (w : Written)
      → assemble py modules ≡ ok catalogue
      → parse py catalogue document ≡ ok policy
      → IsSound db
      → reset_setting py catalogue policy max_value_bytes q namespace key profile db ≡ (ok w, end)
      → (r : Resolved) × (get_setting py catalogue policy max_value_bytes q.identity namespace key
            profile end
          ≡ ok r)
        × (r.value ≡ r.definition.default)
        × (r.set_by_account ≡ false)
        × (r.pinned ≡ false)
  unfolding reset_setting get_setting
  reset_setting-get_setting modules document q namespace key profile db end w assembled parsed s h =
      let a = q.identity.account_id in
      let request = reset_changes py catalogue policy max_value_bytes q namespace key profile in
      let (cs, applied, made, done) = perform_ok q Action.reset request db end w h in
      let t = reset_changes-Turned q namespace key profile cs made in
      let c = reset_change t.d t.column in
      let ran =
        subst (λ xs. SqlStore.apply a (write_of q Action.reset xs) db ≡ (ok applied, end)) t.one
          done in
      let all_ = assemble-All-IsChecked py modules catalogue assembled in
      let (_, _, _, checked_, listed) =
        definition_for_exact py catalogue namespace key t.d all_ (
          definition_ok py catalogue policy max_value_bytes q.identity namespace key t.d t.found) in
      let one = write_of q Action.reset (c ∷ []) in
      let after = apply-IsSound a one db applied end (entry_names_ok py t.d checked_, tt) s ran in
      let rows = apply-value a one db applied end (key_of a c) s (tt, tt) ran in
      let goes =
        storage_profile-GoesTo py catalogue policy max_value_bytes t.d t.p t.column t.goes in
      let gone =
        stored_for-value py catalogue policy max_value_bytes t.d t.p t.column a end listed goes
          after
        ∙ rows
        ∙ ap (λ o. outcome_of o (value_at db (key_of a c)))
            (find_change_only py catalogue policy max_value_bytes a c) in
      let same =
        ap qualified
          (definition_of-Narrower py catalogue document policy all_ parsed t.d listed).frame in
      let state = stored_for py catalogue policy max_value_bytes (read_state a end) t.p in
      let (value, unset, pinned) = resolve_unset t.d state same t.not_pinned gone in
      (resolve policy t.d state, rw (t.normalised, t.found) refl, value, unset, pinned)
