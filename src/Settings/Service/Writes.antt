-- ===== src/Settings/Service/Writes.antt =====
-- The writing operations of `SettingsService`: each turns its request into changes, or refuses it before
-- the store is reached, and hands the changes to one `apply`.
use settings_api.Prelude.{
  is_nil, ℕ, Bool, true, not, ◌&&◌, String, Option, none, some, List, [], ◌∷◌, ◌++◌, map, filter,
  if◌then◌else◌, ◌==◌, nat_eq, string_eq, Result, ok, err, raise_if, ◌>>=◌, ◌>>◌,
}
use settings_api.Prelude.Dict.{Dict, get, insert}
use settings_api.Prelude.Text.{codes}
use settings_api.Domain.Platform.{Platform}
use settings_api.Domain.Value.{Value, null}
use settings_api.Domain.Types.{SettingDef, account_profile, qualify, is_profile_scoped}
use settings_api.Domain.Errors.{Error, unknown_settings, invalid_value, bad_version}
use settings_api.Domain.Catalogue.{Catalogue}
use settings_api.Domain.Registry.{live_entries_in}
use settings_api.Domain.Policy.{Policy}
use settings_api.Domain.Values.Encode.{digits, digits_within}
use settings_api.Identity.{Identity, actor}
use settings_api.Storage.{Action, Instant}
use settings_api.Storage.Exec.{Exec, pure, lift}
use settings_api.Storage.Exec.{◌>>=◌ as ◌>>>=◌}
use settings_api.Settings.Store.{Change, Applied, Write}
use settings_api.Settings.SqlStore
use settings_api.Settings.Service.{
  Document, normalise_profile, storage_profile, index_by_key, permit, definition, may_write,
  check_writable, change_for, changes_for,
}

-- `f'"{account_id}.{revision}"'`, as code points.
unfoldable pub etag : String → ℕ → List ℕ
unfolding digits_within
etag account_id revision = b'"' ∷ (codes account_id ++ (b'.' ∷ (digits revision ++ b'"' ∷ [])))

pub record Written : Type 0 where
  pub revision : ℕ
  pub etag : List ℕ
  pub changed : List String

-- What one request gives `_apply`, besides its changes.
pub record Request : Type 0 where
  pub identity : Identity
  pub now : Instant
  pub event_cap : ℕ
  pub if_revision : Option ℕ

abbrev pub write_of : Request → Action → List Change → Write
write_of q action changes = record {
  changes = changes;
  now = q.now;
  action = action;
  actor = actor q.identity;
  service = q.identity.service;
  event_cap = q.event_cap;
  if_revision = q.if_revision;
}

abbrev pub written : String → Applied → Written
written account_id r = record {
  revision = r.revision;
  etag = etag account_id r.revision;
  changed = r.changed;
}

-- `_apply`
unfoldable pub apply_changes_of : Request → Action → List Change → Exec Written
apply_changes_of q action changes =
    SqlStore.apply q.identity.account_id (write_of q action changes) >>>= λ r.
    pure (written q.identity.account_id r)

-- A request that was turned into changes, or refused.
abbrev pub perform : Request → Action → Result Error (List Change) → Exec Written
perform q action r = lift r >>>= apply_changes_of q action

abbrev pub v1_profile_fallback : String
v1_profile_fallback = "personal"

-- `target.setdefault(namespace, {})[key] = value`
abbrev pub document_or_empty : Option (Dict String Value) → Dict String Value
document_or_empty none = []
document_or_empty (some entries) = entries

unfoldable pub set_default : Document → String → String → Value → Document
unfolding get insert
set_default document namespace key v =
    insert document namespace (insert (document_or_empty (get document namespace)) key v)

-- What `_split_legacy_document` has found.
pub record Split : Type 0 where
  pub account : Document
  pub profiled : Document
  pub unknown : List String

abbrev pub split_entry : String → String → Value → Option SettingDef → Split → Split
split_entry namespace key v none s = record s { unknown = s.unknown ++ qualify namespace key ∷ [] }
split_entry namespace key v (some d) s =
    if is_profile_scoped d
    then record s { profiled = set_default s.profiled namespace key v }
    else record s { account = set_default s.account namespace key v }

unfoldable pub split_entries : String → Dict String SettingDef → Dict String Value → Split → Split
unfolding get
split_entries namespace known [] s = s
split_entries namespace known ((key, v) ∷ entries) s =
    split_entries namespace known entries (split_entry namespace key v (get known key) s)

module _ (py : Platform) (catalogue : Catalogue) (policy : Policy) (max_value_bytes : ℕ) where
  abbrev changes_of : Request → Option String → Document → Result Error (List Change)
  changes_of q = changes_for py catalogue policy max_value_bytes q.identity

  unfoldable pub set_changes :
      Request → String → String → Value → Option String → Result Error (List Change)
  set_changes q namespace key v profile = do
    p ← normalise_profile profile
    d ← definition py catalogue policy max_value_bytes q.identity namespace key
    c ← change_for py catalogue policy max_value_bytes q.identity p d v
    ok (c ∷ [])

  -- `set_setting`
  unfoldable pub set_setting : Request → String → String → Value → Option String → Exec Written
  set_setting q namespace key v profile =
      perform q Action.set (set_changes q namespace key v profile)

  unfoldable pub update_changes : Request → Document → Option String → Result Error (List Change)
  update_changes q document profile = do p ← normalise_profile profile; changes_of q p document

  -- `update`
  unfoldable pub update : Request → Document → Option String → Exec Written
  update q document profile = perform q Action.update (update_changes q document profile)

  unfoldable pub split_all : Request → Document → Split → Result Error Split
  unfolding permit live_entries_in index_by_key
  split_all q [] s = ok s
  split_all q ((namespace, entries) ∷ document) s = do
    permit py catalogue policy max_value_bytes q.identity namespace
    live ← live_entries_in catalogue namespace
    split_all q document (split_entries namespace (index_by_key [] live) entries s)

  -- `_split_legacy_document`
  unfoldable pub split_legacy_document : Request → Document → Result Error Split
  split_legacy_document q document = do
    s ← split_all q document (record { account = []; profiled = []; unknown = [] })
    raise_if (not (is_nil s.unknown)) (unknown_settings s.unknown)
    ok s

  -- The loop of `import_document` over the profiles.
  unfoldable pub profile_changes : Request → Dict String Document → Result Error (List Change)
  profile_changes q [] = ok []
  profile_changes q ((name, nested) ∷ profiles) = do
    p ← normalise_profile (some name)
    cs ← changes_of q p nested
    later ← profile_changes q profiles
    ok (cs ++ later)

  unfoldable pub import_changes :
      Request → Document → Dict String Document → ℕ → Result Error (List Change)
  import_changes q document profiles version =
      if not (version == 1) && not (version == 2)
      then err (invalid_value "version" (bad_version version))
      else if version == 1
      then (do
        s ← split_legacy_document q document
        cs ← changes_of q none s.account
        if is_nil s.profiled
            then ok cs
            else (do more ← changes_of q (some v1_profile_fallback) s.profiled; ok (cs ++ more)))
      else (do cs ← changes_of q none document; more ← profile_changes q profiles; ok (cs ++ more))

  -- `import_document`
  unfoldable pub import_document : Request → Document → Dict String Document → ℕ → Exec Written
  import_document q document profiles version =
      perform q Action.import (import_changes q document profiles version)

  unfoldable pub reset_changes :
      Request → String → String → Option String → Result Error (List Change)
  reset_changes q namespace key profile = do
    p ← normalise_profile profile
    d ← definition py catalogue policy max_value_bytes q.identity namespace key
    check_writable py catalogue policy max_value_bytes q.identity d
    row_profile ← storage_profile d p
    ok (
        record {
          namespace = d.namespace;
          key = d.key;
          value = null;
          reset = true;
          profile = row_profile;
        }
        ∷ [])

  -- `reset_setting`
  unfoldable pub reset_setting : Request → String → String → Option String → Exec Written
  reset_setting q namespace key profile =
      perform q Action.reset (reset_changes q namespace key profile)

  -- The profile column and the scope that a namespace is reset in.
  abbrev pub reset_profile : Option String → String
  reset_profile none = account_profile
  reset_profile (some p) = p

  abbrev pub in_scope : Option String → SettingDef → Bool
  in_scope none d = not (is_profile_scoped d)
  in_scope (some p) d = is_profile_scoped d

  abbrev pub reset_of : String → Option String → SettingDef → Change
  reset_of namespace p d = record {
    namespace = namespace;
    key = d.key;
    value = null;
    reset = true;
    profile = reset_profile p;
  }

  unfoldable pub reset_namespace_changes :
      Request → String → Option String → Result Error (List Change)
  unfolding filter live_entries_in may_write permit
  reset_namespace_changes q namespace profile = do
    p ← normalise_profile profile
    permit py catalogue policy max_value_bytes q.identity namespace
    live ← live_entries_in catalogue namespace
    ok (
        map (reset_of namespace p) (
          filter (may_write py catalogue policy max_value_bytes q.identity)
            (filter (in_scope p) live)))

  -- `reset_namespace`
  unfoldable pub reset_namespace : Request → String → Option String → Exec Written
  reset_namespace q namespace profile =
      perform q Action.reset_namespace (reset_namespace_changes q namespace profile)

-- `forget`
abbrev pub forget : Identity → Exec ℕ
forget identity = SqlStore.forget identity.account_id
