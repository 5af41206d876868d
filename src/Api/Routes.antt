-- ===== src/Api/Routes.antt =====
-- api/routers/settings.py: what each endpoint calls and what it answers with; FastAPI's parsing of the
-- request and its rendering of the body are left out. A response with an entity tag is `Tagged`.
use settings_api.Prelude.{
  ℕ, Bool, not, ◌&&◌, String, Option, none, some, List, [], ◌∷◌, is_nil, length, if◌then◌else◌,
  ◌==◌, nat_eq, Result, ok, raise_if, ◌>>=◌, ◌>>◌,
}
use settings_api.Prelude.Dict.{Dict}
use settings_api.Domain.Platform.{Platform}
use settings_api.Domain.Value.{Value}
use settings_api.Domain.Errors.{Error, invalid_value, bad_version}
use settings_api.Domain.Catalogue.{Catalogue}
use settings_api.Domain.Policy.{Policy}
use settings_api.Domain.Resolution.{Resolved}
use settings_api.Identity.{Identity}
use settings_api.Storage.{Instant, EventRow, Db}
use settings_api.Storage.Exec.{Exec, pure, lift}
use settings_api.Storage.Exec.{◌>>=◌ as ◌>>>=◌}
use settings_api.Settings.Service.{Document}
use settings_api.Settings.Service.Writes.{Request, Written}
use settings_api.Settings.Service.Writes
use settings_api.Settings.Service.Reads.{Answer, Export, read_events}
use settings_api.Settings.Service.Reads
use settings_api.Api.{revision_from_if_match}

pub record Tagged {ℓ} (A : Type ℓ) : Type ℓ where
  pub etag : List ℕ
  pub body : A

pub record WriteResponse : Type 0 where
  pub revision : ℕ
  pub changed : List String
  pub unchanged : Bool

-- `_write_response`; `any_change` is whether anything changed.
abbrev pub write_response : Written → Tagged WriteResponse
write_response w = record {
  etag = w.etag;
  body = record { revision = w.revision; changed = w.changed; unchanged = is_nil w.changed };
}

-- `Document.values()`
abbrev values_in : Dict String Resolved → Dict String Value
values_in [] = []
values_in ((key, item) ∷ items) = (key, item.value) ∷ values_in items

abbrev pub values_of : Dict String (Dict String Resolved) → Document
values_of [] = []
values_of ((namespace, items) ∷ rest) = (namespace, values_in items) ∷ values_of rest

pub record SettingsResponse : Type 0 where
  pub revision : ℕ
  pub settings : Document

-- `_settings_response`
abbrev pub settings_response : Answer → Tagged SettingsResponse
settings_response a = record {
  etag = a.etag;
  body = record { revision = a.revision; settings = values_of a.namespaces };
}

-- `_check_export_version`
abbrev pub check_export_version : ℕ → Result Error (Unit {0})
check_export_version version =
    raise_if (not (version == 1) && not (version == 2))
      (invalid_value "version" (bad_version version))

-- The arguments of one of the five writing endpoints.
pub data WriteCall : Type 0 where
  set_setting : (namespace key : String) → Value → (profile : Option String) → WriteCall
  update_settings : Document → (profile : Option String) → WriteCall
  import_settings : Document → (profiles : Dict String Document) → (version : ℕ) → WriteCall
  reset_setting : (namespace key : String) → (profile : Option String) → WriteCall
  reset_namespace : (namespace : String) → (profile : Option String) → WriteCall

abbrev pub check_first : WriteCall → Result Error (Unit {0})
check_first (import_settings document profiles version) = check_export_version version
check_first _ = ok tt

pub record EventsPage : Type 0 where
  pub events : List EventRow
  pub next_before : Option ℕ

-- `rendered[-1].sequence`
abbrev last_sequence : List EventRow → Option ℕ
last_sequence [] = none
last_sequence (e ∷ []) = some e.sequence
last_sequence (e ∷ f ∷ es) = last_sequence (f ∷ es)

-- `read_settings_events`
abbrev pub read_settings_events : Identity → ℕ → Option ℕ → Db → EventsPage
read_settings_events identity limit before db =
    let events = read_events identity limit before db in
    record {
      events = events;
      next_before = if length events == limit then last_sequence events else none;
    }

module _ (py : Platform) (catalogue : Catalogue) (policy : Policy) (max_value_bytes : ℕ) where
  -- `get_settings`, and what `describe_settings` lists
  abbrev pub get_settings : Identity → Option String → Db → Result Error (Tagged SettingsResponse)
  get_settings identity profile db = do
    a ← Reads.get_all py catalogue policy max_value_bytes identity profile db
    ok (settings_response a)

  -- `get_namespace`
  unfoldable pub get_namespace :
      Identity → String → Option String → Db → Result Error (Tagged SettingsResponse)
  get_namespace identity namespace profile db = do
    a ← Reads.get_namespace py catalogue policy max_value_bytes identity namespace profile db
    ok (settings_response a)

  -- The call of the service behind each writing endpoint.
  abbrev pub serve : WriteCall → Request → Exec Written
  serve (set_setting namespace key v profile) q =
      Writes.set_setting py catalogue policy max_value_bytes q namespace key v profile
  serve (update_settings document profile) q =
      Writes.update py catalogue policy max_value_bytes q document profile
  serve (import_settings document profiles version) q =
      Writes.import_document py catalogue policy max_value_bytes q document profiles version
  serve (reset_setting namespace key profile) q =
      Writes.reset_setting py catalogue policy max_value_bytes q namespace key profile
  serve (reset_namespace namespace profile) q =
      Writes.reset_namespace py catalogue policy max_value_bytes q namespace profile

  abbrev pub request_at : Identity → Instant → ℕ → Option ℕ → Request
  request_at identity now event_cap expected = record {
    identity = identity;
    now = now;
    event_cap = event_cap;
    if_revision = expected;
  }

  abbrev pub precondition : Identity → Option (List ℕ) → WriteCall → Result Error (Option ℕ)
  precondition identity if_match call =
      check_first call >> revision_from_if_match py if_match identity.account_id

  -- The writing endpoints: the precondition of the request first, then the service.
  unfoldable pub write_route :
      Identity → Instant → ℕ → Option (List ℕ) → WriteCall → Exec (Tagged WriteResponse)
  write_route identity now event_cap if_match call =
      lift (precondition identity if_match call) >>>= λ expected.
      serve call (request_at identity now event_cap expected) >>>= λ w. pure (write_response w)
