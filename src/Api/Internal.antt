-- ===== src/Api/Internal.antt =====
-- api/routers/internal.py and the two identities of api/dependencies.py: what one service is told of one
-- person's settings.
use settings_api.Prelude.{
  ℕ, Bool, false, ◌||◌, String, Option, none, some, List, [], ◌∷◌, map, contains, if◌then◌else◌,
  ◌==◌, nat_eq, list_eq, string_eq, Result, ok, err, ◌>>=◌,
}
use settings_api.Prelude.Dict.{Dict, get}
use settings_api.Prelude.Text.{codes, strip}
use settings_api.Domain.Platform.{Platform}
use settings_api.Domain.Value.{Value}
use settings_api.Domain.Types.{OnUnavailable}
use settings_api.Domain.Errors.{Error, authentication}
use settings_api.Domain.Catalogue.{Catalogue}
use settings_api.Domain.Namespaces.{ServiceGrant}
use settings_api.Domain.Policy.{Policy}
use settings_api.Domain.Resolution.{Resolved}
use settings_api.Identity.{Identity, Keyring, verify_owner, verify_for_service, identify_service}
use settings_api.Storage.{Db}
use settings_api.Storage.Exec.{Exec, pure}
use settings_api.Storage.Exec.{◌>>=◌ as ◌>>>=◌}
use settings_api.Settings.Service.Writes.{Request}
use settings_api.Settings.Service.Writes
use settings_api.Settings.Service.Reads.{Answer, resolve_for}
use settings_api.Api.Routes.{Tagged, WriteResponse, write_response}

abbrev required : Option String → Result Error String
required none = err authentication
required (some token) = ok token

module _ (keyring : Keyring) where
  -- `get_identity`
  unfoldable pub get_identity : String → List String → Option String → Result Error Identity
  get_identity prefix allowed credentials = do
    token ← required credentials
    verify_owner keyring prefix allowed token

  -- `get_service_identity`: the service's token first.
  unfoldable pub get_service_identity :
      Dict String ServiceGrant → Option String → Option String → Result Error Identity
  get_service_identity grants credentials user_token = do
    service_token ← required credentials
    grant ← identify_service keyring grants service_token
    token ← required user_token
    verify_for_service keyring token grant

abbrev pub push_first : ℕ → List (List ℕ) → List (List ℕ)
push_first c [] = (c ∷ []) ∷ []
push_first c (part ∷ parts) = (c ∷ part) ∷ parts

-- `text.split(",")`
unfoldable pub split_commas : List ℕ → List (List ℕ)
split_commas [] = [] ∷ []
split_commas (c ∷ s) = if c == b',' then [] ∷ split_commas s else push_first c (split_commas s)

-- `_matches`
unfoldable pub matches : Option (List ℕ) → List ℕ → Bool
matches none etag = false
matches (some header) etag =
    let candidates = map strip (split_commas header) in
    contains candidates (codes "*") || contains candidates etag

pub record SettingFallback : Type 0 where
  pub default : Value
  pub on_unavailable : OnUnavailable

pub record ResolvedSettingsResponse : Type 0 where
  pub namespace : String
  pub revision : ℕ
  pub settings : Dict String Value
  pub fallbacks : Dict String SettingFallback

pub data Resolution : Type 0 where
  not_modified : (etag : List ℕ) → Resolution
  full : Tagged ResolvedSettingsResponse → Resolution

abbrev items_or_empty : Option (Dict String Resolved) → Dict String Resolved
items_or_empty none = []
items_or_empty (some items) = items

-- `_values`
abbrev values : Dict String Resolved → Dict String Value
values [] = []
values ((key, item) ∷ items) = (key, item.value) ∷ values items

-- `_fallbacks`
abbrev fallbacks : Dict String Resolved → Dict String SettingFallback
fallbacks [] = []
fallbacks ((key, item) ∷ items) =
    (
      key,
      record { default = item.definition.default; on_unavailable = item.definition.on_unavailable },
    )
    ∷ fallbacks items

abbrev pub full_response : String → Answer → Resolution
full_response namespace document =
    let items = items_or_empty (get document.namespaces namespace) in
    full (record {
      etag = document.etag;
      body = record {
        namespace = namespace;
        revision = document.revision;
        settings = values items;
        fallbacks = fallbacks items;
      };
    })

module _ (py : Platform) (catalogue : Catalogue) (policy : Policy) (max_value_bytes : ℕ) where
  -- `resolve_settings`; the document, and with it every permission check, before the comparison.
  unfoldable pub resolve_settings :
      Identity → String → Option (List ℕ) → Option String → Db → Result Error Resolution
  resolve_settings identity namespace if_none_match profile db = do
    document ← resolve_for py catalogue policy max_value_bytes identity namespace profile db
    if matches if_none_match document.etag
        then ok (not_modified document.etag)
        else ok (full_response namespace document)

  -- `set_setting_for_user`
  unfoldable pub set_setting_for_user :
      Request → String → String → Value → Option String → Exec (Tagged WriteResponse)
  set_setting_for_user q namespace key v profile =
      Writes.set_setting py catalogue policy max_value_bytes q namespace key v profile >>>= λ w.
      pure (write_response w)
