-- ===== src/Client/Reply.antt =====
-- The functions of clients/python/settings_client/client.py that take a response apart. `body` is what
-- `response.json()` returns, `none` where it raises; the log line of an unusable body is left out.
use Prim.Native.Nat.{ℕ, zero, suc}
use settings_api.Prelude.{
  false, String, Option, none, some, [], ◌∷◌, ◌==◌, string_eq, if◌then◌else◌, Result, ok, err,
  ◌>>=◌,
}
use settings_api.Prelude.Int.{ℤ}
use settings_api.Prelude.Dict.{Dict, get}
use settings_api.Domain.Json.{Json, obj, members}
use settings_api.Client.Models.{OnUnavailable, use_default, refuse, Fallback, ResolvedSettings}

pub record Response : Type 0 where
  pub status : ℕ
  pub etag : String
  pub body : Option Json
  pub text : String

-- What the call of httpx comes to: it raises `HTTPError`, or there is a response.
pub data Reply : Type 0 where
  unreachable : Reply
  answered : Response → Reply

-- The reasons of `_Unusable`.
pub data Unusable : Type 0 where
  not_json not_an_object no_settings no_fallbacks no_revision : Unusable
  no_default unknown_rule : String → Unusable

-- `_json_object`
unfoldable pub json_object : Option Json → Result Unusable (Dict String Json)
json_object none = err not_json
json_object (some (obj fs)) = ok (members fs)
json_object (some _) = err not_an_object

abbrev whole_number : Option Json → Result Unusable ℤ
whole_number (some (Json.int n)) = ok n
whole_number _ = err no_revision

-- `_revision_of`
unfoldable pub revision_of : Dict String Json → Result Unusable ℤ
revision_of body = whole_number (get body "revision")

abbrev field_object : Option Json → Unusable → Result Unusable (Dict String Json)
field_object (some (obj fs)) e = ok (members fs)
field_object _ e = err e

-- `OnUnavailable(rule)` of a rule that is a member, else `none`.
abbrev rule_of : Option Json → Option OnUnavailable
rule_of (some (Json.str s)) =
    if s == "use_default" then some use_default else (if s == "refuse" then some refuse else none)
rule_of _ = none

abbrev fallback_with : String → Option Json → Option OnUnavailable → Result Unusable Fallback
fallback_with key none rule = err (no_default key)
fallback_with key (some default) none = err (unknown_rule key)
fallback_with key (some default) (some rule) =
    ok (record { default = default; on_unavailable = rule })

-- `_fallback_of`
unfoldable pub fallback_of : String → Json → Result Unusable Fallback
unfolding get
fallback_of key (obj fs) =
    fallback_with key (get (members fs) "default") (rule_of (get (members fs) "on_unavailable"))
fallback_of key _ = err (no_default key)

-- The comprehension over `declared.items()`.
unfoldable pub fallbacks_of : Dict String Json → Result Unusable (Dict String Fallback)
unfolding fallback_of
fallbacks_of [] = ok []
fallbacks_of ((key, item) ∷ items) =
    let rest = fallbacks_of items in
    (do first ← fallback_of key item; others ← rest; ok ((key, first) ∷ others))

-- `_document_of`
unfoldable pub document_of : String → Response → Result Unusable ResolvedSettings
unfolding json_object revision_of fallbacks_of get
document_of namespace response = do
  body ← json_object response.body
  values ← field_object (get body "settings") no_settings
  declared ← field_object (get body "fallbacks") no_fallbacks
  revision ← revision_of body
  fallbacks ← fallbacks_of declared
  ok (record {
    namespace = namespace;
    values = values;
    fallbacks = fallbacks;
    revision = some revision;
    stale = false;
    refused = [];
  })

-- `text[:n]`
unfoldable pub first_chars : ℕ → String → String
first_chars zero s = ""
first_chars (suc n) String.[] = ""
first_chars (suc n) (String.◌∷◌ c s) = String.◌∷◌ c (first_chars n s)

-- A body that is JSON and no object has no `get`: the call raises `AttributeError`.
pub data Detail : Type 0 where
  detail : String → Detail
  attribute_error : Detail

abbrev detail_or : Option Json → String → String
detail_or (some (Json.str s)) text = s
detail_or _ text = text

-- `_detail_of`
unfoldable pub detail_of : Response → Detail
unfolding first_chars get
detail_of response = elim response.body [
  | none ↦ detail (first_chars 200 response.text)
  | some (obj fs) ↦ detail (detail_or (get (members fs) "detail") (first_chars 200 response.text))
  | some _ ↦ attribute_error
]
