-- ===== src/Client/Cache.antt =====
-- `HttpSettingsClient` of clients/python/settings_client/client.py: what it remembers, and each stretch
-- of its code between two awaits as a function on that. An instant of the monotonic clock is a number.

pub mod Outage
pub mod Bounds
use settings_api.Prelude.{
  ℕ, ◌+◌, Bool, true, ◌&&◌, String, Option, none, some, List, [], ◌∷◌, length, ltb, leb,
  if◌then◌else◌, ◌==◌, nat_eq, string_eq, triple_eq, Result, ok, err, ◌>>=◌,
}
use settings_api.Prelude.Int.{ℤ}
use settings_api.Prelude.Dict.{Dict, get, insert, drop_keys, push_last}
use settings_api.Domain.Json.{Json}
use settings_api.Client.Models.{use_default, refuse, Fallback, ResolvedSettings}
use settings_api.Client.Reply.{
  Response, Reply, unreachable, answered, Unusable, Detail, json_object, revision_of, document_of,
  detail_of,
}

-- Token, namespace and profile.
abbrev pub Key : Type 0
Key = String × String × String

-- `_Entry`
pub record Entry : Type 0 where
  pub settings : ResolvedSettings
  pub etag : String
  pub validated_at : ℕ

-- `_Flight`: whether its lock is held, and how many callers use it.
pub record Flight : Type 0 where
  pub locked : Bool
  pub callers : ℕ

pub record Client : Type 0 where
  pub ttl : ℕ
  pub max_entries : ℕ
  pub entries : Dict Key Entry
  pub fallbacks : Dict String (Dict String Fallback)
  pub flights : Dict Key Flight

-- The arguments of `resolve`.
pub record Request : Type 0 where
  pub namespace : String
  pub user_token : String
  pub profile : Option String

abbrev pub or_empty : Option String → String
or_empty none = ""
or_empty (some s) = s

abbrev pub key_of : Request → Key
key_of r = (r.user_token, r.namespace, or_empty r.profile)

-- `SettingsUnavailable`, `SettingsRejected`, and the `AttributeError` that `_detail_of` may raise.
pub data ClientError : Type 0 where
  unavailable : (namespace : String) → ClientError
  rejected : (status : ℕ) → String → ClientError
  attribute_error : ClientError

abbrev pub rejection : ℕ → Detail → ClientError
rejection status (Detail.detail text) = rejected status text
rejection status Detail.attribute_error = attribute_error

-- The entry's settings if it is younger than the time to live.
abbrev pub if_young : ℕ → ℕ → Option Entry → Option ResolvedSettings
if_young ttl now none = none
if_young ttl now (some e) = if ltb now (e.validated_at + ttl) then some e.settings else none

unfoldable pub fresh : Client → ℕ → Key → Option ResolvedSettings
fresh c now key = if_young c.ttl now (get c.entries key)

-- `_touch`
abbrev touch_found : Dict Key Entry → Key → Option Entry → Dict Key Entry
touch_found entries key none = entries
touch_found entries key (some e) = push_last entries key e

unfoldable pub touch : Client → Key → Client
touch c key = record c { entries = touch_found c.entries key (get c.entries key) }

-- The loop of `_remember`: the oldest entries go until the bound holds.
unfoldable pub evict : ℕ → Dict Key Entry → Dict Key Entry
evict bound [] = []
evict bound (e ∷ es) =
    let rest = evict bound es in if leb (length (e ∷ es)) bound then e ∷ es else rest

-- `_remember`
unfoldable pub remember : Client → Key → Entry → Client
remember c key e = record c { entries = evict c.max_entries (push_last c.entries key e) }

-- `_store`
unfoldable pub store : Client → ℕ → Request → ResolvedSettings → Response → Client
store c now r settings response =
    remember (record c { fallbacks = insert c.fallbacks r.namespace settings.fallbacks }) (key_of r)
      (record { settings = settings; etag = response.etag; validated_at = now })

-- The comprehensions of `_degrade`.
unfoldable pub defaults_of : Dict String Fallback → Dict String Json
defaults_of [] = []
defaults_of ((key, f) ∷ fs) =
    let rest = defaults_of fs in
    elim f.on_unavailable [ use_default ↦ (key, f.default) ∷ rest | refuse ↦ rest ]

unfoldable pub refused_of : Dict String Fallback → List String
refused_of [] = []
refused_of ((key, f) ∷ fs) =
    let rest = refused_of fs in elim f.on_unavailable [ use_default ↦ rest | refuse ↦ key ∷ rest ]

abbrev pub assembled : String → Dict String Fallback → ResolvedSettings
assembled namespace fallbacks = record {
  namespace = namespace;
  values = defaults_of fallbacks;
  fallbacks = fallbacks;
  revision = none;
  stale = true;
  refused = refused_of fallbacks;
}

abbrev assemble_known : String → Option (Dict String Fallback) → Result ClientError ResolvedSettings
assemble_known namespace none = err (unavailable namespace)
assemble_known namespace (some fallbacks) = ok (assembled namespace fallbacks)

-- A stale copy of cached settings refuses nothing.
abbrev pub stale_copy : ResolvedSettings → ResolvedSettings
stale_copy s = record s { stale = true; refused = [] }

-- `_degrade`
unfoldable pub degrade : Client → String → Option Entry → Result ClientError ResolvedSettings
degrade c namespace (some e) = ok (stale_copy e.settings)
degrade c namespace none = assemble_known namespace (get c.fallbacks namespace)

-- `cached.validated_at = now`, seen in the cache if the entry still stands there: while a caller fetches
-- a key, no other caller stores under it.
abbrev refresh_found : Dict Key Entry → Key → ℕ → Option Entry → Dict Key Entry
refresh_found entries key now none = entries
refresh_found entries key now (some e) = insert entries key (record e { validated_at = now })

unfoldable pub refresh : Client → Key → ℕ → Client
refresh c key now = record c { entries = refresh_found c.entries key now (get c.entries key) }

abbrev pub keep_document :
    Client
    → ℕ
    → Request
    → Option Entry
    → Response
    → Result Unusable ResolvedSettings
    → Client × Result ClientError ResolvedSettings
keep_document c now r cached response (err why) = (c, degrade c r.namespace cached)
keep_document c now r cached response (ok settings) = (store c now r settings response, ok settings)

-- A reply that is no `304` for an entry at hand.
unfoldable pub read_response :
    Client → ℕ → Request → Option Entry → Response → Client × Result ClientError ResolvedSettings
read_response c now r cached response =
    if leb 500 response.status
    then (c, degrade c r.namespace cached)
    else if leb 400 response.status
    then (c, err (rejection response.status (detail_of response)))
    else keep_document c now r cached response (document_of r.namespace response)

-- `_fetch` from its response on.
unfoldable pub fetched :
    Client → ℕ → Request → Option Entry → Reply → Client × Result ClientError ResolvedSettings
fetched c now r cached unreachable = (c, degrade c r.namespace cached)
fetched c now r none (answered response) = read_response c now r none response
fetched c now r (some e) (answered response) =
    if response.status == 304
    then (refresh c (key_of r) now, ok e.settings)
    else read_response c now r (some e) response

-- `_drop_namespace`
unfoldable pub drop_namespace : Client → String → String → Client
drop_namespace c user_token namespace = record c {
  entries = drop_keys (λ k. k.0 == user_token && k.1 == namespace) c.entries;
}

-- `forget`
unfoldable pub forget : Client → String → Option String → Client
forget c user_token (some namespace) = drop_namespace c user_token namespace
forget c user_token none = record c { entries = drop_keys (λ k. k.0 == user_token) c.entries }

abbrev revision_in : String → Result Unusable ℤ → Result ClientError ℤ
revision_in namespace (err why) = err (unavailable namespace)
revision_in namespace (ok n) = ok n

-- `set` from the reply to its `PUT` on.
unfoldable pub written : Client → String → String → Reply → Client × Result ClientError ℤ
written c user_token namespace unreachable = (c, err (unavailable namespace))
written c user_token namespace (answered response) =
    if leb 400 response.status then (c, err (rejection response.status (detail_of response))) else (
      drop_namespace c user_token namespace,
      revision_in namespace (do body ← json_object response.body; revision_of body),
    )
