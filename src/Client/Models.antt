-- ===== src/Client/Models.antt =====
-- clients/python/settings_client/models.py and errors.py: a resolved namespace, and what reading it
-- may raise. A value is whatever JSON the server sent.
use settings_api.Prelude.{
  ◌||◌, Bool, String, Option, none, some, List, contains, if◌then◌else◌, string_eq, Result, ok, err,
}
use settings_api.Prelude.Int.{ℤ}
use settings_api.Prelude.Dict.{Dict, get, has_key}
use settings_api.Domain.Json.{Json}

pub data OnUnavailable : Type 0 where
  use_default refuse : OnUnavailable

pub record Fallback : Type 0 where
  pub default : Json
  pub on_unavailable : OnUnavailable

pub record ResolvedSettings : Type 0 where
  pub namespace : String
  pub values : Dict String Json
  pub fallbacks : Dict String Fallback
  pub revision : Option ℤ
  pub stale : Bool
  pub refused : List String

-- What reading one key raises: `SettingsRefused`, or `KeyError`.
pub data ReadError : Type 0 where
  settings_refused : (namespace key : String) → ReadError
  key_error : String → ReadError

abbrev value_or {ℓ} : {A : Type ℓ} → Option A → ReadError → Result ReadError A
value_or none e = err e
value_or (some a) e = ok a

-- `settings[key]`
unfoldable pub getitem : ResolvedSettings → String → Result ReadError Json
unfolding contains
getitem settings key =
    if contains settings.refused key
    then err (settings_refused settings.namespace key)
    else value_or (get settings.values key) (key_error key)

-- A `default` that is given, or `_MISSING`.
abbrev or_default : Option Json → Option Json → String → Result ReadError Json
or_default (some v) default key = ok v
or_default none (some v) key = ok v
or_default none none key = err (key_error key)

-- `settings.get(key, default)`
unfoldable pub get_with : ResolvedSettings → String → Option Json → Result ReadError Json
unfolding contains
get_with settings key default =
    if contains settings.refused key
    then err (settings_refused settings.namespace key)
    else or_default (get settings.values key) default key

-- `key in settings`
unfoldable pub has_setting : ResolvedSettings → String → Bool
unfolding contains
has_setting settings key = has_key settings.values key || contains settings.refused key
