-- ===== src/Client/Cache/Outage.antt =====
-- What a client answers while settings-api is out of reach and nothing is cached.
use settings_api.Prelude.{
  ◌≡◌, refl, true, false, String, Option, none, some, [], ◌∷◌, arith, contains, string_eq, eq_iff,
  Result, ok, err, ℕ,
}
use settings_api.Prelude.Dict.{Dict, get, KeysUnique}
use settings_api.Domain.Json.{Json}
use settings_api.Client.Models.{
  use_default, refuse, Fallback, ResolvedSettings, ReadError, settings_refused, key_error, getitem,
}
use settings_api.Client.Reply.{unreachable}
use settings_api.Client.Cache.{
  Client, Request, fetched, degrade, defaults_of, refused_of, assembled,
}

-- What reading a key gives, if the namespace declares this fallback for it or none.
abbrev pub outage_read : String → String → Option Fallback → Result ReadError Json
outage_read namespace key none = err (key_error key)
outage_read namespace key (some f) = elim f.on_unavailable [
  | use_default ↦ ok f.default
  | refuse ↦ err (settings_refused namespace key)
]

contains-refused_of_none :
    (fs : Dict String Fallback) (key : String)
    → get fs key ≡ none
    → (contains (refused_of fs) key ≡ false) × (get (defaults_of fs) key ≡ none)
unfolding contains refused_of defaults_of get
contains-refused_of_none [] key h = (refl, refl)
contains-refused_of_none ((k, f) ∷ fs) key h = ground (arith, contains-refused_of_none fs key)

getitem-assembled :
    (namespace : String) (fs : Dict String Fallback) (key : String)
    → KeysUnique fs
    → getitem (assembled namespace fs) key ≡ outage_read namespace key (get fs key)
unfolding contains refused_of defaults_of get getitem
getitem-assembled namespace [] key u = refl
getitem-assembled namespace ((k, f) ∷ fs) key (h, u) =
    ground
      (arith, eq_iff k key, getitem-assembled namespace fs key u, contains-refused_of_none fs k h)

-- With no reply and nothing cached, a namespace whose fallbacks are known answers each key as the server
-- declared: its default where that is safe, an error where it must not be guessed at, and `KeyError`
-- for a key that the namespace does not have. The answer says that it is stale, has no revision, and
-- the client stays as it was.
pub fetched-outage :
    (c : Client) (now : ℕ) (r : Request) (fs : Dict String Fallback)
    → get c.fallbacks r.namespace ≡ some fs
    → KeysUnique fs
    → (settings : ResolvedSettings) × (fetched c now r none unreachable ≡ (c, ok settings))
      × (settings.stale ≡ true)
      × (settings.revision ≡ none)
      × ((key : String) → getitem settings key ≡ outage_read r.namespace key (get fs key))
unfolding fetched degrade
fetched-outage c now r fs known unique = (
  assembled r.namespace fs,
  rw known refl,
  refl,
  refl,
  λ key. getitem-assembled r.namespace fs key unique,
)
