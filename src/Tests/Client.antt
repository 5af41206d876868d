-- ===== src/Tests/Client.antt =====
-- A client of the settings of one person, two callers at once, an answer and an outage.
use settings_api.Prelude.{
  arith, ◌≡◌, ◌≤◌, ◌&&◌, ◌==◌, refl, true, false, ℕ, String, Option, none, some, [], ◌∷◌, inl, ltb,
  is_some, if◌then◌else◌, string_eq, triple_eq, nat_eq, ok,
}
use settings_api.Prelude.Int.{pos}
use settings_api.Prelude.Dict.{Dict, get, insert, adjust, drop_keys}
use settings_api.Domain.Json.{Json, obj, field, end}
use settings_api.Client.Models.{Fallback, use_default, refuse, ResolvedSettings, getitem}
use settings_api.Client.Reply.{
  Response, unreachable, answered, document_of, json_object, revision_of, fallbacks_of, fallback_of,
}
use settings_api.Client.Cache.{
  Request, key_of, fresh, touch, fetched, written, store, remember, evict, read_response,
}
use settings_api.Client.Cache.Outage.{outage_read, fetched-outage}
use settings_api.Client.Cache.Bounds.{IsWithin, written-forgets}
use settings_api.Client.Flights.{
  System, begins, enters, answers, begin, enter, answer, start, Reach, starts, later, join,
  set_lock, leave, set_task,
}
use settings_api.Client.Flights.Counts.{is_pending, is_sending, count}
use settings_api.Client.Flights.Agrees.{callers_of}
use settings_api.Client.Flights.Reachable.{Reach-single_flight}
use settings_api.Client.Flights.Live.{Finishes, Reach-Finishes}
use settings_api.Client.Flights.Source.{Served}
use settings_api.Client.Flights.Provenance.{Reach-Served}
use settings_api.Client.Flights.Bounded.{Reach-IsWithin}

abbrev asked : Request
asked = record { namespace = "voice"; user_token = "t1"; profile = none }

-- `{"settings": {"volume": 4}, "fallbacks": {"volume": {...}, "muted": {...}}, "revision": 3}`
abbrev body : Json
body = obj (
    field "settings" (obj (field "volume" (Json.int (pos 4)) end)) (
      field "fallbacks"
        (obj (
          field "volume"
            (obj (
              field "default" (Json.int (pos 5))
                (field "on_unavailable" (Json.str "use_default") end)))
            (field "muted"
              (obj (
                field "default" (Json.bool false) (field "on_unavailable" (Json.str "refuse") end)))
              end)))
        (field "revision" (Json.int (pos 3)) end)))

abbrev reply : Response
reply = record { status = 200; etag = "W"; body = some body; text = "" }

abbrev declared : Dict String Fallback
declared =
    ("volume", record { default = Json.int (pos 5); on_unavailable = use_default })
    ∷ ("muted", record { default = Json.bool false; on_unavailable = refuse })
    ∷ []

abbrev settings : ResolvedSettings
settings = record {
  namespace = "voice";
  values = ("volume", Json.int (pos 4)) ∷ [];
  fallbacks = declared;
  revision = some (pos 3);
  stale = false;
  refused = [];
}

unfoldable runs_client : Unit {0}
unfolding begin fresh get insert drop_keys join adjust enter set_task answer fetched read_response
    document_of json_object revision_of fallbacks_of fallback_of store remember evict set_lock leave
    touch written
runs_client = tt

document : document_of "voice" reply ≡ ok settings
unfolding runs_client
document = refl

-- Two callers at once: one sends, the other waits.
abbrev two : System
two = enter (begin (begin (start 60 2) asked) asked) 1 asked

two_reached : Reach 60 2 two
unfolding runs_client
two_reached = later (later (later starts (begins asked)) (begins asked)) (enters 1 asked refl refl)

abbrev told : System
told = answer two 1 asked none (answered reply)

told_reached : Reach 60 2 told
unfolding runs_client
told_reached = later two_reached (answers 1 asked none (answered reply) refl)

Reach-single_flight_example :
    (count (is_sending (key_of asked)) two.tasks ≤ 1)
    × (callers_of (get two.client.flights (key_of asked))
        ≡ count (is_pending (key_of asked)) two.tasks)
    × (is_some (get two.client.flights (key_of asked))
        ≡ ltb 0 (count (is_pending (key_of asked)) two.tasks))
Reach-single_flight_example = Reach-single_flight two_reached (key_of asked)

Reach-Finishes_example : Finishes two 0
unfolding runs_client
Reach-Finishes_example = Reach-Finishes two_reached 0 asked (inl refl)

Reach-Served_example : Served told.answers asked settings
unfolding runs_client
Reach-Served_example = Reach-Served told_reached 1 asked settings refl

Reach-IsWithin_example : IsWithin told.client
Reach-IsWithin_example = Reach-IsWithin told_reached

-- Another person, when only the fallbacks are known.
abbrev other : Request
other = record { namespace = "voice"; user_token = "t2"; profile = some "work" }

fetched-outage_example :
    (v : ResolvedSettings) × (fetched told.client 0 other none unreachable ≡ (told.client, ok v))
    × (v.stale ≡ true)
    × (v.revision ≡ none)
    × ((key : String) → getitem v key ≡ outage_read "voice" key (get declared key))
unfolding runs_client
fetched-outage_example = fetched-outage told.client 0 other declared refl (refl, (refl, tt))

written-forgets_example :
    ((key : String × String × String)
      → get (written told.client "t1" "voice" (answered reply)).0.entries key
        ≡ (if key.0 == "t1" && key.1 == "voice" then none else get told.client.entries key))
    × ((now : ℕ) (profile : Option String)
        → fresh
            (written told.client "t1" "voice" (answered reply)).0
            now
            (key_of (record { namespace = "voice"; user_token = "t1"; profile = profile }))
          ≡ none)
    × ((written told.client "t1" "voice" (answered (record reply { status = 503 }))).0
        ≡ told.client)
    × ((written told.client "t1" "voice" unreachable).0 ≡ told.client)
unfolding runs_client
written-forgets_example =
    written-forgets told.client "t1" "voice" reply (record reply { status = 503 }) (omega arith)
      (omega arith)
