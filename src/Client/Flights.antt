-- ===== src/Client/Flights.antt =====
-- The single flight of `HttpSettingsClient.resolve` in clients/python/settings_client/client.py: callers
-- that run at once, each of them at one of its awaits, over one client.
pub mod Counts
pub mod Agrees
pub mod Single
pub mod Reachable
pub mod Live
pub mod Source
pub mod Provenance
pub mod Bounded
use settings_api.Prelude.{
  ℕ, zero, suc, ◌+◌, ◌-◌, ◌≡◌, Bool, true, false, String, Option, none, some, List, [], ◌∷◌,
  get_elem?, if◌then◌else◌, ◌==◌, nat_eq, triple_eq, string_eq, Result, ok,
}
use settings_api.Prelude.Dict.{Dict, get, adjust}
use settings_api.Client.Models.{ResolvedSettings}
use settings_api.Client.Reply.{Response, Reply, unreachable, answered}
use settings_api.Client.Cache.{
  Key, Entry, Flight, Client, Request, key_of, ClientError, fresh, touch, fetched, forget, written,
}

abbrev Flights : Type 0
Flights = Dict Key Flight

abbrev pub is_locked : Option Flight → Bool
is_locked none = false
is_locked (some f) = f.locked

-- `setdefault(key, _Flight())` and `callers += 1`
abbrev pub joined : Option Flight → Option Flight
joined none = some (record { locked = false; callers = 1 })
joined (some f) = some (record f { callers = f.callers + 1 })

abbrev pub with_lock : Bool → Option Flight → Option Flight
with_lock held none = none
with_lock held (some f) = some (record f { locked = held })

-- The `finally` of `resolve`: `callers -= 1`, and the last one deletes the flight.
abbrev pub left : Option Flight → Option Flight
left none = none
left (some f) = if f.callers - 1 == 0 then none else some (record f { callers = f.callers - 1 })

unfoldable pub join : Flights → Key → Flights
join flights key = adjust flights key joined

-- The lock of a flight is taken, or given back.
unfoldable pub set_lock : Flights → Key → Bool → Flights
set_lock flights key held = adjust flights key (with_lock held)

unfoldable pub leave : Flights → Key → Flights
leave flights key = adjust flights key left

-- Where a caller of `resolve` stands: at the lock, at the request, or done.
pub data Task : Type 0 where
  waiting : Request → Task
  sending : Request → (cached : Option Entry) → Task
  finished : Request → Result ClientError ResolvedSettings → Task
  cancelled : Request → Task

pub record Answer : Type 0 where
  pub request : Request
  pub response : Response

-- The client, the clock, the callers so far with the newest first, and what settings-api has answered.
pub record System : Type 0 where
  pub client : Client
  pub clock : ℕ
  pub tasks : List Task
  pub answers : List Answer

unfoldable pub set_task : List Task → ℕ → Task → List Task
set_task [] i t = []
set_task (x ∷ xs) zero t = t ∷ xs
set_task (x ∷ xs) (suc i) t = x ∷ set_task xs i t

abbrev pub begin_found : System → Request → Option ResolvedSettings → System
begin_found s r (some settings) = record s {
  client = touch s.client (key_of r);
  tasks = finished r (ok settings) ∷ s.tasks;
}
begin_found s r none = record s {
  client = record s.client { flights = join s.client.flights (key_of r) };
  tasks = waiting r ∷ s.tasks;
}

-- `resolve` up to its first await.
unfoldable pub begin : System → Request → System
begin s r = begin_found s r (fresh s.client s.clock (key_of r))

abbrev pub enter_found : System → ℕ → Request → Option ResolvedSettings → System
enter_found s i r (some settings) = record s {
  client = record s.client { flights = leave s.client.flights (key_of r) };
  tasks = set_task s.tasks i (finished r (ok settings));
}
enter_found s i r none = record s {
  client = record s.client { flights = set_lock s.client.flights (key_of r) true };
  tasks = set_task s.tasks i (sending r (get s.client.entries (key_of r)));
}

-- From the lock to the request; a caller that finds a fresh entry gives the lock back at once.
unfoldable pub enter : System → ℕ → Request → System
enter s i r = enter_found s i r (fresh s.client s.clock (key_of r))

abbrev pub logged : List Answer → Request → Reply → List Answer
logged answers r unreachable = answers
logged answers r (answered response) = record { request = r; response = response } ∷ answers

-- A caller gives the lock back and leaves.
abbrev pub unlock_and_leave : Flights → Key → Flights
unlock_and_leave flights key = leave (set_lock flights key false) key

-- From the reply to the end.
unfoldable pub answer : System → ℕ → Request → Option Entry → Reply → System
answer s i r cached reply =
    let (client, result) = fetched s.client s.clock r cached reply in
    record s {
      client = record client { flights = unlock_and_leave client.flights (key_of r) };
      tasks = set_task s.tasks i (finished r result);
      answers = logged s.answers r reply;
    }

-- What may happen next. Any caller may go on, at any reply; between two of its awaits no other runs.
pub data Step (s : System) : System → Type 0 where
  begins : (r : Request) → Step s (begin s r)
  enters :
      (i : ℕ) (r : Request)
      → get_elem? s.tasks i ≡ some (waiting r)
      → is_locked (get s.client.flights (key_of r)) ≡ false
      → Step s (enter s i r)
  answers :
      (i : ℕ) (r : Request) (cached : Option Entry) (reply : Reply)
      → get_elem? s.tasks i ≡ some (sending r cached)
      → Step s (answer s i r cached reply)
  gives_up :
      (i : ℕ) (r : Request)
      → get_elem? s.tasks i ≡ some (waiting r)
      → Step s (record s {
        client = record s.client { flights = leave s.client.flights (key_of r) };
        tasks = set_task s.tasks i (cancelled r);
      })
  is_cancelled :
      (i : ℕ) (r : Request) (cached : Option Entry)
      → get_elem? s.tasks i ≡ some (sending r cached)
      → Step s (record s {
        client = record s.client { flights = unlock_and_leave s.client.flights (key_of r) };
        tasks = set_task s.tasks i (cancelled r);
      })
  forgets :
      (user_token : String) (namespace : Option String)
      → Step s (record s { client = forget s.client user_token namespace })
  writes :
      (user_token namespace : String) (reply : Reply)
      → Step s (record s { client = (written s.client user_token namespace reply).0 })
  ticks : (n : ℕ) → Step s (record s { clock = s.clock + n })

abbrev pub start : (ttl max_entries : ℕ) → System
start ttl max_entries = record {
  client = record {
    ttl = ttl;
    max_entries = max_entries;
    entries = [];
    fallbacks = [];
    flights = [];
  };
  clock = 0;
  tasks = [];
  answers = [];
}

pub data Reach (ttl max_entries : ℕ) : System → Type 0 where
  starts : Reach ttl max_entries (start ttl max_entries)
  later : {s t : System} → Reach ttl max_entries s → Step s t → Reach ttl max_entries t
