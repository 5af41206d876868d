-- ===== src/Client/Flights/Bounded.antt =====
-- The cache of a client that runs stays within its bound.
use settings_api.Prelude.{ℕ, Option, none, some, arith}
use settings_api.Client.Models.{ResolvedSettings}
use settings_api.Client.Cache.{Request, key_of, fresh}
use settings_api.Client.Cache.Bounds.{
  IsWithin, touch-IsWithin, fetched-IsWithin, forget-IsWithin, written-IsWithin,
}
use settings_api.Client.Flights.{
  System, Step, begins, enters, answers, gives_up, is_cancelled, forgets, writes, ticks, begin,
  begin_found, enter, enter_found, answer, Reach, starts, later,
}

begin_found-IsWithin :
    (s : System) (r : Request) (o : Option ResolvedSettings)
    → IsWithin s.client
    → IsWithin (begin_found s r o).client
begin_found-IsWithin s r none h = h
begin_found-IsWithin s r (some v) h = touch-IsWithin s.client (key_of r) h

enter_found-IsWithin :
    (s : System) (i : ℕ) (r : Request) (o : Option ResolvedSettings)
    → IsWithin s.client
    → IsWithin (enter_found s i r o).client
enter_found-IsWithin s i r none h = h
enter_found-IsWithin s i r (some v) h = h

Step-IsWithin : {s t : System} → Step s t → IsWithin s.client → IsWithin t.client
unfolding begin enter answer
Step-IsWithin {s} (begins r) h = begin_found-IsWithin s r (fresh s.client s.clock (key_of r)) h
Step-IsWithin {s} (enters i r at free) h =
    enter_found-IsWithin s i r (fresh s.client s.clock (key_of r)) h
Step-IsWithin {s} (answers i r o reply at) h = fetched-IsWithin s.client s.clock r o reply h
Step-IsWithin {s} (gives_up i r at) h = h
Step-IsWithin {s} (is_cancelled i r o at) h = h
Step-IsWithin {s} (forgets user_token namespace) h = forget-IsWithin s.client user_token namespace h
Step-IsWithin {s} (writes user_token namespace reply) h =
    written-IsWithin s.client user_token namespace reply h
Step-IsWithin {s} (ticks n) h = h

-- A client never holds more cached namespaces than its bound, whatever its callers do.
pub Reach-IsWithin :
    {ttl max_entries : ℕ} {s : System} → Reach ttl max_entries s → IsWithin s.client
Reach-IsWithin starts = omega arith
Reach-IsWithin (later r st) = Step-IsWithin st (Reach-IsWithin r)
