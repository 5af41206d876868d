-- ===== src/Client/Flights/Reachable.antt =====
-- Each key has one request out at most, and a flight lives exactly as long as its callers.
use settings_api.Prelude.{
  ltb, is_some, ◌≤◌, ℕ, ◌≡◌, refl, String, Option, none, some, arith, get_elem?, nat_eq, triple_eq,
  string_eq, subst, sym,
}
use settings_api.Prelude.Dict.{get}
use settings_api.Client.Reply.{Reply, unreachable, answered}
use settings_api.Client.Cache.{
  Key, Entry, Flight, Client, Request, key_of, fetched, forget, written, read_response, store,
  remember, refresh, drop_namespace,
}
use settings_api.Client.Flights.{
  Reach, starts, later, sending, finished, cancelled, System, Step, begins, enters, answers,
  gives_up, is_cancelled, forgets, writes, ticks, answer, set_task, unlock_and_leave,
}
use settings_api.Client.Flights.Counts.{is_pending, is_sending, count}
use settings_api.Client.Flights.Agrees.{callers_of, Agrees}
use settings_api.Client.Flights.Single.{
  Single, begin-Single, enter-Single, waits-Single, ends-Single,
}

pub fetched-flights :
    (c : Client) (now : ℕ) (r : Request) (cached : Option Entry) (reply : Reply)
    → (fetched c now r cached reply).0.flights ≡ c.flights
unfolding fetched read_response store remember refresh
fetched-flights c now r cached unreachable = refl
fetched-flights c now r none (answered response) = ground arith
fetched-flights c now r (some e) (answered response) = ground arith

written-flights :
    (c : Client) (user_token namespace : String) (reply : Reply)
    → (written c user_token namespace reply).0.flights ≡ c.flights
unfolding written drop_namespace
written-flights c user_token namespace unreachable = refl
written-flights c user_token namespace (answered response) = ground arith

forget-flights :
    (c : Client) (user_token : String) (namespace : Option String)
    → (forget c user_token namespace).flights ≡ c.flights
unfolding forget drop_namespace
forget-flights c user_token none = refl
forget-flights c user_token (some namespace) = refl

-- Flights that are the same agree with the same callers.
Single-flights :
    (s : System) (client : Client) (clock : ℕ)
    → client.flights ≡ s.client.flights
    → Single s
    → Single (record s { client = client; clock = clock })
Single-flights s client clock e inv k =
    subst (λ fs. Agrees (get fs k) (count (is_pending k) s.tasks) (count (is_sending k) s.tasks))
      (sym e) (inv k)

pub answer-Single :
    (s : System) (i : ℕ) (r : Request) (cached : Option Entry) (reply : Reply)
    → get_elem? s.tasks i ≡ some (sending r cached)
    → Single s
    → Single (answer s i r cached reply)
unfolding answer
answer-Single s i r cached reply at inv k =
    let (client, result) = fetched s.client s.clock r cached reply in
    subst
      (λ fs.
        Agrees (get (unlock_and_leave fs (key_of r)) k)
          (count (is_pending k) (set_task s.tasks i (finished r result)))
          (count (is_sending k) (set_task s.tasks i (finished r result))))
      (sym (fetched-flights s.client s.clock r cached reply))
      (ends-Single s i r cached (finished r result) k at refl refl inv)

-- Every step keeps it.
pub Step-Single : {s t : System} → Step s t → Single s → Single t
Step-Single {s} (begins r) inv = begin-Single s r inv
Step-Single {s} (enters i r at free) inv = enter-Single s i r at free inv
Step-Single {s} (answers i r cached reply at) inv = answer-Single s i r cached reply at inv
Step-Single {s} (gives_up i r at) inv =
    waits-Single s i r (cancelled r) at (λ k. refl) (λ k. refl) inv
Step-Single {s} (is_cancelled i r cached at) inv =
    λ k. ends-Single s i r cached (cancelled r) k at refl refl inv
Step-Single {s} (forgets user_token namespace) inv =
    Single-flights s (forget s.client user_token namespace) s.clock
      (forget-flights s.client user_token namespace) inv
Step-Single {s} (writes user_token namespace reply) inv =
    Single-flights s (written s.client user_token namespace reply).0 s.clock
      (written-flights s.client user_token namespace reply) inv
Step-Single {s} (ticks n) inv = inv

pub Reach-Single : {ttl max_entries : ℕ} {s : System} → Reach ttl max_entries s → Single s
unfolding count get
Reach-Single starts = λ k. record { callers = refl; held = refl; used = tt }
Reach-Single (later r st) = Step-Single st (Reach-Single r)

lives : (f : Option Flight) (p q : ℕ) → Agrees f p q → is_some f ≡ ltb 0 p
lives none p q a = ground (arith, a.callers)
lives (some f) p q a = ground (arith, a.callers, a.used)

held-le : (f : Option Flight) (p q : ℕ) → Agrees f p q → q ≤ 1
held-le f p q a = ground (arith, a.held)

-- However the callers of one client interleave, with replies of any kind, cancelled callers, writes and
-- forgotten entries between: of the callers that ask for one token, namespace and profile at most
-- one has a request out; the flight counts those that still wait or send, and it is there exactly
-- while there are any.
pub Reach-single_flight :
    {ttl max_entries : ℕ} {s : System}
    → Reach ttl max_entries s
    → (key : Key)
    → (count (is_sending key) s.tasks ≤ 1)
      × (callers_of (get s.client.flights key) ≡ count (is_pending key) s.tasks)
      × (is_some (get s.client.flights key) ≡ ltb 0 (count (is_pending key) s.tasks))
Reach-single_flight r key =
    let a = Reach-Single r key in (held-le _ _ _ a, a.callers, lives _ _ _ a)
