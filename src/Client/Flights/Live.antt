-- ===== src/Client/Flights/Live.antt =====
-- No caller is stuck at a lock: wherever the client stands, some order of replies brings each caller to
-- its end.
use settings_api.Prelude.{
  ℕ, zero, suc, ◌<◌, ◌≡◌, ◌≢◌, refl, ◌∙◌, ap, Bool, true, false, Option, none, some, List, [], ◌∷◌,
  arith, get_elem?, ◌==◌, triple_eq, string_eq, Result, ok, Bool-cases, inl, inr, ◌⊎◌,
}
use settings_api.Prelude.Dict.{get}
use settings_api.Client.Models.{ResolvedSettings}
use settings_api.Client.Reply.{unreachable}
use settings_api.Client.Cache.{Key, Entry, Request, key_of, ClientError, fresh, fetched}
use settings_api.Client.Flights.{
  Task, waiting, sending, finished, cancelled, System, Step, enters, answers, enter, enter_found,
  answer, Reach, is_locked, set_task,
}
use settings_api.Client.Flights.Counts.{num, is_sending, count, count-set_task}
use settings_api.Client.Flights.Single.{Single, one_sends}
use settings_api.Client.Flights.Reachable.{Step-Single, Reach-Single}

-- Some steps on.
pub data Steps : System → System → Type 0 where
  stay : {s : System} → Steps s s
  step : {s t u : System} → Step s t → Steps t u → Steps s u

abbrev pub Finishes : System → ℕ → Type 0
Finishes s i =
    (t : System) × (r : Request) × (result : Result ClientError ResolvedSettings) × Steps s t
    × (get_elem? t.tasks i ≡ some (finished r result))

get_elem?-set_task :
    (ts : List Task) (i : ℕ) (old new : Task)
    → get_elem? ts i ≡ some old
    → get_elem? (set_task ts i new) i ≡ some new
unfolding set_task
get_elem?-set_task [] i old new h = cc
get_elem?-set_task (t ∷ ts) zero old new h = refl
get_elem?-set_task (t ∷ ts) (suc i) old new h = get_elem?-set_task ts i old new h

get_elem?-set_task_other :
    (ts : List Task) (i j : ℕ) (old new : Task)
    → get_elem? ts i ≡ some old
    → get_elem? ts j ≢ some old
    → get_elem? (set_task ts j new) i ≡ some old
unfolding set_task
get_elem?-set_task_other [] i j old new h other = cc
get_elem?-set_task_other (t ∷ ts) zero zero old new h other = absurd (other h)
get_elem?-set_task_other (t ∷ ts) zero (suc j) old new h other = h
get_elem?-set_task_other (t ∷ ts) (suc i) zero old new h other = h
get_elem?-set_task_other (t ∷ ts) (suc i) (suc j) old new h other =
    get_elem?-set_task_other ts i j old new h other

-- Where a count is not zero there is one that is counted.
find_sending :
    (key : Key) (ts : List Task)
    → 0 < count (is_sending key) ts
    → (j : ℕ) × (r : Request) × (cached : Option Entry) × (get_elem? ts j ≡ some (sending r cached))
      × ((key_of r == key) ≡ true)
unfolding count
find_sending key [] h = absurd (omega arith)
find_sending key (waiting r ∷ ts) h =
    let (j, q, cached, at, same) = find_sending key ts (omega arith) in (suc j, q, cached, at, same)
find_sending key (finished r result ∷ ts) h =
    let (j, q, cached, at, same) = find_sending key ts (omega arith) in (suc j, q, cached, at, same)
find_sending key (cancelled r ∷ ts) h =
    let (j, q, cached, at, same) = find_sending key ts (omega arith) in (suc j, q, cached, at, same)
find_sending key (sending r cached ∷ ts) h = elim (Bool-cases (key_of r == key)) [
  | inl same ↦ (0, r, cached, refl, same)
  | inr other ↦
      let (j, q, c, at, same) = find_sending key ts (omega (arith, ap num other)) in
      (suc j, q, c, at, same)
]

answer-Finishes :
    (s : System) (i : ℕ) (r : Request) (cached : Option Entry)
    → get_elem? s.tasks i ≡ some (sending r cached)
    → Finishes s i
unfolding answer
answer-Finishes s i r cached at = (
  answer s i r cached unreachable,
  r,
  (fetched s.client s.clock r cached unreachable).1,
  step (answers i r cached unreachable at) stay,
  get_elem?-set_task s.tasks i (sending r cached) _ at,
)

entered-Finishes :
    (s t : System) (i : ℕ) (r : Request) (o : Option ResolvedSettings)
    → get_elem? s.tasks i ≡ some (waiting r)
    → t ≡ enter_found s i r o
    → Step s t
    → Finishes s i
entered-Finishes s t i r (some v) at e st = (
  t,
  r,
  ok v,
  step st stay,
  ap (λ u. get_elem? u.tasks i) e ∙ get_elem?-set_task s.tasks i (waiting r) _ at,
)
entered-Finishes s t i r none at e st =
    let (u, q, result, steps, done) =
      answer-Finishes t i r (get s.client.entries (key_of r))
        (ap (λ u. get_elem? u.tasks i) e ∙ get_elem?-set_task s.tasks i (waiting r) _ at) in
    (u, q, result, step st steps, done)

enter-Finishes :
    (s : System) (i : ℕ) (r : Request)
    → get_elem? s.tasks i ≡ some (waiting r)
    → is_locked (get s.client.flights (key_of r)) ≡ false
    → Finishes s i
unfolding enter
enter-Finishes s i r at free =
    entered-Finishes s (enter s i r) i r (fresh s.client s.clock (key_of r)) at refl
      (enters i r at free)

num-zero : (b : Bool) → num b ≡ 0 → b ≡ false
num-zero true h = absurd (omega (arith, h))
num-zero false h = refl

-- Once the caller that holds the lock has its reply, the lock is free.
free_after :
    (s : System) (k : Key) (j : ℕ) (q : Request) (cached : Option Entry)
    → Single s
    → get_elem? s.tasks j ≡ some (sending q cached)
    → (key_of q == k) ≡ true
    → is_locked (get (answer s j q cached unreachable).client.flights k) ≡ false
unfolding answer
free_after s k j q cached inv at same =
    let after = Step-Single {s = s} (answers j q cached unreachable at) inv in
    let sent =
      count-set_task (is_sending k) s.tasks j (sending q cached)
        (finished q (fetched s.client s.clock q cached unreachable).1) at in
    let one = one_sends s k j q cached inv at same in
    num-zero _ ((after k).held ∙ omega (arith, sent, one, ap num same))

still_waits :
    (s : System) (i j : ℕ) (r q : Request) (cached : Option Entry)
    → get_elem? s.tasks i ≡ some (waiting r)
    → get_elem? s.tasks j ≡ some (sending q cached)
    → get_elem? (answer s j q cached unreachable).tasks i ≡ some (waiting r)
unfolding answer
still_waits s i j r q cached at sends =
    get_elem?-set_task_other s.tasks i j (waiting r) _ at (λ h. cc)

waiting-Finishes :
    (s : System) (i : ℕ) (r : Request)
    → Single s
    → get_elem? s.tasks i ≡ some (waiting r)
    → Finishes s i
waiting-Finishes s i r inv at = elim (Bool-cases (is_locked (get s.client.flights (key_of r)))) [
  | inr free ↦ enter-Finishes s i r at free
  | inl locked ↦
      let (j, q, cached, sends, same) =
        find_sending (key_of r) s.tasks (omega (arith, (inv (key_of r)).held, ap num locked)) in
      let (t, p, result, steps, done) =
        enter-Finishes (answer s j q cached unreachable) i r (still_waits s i j r q cached at sends)
          (free_after s (key_of r) j q cached inv sends same) in
      (t, p, result, step (answers j q cached unreachable sends) steps, done)
]

-- From wherever a client has come to, each caller that waits or sends can be brought to its end: if
-- another holds the lock, the reply to that one, even if none comes from settings-api, frees it.
pub Reach-Finishes :
    {ttl max_entries : ℕ} {s : System}
    → Reach ttl max_entries s
    → (i : ℕ) (r : Request)
    → (get_elem? s.tasks i ≡ some (waiting r))
      ⊎ ((cached : Option Entry) × (get_elem? s.tasks i ≡ some (sending r cached)))
    → Finishes s i
Reach-Finishes {s} reach i r (inl at) = waiting-Finishes s i r (Reach-Single reach) at
Reach-Finishes {s} reach i r (inr (cached, at)) = answer-Finishes s i r cached at
