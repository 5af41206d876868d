-- ===== src/Client/Flights/Provenance.antt =====
-- Every caller is given what settings-api has answered, and nothing of another person's.
use settings_api.Prelude.{
  ℕ, zero, suc, ◌≡◌, refl, subst, String, Option, none, some, List, [], ◌∷◌, All, All-map,
  get_elem?, leb, string_eq, triple_eq, ok, err, Bool-cases, Option-cases, inl, inr, arith,
}
use settings_api.Prelude.Dict.{get, get-All, drop_keys-All}
use settings_api.Client.Models.{ResolvedSettings}
use settings_api.Client.Reply.{Reply, unreachable, answered}
use settings_api.Client.Cache.{
  Key, Entry, Client, Request, key_of, fresh, if_young, touch, fetched, drop_namespace, forget,
  written,
}
use settings_api.Client.Flights.{
  Answer, Task, waiting, sending, finished, cancelled, System, Step, begins, enters, answers,
  gives_up, is_cancelled, forgets, writes, ticks, begin, begin_found, enter, enter_found, answer,
  logged, Reach, starts, later, set_task,
}
use settings_api.Client.Flights.Source.{
  Answered, older, from_older, Served, own, own_stale, fallen_back, ResultOk, CachedOk, EntryOk,
  Known, CachedOk-older, cached-CachedOk, push_last-All, fetched-Outcome,
}

Served-older :
    (told : List Answer) (a : Answer) (r : Request) (v : ResolvedSettings)
    → Served told r v
    → Served (a ∷ told) r v
Served-older told a r v (own h) = own (older h)
Served-older told a r v (own_stale w h e) = own_stale w (older h) e
Served-older told a r v (fallen_back fs h e) = fallen_back fs (from_older h) e

abbrev TaskOk : List Answer → Task → Type 0
TaskOk told (waiting r) = Unit
TaskOk told (sending r o) = CachedOk told r o
TaskOk told (finished r result) = ResultOk told r result
TaskOk told (cancelled r) = Unit

TaskOk-older : (told : List Answer) (a : Answer) (t : Task) → TaskOk told t → TaskOk (a ∷ told) t
TaskOk-older told a (waiting r) h = tt
TaskOk-older told a (sending r o) h = CachedOk-older told a r o h
TaskOk-older told a (finished r (err e)) h = tt
TaskOk-older told a (finished r (ok v)) h = Served-older told a r v h
TaskOk-older told a (cancelled r) h = tt

All-set_task :
    (told : List Answer) (ts : List Task) (i : ℕ) (t : Task)
    → All (TaskOk told) ts
    → TaskOk told t
    → All (TaskOk told) (set_task ts i t)
unfolding set_task
All-set_task told [] i t hs h = tt
All-set_task told (x ∷ xs) zero t hs h = (h, hs.1)
All-set_task told (x ∷ xs) (suc i) t hs h = (hs.0, All-set_task told xs i t hs.1 h)

All-get_elem? :
    (told : List Answer) (ts : List Task) (i : ℕ) (t : Task)
    → All (TaskOk told) ts
    → get_elem? ts i ≡ some t
    → TaskOk told t
All-get_elem? told [] i t hs e = cc
All-get_elem? told (x ∷ xs) zero t hs e = subst (TaskOk told) {x = x} {y = t} (cc) hs.0
All-get_elem? told (x ∷ xs) (suc i) t hs e = All-get_elem? told xs i t hs.1 e

record Sourced (s : System) : Type 0 where
  known : Known s.answers s.client
  tasks : All (TaskOk s.answers) s.tasks

young-eq-some :
    (ttl now : ℕ) (o : Option Entry) (v : ResolvedSettings)
    → if_young ttl now o ≡ some v
    → (e : Entry) × (o ≡ some e) × (e.settings ≡ v)
young-eq-some ttl now none v h = cc
young-eq-some ttl now (some e) v h = (e, refl, ground arith)

-- A fresh entry was told to this very token.
fresh-Answered :
    (told : List Answer) (c : Client) (now : ℕ) (r : Request) (v : ResolvedSettings)
    → Known told c
    → fresh c now (key_of r) ≡ some v
    → Answered v (key_of r) told
unfolding fresh
fresh-Answered told c now r v k h =
    let (e, found, same) = young-eq-some c.ttl now (get c.entries (key_of r)) v h in
    subst (λ w. Answered w (key_of r) told) same
      (get-All (EntryOk told) c.entries (key_of r) e k.entries found)

touch-Known :
    (told : List Answer) (c : Client) (key : Key) → Known told c → Known told (touch c key)
unfolding touch
touch-Known told c key k = elim (Option-cases (get c.entries key)) [
  | inl missing ↦ rw missing k
  | inr (e, found) ↦ rw found (record {
    entries =
        push_last-All told c.entries key e (get-All (EntryOk told) c.entries key e k.entries found)
          k.entries;
    fallbacks = k.fallbacks;
  })
]

begin_found-Sourced :
    (s : System) (r : Request) (o : Option ResolvedSettings)
    → fresh s.client s.clock (key_of r) ≡ o
    → Sourced s
    → Sourced (begin_found s r o)
begin_found-Sourced s r none e h = record {
  known = record { entries = h.known.entries; fallbacks = h.known.fallbacks };
  tasks = (tt, h.tasks);
}
begin_found-Sourced s r (some v) e h = record {
  known = touch-Known s.answers s.client (key_of r) h.known;
  tasks = (own (fresh-Answered s.answers s.client s.clock r v h.known e), h.tasks);
}

enter_found-Sourced :
    (s : System) (i : ℕ) (r : Request) (o : Option ResolvedSettings)
    → fresh s.client s.clock (key_of r) ≡ o
    → Sourced s
    → Sourced (enter_found s i r o)
enter_found-Sourced s i r none e h = record {
  known = record { entries = h.known.entries; fallbacks = h.known.fallbacks };
  tasks =
      All-set_task s.answers s.tasks i _ h.tasks
        (cached-CachedOk s.answers s.client r (get s.client.entries (key_of r)) h.known refl);
}
enter_found-Sourced s i r (some v) e h = record {
  known = record { entries = h.known.entries; fallbacks = h.known.fallbacks };
  tasks =
      All-set_task s.answers s.tasks i _ h.tasks
        (own (fresh-Answered s.answers s.client s.clock r v h.known e));
}

tasks-logged :
    (told : List Answer) (r : Request) (reply : Reply) (ts : List Task)
    → All (TaskOk told) ts
    → All (TaskOk (logged told r reply)) ts
tasks-logged told r unreachable ts hs = hs
tasks-logged told r (answered response) ts hs = All-map ts (λ t h. TaskOk-older told _ t h) hs

answer-Sourced :
    (s : System) (i : ℕ) (r : Request) (o : Option Entry) (reply : Reply)
    → get_elem? s.tasks i ≡ some (sending r o)
    → Sourced s
    → Sourced (answer s i r o reply)
unfolding answer
answer-Sourced s i r o reply at h =
    let out =
      fetched-Outcome s.answers s.client s.clock r o reply h.known
        (All-get_elem? s.answers s.tasks i (sending r o) h.tasks at) in
    record {
      known = record { entries = out.0.entries; fallbacks = out.0.fallbacks };
      tasks =
          All-set_task _ s.tasks i (finished r (fetched s.client s.clock r o reply).1)
            (tasks-logged s.answers r reply s.tasks h.tasks) out.1;
    }

forget-Known :
    (told : List Answer) (c : Client) (user_token : String) (namespace : Option String)
    → Known told c
    → Known told (forget c user_token namespace)
unfolding forget drop_namespace
forget-Known told c user_token none k = record {
  entries = drop_keys-All (EntryOk told) _ c.entries k.entries;
  fallbacks = k.fallbacks;
}
forget-Known told c user_token (some namespace) k = record {
  entries = drop_keys-All (EntryOk told) _ c.entries k.entries;
  fallbacks = k.fallbacks;
}

written-Known :
    (told : List Answer) (c : Client) (user_token namespace : String) (reply : Reply)
    → Known told c
    → Known told (written c user_token namespace reply).0
unfolding written drop_namespace
written-Known told c user_token namespace unreachable k = k
written-Known told c user_token namespace (answered response) k =
    elim (Bool-cases (leb 400 response.status)) [
      | inl refused ↦ rw refused k
      | inr landed ↦ rw landed (record {
        entries = drop_keys-All (EntryOk told) _ c.entries k.entries;
        fallbacks = k.fallbacks;
      })
    ]

Step-Sourced : {s t : System} → Step s t → Sourced s → Sourced t
unfolding begin enter
Step-Sourced {s} (begins r) h = begin_found-Sourced s r _ refl h
Step-Sourced {s} (enters i r at free) h = enter_found-Sourced s i r _ refl h
Step-Sourced {s} (answers i r o reply at) h = answer-Sourced s i r o reply at h
Step-Sourced {s} (gives_up i r at) h = record {
  known = record { entries = h.known.entries; fallbacks = h.known.fallbacks };
  tasks = All-set_task s.answers s.tasks i (cancelled r) h.tasks tt;
}
Step-Sourced {s} (is_cancelled i r o at) h = record {
  known = record { entries = h.known.entries; fallbacks = h.known.fallbacks };
  tasks = All-set_task s.answers s.tasks i (cancelled r) h.tasks tt;
}
Step-Sourced {s} (forgets user_token namespace) h = record {
  known = forget-Known s.answers s.client user_token namespace h.known;
  tasks = h.tasks;
}
Step-Sourced {s} (writes user_token namespace reply) h = record {
  known = written-Known s.answers s.client user_token namespace reply h.known;
  tasks = h.tasks;
}
Step-Sourced {s} (ticks n) h = record { known = h.known; tasks = h.tasks }

Reach-Sourced : {ttl max_entries : ℕ} {s : System} → Reach ttl max_entries s → Sourced s
Reach-Sourced starts = record { known = record { entries = tt; fallbacks = tt }; tasks = tt }
Reach-Sourced (later r st) = Step-Sourced st (Reach-Sourced r)

-- However callers interleave, a caller that gets settings gets one of three: a usable answer that
-- settings-api gave to a request with its own token, namespace and profile; the stale copy of such
-- an answer; or what is assembled from fallbacks that settings-api sent for the namespace. Nobody is
-- given the values of another token.
pub Reach-Served :
    {ttl max_entries : ℕ} {s : System}
    → Reach ttl max_entries s
    → (i : ℕ) (r : Request) (v : ResolvedSettings) → get_elem? s.tasks i ≡ some (finished r (ok v))
    → Served s.answers r v
Reach-Served {s} reach i r v at =
    All-get_elem? s.answers s.tasks i (finished r (ok v)) (Reach-Sourced reach).tasks at
