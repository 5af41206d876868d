-- ===== src/Client/Flights/Source.antt =====
-- Where what a client remembers comes from: the answers that settings-api has given it.
use settings_api.Prelude.{
  ℕ, ◌≡◌, refl, false, String, Option, none, some, List, [], ◌∷◌, All, All-map, All-append, length,
  leb, ◌==◌, nat_eq, string_eq, triple_eq, Result, ok, err, Bool-cases, Option-cases, inl, inr,
}
use settings_api.Prelude.Dict.{Dict, get, get-All, insert-All, drop_keys, drop_keys-All, push_last}
use settings_api.Client.Models.{Fallback, ResolvedSettings}
use settings_api.Client.Reply.{Response, Reply, unreachable, answered, Unusable, document_of}
use settings_api.Client.Cache.{
  Key, Entry, Client, Request, key_of, or_empty, ClientError, evict, remember, store, degrade,
  assembled, stale_copy, refresh, read_response, fetched, keep_document,
}
use settings_api.Client.Flights.{Answer, logged}

-- Whom and what a request asks for, in full.
abbrev asked_for : Request → Key
asked_for r = (r.user_token, r.namespace, or_empty r.profile)

-- A usable answer of settings-api to a request with this very token, namespace and profile.
pub data Answered (v : ResolvedSettings) (key : Key) : List Answer → Type 0 where
  newest :
      {a : Answer} {told : List Answer}
      → asked_for a.request ≡ key
      → leb 400 a.response.status ≡ false
      → document_of a.request.namespace a.response ≡ ok v
      → Answered v key (a ∷ told)
  older : {a : Answer} {told : List Answer} → Answered v key told → Answered v key (a ∷ told)

-- The fallbacks in a usable answer to a request for the namespace, whoever it was for.
pub data Learned (fs : Dict String Fallback) (namespace : String) : List Answer → Type 0 where
  from_newest :
      {a : Answer} {told : List Answer} (v : ResolvedSettings)
      → a.request.namespace ≡ namespace
      → document_of a.request.namespace a.response ≡ ok v
      → v.fallbacks ≡ fs
      → Learned fs namespace (a ∷ told)
  from_older :
      {a : Answer} {told : List Answer}
      → Learned fs namespace told
      → Learned fs namespace (a ∷ told)

-- What a caller may be given: an answer to its own token, the stale copy of one, or what the namespace's
-- fallbacks make.
pub data Served (told : List Answer) (r : Request) (v : ResolvedSettings) : Type 0 where
  own : Answered v (asked_for r) told → Served told r v
  own_stale :
      (w : ResolvedSettings) → Answered w (asked_for r) told → v ≡ stale_copy w → Served told r v
  fallen_back :
      (fs : Dict String Fallback)
      → Learned fs r.namespace told
      → v ≡ assembled r.namespace fs
      → Served told r v

abbrev pub ResultOk : List Answer → Request → Result ClientError ResolvedSettings → Type 0
ResultOk told r (err e) = Unit
ResultOk told r (ok v) = Served told r v

abbrev pub CachedOk : List Answer → Request → Option Entry → Type 0
CachedOk told r none = Unit
CachedOk told r (some e) = Answered e.settings (key_of r) told

abbrev pub EntryOk : List Answer → Key × Entry → Type 0
EntryOk told p = Answered p.1.settings p.0 told

abbrev FallbackOk : List Answer → String × Dict String Fallback → Type 0
FallbackOk told p = Learned p.1 p.0 told

pub record Known (told : List Answer) (c : Client) : Type 0 where
  pub entries : All (EntryOk told) c.entries
  pub fallbacks : All (FallbackOk told) c.fallbacks

pub Known-older : (told : List Answer) (a : Answer) (c : Client) → Known told c → Known (a ∷ told) c
Known-older told a c k = record {
  entries = All-map c.entries (λ p h. older h) k.entries;
  fallbacks = All-map c.fallbacks (λ p h. from_older h) k.fallbacks;
}

pub CachedOk-older :
    (told : List Answer) (a : Answer) (r : Request) (o : Option Entry)
    → CachedOk told r o
    → CachedOk (a ∷ told) r o
CachedOk-older told a r none h = tt
CachedOk-older told a r (some e) h = older h

pub cached-CachedOk :
    (told : List Answer) (c : Client) (r : Request) (o : Option Entry)
    → Known told c
    → get c.entries (key_of r) ≡ o
    → CachedOk told r o
cached-CachedOk told c r none k h = tt
cached-CachedOk told c r (some e) k h = get-All (EntryOk told) c.entries (key_of r) e k.entries h

evict-All :
    (told : List Answer) (bound : ℕ) (es : Dict Key Entry)
    → All (EntryOk told) es
    → All (EntryOk told) (evict bound es)
unfolding evict
evict-All told bound [] hs = tt
evict-All told bound (e ∷ es) (h, hs) = elim (Bool-cases (leb (length (e ∷ es)) bound)) [
  | inl fits ↦ rw fits (h, hs)
  | inr over ↦ rw over (evict-All told bound es hs)
]

pub push_last-All :
    (told : List Answer) (es : Dict Key Entry) (key : Key) (e : Entry)
    → Answered e.settings key told
    → All (EntryOk told) es
    → All (EntryOk told) (push_last es key e)
push_last-All told es key e h hs =
    All-append (EntryOk told) (drop_keys (λ j. j == key) es) ((key, e) ∷ [])
      (drop_keys-All (EntryOk told) (λ j. j == key) es hs) (h, tt)

store-Known :
    (told : List Answer) (c : Client) (now : ℕ) (r : Request) (v : ResolvedSettings)
    (response : Response)
    → Known told c
    → Answered v (key_of r) told
    → Learned v.fallbacks r.namespace told
    → Known told (store c now r v response)
unfolding store remember
store-Known told c now r v response k h l = record {
  entries = evict-All told c.max_entries _ (push_last-All told c.entries (key_of r) _ h k.entries);
  fallbacks = insert-All (FallbackOk told) c.fallbacks r.namespace v.fallbacks k.fallbacks l;
}

refresh-Known :
    (told : List Answer) (c : Client) (key : Key) (now : ℕ)
    → Known told c
    → Known told (refresh c key now)
unfolding refresh
refresh-Known told c key now k = elim (Option-cases (get c.entries key)) [
  | inl e ↦ rw e k
  | inr (x, e) ↦ rw e (record {
    entries =
        insert-All (EntryOk told) c.entries key _ k.entries
          (get-All (EntryOk told) c.entries key x k.entries e);
    fallbacks = k.fallbacks;
  })
]

degrade-ResultOk :
    (told : List Answer) (c : Client) (r : Request) (o : Option Entry)
    → Known told c
    → CachedOk told r o
    → ResultOk told r (degrade c r.namespace o)
unfolding degrade
degrade-ResultOk told c r (some e) k h = own_stale e.settings h refl
degrade-ResultOk told c r none k h = elim (Option-cases (get c.fallbacks r.namespace)) [
  | inl e ↦ rw e tt
  | inr (fs, e) ↦
      rw e
        (fallen_back fs (get-All (FallbackOk told) c.fallbacks r.namespace fs k.fallbacks e) refl)
]

abbrev pub Outcome : List Answer → Request → Client × Result ClientError ResolvedSettings → Type 0
Outcome told r p = Known told p.0 × ResultOk told r p.1

keep_document-Outcome :
    (told : List Answer) (c : Client) (now : ℕ) (r : Request) (o : Option Entry)
    (response : Response) (d : Result Unusable ResolvedSettings)
    → Known told c
    → CachedOk told r o
    → leb 400 response.status ≡ false
    → document_of r.namespace response ≡ d
    → Outcome
        (record { request = r; response = response } ∷ told)
        r
        (keep_document c now r o response d)
keep_document-Outcome told c now r o response (err why) k h low e =
    let more : Known (record { request = r; response = response } ∷ told) c =
      Known-older told _ c k in
    (more, degrade-ResultOk _ c r o more (CachedOk-older told _ r o h))
keep_document-Outcome told c now r o response (ok v) k h low e =
    let fact : Answered v (key_of r) (record { request = r; response = response } ∷ told) =
      newest refl low e in
    (
      store-Known _ c now r v response (Known-older told _ c k) fact (from_newest v refl e refl),
      own fact,
    )

read_response-Outcome :
    (told : List Answer) (c : Client) (now : ℕ) (r : Request) (o : Option Entry)
    (response : Response)
    → Known told c
    → CachedOk told r o
    → Outcome
        (record { request = r; response = response } ∷ told)
        r
        (read_response c now r o response)
unfolding read_response
read_response-Outcome told c now r o response k h =
    let more : Known (record { request = r; response = response } ∷ told) c =
      Known-older told _ c k in
    elim (Bool-cases (leb 500 response.status)) [
      | inl down ↦ rw down (more, degrade-ResultOk _ c r o more (CachedOk-older told _ r o h))
      | inr up ↦ elim (Bool-cases (leb 400 response.status)) [
        | inl refused ↦ rw (up, refused) (more, tt)
        | inr low ↦ rw (up, low) (keep_document-Outcome told c now r o response _ k h low refl)
      ]
    ]

-- What a reply leaves in the client, and what the caller is given, come from the answers and this reply.
pub fetched-Outcome :
    (told : List Answer) (c : Client) (now : ℕ) (r : Request) (o : Option Entry) (reply : Reply)
    → Known told c
    → CachedOk told r o
    → Outcome (logged told r reply) r (fetched c now r o reply)
unfolding fetched
fetched-Outcome told c now r o unreachable k h = (k, degrade-ResultOk told c r o k h)
fetched-Outcome told c now r none (answered response) k h =
    read_response-Outcome told c now r none response k h
fetched-Outcome told c now r (some e) (answered response) k h =
    elim (Bool-cases (response.status == 304)) [
      | inl same ↦
          rw same (refresh-Known _ c (key_of r) now (Known-older told _ c k), own (older h))
      | inr other ↦ rw other (read_response-Outcome told c now r (some e) response k h)
    ]
