-- ===== src/Client/Cache/Bounds.antt =====
-- The bound of `_remember`, and what `set` leaves of the cache.
use settings_api.Prelude.{
  ℕ, ◌≤◌, ◌<◌, ◌≡◌, refl, ap, ◌∙◌, true, false, ◌&&◌, String, Option, none, some, [], ◌∷◌, arith,
  length, length-append, leb, if◌then◌else◌, ◌==◌, string_eq, triple_eq, eq_iff, Option-cases, inl,
  inr, Result, ok, err,
}
use settings_api.Prelude.Dict.{
  Dict, get, drop_keys, erase, get-drop_keys, length-drop_keys-le, length-erase_found,
  length-insert_found,
}
use settings_api.Client.Reply.{Response, Reply, unreachable, answered, Unusable, document_of}
use settings_api.Client.Models.{ResolvedSettings}
use settings_api.Client.Cache.{
  Key, Entry, Client, Request, key_of, fresh, if_young, touch, evict, remember, store, refresh,
  read_response, keep_document, fetched, drop_namespace, forget, written,
}

abbrev pub IsWithin : Client → Type 0
IsWithin c = length c.entries ≤ c.max_entries

length-evict-le : (bound : ℕ) (es : Dict Key Entry) → length (evict bound es) ≤ bound
unfolding evict
length-evict-le bound [] = omega arith
length-evict-le bound (e ∷ es) = ground (arith, length-evict-le bound es)

pub touch-IsWithin : (c : Client) (key : Key) → IsWithin c → IsWithin (touch c key)
unfolding touch
touch-IsWithin c key h = elim (Option-cases (get c.entries key)) [
  | inl missing ↦ rw missing h
  | inr (e, found) ↦ rw found (
      omega (
        arith,
        h,
        length-erase_found c.entries key e found,
        length-append (erase c.entries key) ((key, e) ∷ []),
      ))
]

store-IsWithin :
    (c : Client) (now : ℕ) (r : Request) (v : ResolvedSettings) (response : Response)
    → IsWithin (store c now r v response)
unfolding store remember
store-IsWithin c now r v response = length-evict-le c.max_entries _

refresh-IsWithin : (c : Client) (key : Key) (now : ℕ) → IsWithin c → IsWithin (refresh c key now)
unfolding refresh
refresh-IsWithin c key now h = elim (Option-cases (get c.entries key)) [
  | inl missing ↦ rw missing h
  | inr (e, found) ↦ rw found (omega (arith, h, length-insert_found c.entries key e _ found))
]

keep_document-IsWithin :
    (c : Client) (now : ℕ) (r : Request) (o : Option Entry) (response : Response)
    (d : Result Unusable ResolvedSettings)
    → IsWithin c
    → IsWithin (keep_document c now r o response d).0
keep_document-IsWithin c now r o response (err why) h = h
keep_document-IsWithin c now r o response (ok v) h = store-IsWithin c now r v response

read_response-IsWithin :
    (c : Client) (now : ℕ) (r : Request) (o : Option Entry) (response : Response)
    → IsWithin c
    → IsWithin (read_response c now r o response).0
unfolding read_response
read_response-IsWithin c now r o response h =
    ground (arith, keep_document-IsWithin c now r o response (document_of r.namespace response) h)

pub fetched-IsWithin :
    (c : Client) (now : ℕ) (r : Request) (o : Option Entry) (reply : Reply)
    → IsWithin c
    → IsWithin (fetched c now r o reply).0
unfolding fetched
fetched-IsWithin c now r o unreachable h = h
fetched-IsWithin c now r none (answered response) h = read_response-IsWithin c now r none response h
fetched-IsWithin c now r (some e) (answered response) h =
    ground (
      arith,
      refresh-IsWithin c (key_of r) now h,
      read_response-IsWithin c now r (some e) response h,
    )

pub forget-IsWithin :
    (c : Client) (user_token : String) (namespace : Option String)
    → IsWithin c
    → IsWithin (forget c user_token namespace)
unfolding forget drop_namespace
forget-IsWithin c user_token none h =
    omega (arith, h, length-drop_keys-le (λ (k : Key). k.0 == user_token) c.entries)
forget-IsWithin c user_token (some namespace) h =
    omega
      (arith, h, length-drop_keys-le (λ (k : Key). k.0 == user_token && k.1 == namespace) c.entries)

pub written-IsWithin :
    (c : Client) (user_token namespace : String) (reply : Reply)
    → IsWithin c
    → IsWithin (written c user_token namespace reply).0
unfolding written drop_namespace
written-IsWithin c user_token namespace unreachable h = h
written-IsWithin c user_token namespace (answered response) h =
    ground
      (arith, length-drop_keys-le (λ (k : Key). k.0 == user_token && k.1 == namespace) c.entries)

get-dropped :
    (es : Dict Key Entry) (user_token namespace : String) (key : Key)
    → key.0 ≡ user_token
    → key.1 ≡ namespace
    → get (drop_keys (λ (k : Key). k.0 == user_token && k.1 == namespace) es) key ≡ none
get-dropped es user_token namespace key e f =
    get-drop_keys (λ (k : Key). k.0 == user_token && k.1 == namespace) es key
    ∙ ground (arith, eq_iff key.0 user_token, eq_iff key.1 namespace)

leb-false : (n : ℕ) → n < 400 → leb 400 n ≡ false
leb-false n h = ground arith

leb-true : (n : ℕ) → 400 ≤ n → leb 400 n ≡ true
leb-true n h = ground arith

-- A write that is answered with a status under 400 drops the namespace's entries of that token, under every
-- profile, and no others, whether or not the body can be used: the next `resolve` of any profile finds no
-- fresh entry. A write that is answered with a status from 400 on, or gets no reply, leaves the client
-- as it was.
pub written-forgets :
    (c : Client) (user_token namespace : String) (response refusal : Response)
    → response.status < 400
    → 400 ≤ refusal.status
    → ((key : Key)
        → get (written c user_token namespace (answered response)).0.entries key
          ≡ (if key.0 == user_token && key.1 == namespace then none else get c.entries key))
      × ((now : ℕ) (profile : Option String)
          → fresh (written c user_token namespace (answered response)).0 now (
              key_of (record { namespace = namespace; user_token = user_token; profile = profile }))
            ≡ none)
      × ((written c user_token namespace (answered refusal)).0 ≡ c)
      × ((written c user_token namespace unreachable).0 ≡ c)
unfolding written drop_namespace fresh
written-forgets c user_token namespace response refusal landed refused =
    rw (leb-false response.status landed, leb-true refusal.status refused)
      (
        λ key. get-drop_keys (λ (k : Key). k.0 == user_token && k.1 == namespace) c.entries key,
        λ now profile. ap (if_young c.ttl now) (
            get-dropped c.entries user_token namespace
              (key_of
                (record { namespace = namespace; user_token = user_token; profile = profile }))
              refl refl),
        refl,
        refl,
      )
