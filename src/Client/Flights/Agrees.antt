-- ===== src/Client/Flights/Agrees.antt =====
-- What `setdefault`, the lock and the `finally` of `resolve` make of a flight and of its callers.
use settings_api.Prelude.{
  ℕ, ◌+◌, ◌≤◌, ◌<◌, ◌≡◌, Bool, true, false, Option, none, some, arith, if◌then◌else◌, ◌==◌, nat_eq,
  triple_eq, string_eq,
}
use settings_api.Prelude.Dict.{Dict, get, get-adjust}
use settings_api.Client.Cache.{Key, Flight}
use settings_api.Client.Flights.{is_locked, joined, with_lock, left, join, set_lock, leave}
use settings_api.Client.Flights.Counts.{num}

abbrev pub callers_of : Option Flight → ℕ
callers_of none = 0
callers_of (some f) = f.callers

abbrev pub IsUsed : Option Flight → Type 0
IsUsed none = Unit
IsUsed (some f) = 0 < f.callers

-- A flight, the callers of its key, and those of them that send.
pub record Agrees (f : Option Flight) (pending sends : ℕ) : Type 0 where
  pub callers : callers_of f ≡ pending
  pub held : num (is_locked f) ≡ sends
  pub used : IsUsed f

pub get-join :
    (fs : Dict Key Flight) (key k : Key)
    → get (join fs key) k ≡ (if key == k then joined (get fs k) else get fs k)
unfolding join
get-join fs key k = get-adjust fs key k joined

pub get-set_lock :
    (fs : Dict Key Flight) (key k : Key) (held : Bool)
    → get (set_lock fs key held) k ≡ (if key == k then with_lock held (get fs k) else get fs k)
unfolding set_lock
get-set_lock fs key k held = get-adjust fs key k (with_lock held)

pub get-leave :
    (fs : Dict Key Flight) (key k : Key)
    → get (leave fs key) k ≡ (if key == k then left (get fs k) else get fs k)
unfolding leave
get-leave fs key k = get-adjust fs key k left

-- What each of them does to a flight and its callers.
pub Agrees-join :
    (f f' : Option Flight) (same : Bool) (p p' q q' : ℕ)
    → Agrees f p q
    → f' ≡ (if same then joined f else f)
    → p' ≡ num same + p
    → q' ≡ q
    → Agrees f' p' q'
Agrees-join none f' true p p' q q' a e ep eq_ = ground (arith, a.callers, a.held, a.used)
Agrees-join (some f) f' true p p' q q' a e ep eq_ = ground (arith, a.callers, a.held, a.used)
Agrees-join f f' false p p' q q' a e ep eq_ = ground (arith, a.callers, a.held, a.used)

pub Agrees-lock :
    (f f' : Option Flight) (same : Bool) (p p' q q' : ℕ)
    → Agrees f p q
    → f' ≡ (if same then with_lock true f else f)
    → (same ≡ true → (q ≡ 0) × (0 < p))
    → p' ≡ p
    → q' ≡ num same + q
    → Agrees f' p' q'
Agrees-lock none f' true p p' q q' a e idle ep eq_ = ground (arith, a.callers, a.held, a.used)
Agrees-lock (some f) f' true p p' q q' a e idle ep eq_ = ground (arith, a.callers, a.held, a.used)
Agrees-lock f f' false p p' q q' a e idle ep eq_ = ground (arith, a.callers, a.held, a.used)

pub Agrees-unlock :
    (f f' : Option Flight) (same : Bool) (p q q' : ℕ)
    → Agrees f p q
    → f' ≡ (if same then with_lock false f else f)
    → q' + num same ≡ q
    → Agrees f' p q'
Agrees-unlock none f' true p q q' a e eq_ = ground (arith, a.callers, a.held, a.used)
Agrees-unlock (some f) f' true p q q' a e eq_ = ground (arith, a.callers, a.held, a.used)
Agrees-unlock f f' false p q q' a e eq_ = ground (arith, a.callers, a.held, a.used)

pub Agrees-leave :
    (f f' : Option Flight) (same : Bool) (p p' q q' : ℕ)
    → Agrees f p q
    → f' ≡ (if same then left f else f)
    → p' + num same ≡ p
    → q' ≡ q
    → q' ≤ p'
    → Agrees f' p' q'
Agrees-leave none f' true p p' q q' a e ep eq_ idle = ground (arith, a.callers, a.held, a.used)
Agrees-leave (some f) f' true p p' q q' a e ep eq_ idle = ground (arith, a.callers, a.held, a.used)
Agrees-leave f f' false p p' q q' a e ep eq_ idle = ground (arith, a.callers, a.held, a.used)

pub num-pos : (b : Bool) (n : ℕ) → num b ≡ n → 0 < n → n ≡ 1
num-pos true n h p = omega arith
num-pos false n h p = absurd (omega arith)
