-- ===== src/Client/Flights/Counts.antt =====
-- How many callers use a flight, and how many of them send a request.
use settings_api.Prelude.{
  ℕ, zero, suc, ◌+◌, ◌<◌, ◌≤◌, ◌≡◌, ap, Bool, true, false, some, List, [], ◌∷◌, arith, get_elem?,
  ◌==◌, triple_eq, string_eq,
}
use settings_api.Client.Cache.{Key, key_of}
use settings_api.Client.Flights.{Task, waiting, sending, finished, cancelled, set_task}

abbrev pub num : Bool → ℕ
num true = 1
num false = 0

-- At the lock or at the request.
abbrev pub is_pending : Key → Task → Bool
is_pending key (waiting r) = key_of r == key
is_pending key (sending r _) = key_of r == key
is_pending key (finished _ _) = false
is_pending key (cancelled _) = false

abbrev pub is_sending : Key → Task → Bool
is_sending key (sending r _) = key_of r == key
is_sending key (waiting _) = false
is_sending key (finished _ _) = false
is_sending key (cancelled _) = false

unfoldable pub count : (Task → Bool) → List Task → ℕ
count p [] = 0
count p (t ∷ ts) = num (p t) + count p ts

pub count-set_task :
    (p : Task → Bool) (ts : List Task) (i : ℕ) (old new : Task)
    → get_elem? ts i ≡ some old
    → count p (set_task ts i new) + num (p old) ≡ count p ts + num (p new)
unfolding count set_task
count-set_task p [] i old new h = cc
count-set_task p (t ∷ ts) zero old new h = ground arith
count-set_task p (t ∷ ts) (suc i) old new h = ground (arith, count-set_task p ts i old new h)

pub count-pos :
    (p : Task → Bool) (ts : List Task) (i : ℕ) (t : Task)
    → get_elem? ts i ≡ some t
    → p t ≡ true
    → 0 < count p ts
unfolding count
count-pos p [] i t h q = cc
count-pos p (x ∷ xs) zero t h q = ground (arith, ap num q)
count-pos p (x ∷ xs) (suc i) t h q = omega (arith, count-pos p xs i t h q)

pub count-sending-le :
    (k : Key) (ts : List Task) → count (is_sending k) ts ≤ count (is_pending k) ts
unfolding count
count-sending-le k [] = omega arith
count-sending-le k (waiting r ∷ ts) = omega (arith, count-sending-le k ts)
count-sending-le k (sending r cached ∷ ts) = omega (arith, count-sending-le k ts)
count-sending-le k (finished r result ∷ ts) = omega (arith, count-sending-le k ts)
count-sending-le k (cancelled r ∷ ts) = omega (arith, count-sending-le k ts)
