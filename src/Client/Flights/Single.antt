-- ===== src/Client/Flights/Single.antt =====
-- The flights agree with the callers: what each step of a caller does to both.
use settings_api.Prelude.{
  ℕ, ◌<◌, ◌≡◌, refl, true, false, Option, none, some, arith, get_elem?, ◌==◌, nat_eq, triple_eq,
  string_eq, ok, subst, sym, ap, ◌∙◌,
}
use settings_api.Prelude.Dict.{get}
use settings_api.Client.Models.{ResolvedSettings}
use settings_api.Client.Cache.{Key, Entry, Request, key_of, fresh, touch}
use settings_api.Client.Flights.{
  Task, waiting, sending, finished, System, begin, begin_found, enter, enter_found, is_locked,
  set_lock, leave, set_task, unlock_and_leave,
}
use settings_api.Client.Flights.Counts.{
  num, is_pending, is_sending, count, count-set_task, count-pos, count-sending-le,
}
use settings_api.Client.Flights.Agrees.{
  Agrees, get-join, get-set_lock, get-leave, Agrees-join, Agrees-lock, Agrees-unlock, Agrees-leave,
  num-pos,
}

-- For every key the flight agrees with the callers.
abbrev pub Single : System → Type 0
Single s =
    (k : Key)
    → Agrees (get s.client.flights k) (count (is_pending k) s.tasks) (count (is_sending k) s.tasks)

begin_found-Single :
    (s : System) (r : Request) (o : Option ResolvedSettings) → Single s → Single (begin_found s r o)
unfolding count touch
begin_found-Single s r none inv k =
    Agrees-join _ _ (key_of r == k) _ _ _ _ (inv k) (get-join s.client.flights (key_of r) k) refl
      (omega arith)
begin_found-Single s r (some v) inv k = ground (arith, (inv k).callers, (inv k).held, (inv k).used)

-- A lock that is free is held by no caller.
idle_of_free :
    (s : System) (r : Request) (k : Key)
    → Single s
    → is_locked (get s.client.flights (key_of r)) ≡ false
    → (key_of r == k) ≡ true
    → count (is_sending k) s.tasks ≡ 0
idle_of_free s r k inv free same =
    let p : key_of r ≡ k = (triple_eq.beq_iff (key_of r) k).0 same in
    sym (inv k).held ∙ ap num (subst (λ j. is_locked (get s.client.flights j) ≡ false) p free)

-- The end of a caller that waits.
pub waits-Single :
    (s : System) (i : ℕ) (r : Request) (t : Task)
    → get_elem? s.tasks i ≡ some (waiting r)
    → ((k : Key) → is_pending k t ≡ false)
    → ((k : Key) → is_sending k t ≡ false)
    → Single s
    → (k : Key)
    → Agrees
        (get (leave s.client.flights (key_of r)) k)
        (count (is_pending k) (set_task s.tasks i t))
        (count (is_sending k) (set_task s.tasks i t))
waits-Single s i r t at pe se inv k =
    let p = count-set_task (is_pending k) s.tasks i (waiting r) t at in
    let q = count-set_task (is_sending k) s.tasks i (waiting r) t at in
    Agrees-leave _ _ (key_of r == k) _ _ _ _ (inv k) (get-leave s.client.flights (key_of r) k)
      (omega (arith, p, ap num (pe k))) (omega (arith, q, ap num (se k)))
      (count-sending-le k (set_task s.tasks i t))

enter_found-Single :
    (s : System) (i : ℕ) (r : Request) (o : Option ResolvedSettings)
    → get_elem? s.tasks i ≡ some (waiting r)
    → is_locked (get s.client.flights (key_of r)) ≡ false
    → Single s
    → Single (enter_found s i r o)
enter_found-Single s i r none at free inv k =
    let t : Task = sending r (get s.client.entries (key_of r)) in
    let p = count-set_task (is_pending k) s.tasks i (waiting r) t at in
    let q = count-set_task (is_sending k) s.tasks i (waiting r) t at in
    Agrees-lock _ _ (key_of r == k) _ _ _ _ (inv k)
      (get-set_lock s.client.flights (key_of r) k true)
      (λ same.
        (idle_of_free s r k inv free same, count-pos (is_pending k) s.tasks i (waiting r) at same))
      (omega (arith, p)) (omega (arith, q))
enter_found-Single s i r (some v) at free inv k =
    waits-Single s i r (finished r (ok v)) at (λ k. refl) (λ k. refl) inv k

pub begin-Single : (s : System) (r : Request) → Single s → Single (begin s r)
unfolding begin
begin-Single s r inv = begin_found-Single s r (fresh s.client s.clock (key_of r)) inv

pub enter-Single :
    (s : System) (i : ℕ) (r : Request)
    → get_elem? s.tasks i ≡ some (waiting r)
    → is_locked (get s.client.flights (key_of r)) ≡ false
    → Single s
    → Single (enter s i r)
unfolding enter
enter-Single s i r = enter_found-Single s i r (fresh s.client s.clock (key_of r))

-- A caller that sends is the only one of its key.
pub one_sends :
    (s : System) (k : Key) (i : ℕ) (r : Request) (cached : Option Entry)
    → Single s
    → get_elem? s.tasks i ≡ some (sending r cached)
    → (key_of r == k) ≡ true
    → count (is_sending k) s.tasks ≡ 1
one_sends s k i r cached inv at same =
    let h : 0 < count (is_sending k) s.tasks =
      count-pos (is_sending k) s.tasks i (sending r cached) at same in
    num-pos _ _ ((inv k).held) h

-- The end of a caller that sends, whatever it leaves of the client's cache.
pub ends-Single :
    (s : System) (i : ℕ) (r : Request) (cached : Option Entry) (t : Task) (k : Key)
    → get_elem? s.tasks i ≡ some (sending r cached)
    → is_pending k t ≡ false
    → is_sending k t ≡ false
    → Single s
    → Agrees
        (get (unlock_and_leave s.client.flights (key_of r)) k)
        (count (is_pending k) (set_task s.tasks i t))
        (count (is_sending k) (set_task s.tasks i t))
ends-Single s i r cached t k at pe se inv =
    let p = count-set_task (is_pending k) s.tasks i (sending r cached) t at in
    let q = count-set_task (is_sending k) s.tasks i (sending r cached) t at in
    let one = one_sends s k i r cached inv at in
    let unlocked : Agrees (get (set_lock s.client.flights (key_of r) false) k)
        (count (is_pending k) s.tasks) (count (is_sending k) (set_task s.tasks i t)) =
      Agrees-unlock _ _ (key_of r == k) _ _ _ (inv k)
        (get-set_lock s.client.flights (key_of r) k false) (omega (arith, q, ap num se)) in
    Agrees-leave _ _ (key_of r == k) _ _ _ _ unlocked
      (get-leave (set_lock s.client.flights (key_of r) false) (key_of r) k)
      (omega (arith, p, ap num pe)) refl (count-sending-le k (set_task s.tasks i t))
