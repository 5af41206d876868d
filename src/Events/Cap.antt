-- ===== src/Events/Cap.antt =====
-- The log of events/sql_log.py stays in order and under its cap: an append keeps the newest events of
-- its account, and touches no other account's.
use settings_api.Prelude.{
  ℕ, zero, suc, ◌+◌, ◌≤◌, ◌<◌, ◌≡◌, ◌≢◌, refl, sym, ap, ◌∙◌, Bool, true, not, String, Option, none,
  some, List, [], ◌∷◌, arith, length, filter, take, get_elem?, leb, ◌==◌, string_eq, eq_iff,
}
use text.Mathlib.TextPositions.{eq_refl}
use settings_api.Storage.{EventRow, Db}
use settings_api.Events.{
  is_of, events_of, cut, delete_through, trim_to_cap, Appended, event_row, append_in,
  count_for_account,
}

-- Strictly falling sequences, all below the bound.
abbrev pub Descends : ℕ → List EventRow → Type 0
Descends bound [] = Unit
Descends bound (e ∷ es) = (e.sequence < bound) × Descends e.sequence es

Descends-weaken : (n m : ℕ) (es : List EventRow) → n ≤ m → Descends n es → Descends m es
Descends-weaken n m [] h d = tt
Descends-weaken n m (e ∷ es) h d = (omega arith, d.1)

pub Descends-filter :
    (p : EventRow → Bool) (n : ℕ) (es : List EventRow) → Descends n es → Descends n (filter p es)
unfolding filter
Descends-filter p n [] d = tt
Descends-filter p n (e ∷ es) d =
    ground (arith, Descends-filter p e.sequence es, Descends-weaken e.sequence n (filter p es))

abbrev is_above : ℕ → EventRow → Bool
is_above s e = not (leb e.sequence s)

filter-above_none :
    (n s : ℕ) (es : List EventRow) → n ≤ suc s → Descends n es → filter (is_above s) es ≡ []
unfolding filter
filter-above_none n s [] h d = refl
filter-above_none n s (e ∷ es) h d = ground (arith, filter-above_none e.sequence s es)

get_elem?-lt :
    (n c : ℕ) (es : List EventRow) (e : EventRow)
    → Descends n es
    → get_elem? es c ≡ some e
    → e.sequence < n
get_elem?-lt n c [] e d h = cc
get_elem?-lt n zero (x ∷ es) e d h = ground arith
get_elem?-lt n (suc c) (x ∷ es) e d h = ground (arith, get_elem?-lt x.sequence c es e)

filter-above-eq-take :
    (n c : ℕ) (es : List EventRow) (e : EventRow)
    → Descends n es
    → get_elem? es c ≡ some e
    → filter (is_above e.sequence) es ≡ take c es
unfolding filter
filter-above-eq-take n c [] e d h = cc
filter-above-eq-take n zero (x ∷ es) e d h =
    ground (arith, filter-above_none x.sequence e.sequence es)
filter-above-eq-take n (suc c) (x ∷ es) e d h =
    ground (arith, get_elem?-lt x.sequence c es e, filter-above-eq-take x.sequence c es e)

take_all : (c : ℕ) (es : List EventRow) → get_elem? es c ≡ none → take c es ≡ es
take_all zero [] h = refl
take_all zero (e ∷ es) h = cc
take_all (suc c) [] h = refl
take_all (suc c) (e ∷ es) h = ap (λ r. e ∷ r) (take_all c es h)

delete_through_self :
    (a : String) (s : ℕ) (es : List EventRow)
    → events_of a (delete_through a (some s) es) ≡ filter (is_above s) (events_of a es)
unfolding events_of filter
delete_through_self a s [] = refl
delete_through_self a s (e ∷ es) = ground (arith, delete_through_self a s es)

delete_through_other :
    (a b : String) (s : Option ℕ) (es : List EventRow)
    → a ≢ b
    → events_of b (delete_through a s es) ≡ events_of b es
unfolding events_of filter
delete_through_other a b none es h = refl
delete_through_other a b (some s) [] h = refl
delete_through_other a b (some s) (e ∷ es) h =
    ground
      (arith, delete_through_other a b (some s) es, eq_iff e.account_id a, eq_iff e.account_id b)

Descends-events_of :
    (a : String) (n : ℕ) (es : List EventRow) → Descends n es → Descends n (events_of a es)
unfolding events_of
Descends-events_of a n es d = Descends-filter (is_of a) n es d

delete_through-take :
    (a : String) (event_cap n : ℕ) (es : List EventRow) (o : Option EventRow)
    → Descends n es
    → get_elem? (events_of a es) event_cap ≡ o
    → events_of a (delete_through a (cut o) es) ≡ take event_cap (events_of a es)
delete_through-take a event_cap n es none d found = sym (take_all event_cap (events_of a es) found)
delete_through-take a event_cap n es (some e) d found =
    delete_through_self a e.sequence es
    ∙ filter-above-eq-take n event_cap (events_of a es) e (Descends-events_of a n es d) found

events_of_first :
    (a : String) (e : EventRow) (es : List EventRow)
    → (e.account_id == a) ≡ true
    → events_of a (e ∷ es) ≡ e ∷ events_of a es
unfolding events_of filter
events_of_first a e es h = rw h

events_of_later :
    (a : String) (e : EventRow) (es : List EventRow)
    → e.account_id ≢ a
    → events_of a (e ∷ es) ≡ events_of a es
unfolding events_of filter
events_of_later a e es h = ground (arith, eq_iff e.account_id a)

-- The trim leaves the newest `event_cap` events of its account.
trim_to_cap-take :
    (a : String) (event_cap n : ℕ) (es : List EventRow)
    → Descends n es
    → events_of a (trim_to_cap a event_cap es) ≡ take event_cap (events_of a es)
unfolding trim_to_cap
trim_to_cap-take a event_cap n es d =
    delete_through-take a event_cap n es (get_elem? (events_of a es) event_cap) d refl

Descends-trim :
    (a : String) (s : Option ℕ) (n : ℕ) (es : List EventRow)
    → Descends n es
    → Descends n (delete_through a s es)
Descends-trim a none n es d = d
Descends-trim a (some s) n es d = Descends-filter _ n es d

length-take-le : (c : ℕ) (es : List EventRow) → length (take c es) ≤ c
length-take-le zero es = omega arith
length-take-le (suc c) [] = omega arith
length-take-le (suc c) (e ∷ es) = omega (arith, length-take-le c es)

abbrev pub IsOrdered : Db → Type 0
IsOrdered db = Descends db.next_sequence db.events

-- After an append to an ordered log the account's events are the new one before the older ones, cut to
-- the newest `event_cap`.
pub append_in-events_of :
    (a : Appended) (event_cap : ℕ) (db : Db)
    → IsOrdered db
    → events_of a.account_id (append_in a event_cap db).events
      ≡ take event_cap (event_row db.next_sequence a ∷ events_of a.account_id db.events)
unfolding append_in
append_in-events_of a event_cap db d =
    trim_to_cap-take a.account_id event_cap (db.next_sequence + 1)
      (event_row db.next_sequence a ∷ db.events) (omega arith, d)
    ∙ ap (take event_cap)
        (events_of_first a.account_id (event_row db.next_sequence a) db.events (eq_refl _))

-- An append for one account leaves the events of every other account as they were.
pub append_in-events_of_other :
    (a : Appended) (event_cap : ℕ) (b : String) (db : Db)
    → a.account_id ≢ b
    → events_of b (append_in a event_cap db).events ≡ events_of b db.events
unfolding append_in trim_to_cap
append_in-events_of_other a event_cap b db h =
    delete_through_other a.account_id b _ (event_row db.next_sequence a ∷ db.events) h
    ∙ events_of_later b (event_row db.next_sequence a) db.events h

-- An append keeps the log ordered: sequences fall strictly, and all are below the next one.
pub append_in-IsOrdered :
    (a : Appended) (event_cap : ℕ) (db : Db) → IsOrdered db → IsOrdered (append_in a event_cap db)
unfolding append_in trim_to_cap
append_in-IsOrdered a event_cap db d =
    Descends-trim a.account_id _ (db.next_sequence + 1) (event_row db.next_sequence a ∷ db.events)
      (omega arith, d)

-- After an append to an ordered log the account has at most `event_cap` events.
append_in-count-le :
    (a : Appended) (event_cap : ℕ) (db : Db)
    → IsOrdered db
    → count_for_account a.account_id (append_in a event_cap db) ≤ event_cap
unfolding count_for_account
append_in-count-le a event_cap db d =
    rw (append_in-events_of a event_cap db d) (length-take-le event_cap _)
