-- ===== src/Prelude/Distinct.antt =====
-- How many different elements a list has.
use settings_api.Prelude.{
  ◌≤◌, ◌<◌, ◌≡◌, refl, arith, true, not, ◌&&◌, ◌||◌, String, List, [], ◌∷◌, ◌++◌, ◌==◌, string_eq,
  eq_iff, length, filter, contains, is_nodup, dedup, length-filter-le,
}

pub contains-append :
    (xs ys : List String) (a : String) → contains (xs ++ ys) a ≡ (contains xs a || contains ys a)
unfolding contains
contains-append [] ys a = refl
contains-append (x ∷ xs) ys a = ground (arith, contains-append xs ys a)

pub contains-dedup : (xs : List String) (a : String) → contains (dedup xs) a ≡ contains xs a
unfolding contains dedup
contains-dedup [] a = refl
contains-dedup (x ∷ xs) a = ground (arith, eq_iff x a, contains-dedup xs a)

pub dedup-nodup : (xs : List String) → is_nodup (dedup xs) ≡ true
unfolding is_nodup dedup
dedup-nodup [] = refl
dedup-nodup (x ∷ xs) = ground (arith, contains-dedup xs x, dedup-nodup xs)

contains-without :
    (xs : List String) (b a : String)
    → contains (filter (λ x. not (x == b)) xs) a ≡ (not (a == b) && contains xs a)
unfolding contains filter
contains-without [] b a = ground arith
contains-without (x ∷ xs) b a =
    ground (arith, eq_iff x a, eq_iff x b, eq_iff a b, contains-without xs b a)

length-without :
    (xs : List String) (b : String)
    → contains xs b ≡ true
    → length (filter (λ x. not (x == b)) xs) < length xs
unfolding contains filter
length-without [] b h = ground arith
length-without (x ∷ xs) b h =
    ground (arith, length-without xs b, length-filter-le (λ x. not (x == b)) xs)

-- Different elements of a list are at most as many as it has places.
pub length-nodup-le :
    (xs ys : List String)
    → is_nodup xs ≡ true
    → ((a : String) → contains xs a ≡ true → contains ys a ≡ true)
    → length xs ≤ length ys
unfolding is_nodup contains
length-nodup-le [] ys once inside = omega arith
length-nodup-le (x ∷ xs) ys once inside =
    let shorter = length-without ys x (inside x (ground (arith, eq_iff x x))) in
    let rest =
      length-nodup-le xs (filter (λ y. not (y == x)) ys) (ground arith)
        (λ a h. ground (arith, eq_iff a x, eq_iff x a, contains-without ys x a, inside a)) in
    omega (arith, shorter, rest)
