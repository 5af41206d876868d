-- ===== src/Domain/Secrets/Scan.antt =====
-- `looks_like_a_credential` of domain/secrets.py, and that no text around a known token hides it.
use settings_api.Prelude.{
  ℕ, ◌≤◌, ◌≡◌, refl, arith, All, Bool, true, String, Option, none, some, List, [], ◌∷◌, ◌++◌,
  length, any, contains, is_some, if◌then◌else◌, nat_eq, string_eq,
}
use settings_api.Prelude.Text.{codes, behind}
use settings_api.Domain.Platform.{Platform}
use settings_api.Domain.Errors.{Suspicion, private_key, web_token, high_entropy}
use settings_api.Domain.Secrets.{
  prefixes, is_token_char, run_length, search_from, begins_token, matches_prefix, first_prefix,
  matches_private_key, matches_web_token, min_prefixed_suffix,
}
use settings_api.Domain.Secrets.Entropy.{long_runs, is_high_entropy}

module _ (py : Platform) where
  abbrev pub later_rules : List ℕ → Option Suspicion → Option Suspicion
  later_rules text (some s) = some s
  later_rules text none =
      if search_from matches_private_key none text
      then some private_key
      else if search_from (matches_web_token py) none text
      then some web_token
      else if any is_high_entropy (long_runs text)
      then some high_entropy
      else none

  unfoldable pub looks_like_a_credential : String → Option Suspicion
  looks_like_a_credential text = later_rules (codes text) (first_prefix prefixes (codes text))

-- The character before a position that the text leads up to.
abbrev pub last_of : Option ℕ → List ℕ → Option ℕ
last_of before [] = before
last_of before (c ∷ s) = last_of (some c) s

search_from-append :
    (f : Option ℕ → List ℕ → Bool) (before : Option ℕ) (lead rest : List ℕ)
    → f (last_of before lead) rest ≡ true
    → search_from f before (lead ++ rest) ≡ true
unfolding search_from
search_from-append f before [] [] h = h
search_from-append f before [] (c ∷ s) h = ground arith
search_from-append f before (c ∷ lead) rest h =
    ground (arith, search_from-append f (some c) lead rest h)

behind-append : (p s : List ℕ) → behind p (p ++ s) ≡ some s
unfolding behind
behind-append [] s = refl
behind-append (c ∷ p) s = ground (arith, behind-append p s)

run_length-append :
    (p : ℕ → Bool) (xs ys : List ℕ) → All (λ c. p c ≡ true) xs → length xs ≤ run_length p (xs ++ ys)
unfolding run_length
run_length-append p [] ys h = omega arith
run_length-append p (x ∷ xs) ys (h, hs) = ground (arith, run_length-append p xs ys hs)

matches_prefix-token :
    (p body after : List ℕ) (before : Option ℕ)
    → begins_token before ≡ true
    → All (λ c. is_token_char c ≡ true) body
    → min_prefixed_suffix ≤ length body
    → matches_prefix p before (p ++ (body ++ after)) ≡ true
unfolding matches_prefix
matches_prefix-token p body after before start form long =
    rw (start, behind-append p (body ++ after))
      (ground (arith, run_length-append is_token_char body after form))

first_prefix-found :
    (p : String) (ps : List String) (text : List ℕ)
    → contains ps p ≡ true
    → search_from (matches_prefix (codes p)) none text ≡ true
    → is_some (first_prefix ps text) ≡ true
unfolding first_prefix contains
first_prefix-found p [] text h found = ground arith
first_prefix-found p (q ∷ ps) text h found =
    ground (arith, string_eq.beq_iff q p, first_prefix-found p ps text)

later_rules-some :
    (py : Platform) (text : List ℕ) (o : Option Suspicion)
    → is_some o ≡ true
    → is_some (later_rules py text o) ≡ true
later_rules-some py text none h = ground arith
later_rules-some py text (some s) h = refl

-- A text is refused wherever it holds a known prefix that begins a token, at the start of the text or
-- behind a character that is no letter or digit, with eight or more token characters behind it.
pub looks_like_a_credential-prefix :
    (py : Platform) (text p : String) (lead body after : List ℕ)
    → contains prefixes p ≡ true
    → codes text ≡ lead ++ (codes p ++ (body ++ after))
    → begins_token (last_of none lead) ≡ true
    → All (λ c. is_token_char c ≡ true) body
    → min_prefixed_suffix ≤ length body
    → is_some (looks_like_a_credential py text) ≡ true
unfolding looks_like_a_credential
looks_like_a_credential-prefix py text p lead body after known split start form long =
    later_rules-some py (codes text) (first_prefix prefixes (codes text)) (
      first_prefix-found p prefixes (codes text) known (
        rw split (
          search_from-append (matches_prefix (codes p)) none lead (codes p ++ (body ++ after))
            (matches_prefix-token (codes p) body after (last_of none lead) start form long))))
