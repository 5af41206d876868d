-- ===== src/Domain/Secrets.antt =====
-- domain/secrets.py: whether a text looks like a credential. The regular expressions are the searches
-- that `re` does for them, on code points.
pub mod Entropy
pub mod Scan
use settings_api.Prelude.{
  ℕ, ◌+◌, ◌*◌, ◌^◌, ◌≤◌, Bool, true, false, not, ◌&&◌, ◌||◌, String, Option, none, some, List, [],
  ◌∷◌, map, length, filter, all, any, contains, dedup, if◌then◌else◌, ◌==◌, nat_eq, ltb, leb,
}
use settings_api.Prelude.Dict.{Dict, get, insert}
use settings_api.Prelude.Text.{codes, is_lower, is_upper, is_digit, is_space, behind}
use settings_api.Domain.Platform.{Platform}
use settings_api.Domain.Errors.{Suspicion, prefixed, private_key, web_token, high_entropy}

abbrev pub min_prefixed_suffix : ℕ
min_prefixed_suffix = 8

-- `_PREFIXES`: the first column is what the reason names here.
abbrev pub prefixes : List String
prefixes =
    "sk-" ∷ "ghp_" ∷ "gho_" ∷ "ghs_" ∷ "github_pat_" ∷ "xoxb-" ∷ "xoxa-" ∷ "xoxp-" ∷ "xoxs-"
    ∷ "xoxr-" ∷ "AKIA" ∷ "ASIA" ∷ "AIza" ∷ []

-- `[A-Za-z0-9]`
abbrev pub is_alnum : ℕ → Bool
is_alnum c = is_lower c || is_upper c || is_digit c

-- `[A-Za-z0-9_-]`
abbrev pub is_token_char : ℕ → Bool
is_token_char c = is_alnum c || c == b'_' || c == b'-'

-- How many characters a greedy class takes, and what it leaves.
unfoldable pub run_length : (ℕ → Bool) → List ℕ → ℕ
run_length p [] = 0
run_length p (c ∷ s) = let rest = run_length p s in if p c then rest + 1 else 0

unfoldable pub drop_run : (ℕ → Bool) → List ℕ → List ℕ
drop_run p [] = []
drop_run p (c ∷ s) = let rest = drop_run p s in if p c then rest else c ∷ s

-- `pattern.search(text)`: the matcher is tried at every position, with the character before it.
unfoldable pub search_from : (Option ℕ → List ℕ → Bool) → Option ℕ → List ℕ → Bool
search_from matches before [] = matches before []
search_from matches before (c ∷ s) = matches before (c ∷ s) || search_from matches (some c) s

-- `(?<![A-Za-z0-9])`
abbrev pub begins_token : Option ℕ → Bool
begins_token none = true
begins_token (some c) = not (is_alnum c)

abbrev pub enough_behind : Option (List ℕ) → Bool
enough_behind none = false
enough_behind (some s) = leb min_prefixed_suffix (run_length is_token_char s)

-- One pattern of `_PREFIXED`
unfoldable pub matches_prefix : List ℕ → Option ℕ → List ℕ → Bool
unfolding behind run_length
matches_prefix prefix before s = begins_token before && enough_behind (behind prefix s)

-- The loop over `_PREFIXED`.
unfoldable pub first_prefix : List String → List ℕ → Option Suspicion
unfolding search_from matches_prefix
first_prefix [] text = none
first_prefix (p ∷ ps) text =
    let rest = first_prefix ps text in
    if search_from (matches_prefix (codes p)) none text then some (prefixed p) else rest

abbrev pub is_found : Option (List ℕ) → Bool
is_found none = false
is_found (some s) = true

-- `[A-Z ]*PRIVATE KEY-----`
unfoldable pub key_header_tail : List ℕ → Bool
unfolding behind
key_header_tail [] = false
key_header_tail (c ∷ s) =
    is_found (behind (codes "PRIVATE KEY-----") (c ∷ s))
    || ((is_upper c || c == b' ') && key_header_tail s)

abbrev pub key_header_rest : Option (List ℕ) → Bool
key_header_rest none = false
key_header_rest (some s) = key_header_tail s

-- `_PRIVATE_KEY`
unfoldable pub matches_private_key : Option ℕ → List ℕ → Bool
unfolding behind
matches_private_key before s = key_header_rest (behind (codes "-----BEGIN ") s)

-- `[A-Za-z0-9_-]{8,}\.`, and what stands behind it: no dot is in the class.
abbrev pub behind_dot : List ℕ → Option (List ℕ)
behind_dot [] = none
behind_dot (c ∷ s) = if c == b'.' then some s else none

unfoldable pub segment : Option (List ℕ) → Option (List ℕ)
unfolding run_length drop_run
segment none = none
segment (some s) =
    if leb min_prefixed_suffix (run_length is_token_char s)
    then behind_dot (drop_run is_token_char s)
    else none

module _ (py : Platform) where
  -- `\w`
  abbrev pub is_word : ℕ → Bool
  is_word c = if ltb c 128 then (is_alnum c || c == b'_') else py.is_word_beyond_ascii c

  -- `\b` before a letter
  abbrev pub begins_word : Option ℕ → Bool
  begins_word none = true
  begins_word (some c) = not (is_word c)

  -- `_JWT`; its last segment may be empty.
  unfoldable pub matches_web_token : Option ℕ → List ℕ → Bool
  unfolding behind segment
  matches_web_token before s =
      begins_word before && is_found (segment (segment (behind (codes "eyJ") s)))
