-- ===== src/Domain/Types/Names.antt =====
-- `KEY_PATTERN`, `NAMESPACE_PATTERN` and `PROFILE_NAME_PATTERN` of domain/types.py, as the machines
-- that `re` runs for them.
use mathlib.Core.List.{reverse}
use settings_api.Prelude.{
  ℕ, ◌≡◌, ◌≢◌, refl, arith, All, Bool, true, false, ◌&&◌, ◌||◌, String, List, [], ◌∷◌, all, ◌==◌,
  nat_eq,
}
use settings_api.Prelude.Text.{codes, is_lower, is_digit}

-- `[a-z0-9_]`
abbrev is_key_char : ℕ → Bool
is_key_char c = is_lower c || is_digit c || c == b'_'

-- The rest of `KEY_PATTERN` under `match`: `$` also stands before a line feed that ends the text.
key_rest : List ℕ → Bool
key_rest [] = true
key_rest (c ∷ []) = is_key_char c || c == 10
key_rest (c ∷ d ∷ s) = is_key_char c && key_rest (d ∷ s)

matches_key_codes : List ℕ → Bool
matches_key_codes [] = false
matches_key_codes (c ∷ s) = is_lower c && key_rest s

-- `KEY_PATTERN.match(text)`
unfoldable pub matches_key : String → Bool
unfolding matches_key_codes key_rest
matches_key text = matches_key_codes (codes text)

-- `[a-z0-9]`
abbrev is_name_end : ℕ → Bool
is_name_end c = is_lower c || is_digit c

-- `[a-z0-9._-]`
abbrev is_name_char : ℕ → Bool
is_name_char c = is_name_end c || c == b'.' || c == b'_' || c == b'-'

abbrev starts_name : List ℕ → Bool
starts_name [] = false
starts_name (c ∷ s) = is_name_end c

-- `PROFILE_NAME_PATTERN.fullmatch(text)`: both ends are letters or digits.
unfoldable pub is_profile_name : String → Bool
unfolding all
is_profile_name text =
    let s = codes text in starts_name s && starts_name (reverse s) && all is_name_char s

-- The sentinel of account-scoped rows is no profile name.
pub star_is_no_profile : is_profile_name "*" ≡ false
unfolding is_profile_name
star_is_no_profile = refl

abbrev NoDotIn : List ℕ → Type 0
NoDotIn s = All (λ c. c ≢ b'.') s

abbrev pub HasNoDot : String → Type 0
HasNoDot s = NoDotIn (codes s)

key_rest-NoDotIn : (s : List ℕ) → key_rest s ≡ true → NoDotIn s
unfolding key_rest
key_rest-NoDotIn [] h = tt
key_rest-NoDotIn (c ∷ []) h = ground arith
key_rest-NoDotIn (c ∷ d ∷ s) h = ground (arith, key_rest-NoDotIn (d ∷ s))

matches_key_codes-NoDotIn : (s : List ℕ) → matches_key_codes s ≡ true → NoDotIn s
unfolding matches_key_codes
matches_key_codes-NoDotIn [] h = tt
matches_key_codes-NoDotIn (c ∷ s) h = ground (arith, key_rest-NoDotIn s)

-- A text that the pattern accepts holds no dot.
pub matches_key-HasNoDot : (s : String) → matches_key s ≡ true → HasNoDot s
unfolding matches_key
matches_key-HasNoDot s h = matches_key_codes-NoDotIn (codes s) h
