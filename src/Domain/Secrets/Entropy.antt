-- ===== src/Domain/Secrets/Entropy.antt =====
-- `_RUNS`, `_is_high_entropy` and `_shannon_bits` of domain/secrets.py. The bits per character are
-- compared with 3.5 in whole numbers: over a run of n characters of which one occurs c times, the sum
-- of -(c/n) log2 (c/n) is at least 7/2 exactly if the product of c^(2c), times 2^(7n), is at most n^(2n).
use settings_api.Prelude.{
  ℕ, ◌+◌, ◌*◌, ◌^◌, Bool, not, ◌&&◌, ◌||◌, Option, none, some, List, [], ◌∷◌, length, filter, all,
  any, dedup, if◌then◌else◌, ◌==◌, nat_eq, leb,
}
use settings_api.Prelude.Dict.{Dict, get, insert}
use settings_api.Prelude.Text.{is_lower, is_upper, is_digit, is_space}
use settings_api.Domain.Secrets.{is_alnum}

abbrev pub min_entropy_run : ℕ
min_entropy_run = 32

abbrev pub min_distinct_chars : ℕ
min_distinct_chars = 16

abbrev pub required_character_classes : ℕ
required_character_classes = 3

-- `\S+`, every maximal run: the first is the one that the text starts in.
abbrev pub push : ℕ → List (List ℕ) → List (List ℕ)
push c [] = (c ∷ []) ∷ []
push c (run ∷ runs) = (c ∷ run) ∷ runs

unfoldable pub runs : List ℕ → List (List ℕ)
unfolding is_space
runs [] = [] ∷ []
runs (c ∷ s) = let rest = runs s in if is_space c then [] ∷ rest else push c rest

-- `_RUNS.findall(text)`
unfoldable pub long_runs : List ℕ → List (List ℕ)
unfolding runs filter
long_runs text = filter (λ run. leb min_entropy_run (length run)) (runs text)

-- `_CREDENTIAL_ALPHABET`
abbrev pub is_alphabet_char : ℕ → Bool
is_alphabet_char c = is_alnum c || c == b'+' || c == b'/' || c == b'=' || c == b'_' || c == b'-'

abbrev pub is_lower_hex : ℕ → Bool
is_lower_hex c = is_digit c || (leb b'a' c && leb c b'f')

abbrev pub is_hex : ℕ → Bool
is_hex c = is_lower_hex c || (leb b'A' c && leb c b'F')

abbrev pub without_hash : List ℕ → List ℕ
without_hash [] = []
without_hash (c ∷ s) = if c == b'#' then s else c ∷ s

abbrev pub has_length : ℕ → ℕ → List ℕ → Bool
has_length least most s = leb least (length s) && leb (length s) most

-- `_HEX_COLOUR`
unfoldable pub is_hex_colour : List ℕ → Bool
unfolding all
is_hex_colour run = let s = without_hash run in has_length 3 8 s && all is_hex s

-- `_GIT_SHA`
unfoldable pub is_git_sha : List ℕ → Bool
unfolding all
is_git_sha run = has_length 7 40 run && all is_lower_hex run

abbrev pub count_true : Bool → ℕ
count_true b = if b then 1 else 0

abbrev pub or_zero : Option ℕ → ℕ
or_zero none = 0
or_zero (some n) = n

-- `counts`
unfoldable pub count_chars : Dict ℕ ℕ → List ℕ → Dict ℕ ℕ
unfolding get insert
count_chars counts [] = counts
count_chars counts (c ∷ s) = count_chars (insert counts c (or_zero (get counts c) + 1)) s

unfoldable pub product_of : Dict ℕ ℕ → ℕ
product_of [] = 1
product_of ((c, n) ∷ counts) = n ^ (2 * n) * product_of counts

-- `_shannon_bits(run) >= MIN_SHANNON_BITS`
unfoldable pub reaches_entropy : List ℕ → Bool
unfolding count_chars product_of
reaches_entropy run =
    leb (product_of (count_chars [] run) * 2 ^ (7 * length run)) (length run ^ (2 * length run))

-- `_is_high_entropy`
unfoldable pub is_high_entropy : List ℕ → Bool
unfolding all any dedup is_hex_colour is_git_sha reaches_entropy
is_high_entropy run =
    let classes =
      count_true (any is_digit run)
      + count_true (any is_upper run)
      + count_true (any is_lower run) in
    all is_alphabet_char run
    && not (is_hex_colour run || is_git_sha run)
    && leb min_distinct_chars (length (dedup run))
    && leb required_character_classes classes
    && reaches_entropy run
