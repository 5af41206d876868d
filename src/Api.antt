-- ===== src/Api.antt =====
-- api/dependencies.py: the entity tag of a request as the revision that it expects, on code points.
pub mod RoundTrip
pub mod Routes
pub mod Internal
pub mod Concurrency
pub mod Revalidate
pub mod Status
use mathlib.Core.List.{reverse}
use settings_api.Prelude.{
  ℕ, ◌+◌, ◌-◌, ◌*◌, Bool, true, false, not, ◌&&◌, ◌||◌, String, Option, none, some, List, [], ◌∷◌,
  length, all, is_nil, is_some, if◌then◌else◌, ◌==◌, nat_eq, list_eq, ltb, Result, ok, err,
}
use settings_api.Prelude.Text.{codes, strip, behind, is_digit}
use settings_api.Domain.Platform.{Platform}
use settings_api.Domain.Errors.{Error, bad_tag, value_error}
use settings_api.Domain.Secrets.{drop_run}

-- `text.strip('"')`
unfoldable pub strip_quotes : List ℕ → List ℕ
unfolding drop_run
strip_quotes s = reverse (drop_run (λ c. c == b'"') (reverse (drop_run (λ c. c == b'"') s)))

abbrev pub after_rest : ℕ → List ℕ → List ℕ × Bool × List ℕ → List ℕ × Bool × List ℕ
after_rest c s (head, true, tail) = (c ∷ head, true, tail)
after_rest c s (head, false, tail) = if c == b'.' then ([], true, s) else ([], false, c ∷ s)

-- `text.rpartition(".")`: what stands before the last dot, whether there is one, what stands behind.
unfoldable pub rpartition_dot : List ℕ → List ℕ × Bool × List ℕ
rpartition_dot [] = ([], false, [])
rpartition_dot (c ∷ s) = after_rest c s (rpartition_dot s)

module _ (py : Platform) where
  -- `str.isdigit` on a character.
  abbrev pub is_digit_char : ℕ → Bool
  is_digit_char c = if ltb c 128 then is_digit c else py.is_digit_beyond_ascii c

  -- The digit that `int` reads.
  abbrev pub digit_value : ℕ → Option ℕ
  digit_value c =
      if ltb c 128 then (if is_digit c then some (c - b'0') else none) else py.digit_beyond_ascii c

  abbrev pub add_digit : Option ℕ → Option ℕ → Option ℕ
  add_digit (some n) (some d) = some (10 * n + d)
  add_digit _ _ = none

  unfoldable pub read_int : Option ℕ → List ℕ → Option ℕ
  read_int n [] = n
  read_int n (c ∷ s) = read_int (add_digit n (digit_value c)) s

  -- The longest text that `int` converts by default.
  abbrev pub max_int_digits : ℕ
  max_int_digits = 4300

  abbrev pub int_or_error : Option ℕ → Result Error (Option ℕ)
  int_or_error none = err value_error
  int_or_error (some n) = ok (some n)

  -- `int(revision)` of a text of digits.
  unfoldable pub to_int : List ℕ → Result Error (Option ℕ)
  unfolding read_int
  to_int s =
      if ltb max_int_digits (length s) then err value_error else int_or_error (read_int (some 0) s)

  abbrev pub checked_tag : String → ℕ → List ℕ × Bool × List ℕ → Result Error (Option ℕ)
  checked_tag account_id size (account, separator, revision) =
      if not separator
        || not (account == codes account_id)
        || not (not (is_nil revision) && all is_digit_char revision)
      then err (bad_tag size)
      else to_int revision

  -- `revision_from_if_match`
  unfoldable pub revision_from_if_match : Option (List ℕ) → String → Result Error (Option ℕ)
  unfolding strip behind strip_quotes rpartition_dot all to_int
  revision_from_if_match none account_id = ok none
  revision_from_if_match (some header) account_id =
      let tag = strip header in
      if is_some (behind (codes "W/") tag)
      then err (bad_tag (length tag))
      else checked_tag account_id (length tag) (rpartition_dot (strip_quotes tag))
