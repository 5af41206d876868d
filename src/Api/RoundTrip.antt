-- ===== src/Api/RoundTrip.antt =====
-- The entity tag that settings/service.py answers with is read back by `revision_from_if_match` of
-- api/dependencies.py as the revision that it was made of.
use mathlib.Core.List.{append_assoc, reverse, reverse-cons, reverse-append, reverse-reverse}
use settings_api.Prelude.{
  ℕ, zero, suc, ◌+◌, ◌-◌, ◌*◌, ◌/◌, ◌%◌, ◌≤◌, ◌<◌, ◌≡◌, refl, sym, ap, ◌∙◌, arith, All, Bool, true,
  false, String, some, List, [], ◌∷◌, ◌++◌, is_some, All-append, Bool-cases, inl, inr, length, all,
  is_nil, if◌then◌else◌, ◌==◌, nat_eq, list_eq, ltb, ok, err,
}
use settings_api.Prelude.Text.{codes, strip, lstrip, is_space, behind, is_digit}
use settings_api.Domain.Platform.{Platform}
use settings_api.Domain.Errors.{bad_tag}
use settings_api.Domain.Secrets.{drop_run}
use settings_api.Domain.Values.Encode.{digits, digits_within, read_digits, read_digits-digits}
use settings_api.Settings.Service.Writes.{etag}
use settings_api.Api.{
  strip_quotes, rpartition_dot, after_rest, is_digit_char, digit_value, read_int, to_int,
  max_int_digits, checked_tag, revision_from_if_match,
}

abbrev pub quote : ℕ
quote = b'"'

abbrev is_quote : ℕ → Bool
is_quote c = c == b'"'

-- The digits of a number, and that it ends in one.
abbrev pub IsDigit : ℕ → Type 0
IsDigit c = is_digit c ≡ true

IsDigit-of : (d : ℕ) → d < 10 → IsDigit (b'0' + d)
IsDigit-of d h = ground arith

pub digits_within-IsDigit : (fuel n : ℕ) → n ≤ fuel → All IsDigit (digits_within fuel n)
unfolding digits_within
digits_within-IsDigit zero n h = (IsDigit-of n (omega arith), tt)
digits_within-IsDigit (suc fuel) n h = elim (Bool-cases (ltb n 10)) [
  | inl small ↦ rw small (IsDigit-of n (ground arith), tt)
  | inr large ↦ rw large (
      All-append IsDigit (digits_within fuel (n / 10)) ((b'0' + n % 10) ∷ [])
        (digits_within-IsDigit fuel (n / 10) (omega arith)) (IsDigit-of (n % 10) (omega arith), tt))
]

-- The digits end in a digit.
record Ends (s : List ℕ) : Type 0 where
  front : List ℕ
  last : ℕ
  is_last : IsDigit last
  split : s ≡ front ++ last ∷ []

digits_within-Ends : (fuel n : ℕ) → n ≤ fuel → Ends (digits_within fuel n)
unfolding digits_within
digits_within-Ends zero n h = record {
  front = [];
  last = b'0' + n;
  is_last = IsDigit-of n (omega arith);
  split = refl;
}
digits_within-Ends (suc fuel) n h = elim (Bool-cases (ltb n 10)) [
  | inl small ↦
      rw small (record {
        front = [];
        last = b'0' + n;
        is_last = IsDigit-of n (ground arith);
        split = refl;
      })
  | inr large ↦ rw large (record {
    front = digits_within fuel (n / 10);
    last = b'0' + n % 10;
    is_last = IsDigit-of (n % 10) (omega arith);
    split = refl;
  })
]

rpartition_dot-none : (s : List ℕ) → All IsDigit s → rpartition_dot s ≡ ([], false, s)
unfolding rpartition_dot
rpartition_dot-none [] h = refl
rpartition_dot-none (c ∷ s) (h, hs) = rw (rpartition_dot-none s hs) (ground arith)

pub rpartition_dot-last :
    (a s : List ℕ) → All IsDigit s → rpartition_dot (a ++ b'.' ∷ s) ≡ (a, true, s)
unfolding rpartition_dot
rpartition_dot-last [] s h = rw (rpartition_dot-none s h) refl
rpartition_dot-last (c ∷ a) s h = ap (after_rest c (a ++ b'.' ∷ s)) (rpartition_dot-last a s h)

digit_value-ascii : (py : Platform) (c : ℕ) → IsDigit c → digit_value py c ≡ some (c - b'0')
digit_value-ascii py c h = ground arith

is_digit_char-ascii : (py : Platform) (c : ℕ) → IsDigit c → is_digit_char py c ≡ true
is_digit_char-ascii py c h = ground arith

read_int-digits :
    (py : Platform) (n : ℕ) (s : List ℕ)
    → All IsDigit s
    → read_int py (some n) s ≡ some (read_digits n s)
unfolding read_int read_digits
read_int-digits py n [] h = refl
read_int-digits py n (c ∷ s) (h, hs) =
    rw (digit_value-ascii py c h) (read_int-digits py (10 * n + (c - b'0')) s hs)

all_digits : (py : Platform) (s : List ℕ) → All IsDigit s → all (is_digit_char py) s ≡ true
unfolding all
all_digits py [] h = refl
all_digits py (c ∷ s) (h, hs) = rw (is_digit_char-ascii py c h, all_digits py s hs) refl

lstrip-quote : (s : List ℕ) → lstrip (quote ∷ s) ≡ quote ∷ s
unfolding lstrip is_space
lstrip-quote s = refl

abbrev pub quoted : List ℕ → List ℕ
quoted x = quote ∷ (x ++ quote ∷ [])

reverse-quoted : (x : List ℕ) → reverse (quoted x) ≡ quoted (reverse x)
reverse-quoted x =
    reverse-cons quote (x ++ quote ∷ []) ∙ ap (λ t. t ++ quote ∷ []) (reverse-append x (quote ∷ []))

pub strip-quoted : (x : List ℕ) → strip (quoted x) ≡ quoted x
unfolding strip
strip-quoted x =
    ap (λ t. reverse (lstrip (reverse t))) (lstrip-quote (x ++ quote ∷ []))
    ∙ ap (λ t. reverse (lstrip t)) (reverse-quoted x)
    ∙ ap reverse (lstrip-quote (reverse x ++ quote ∷ []))
    ∙ sym (ap reverse (reverse-quoted x))
    ∙ reverse-reverse (quoted x)

-- An account's id does not begin with a quote.
abbrev pub IsPlain : List ℕ → Type 0
IsPlain [] = Unit
IsPlain (c ∷ s) = is_quote c ≡ false

drop_run-plain : (a s : List ℕ) → IsPlain a → drop_run is_quote (a ++ b'.' ∷ s) ≡ a ++ b'.' ∷ s
unfolding drop_run
drop_run-plain [] s h = refl
drop_run-plain (c ∷ a) s h = rw h refl

drop_run-digit : (l : ℕ) (s : List ℕ) → IsDigit l → drop_run is_quote (l ∷ s) ≡ l ∷ s
unfolding drop_run
drop_run-digit l s h = ground arith

strip_quotes-quoted :
    (a d : List ℕ) → IsPlain a → Ends d → strip_quotes (quoted (a ++ b'.' ∷ d)) ≡ a ++ b'.' ∷ d
unfolding strip_quotes drop_run
strip_quotes-quoted a d plain ends =
    let x = a ++ b'.' ∷ d in
    let front = a ++ b'.' ∷ ends.front in
    let split =
      ap (λ t. a ++ b'.' ∷ t) ends.split
      ∙ sym (append_assoc a (b'.' ∷ ends.front) (ends.last ∷ [])) in
    let backwards = ap reverse split ∙ reverse-append front (ends.last ∷ []) in
    ap (λ t. reverse (drop_run is_quote (reverse t)))
      (ap (drop_run is_quote) (append_assoc a (b'.' ∷ d) (quote ∷ []))
        ∙ drop_run-plain a (d ++ quote ∷ []) plain
        ∙ sym (append_assoc a (b'.' ∷ d) (quote ∷ [])))
    ∙ ap (λ t. reverse (drop_run is_quote t)) (reverse-append x (quote ∷ []))
    ∙ ap (λ t. reverse (drop_run is_quote t)) backwards
    ∙ ap reverse (drop_run-digit ends.last (reverse front) ends.is_last)
    ∙ sym (ap reverse backwards)
    ∙ reverse-reverse x

pub etag-quoted :
    (account_id : String) (n : ℕ) → etag account_id n ≡ quoted (codes account_id ++ b'.' ∷ digits n)
unfolding etag
etag-quoted account_id n =
    ap (λ t. quote ∷ t) (sym (append_assoc (codes account_id) (b'.' ∷ digits n) (quote ∷ [])))

not_nil : (d : List ℕ) → Ends d → is_nil d ≡ false
not_nil d ends = ap is_nil ends.split ∙ front_not_nil ends.front
  where
    front_not_nil : (f : List ℕ) → is_nil (f ++ ends.last ∷ []) ≡ false
    front_not_nil [] = refl
    front_not_nil (c ∷ f) = refl

to_int-digits :
    (py : Platform) (n : ℕ)
    → length (digits n) ≤ max_int_digits py
    → to_int py (digits n) ≡ ok (some n)
unfolding to_int
to_int-digits py n short =
    let whole = digits_within-IsDigit n n (omega arith) in
    let read = read_int-digits py 0 (digits n) whole ∙ ap some (read_digits-digits n) in
    rw read (ground arith)

checked_tag-digits :
    (py : Platform) (account_id reader : String) (size n : ℕ)
    → length (digits n) ≤ max_int_digits py
    → checked_tag py reader size (codes account_id, true, digits n)
      ≡ (if codes account_id == codes reader then ok (some n) else err (bad_tag size))
checked_tag-digits py account_id reader size n short =
    let whole = digits_within-IsDigit n n (omega arith) in
    let ends = digits_within-Ends n n (omega arith) in
    rw (not_nil (digits n) ends, all_digits py (digits n) whole, to_int-digits py n short)
      (ground arith)

quoted_is_strong : (x : List ℕ) → is_some (behind (codes "W/") (quoted x)) ≡ false
unfolding behind
quoted_is_strong x = refl

-- An entity tag is read back: for the account that it was made for as the revision, and for any other
-- account it is refused. The account's id must not begin with a quote, and the revision has at most
-- the 4300 digits that Python converts.
pub revision_from_if_match-etag :
    (py : Platform) (account_id reader : String) (n : ℕ)
    → IsPlain (codes account_id)
    → length (digits n) ≤ max_int_digits py
    → revision_from_if_match py (some (etag account_id n)) reader ≡ (
        if codes account_id == codes reader
        then ok (some n)
        else err (bad_tag (length (etag account_id n))))
unfolding revision_from_if_match
revision_from_if_match-etag py account_id reader n plain short =
    let whole = digits_within-IsDigit n n (omega arith) in
    let ends = digits_within-Ends n n (omega arith) in
    let made = etag-quoted account_id n in
    let stripped = ap strip made ∙ strip-quoted (codes account_id ++ b'.' ∷ digits n) ∙ sym made in
    let parted =
      ap (λ t. rpartition_dot (strip_quotes t)) made
      ∙ ap rpartition_dot (strip_quotes-quoted (codes account_id) (digits n) plain ends)
      ∙ rpartition_dot-last (codes account_id) (digits n) whole in
    let strong =
      ap (λ t. is_some (behind (codes "W/") t)) made
      ∙ quoted_is_strong (codes account_id ++ b'.' ∷ digits n) in
    rw (stripped, strong, parted)
      (checked_tag-digits py account_id reader (length (etag account_id n)) n short)
