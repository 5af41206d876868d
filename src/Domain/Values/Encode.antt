-- ===== src/Domain/Values/Encode.antt =====
-- `encode` of domain/values.py: the JSON text of a value, as code points, and its length in UTF-8.
-- A text here has no lone surrogates, so `encode()` of Python does not raise.
use settings_api.Prelude.{
  ℕ, zero, suc, ◌+◌, ◌-◌, ◌*◌, ◌/◌, ◌%◌, ◌≤◌, ◌≡◌, arith, true, false, String, List, [], ◌∷◌, ◌++◌,
  if◌then◌else◌, ◌==◌, nat_eq, ltb,
}
use settings_api.Prelude.Int.{ℤ, pos, negsuc}
use settings_api.Prelude.Text.{codes}
use settings_api.Domain.Value.{Value, null, bool, int, str, str_list}

-- The decimal digits; the fuel is the number itself, and each step divides it by ten.
unfoldable pub digits_within : ℕ → ℕ → List ℕ
digits_within zero n = (b'0' + n) ∷ []
digits_within (suc fuel) n =
    let rest = digits_within fuel (n / 10) in
    if ltb n 10 then (b'0' + n) ∷ [] else rest ++ (b'0' + n % 10) ∷ []

abbrev pub digits : ℕ → List ℕ
digits n = digits_within n n

abbrev pub int_text : ℤ → List ℕ
int_text (pos n) = digits n
int_text (negsuc n) = b'-' ∷ digits (suc n)

abbrev hex_digit : ℕ → ℕ
hex_digit n = if ltb n 10 then b'0' + n else b'a' + (n - 10)

-- What `json.dumps` writes for a character when `ensure_ascii` is off.
abbrev pub escaped : ℕ → List ℕ
escaped c =
    if c == b'"'
    then b'\\' ∷ b'"' ∷ []
    else if c == b'\\'
    then b'\\' ∷ b'\\' ∷ []
    else if c == 8
    then b'\\' ∷ b'b' ∷ []
    else if c == 12
    then b'\\' ∷ b'f' ∷ []
    else if c == 10
    then b'\\' ∷ b'n' ∷ []
    else if c == 13
    then b'\\' ∷ b'r' ∷ []
    else if c == 9
    then b'\\' ∷ b't' ∷ []
    else if ltb c 32
    then b'\\' ∷ b'u' ∷ b'0' ∷ b'0' ∷ hex_digit (c / 16) ∷ hex_digit (c % 16) ∷ []
    else c ∷ []

unfoldable pub escape_all : List ℕ → List ℕ
escape_all [] = []
escape_all (c ∷ s) = escaped c ++ escape_all s

abbrev pub string_text : String → List ℕ
string_text s = b'"' ∷ (escape_all (codes s) ++ b'"' ∷ [])

unfoldable pub items_text : List String → List ℕ
unfolding escape_all
items_text [] = []
items_text (s ∷ []) = string_text s
items_text (s ∷ t ∷ items) = string_text s ++ (b',' ∷ b' ' ∷ items_text (t ∷ items))

-- `encode`
unfoldable pub encode : Value → List ℕ
unfolding digits_within items_text escape_all
encode null = codes "null"
encode (bool true) = codes "true"
encode (bool false) = codes "false"
encode (int n) = int_text n
encode (str s) = string_text s
encode (str_list items) = b'[' ∷ (items_text items ++ b']' ∷ [])

abbrev utf8_width : ℕ → ℕ
utf8_width c = if ltb c 0x80 then 1 else if ltb c 0x800 then 2 else if ltb c 0x10000 then 3 else 4

-- `len(text.encode())`
unfoldable pub utf8_length : List ℕ → ℕ
utf8_length [] = 0
utf8_length (c ∷ s) = utf8_width c + utf8_length s

-- The number that a row of digits reads as.
unfoldable pub read_digits : ℕ → List ℕ → ℕ
read_digits n [] = n
read_digits n (c ∷ s) = read_digits (10 * n + (c - b'0')) s

read_digits-append :
    (n d : ℕ) (xs : List ℕ) → read_digits n (xs ++ (b'0' + d) ∷ []) ≡ 10 * read_digits n xs + d
unfolding read_digits
read_digits-append n d [] = omega arith
read_digits-append n d (x ∷ xs) = read_digits-append (10 * n + (x - b'0')) d xs

read_digits-within : (fuel n : ℕ) → n ≤ fuel → read_digits 0 (digits_within fuel n) ≡ n
unfolding digits_within read_digits
read_digits-within zero n h = omega arith
read_digits-within (suc fuel) n h = ground (
  arith,
  read_digits-append 0 (n % 10) (digits_within fuel (n / 10)),
  read_digits-within fuel (n / 10),
)

-- The digits of a number read back as the number: the fuel is enough.
pub read_digits-digits : (n : ℕ) → read_digits 0 (digits n) ≡ n
read_digits-digits n = read_digits-within n n (omega arith)
