-- ===== src/Prelude/Text.antt =====
-- Texts as their code points, where the program looks at characters.
use Prim.Native.Nat.{ℕ}
use Prim.Native.Char.{code}
use Prim.Native.String.{String}
use mathlib.Core.Bool.{Bool, true, false, ◌&&◌, ◌||◌}
use mathlib.Core.Option.{Option, none, some}
use mathlib.Core.List.{List, [], ◌∷◌, reverse}
use settings_api.Prelude.Tests.{leb, if◌then◌else◌, is_some}
use settings_api.Prelude.Equality.{◌==◌, nat_eq}

abbrev pub codes : String → List ℕ
codes String.[] = []
codes (String.◌∷◌ c s) = code c ∷ codes s

abbrev pub is_lower : ℕ → Bool
is_lower c = leb b'a' c && leb c b'z'

abbrev pub is_upper : ℕ → Bool
is_upper c = leb b'A' c && leb c b'Z'

abbrev pub is_digit : ℕ → Bool
is_digit c = leb b'0' c && leb c b'9'

-- `str.isspace` and the class `\s`, every code point that Unicode counts as white space.
unfoldable pub is_space : ℕ → Bool
is_space c =
    (leb 9 c && leb c 13)
    || (leb 28 c && leb c 32)
    || c == 0x85
    || c == 0xa0
    || c == 0x1680
    || (leb 0x2000 c && leb c 0x200a)
    || c == 0x2028
    || c == 0x2029
    || c == 0x202f
    || c == 0x205f
    || c == 0x3000

-- `s.lstrip()` and `s.strip()`
unfoldable pub lstrip : List ℕ → List ℕ
lstrip [] = []
lstrip (c ∷ s) = let rest = lstrip s in if is_space c then rest else c ∷ s

unfoldable pub strip : List ℕ → List ℕ
unfolding lstrip is_space
strip s = reverse (lstrip (reverse (lstrip s)))

-- `s.partition(".")`: what stands before the first dot, whether there is one, and what stands behind.
unfoldable pub partition_dot : String → String × Bool × String
partition_dot String.[] = ("", false, "")
partition_dot (String.◌∷◌ c s) =
    let (head, found, rest) = partition_dot s in
    if code c == b'.' then ("", true, s) else (String.◌∷◌ c head, found, rest)

-- What stands behind a literal that the text starts with.
unfoldable pub behind : List ℕ → List ℕ → Option (List ℕ)
behind [] s = some s
behind (p ∷ ps) [] = none
behind (p ∷ ps) (c ∷ s) = let rest = behind ps s in if p == c then rest else none

-- `text.startswith(prefix)`
unfoldable pub starts_with : String → String → Bool
unfolding behind
starts_with text prefix = is_some (behind (codes prefix) (codes text))
