-- ===== src/Domain/Value.antt =====
-- `Value` of domain/types.py: what a setting may be worth, and Python's equality on it.
use settings_api.Prelude.{
  ◌≡◌, refl, Bool, true, false, String, List, [], ◌∷◌, if◌then◌else◌, ◌==◌, string_eq, list_eq,
}
use settings_api.Prelude.Int.{ℤ, pos, int_eq, beq_ℤ, beq_ℤ_iff}

pub data Value : Type 0 where
  null : Value
  bool : Bool → Value
  int : ℤ → Value
  str : String → Value
  str_list : List String → Value

-- `True == 1` and `False == 0` in Python.
abbrev pub as_int : Bool → ℤ
as_int b = if b then pos 1 else pos 0

abbrev pub bool_beq : Bool → Bool → Bool
bool_beq true b = b
bool_beq false true = false
bool_beq false false = true

-- `a == b` between two values.
unfoldable pub py_eq : Value → Value → Bool
py_eq null null = true
py_eq (bool a) (bool b) = bool_beq a b
py_eq (bool a) (int n) = beq_ℤ (as_int a) n
py_eq (int n) (bool b) = beq_ℤ n (as_int b)
py_eq (int n) (int m) = beq_ℤ n m
py_eq (str s) (str t) = s == t
py_eq (str_list l) (str_list m) = l == m
py_eq _ _ = false

pub py_eq_refl : (v : Value) → py_eq v v ≡ true
unfolding py_eq
py_eq_refl null = refl
py_eq_refl (bool true) = refl
py_eq_refl (bool false) = refl
py_eq_refl (int n) = (beq_ℤ_iff n n).1 refl
py_eq_refl (str s) = (string_eq.beq_iff s s).1 refl
py_eq_refl (str_list l) = (list_eq.beq_iff l l).1 refl

-- `v in values`
unfoldable pub is_among : Value → List Value → Bool
unfolding py_eq
is_among v [] = false
is_among v (x ∷ xs) = let rest = is_among v xs in if py_eq x v then true else rest
