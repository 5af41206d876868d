-- ===== src/Domain/Json.antt =====
-- What `json.loads` returns. An object is its items in order; `decimal` is a number with a fraction
-- or an exponent, which no rule of the program looks into.
use settings_api.Prelude.{Bool, String, Option, none, some, List, [], ◌∷◌}
use settings_api.Prelude.Int.{ℤ}
use settings_api.Prelude.Dict.{Dict}
use settings_api.Domain.Value.{Value}

mutual
  pub data Json : Type 0 where
    null : Json
    bool : Bool → Json
    int : ℤ → Json
    decimal str : String → Json
    arr : Items → Json
    obj : Fields → Json

  pub data Items : Type 0 where
    nil : Items
    cons : Json → Items → Items

  pub data Fields : Type 0 where
    end : Fields
    field : String → Json → Fields → Fields

abbrev pub elements : Items → List Json
elements nil = []
elements (cons x xs) = x ∷ elements xs

-- `items()` of an object, and the object as a dictionary.
abbrev pub members : Fields → Dict String Json
members end = []
members (field k v fs) = (k, v) ∷ members fs

-- `[item for item in value]` if every item is a string, else `none`.
unfoldable pub all_strings : List Json → Option (List String)
all_strings [] = some []
all_strings (str s ∷ xs) = elim (all_strings xs) [ none ↦ none | some ss ↦ some (s ∷ ss) ]
all_strings (_ ∷ xs) = none

-- `_is_value` of domain/policy.py: the parsed value as a setting's value, if it is one of the shapes.
unfoldable pub as_value : Json → Option Value
unfolding all_strings
as_value null = some Value.null
as_value (bool b) = some (Value.bool b)
as_value (int n) = some (Value.int n)
as_value (decimal s) = none
as_value (str s) = some (Value.str s)
as_value (arr xs) = elim (all_strings (elements xs)) [
  | none ↦ none
  | some ss ↦ some (Value.str_list ss)
]
as_value (obj fs) = none
