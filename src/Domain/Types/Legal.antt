-- ===== src/Domain/Types/Legal.antt =====
-- Which values an entry declares legal, and that `validate` of domain/types.py decides it.
use Prim.Native.String.{count}
use settings_api.Prelude.{
  ◌≡◌, sym, subst, ◌↔◌, ◌≤◌, true, false, String, Option, none, some, List, [], ◌∷◌, arith,
  string_eq, length, contains, dedup, All, ok, for_each,
}
use settings_api.Prelude.Int.{ℤ, pos, ◌≤ℤ◌}
use settings_api.Domain.Platform.{Platform}
use settings_api.Domain.Value.{Value, null, bool, int, str, str_list}
use settings_api.Domain.Types.{SettingDef, SettingType, ExtraCheck}
use settings_api.Domain.Types.Validate.{
  check_int, check_item, check_str, check_enum, check_str_list, has_repeat, validate,
}

-- An absent bound bounds nothing.
abbrev pub AtLeast : Option ℤ → ℤ → Type 0
AtLeast none n = Unit
AtLeast (some bound) n = bound ≤ℤ n

abbrev pub AtMost : Option ℤ → ℤ → Type 0
AtMost none n = Unit
AtMost (some bound) n = n ≤ℤ bound

abbrev pub NoRepeats : List String → Type 0
NoRepeats [] = Unit
NoRepeats (x ∷ xs) = (contains xs x ≡ false) × NoRepeats xs

abbrev pub IsShort : SettingDef → String → Type 0
IsShort d item = AtMost d.max_item_chars (pos (count item))

module _ (py : Platform) where
  abbrev pub HasForm : Option String → String → Type 0
  HasForm none s = Unit
  HasForm (some p) s = py.fullmatch p s ≡ true

  abbrev pub PassesExtra : ExtraCheck → String → Type 0
  PassesExtra ExtraCheck.none s = Unit
  PassesExtra ExtraCheck.timezone s = py.resolves_zone s ≡ true

  -- The type first, then its bounds.
  abbrev pub Fits : SettingType → SettingDef → Value → Type 0
  Fits SettingType.bool d (bool b) = Unit
  Fits SettingType.int d (int n) = AtLeast d.minimum n × AtMost d.maximum n
  Fits SettingType.str d (str s) =
      AtMost d.max_chars (pos (count s)) × HasForm d.pattern s × PassesExtra d.extra_check s
  Fits SettingType.enum d (str s) = contains d.choices s ≡ true
  Fits SettingType.str_list d (str_list items) =
      AtMost d.max_items (pos (length items)) × All (IsShort d) items × NoRepeats items
  Fits _ d _ = ⊥

  abbrev pub Legal : SettingDef → Value → Type 0
  Legal d null = d.nullable ≡ true
  Legal d (bool b) = Fits d.value_type d (bool b)
  Legal d (int n) = Fits d.value_type d (int n)
  Legal d (str s) = Fits d.value_type d (str s)
  Legal d (str_list items) = Fits d.value_type d (str_list items)

check_items_iff :
    (d : SettingDef) (items : List String)
    → (for_each items (check_item d) ≡ ok tt) ↔ All (IsShort d) items
unfolding for_each check_item
check_items_iff d [] = ground arith
check_items_iff d (x ∷ xs) = ground (arith, check_items_iff d xs)

length-dedup-le : (xs : List String) → length (dedup xs) ≤ length xs
unfolding dedup
length-dedup-le [] = omega arith
length-dedup-le (x ∷ xs) = ground (arith, length-dedup-le xs)

has_repeat_iff : (xs : List String) → (has_repeat xs ≡ false) ↔ NoRepeats xs
unfolding has_repeat dedup
has_repeat_iff [] = ground arith
has_repeat_iff (x ∷ xs) = ground (arith, has_repeat_iff xs, length-dedup-le xs)

module _ (py : Platform) where
  validate_str_iff :
      (d : SettingDef) (s : String)
      → (check_str py d (str s) ≡ ok tt) ↔ (
          AtMost d.max_chars (pos (count s))
          × HasForm py d.pattern s
          × PassesExtra py d.extra_check s)
  unfolding check_str
  validate_str_iff d s = ground arith

  check_str_list_iff :
      (d : SettingDef) (items : List String)
      → (check_str_list d (str_list items) ≡ ok tt)
        ↔ (AtMost d.max_items (pos (length items)) × All (IsShort d) items × NoRepeats items)
  unfolding check_str_list
  check_str_list_iff d items = ground (arith, check_items_iff d items, has_repeat_iff items)

  -- `validate` returns a value exactly when the entry declares it legal, and then returns that value
  -- unchanged.
  pub validate_iff : (d : SettingDef) (v : Value) → (validate py d v ≡ ok v) ↔ Legal py d v
  unfolding validate check_int check_enum
  validate_iff d null = ground arith
  validate_iff d (bool b) = ground arith
  validate_iff d (int n) = ground arith
  validate_iff d (str s) = ground (arith, validate_str_iff d s)
  validate_iff d (str_list items) = ground (arith, check_str_list_iff d items)

  pub validate_same : (d : SettingDef) (v : Value) {w : Value} → validate py d v ≡ ok w → w ≡ v
  unfolding validate
  validate_same d v h = ground arith

  pub validate-Legal :
      (d : SettingDef) (v : Value) {w : Value} → validate py d v ≡ ok w → Legal py d w
  validate-Legal d v {w} h =
      let same = validate_same d v h in
      subst (Legal py d) (sym same)
        ((validate_iff d v).0 (subst (λ x. validate py d v ≡ ok x) same h))
