-- ===== src/Domain/Types/Validate.antt =====
-- `SettingDef.validate` of domain/types.py, and the check for each type.
use Prim.Native.String.{count}
use settings_api.Prelude.{
  Bool, false, not, String, Option, none, some, List, length, contains, dedup, ◌==◌, string_eq,
  nat_eq, Result, ok, err, raise_if, ◌>>◌, for_each,
}
use settings_api.Prelude.Int.{ℤ, pos, ltb_ℤ}
use settings_api.Domain.Platform.{Platform}
use settings_api.Domain.Value.{Value, null, bool, int, str, str_list}
use settings_api.Domain.Types.{
  SettingDef, SettingType, ExtraCheck, Rule, is_null, not_bool, not_int, below_minimum,
  above_maximum, not_str, too_long, bad_form, bad_zone, not_a_choice, not_list, too_many_items,
  item_too_long, repeated_item,
}

-- `bound is not None and value < bound`
abbrev pub is_below : Option ℤ → ℤ → Bool
is_below none n = false
is_below (some bound) n = ltb_ℤ n bound

-- `bound is not None and value > bound`
abbrev pub is_above : Option ℤ → ℤ → Bool
is_above none n = false
is_above (some bound) n = ltb_ℤ bound n

unfoldable pub check_bool : Value → Result Rule (Unit {0})
check_bool (bool b) = ok tt
check_bool _ = err not_bool

unfoldable pub check_int : SettingDef → Value → Result Rule (Unit {0})
check_int d (int n) = do
  raise_if (is_below d.minimum n) below_minimum
  raise_if (is_above d.maximum n) above_maximum
check_int d _ = err not_int

-- The same text twice is one element of `set(value)`.
unfoldable pub has_repeat : List String → Bool
unfolding dedup
has_repeat items = not (length (dedup items) == length items)

unfoldable pub check_item : SettingDef → String → Result Rule (Unit {0})
check_item d item = raise_if (is_above d.max_item_chars (pos (count item))) item_too_long

-- Every item of a `Value` list is a string, so the test of an item's type has no branch here.
unfoldable pub check_str_list : SettingDef → Value → Result Rule (Unit {0})
unfolding check_item has_repeat for_each
check_str_list d (str_list items) = do
  raise_if (is_above d.max_items (pos (length items))) too_many_items
  for_each items (check_item d)
  raise_if (has_repeat items) repeated_item
check_str_list d _ = err not_list

unfoldable pub check_enum : SettingDef → Value → Result Rule (Unit {0})
unfolding contains
check_enum d (str s) = raise_if (not (contains d.choices s)) not_a_choice
check_enum d _ = err not_str

module _ (py : Platform) where
  unfoldable pub check_timezone : String → Result Rule (Unit {0})
  check_timezone s = raise_if (not (py.resolves_zone s)) bad_zone

  abbrev pub breaks_pattern : Option String → String → Bool
  breaks_pattern none s = false
  breaks_pattern (some p) s = not (py.fullmatch p s)

  abbrev pub check_extra : ExtraCheck → String → Result Rule (Unit {0})
  check_extra ExtraCheck.none s = ok tt
  check_extra ExtraCheck.timezone s = check_timezone s

  unfoldable pub check_str : SettingDef → Value → Result Rule (Unit {0})
  unfolding check_timezone
  check_str d (str s) = do
    raise_if (is_above d.max_chars (pos (count s))) too_long
    raise_if (breaks_pattern d.pattern s) bad_form
    check_extra d.extra_check s
  check_str d _ = err not_str

  -- `_CHECKERS`
  unfoldable pub check_value : SettingType → SettingDef → Value → Result Rule (Unit {0})
  unfolding check_bool check_int check_str check_enum check_str_list
  check_value SettingType.bool d v = check_bool v
  check_value SettingType.int d v = check_int d v
  check_value SettingType.str d v = check_str d v
  check_value SettingType.enum d v = check_enum d v
  check_value SettingType.str_list d v = check_str_list d v

  -- `SettingDef.validate`
  unfoldable pub validate : SettingDef → Value → Result Rule Value
  unfolding check_value
  validate d null = do raise_if (not d.nullable) is_null; ok null
  validate d v = do check_value d.value_type d v; ok v
