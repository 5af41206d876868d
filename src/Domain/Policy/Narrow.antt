-- ===== src/Domain/Policy/Narrow.antt =====
-- `_narrow` of domain/policy.py and the readers of its clauses.
use settings_api.Prelude.{
  is_nil, Bool, true, false, not, ◌&&◌, String, Option, none, some, List, filter, contains, all,
  string_eq, if◌then◌else◌, Result, ok, err, raise_if, map_err, ◌>>=◌, ◌>>◌,
}
use settings_api.Prelude.Int.{ℤ}
use settings_api.Prelude.Dict.{Dict, get}
use settings_api.Domain.Platform.{Platform}
use settings_api.Domain.Value.{Value}
use settings_api.Domain.Json.{Json, int, arr, elements, all_strings, as_value}
use settings_api.Domain.Types.{SettingDef, SettingType, qualified}
use settings_api.Domain.Types.Validate.{is_below, is_above, validate}

pub data Clause : Type 0 where
  pin default minimum maximum choices max_items : Clause

-- The `PolicyError`s; each names the setting or the namespace that its message names.
pub data PolicyError : Type 0 where
  not_an_object : PolicyError
  not_a_namespace settings_not_an_object : (namespace : String) → PolicyError
  not_a_setting clauses_not_an_object : (setting : String) → PolicyError
  unknown_clauses not_clampable : (setting : String) → List String → PolicyError
  not_whole not_for_type not_allowed widens : (setting : String) → Clause → PolicyError
  choices_not_strings choices_empty : (setting : String) → PolicyError

abbrev pub Clauses : Type 0
Clauses = Dict String Json

abbrev pub Checked : Type 0 → Type 0
Checked = Result PolicyError

abbrev is_int : SettingDef → Bool
is_int d = elim d.value_type [ SettingType.int ↦ true | _ ↦ false ]

abbrev is_enum : SettingDef → Bool
is_enum d = elim d.value_type [ SettingType.enum ↦ true | _ ↦ false ]

abbrev is_str_list : SettingDef → Bool
is_str_list d = elim d.value_type [ SettingType.str_list ↦ true | _ ↦ false ]

abbrev is_range : Clause → Bool
is_range c = elim c [ minimum ↦ true | maximum ↦ true | _ ↦ false ]

-- `_whole`
unfoldable pub whole : SettingDef → Clause → Json → Checked ℤ
whole d c (int n) =
    if not (is_int d) && is_range c then err (not_for_type (qualified d) c) else ok n
whole d c _ = err (not_whole (qualified d) c)

-- `_raised`
unfoldable pub raised : SettingDef → Json → Checked ℤ
unfolding whole
raised d v = do
  floor ← whole d minimum v
  raise_if (is_below d.minimum floor) (widens (qualified d) minimum)
  ok floor

-- `_lowered`
unfoldable pub lowered : SettingDef → Json → Checked ℤ
unfolding whole
lowered d v = do
  ceiling ← whole d maximum v
  raise_if (is_above d.maximum ceiling) (widens (qualified d) maximum)
  ok ceiling

abbrev string_items : SettingDef → Json → Checked (List String)
string_items d (arr xs) = elim (all_strings (elements xs)) [
  | none ↦ err (choices_not_strings (qualified d))
  | some ss ↦ ok ss
]
string_items d _ = err (choices_not_strings (qualified d))

-- `_subset`
unfoldable pub subset : SettingDef → Json → Checked (List String)
unfolding all_strings contains all filter
subset d v = do
  raise_if (not (is_enum d)) (not_for_type (qualified d) choices)
  wanted ← string_items d v
  raise_if (is_nil wanted) (choices_empty (qualified d))
  raise_if (not (all (contains d.choices) wanted)) (widens (qualified d) choices)
  ok (filter (contains wanted) d.choices)

-- `_fewer`
unfoldable pub fewer : SettingDef → Json → Checked ℤ
unfolding whole
fewer d v = do
  raise_if (not (is_str_list d)) (not_for_type (qualified d) max_items)
  cap ← whole d max_items v
  raise_if (is_above d.max_items cap) (widens (qualified d) max_items)
  ok cap

-- `if CLAUSE in clauses: narrowed = replace(...)`
abbrev pub when_given : Option Json → (Json → Checked SettingDef) → SettingDef → Checked SettingDef
when_given none step d = ok d
when_given (some v) step d = step v

unfoldable pub narrow_minimum : Clauses → SettingDef → Checked SettingDef
unfolding raised get
narrow_minimum clauses d =
    when_given (get clauses "minimum") (λ v. do m ← raised d v; ok (record d { minimum = some m }))
      d

unfoldable pub narrow_maximum : Clauses → SettingDef → Checked SettingDef
unfolding lowered get
narrow_maximum clauses d =
    when_given (get clauses "maximum") (λ v. do m ← lowered d v; ok (record d { maximum = some m }))
      d

unfoldable pub narrow_choices : Clauses → SettingDef → Checked SettingDef
unfolding subset get
narrow_choices clauses d =
    when_given (get clauses "choices") (λ v. do cs ← subset d v; ok (record d { choices = cs })) d

unfoldable pub narrow_max_items : Clauses → SettingDef → Checked SettingDef
unfolding fewer get
narrow_max_items clauses d =
    when_given (get clauses "max_items")
      (λ v. do m ← fewer d v; ok (record d { max_items = some m })) d

module _ (py : Platform) where
  abbrev pub refuse_or : SettingDef → Clause → Option Value → Checked Value
  refuse_or d c none = err (not_allowed (qualified d) c)
  refuse_or d c (some v) = map_err (λ _. not_allowed (qualified d) c) (validate py d v)

  -- `_checked`
  unfoldable pub checked : SettingDef → Clause → Json → Checked Value
  unfolding as_value validate
  checked d c v = refuse_or d c (as_value v)

  unfoldable pub narrow_default : Clauses → SettingDef → Checked SettingDef
  unfolding checked get
  narrow_default clauses d =
      when_given (get clauses "default")
        (λ v. do w ← checked d default v; ok (record d { default = w })) d

  -- `_narrow`: the default last, against the entry as narrowed.
  unfoldable pub narrow : SettingDef → Clauses → Checked SettingDef
  narrow d clauses = do
    from_minimum ← narrow_minimum clauses d
    from_maximum ← narrow_maximum clauses from_minimum
    from_choices ← narrow_choices clauses from_maximum
    from_cap ← narrow_max_items clauses from_choices
    narrow_default clauses from_cap
