-- ===== src/Domain/Types/Check.antt =====
-- `SettingDef.check` of domain/types.py: the rules of an entry, in the order of `_ENTRY_RULES`.
pub mod Sound
use Prim.Native.String.{count}
use mathlib.Core.List.{reverse}
use settings_api.Prelude.{
  is_nil, ℕ, Bool, true, false, not, ◌&&◌, ◌||◌, String, Option, none, some, List, [], ◌∷◌,
  contains, is_some, if◌then◌else◌, ◌==◌, string_eq, nat_eq, list_eq, ltb, Result, ok, err,
  raise_if, ◌>>=◌, ◌>>◌, map_err,
}
use settings_api.Prelude.Int.{ℤ, ltb_ℤ}
use settings_api.Prelude.Text.{codes, strip}
use settings_api.Domain.Platform.{Platform}
use settings_api.Domain.Value.{Value, is_among}
use settings_api.Domain.Types.{
  SettingDef, SettingType, OnUnavailable, AgentAccess, max_summary_chars, max_description_chars,
  retired, is_profile_scoped, Rule, bad_namespace, bad_key, bad_summary, bad_description,
  repeated_prose, no_choices, repeated_choice, choices_without_enum, range_without_int, empty_range,
  unanchored_pattern, no_conservative, default_not_conservative, bad_retired_at, bad_deprecated_by,
  freely_owner_only, writable_retired, freely_refused, common_per_profile,
  default_profile_per_profile,
}
use settings_api.Domain.Types.Names.{matches_key}
use settings_api.Domain.Types.Validate.{has_repeat, validate}

-- The tests `x is Member` on the enums.
abbrev is_enum : SettingDef → Bool
is_enum d = elim d.value_type [ SettingType.enum ↦ true | _ ↦ false ]

abbrev is_int : SettingDef → Bool
is_int d = elim d.value_type [ SettingType.int ↦ true | _ ↦ false ]

abbrev is_use_default : SettingDef → Bool
is_use_default d = elim d.on_unavailable [ OnUnavailable.use_default ↦ true | _ ↦ false ]

abbrev is_freely : SettingDef → Bool
is_freely d = elim d.agent_writable [ AgentAccess.freely ↦ true | _ ↦ false ]

abbrev is_never : SettingDef → Bool
is_never d = elim d.agent_writable [ AgentAccess.never ↦ true | _ ↦ false ]

unfoldable pub entry_names : SettingDef → Result Rule (Unit {0})
unfolding matches_key
entry_names d = do
  raise_if (not (matches_key d.namespace)) bad_namespace
  raise_if (not (matches_key d.key)) bad_key

unfoldable pub entry_prose : SettingDef → Result Rule (Unit {0})
unfolding strip
entry_prose d = do
  raise_if (d.summary == "" || ltb max_summary_chars (count d.summary)) bad_summary
  raise_if (d.description == "" || ltb max_description_chars (count d.description)) bad_description
  raise_if (strip (codes d.summary) == strip (codes d.description)) repeated_prose

entry_choices : SettingDef → Result Rule (Unit {0})
unfolding has_repeat
entry_choices d =
    if is_enum d
    then (do
      raise_if (is_nil d.choices) no_choices
      raise_if (has_repeat d.choices) repeated_choice)
    else raise_if (not (is_nil d.choices)) choices_without_enum

-- `minimum is not None and maximum is not None and minimum > maximum`
abbrev crosses : Option ℤ → Option ℤ → Bool
crosses (some lo) (some hi) = ltb_ℤ hi lo
crosses _ _ = false

abbrev starts_with_code : ℕ → List ℕ → Bool
starts_with_code c [] = false
starts_with_code c (d ∷ s) = d == c

abbrev is_unanchored : Option String → Bool
is_unanchored none = false
is_unanchored (some p) =
    not (starts_with_code b'^' (codes p) && starts_with_code b'$' (reverse (codes p)))

unfoldable pub entry_bounds : SettingDef → Result Rule (Unit {0})
unfolding entry_choices
entry_bounds d = do
  entry_choices d
  raise_if (not (is_int d) && (is_some d.minimum || is_some d.maximum)) range_without_int
  raise_if (crosses d.minimum d.maximum) empty_range
  raise_if (is_unanchored d.pattern) unanchored_pattern

unfoldable pub entry_fallback : SettingDef → Result Rule (Unit {0})
unfolding is_among
entry_fallback d =
    if is_use_default d
    then (do
      raise_if (is_nil d.conservative_values) no_conservative
      raise_if (not (is_among d.default d.conservative_values)) default_not_conservative)
    else ok tt

unfoldable pub entry_agent_access : SettingDef → Result Rule (Unit {0})
entry_agent_access d = do
  raise_if (d.owner_writable_only && is_freely d) freely_owner_only
  raise_if (retired d && not (is_never d)) writable_retired
  raise_if (not (is_use_default d) && is_freely d) freely_refused

unfoldable pub entry_scope : SettingDef → Result Rule (Unit {0})
entry_scope d = do
  raise_if (d.namespace == "common" && is_profile_scoped d) common_per_profile
  raise_if (d.key == "default_profile" && is_profile_scoped d) default_profile_per_profile

abbrev has_dot : String → Bool
has_dot s = contains (codes s) b'.'

module _ (py : Platform) where
  unfoldable pub entry_default : SettingDef → Result Rule (Unit {0})
  unfolding validate
  entry_default d = do v ← validate py d d.default; ok tt

  abbrev is_bad_date : Option String → Bool
  is_bad_date none = false
  is_bad_date (some text) = not (is_some (py.from_iso_date text))

  abbrev is_bad_name : Option String → Bool
  is_bad_name none = false
  is_bad_name (some name) = not (has_dot name)

  unfoldable pub entry_lifecycle : SettingDef → Result Rule (Unit {0})
  unfolding contains
  entry_lifecycle d = do
    raise_if (is_bad_date d.retired_at) bad_retired_at
    raise_if (is_bad_name d.deprecated_by) bad_deprecated_by

  -- `SettingDef.check`
  unfoldable pub check : SettingDef → Result Rule (Unit {0})
  check d = do
    entry_names d
    entry_prose d
    entry_bounds d
    entry_default d
    entry_fallback d
    entry_lifecycle d
    entry_agent_access d
    entry_scope d
