-- ===== src/Domain/Types.antt =====
-- domain/types.py: a catalogue entry.
pub mod Names
pub mod Validate
pub mod Legal
pub mod Check
use settings_api.Prelude.{ℕ, Bool, true, false, String, ◌<>◌, Option, List, is_some}
use settings_api.Prelude.Int.{ℤ}
use settings_api.Domain.Value.{Value}

pub data SettingType : Type 0 where
  bool int str enum str_list : SettingType

pub data OnUnavailable : Type 0 where
  use_default refuse : OnUnavailable

pub data Origin : Type 0 where
  existing proposed : Origin

pub data AgentAccess : Type 0 where
  never with_approval freely : AgentAccess

pub data SettingScope : Type 0 where
  account profile : SettingScope

pub data ExtraCheck : Type 0 where
  none timezone : ExtraCheck

-- The profile column of an account-scoped row.
abbrev pub account_profile : String
account_profile = "*"

abbrev pub max_summary_chars : ℕ
max_summary_chars = 120

abbrev pub max_description_chars : ℕ
max_description_chars = 1200

pub record SettingDef : Type 0 where
  pub namespace : String
  pub key : String
  pub value_type : SettingType
  pub default : Value
  pub summary : String
  pub description : String
  pub on_unavailable : OnUnavailable
  pub origin : Origin
  pub origin_note : String
  pub minimum : Option ℤ
  pub maximum : Option ℤ
  pub choices : List String
  pub max_chars : Option ℤ
  pub pattern : Option String
  pub max_items : Option ℤ
  pub max_item_chars : Option ℤ
  pub nullable : Bool
  pub extra_check : ExtraCheck
  pub operator_clampable : Bool
  pub owner_writable_only : Bool
  pub scope : SettingScope
  pub agent_writable : AgentAccess
  pub conservative_values : List Value
  pub deprecated_by : Option String
  pub retired_at : Option String
  pub labels : List String

-- `f"{namespace}.{key}"`
abbrev pub qualify : String → String → String
qualify namespace key = namespace <> ("." <> key)

abbrev pub qualified : SettingDef → String
qualified d = qualify d.namespace d.key

abbrev pub retired : SettingDef → Bool
retired d = is_some d.retired_at

-- The tests `x is Member` on the enums.
abbrev pub is_profile_scoped : SettingDef → Bool
is_profile_scoped d = elim d.scope [ account ↦ false | profile ↦ true ]

-- The rule that a refused value or a refused entry broke: one for each message of this module.
pub data Rule : Type 0 where
  is_null not_bool not_int below_minimum above_maximum not_str too_long bad_form bad_zone : Rule
  not_a_choice not_list too_many_items item_too_long repeated_item : Rule
  bad_namespace bad_key bad_summary bad_description repeated_prose no_choices repeated_choice : Rule
  choices_without_enum range_without_int empty_range unanchored_pattern no_conservative : Rule
  default_not_conservative bad_retired_at bad_deprecated_by freely_owner_only : Rule
  writable_retired freely_refused common_per_profile default_profile_per_profile : Rule
