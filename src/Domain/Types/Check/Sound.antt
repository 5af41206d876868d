-- ===== src/Domain/Types/Check/Sound.antt =====
-- What `check` of domain/types.py guarantees of an entry that it accepts.
use settings_api.Prelude.{◌≡◌, ◌≢◌, true, Option, some, [], arith, ok, is_some, string_eq, eq_iff}
use settings_api.Prelude.Int.{ℤ, ◌≤ℤ◌}
use settings_api.Domain.Platform.{Platform}
use settings_api.Domain.Value.{is_among}
use settings_api.Domain.Types.{SettingDef, SettingType, OnUnavailable, AgentAccess, SettingScope}
use settings_api.Domain.Types.Legal.{Legal, validate_iff, validate_same}
use settings_api.Domain.Types.Check.{
  entry_bounds, entry_choices, entry_default, entry_fallback, entry_agent_access, entry_scope,
  check,
}

abbrev pub InOrder : Option ℤ → Option ℤ → Type 0
InOrder (some lo) (some hi) = lo ≤ℤ hi
InOrder _ _ = Unit

-- What holds of an entry that `check` accepts.
pub record IsSound (py : Platform) (d : SettingDef) : Type 0 where
  pub default_legal : Legal py d d.default
  pub bounds_ordered : InOrder d.minimum d.maximum
  pub enum_has_choices : d.value_type ≡ SettingType.enum → d.choices ≢ []
  pub default_conservative :
      d.on_unavailable ≡ OnUnavailable.use_default → is_among d.default d.conservative_values ≡ true
  pub owner_only_not_freely : d.owner_writable_only ≡ true → d.agent_writable ≢ AgentAccess.freely
  pub retired_never : is_some d.retired_at ≡ true → d.agent_writable ≡ AgentAccess.never
  pub refuse_not_freely :
      d.on_unavailable ≡ OnUnavailable.refuse → d.agent_writable ≢ AgentAccess.freely
  pub common_account : d.namespace ≡ "common" → d.scope ≡ SettingScope.account

-- The eight rules passed, one by one.
record Passed (py : Platform) (d : SettingDef) : Type 0 where
  bounds : entry_bounds d ≡ ok tt
  default : entry_default py d ≡ ok tt
  fallback : entry_fallback d ≡ ok tt
  agent_access : entry_agent_access d ≡ ok tt
  scope : entry_scope d ≡ ok tt

check-Passed : (py : Platform) (d : SettingDef) → check py d ≡ ok tt → Passed py d
unfolding check
check-Passed py d h = ground arith

-- Every entry that `check` accepts is sound: its default is legal, its minimum is at most its maximum,
-- an enum has choices, a default to fall back on is called conservative, an owner-only entry or one
-- that refuses is not writable freely, a retired one is never writable, and `common` has no entry
-- per profile.
pub check-IsSound : (py : Platform) (d : SettingDef) → check py d ≡ ok tt → IsSound py d
unfolding entry_bounds entry_choices entry_fallback entry_agent_access entry_scope entry_default
check-IsSound py d h =
    let p = check-Passed py d h in
    record {
      default_legal =
          ground (arith, p.default, validate_iff py d d.default, validate_same py d d.default);
      bounds_ordered = ground (arith, p.bounds);
      enum_has_choices = ground (arith, p.bounds);
      default_conservative = ground (arith, p.fallback);
      owner_only_not_freely = ground (arith, p.agent_access);
      retired_never = ground (arith, p.agent_access);
      refuse_not_freely = ground (arith, p.agent_access);
      common_account = ground (arith, p.scope, eq_iff d.namespace "common");
    }
