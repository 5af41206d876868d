-- ===== src/Domain/Policy.antt =====
-- domain/policy.py: one deployment's narrowing of the catalogue.
pub mod Narrow
pub mod Parse
pub mod Narrower
pub mod Safe
use settings_api.Prelude.{Bool, String, Option, none, some, List, []}
use settings_api.Prelude.{string_eq}
use settings_api.Prelude.Dict.{Dict, get, has_key}
use settings_api.Domain.Value.{Value}
use settings_api.Domain.Types.{SettingDef, qualified}

pub record Policy : Type 0 where
  pub overrides : Dict String SettingDef
  pub pins : Dict String Value

abbrev pub no_policy : Policy
no_policy = record { overrides = []; pins = [] }

abbrev pub or_given {ℓ} : {A : Type ℓ} → Option A → A → A
or_given none d = d
or_given (some o) d = o

unfoldable pub definition_of : Policy → SettingDef → SettingDef
unfolding get
definition_of p d = or_given (get p.overrides (qualified d)) d

-- `pin_on`; `none` where the mapping has no such key.
unfoldable pub pin_on : Policy → SettingDef → Option Value
unfolding get
pin_on p d = get p.pins (qualified d)

unfoldable pub is_pinned : Policy → SettingDef → Bool
unfolding get
is_pinned p d = has_key p.pins (qualified d)
