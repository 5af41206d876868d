-- ===== src/Domain/Resolution/Precedence.antt =====
-- The layers of domain/resolution.py in one rule: the pin, then the account's row, then the default.
use settings_api.Prelude.{◌≡◌, Option, none, some, arith, is_some, if◌then◌else◌, string_eq}
use settings_api.Prelude.Dict.{get}
use settings_api.Domain.Value.{Value, py_eq}
use settings_api.Domain.Types.{SettingDef, qualified}
use settings_api.Domain.Policy.{Policy, definition_of, pin_on}
use settings_api.Domain.Resolution.{Source, Stored, resolve}

-- The first layer that says something, and which one it is.
abbrev pub layered : Option Value → Option Value → Value → Source → Value × Source
layered (some pin) row default from = (pin, Source.policy)
layered none (some row) default from = (row, Source.account)
layered none none default from = (default, from)

module _ (policy : Policy) (d : SettingDef) (stored : Stored) where
  -- Where the policy keeps the entry's name: a pin beats the account's row, a row beats the deployment's
  -- default, and the default counts as the policy's if it differs from the catalogue's. `set_by_account`
  -- says whether there is a row and `pinned` whether there is a pin, whichever layer has won.
  pub resolve_layers :
      qualified (definition_of policy d) ≡ qualified d
      → let r = resolve policy d stored in
        let effective = definition_of policy d in
        let unset = if py_eq effective.default d.default then Source.default else Source.policy in
        let row = get stored (qualified d) in
        let pin = pin_on policy d in
        let (value, source) = layered pin row effective.default unset in
        (r.value ≡ value)
        × (r.source ≡ source)
        × (r.definition ≡ effective)
        × (r.set_by_account ≡ is_some row)
        × (r.pinned ≡ is_some pin)
  unfolding resolve
  resolve_layers same = rw same (ground arith)
