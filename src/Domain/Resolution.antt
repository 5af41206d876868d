-- ===== src/Domain/Resolution.antt =====
-- domain/resolution.py: turning three layers into one answer.
pub mod Precedence
use settings_api.Prelude.{
  Bool, true, false, not, String, Option, none, some, List, [], ◌∷◌, is_some, if◌then◌else◌, ◌==◌,
  string_eq, Result, ok, err, ◌>>=◌,
}
use settings_api.Prelude.Dict.{Dict, get, insert, update, has_key}
use settings_api.Domain.Value.{Value, null, py_eq}
use settings_api.Domain.Types.{SettingDef, qualified}
use settings_api.Domain.Errors.{Error}
use settings_api.Domain.Catalogue.{Catalogue, common}
use settings_api.Domain.Registry.{live_entries_in}
use settings_api.Domain.Policy.{Policy, definition_of, pin_on, is_pinned, or_given}

pub data Source : Type 0 where
  default policy account : Source

pub record Resolved : Type 0 where
  pub definition : SettingDef
  pub value : Value
  pub source : Source
  pub set_by_account : Bool
  pub pinned : Bool

-- This account's rows, by `namespace.key`.
abbrev pub Stored : Type 0
Stored = Dict String Value

module _ (policy : Policy) where
  abbrev default_source : SettingDef → SettingDef → Source
  default_source effective d =
      if not (py_eq effective.default d.default) then Source.policy else Source.default

  unfoldable pub resolve : SettingDef → Stored → Resolved
  unfolding definition_of pin_on is_pinned get py_eq
  resolve d stored =
      let effective = definition_of policy d in
      let has_row = has_key stored (qualified effective) in
      if is_pinned policy d
      then record {
        definition = effective;
        value = or_given (pin_on policy d) null;
        source = Source.policy;
        set_by_account = has_row;
        pinned = true;
      }
      else if has_row
      then record {
        definition = effective;
        value = or_given (get stored (qualified effective)) null;
        source = Source.account;
        set_by_account = true;
        pinned = false;
      }
      else record {
        definition = effective;
        value = effective.default;
        source = default_source effective d;
        set_by_account = false;
        pinned = false;
      }

  -- The comprehension of `resolve_namespace`.
  unfoldable pub resolve_entries :
      Stored → Dict String Resolved → List SettingDef → Dict String Resolved
  unfolding insert
  resolve_entries stored answer [] = answer
  resolve_entries stored answer (d ∷ ds) =
      resolve_entries stored (insert answer d.key (resolve d stored)) ds

  module _ (catalogue : Catalogue) where
    unfoldable pub resolve_namespace : String → Stored → Result Error (Dict String Resolved)
    unfolding resolve_entries live_entries_in
    resolve_namespace namespace stored = do
      entries ← live_entries_in catalogue namespace
      ok (resolve_entries stored [] entries)

    unfoldable pub resolve_for_service : String → Stored → Result Error (Dict String Resolved)
    unfolding update
    resolve_for_service namespace stored =
        if namespace == common then resolve_namespace common stored else (do
          merged ← resolve_namespace common stored
          own ← resolve_namespace namespace stored
          ok (update merged own))
