-- ===== src/Tests/Domain.antt =====
-- The rules of the domain on the setting `voice.volume` and a policy that narrows it.
use settings_api.Prelude.{
  if◌then◌else◌, ◌≡◌, ◌↔◌, refl, false, some, List, [], ◌∷◌, list_beq, string_eq, ok, is_some,
}
use settings_api.Prelude.Int.{pos}
use settings_api.Prelude.Dict.{get, insert}
use settings_api.Domain.Value.{int, py_eq}
use settings_api.Domain.Json.{Json, obj, field, end}
use settings_api.Domain.Types.{qualified}
use settings_api.Domain.Types.Validate.{validate}
use settings_api.Domain.Types.Legal.{Legal, validate_iff}
use settings_api.Domain.Types.Check.{
  check, entry_names, entry_prose, entry_bounds, entry_default, entry_fallback, entry_lifecycle,
  entry_agent_access, entry_scope,
}
use settings_api.Domain.Types.Check.Sound.{IsSound, check-IsSound}
use settings_api.Domain.Catalogue.{
  NamespaceModule, assemble, assemble_from, every_entry, by_qualified, index_entries,
}
use settings_api.Domain.Catalogue.Assembled.{assemble-All-IsChecked}
use settings_api.Domain.Registry.{definition_for}
use settings_api.Domain.Registry.Lookup.{IsListed, AllChecked, definition_for_exact}
use settings_api.Domain.Policy.{Policy, definition_of, pin_on}
use settings_api.Domain.Policy.Parse.{
  parse, parse_namespaces, check_namespace, parse_settings, parse_setting,
}
use settings_api.Domain.Policy.Narrow.{
  narrow_minimum, narrow_maximum, narrow_choices, narrow_max_items, narrow_default,
}
use settings_api.Domain.Policy.Narrower.{Narrower}
use settings_api.Domain.Policy.Safe.{definition_of-Narrower, pin_on-Legal}
use settings_api.Domain.Resolution.{Source, Stored, resolve}
use settings_api.Domain.Resolution.Precedence.{layered, resolve_layers}
use settings_api.Tests.{machine, volume}

abbrev pub modules : List NamespaceModule
modules = ("voice", volume ∷ []) ∷ []

-- `{"voice": {"volume": {"maximum": 8, "pin": 4}}}`
abbrev document : Json
document = obj (
    field "voice"
      (obj (
        field "volume"
          (obj (field "maximum" (Json.int (pos 8)) (field "pin" (Json.int (pos 4)) end))) end))
      end)

abbrev policy : Policy
policy = record {
  overrides = ("voice.volume", record volume { maximum = some (pos 8) }) ∷ [];
  pins = ("voice.volume", int (pos 4)) ∷ [];
}

unfoldable pub runs_domain : Unit {0}
unfolding check entry_names entry_prose list_beq entry_bounds entry_default entry_fallback
    entry_lifecycle entry_agent_access entry_scope assemble_from parse parse_namespaces
    check_namespace parse_settings parse_setting narrow_minimum narrow_maximum narrow_choices
    narrow_max_items narrow_default definition_for by_qualified every_entry get insert index_entries
    definition_of pin_on
runs_domain = tt

volume_checked : check machine volume ≡ ok tt
unfolding runs_domain
volume_checked = refl

pub assembled : assemble machine modules ≡ ok modules
unfolding runs_domain
assembled = refl

parsed : parse machine modules document ≡ ok policy
unfolding runs_domain
parsed = refl

validate_iff_example :
    (validate machine volume (int (pos 11)) ≡ ok (int (pos 11)))
    ↔ Legal machine volume (int (pos 11))
validate_iff_example = validate_iff machine volume (int (pos 11))

check-IsSound_example : IsSound machine volume
check-IsSound_example = check-IsSound machine volume volume_checked

assemble-All-IsChecked_example : AllChecked machine modules
assemble-All-IsChecked_example = assemble-All-IsChecked machine modules modules assembled

found : definition_for modules "voice" "volume" ≡ ok volume
unfolding runs_domain
found = refl

definition_for_exact_example :
    (volume.namespace ≡ "voice")
    × (volume.key ≡ "volume")
    × (is_some volume.retired_at ≡ false)
    × (check machine volume ≡ ok tt)
    × IsListed modules volume
definition_for_exact_example =
    definition_for_exact machine modules "voice" "volume" volume
      (assemble-All-IsChecked machine modules modules assembled) found

listed : IsListed modules volume
unfolding runs_domain
listed = refl

definition_of-Narrower_example : Narrower machine volume (definition_of policy volume)
definition_of-Narrower_example =
    definition_of-Narrower machine modules document policy
      (assemble-All-IsChecked machine modules modules assembled) parsed volume listed

pinned : pin_on policy volume ≡ some (int (pos 4))
unfolding runs_domain
pinned = refl

pin_on-Legal_example : Legal machine volume (int (pos 4))
pin_on-Legal_example =
    pin_on-Legal machine modules document policy
      (assemble-All-IsChecked machine modules modules assembled) parsed volume listed (int (pos 4))
      pinned

same_name : qualified (definition_of policy volume) ≡ qualified volume
unfolding runs_domain
same_name = refl

abbrev stored : Stored
stored = ("voice.volume", int (pos 7)) ∷ []

resolve_layers_example :
    let r = resolve policy volume stored in
    let effective = definition_of policy volume in
    let unset = if py_eq effective.default volume.default then Source.default else Source.policy in
    let row = get stored (qualified volume) in
    let pin = pin_on policy volume in
    let (value, source) = layered pin row effective.default unset in
    (r.value ≡ value)
    × (r.source ≡ source)
    × (r.definition ≡ effective)
    × (r.set_by_account ≡ is_some row)
    × (r.pinned ≡ is_some pin)
resolve_layers_example = resolve_layers policy volume stored same_name
