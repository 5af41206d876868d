-- ===== src/Domain/Policy/Parse.antt =====
-- `parse` of domain/policy.py: a policy document, read namespace by namespace and key by key. The
-- keys of a JSON object are strings, so the tests of their type have no branch here.
use settings_api.Prelude.{
  is_nil, Bool, not, ◌&&◌, String, Option, none, some, List, [], ◌∷◌, filter, contains, ◌==◌,
  string_eq, list_eq, option_eq, if◌then◌else◌, ok, err, raise_if, map_err, ◌>>=◌, ◌>>◌,
}
use settings_api.Prelude.Int.{int_eq}
use settings_api.Prelude.Dict.{Dict, get, insert, keys}
use settings_api.Domain.Platform.{Platform}
use settings_api.Domain.Value.{py_eq}
use settings_api.Domain.Json.{Json, obj, members}
use settings_api.Domain.Types.{SettingDef, qualify, qualified}
use settings_api.Domain.Catalogue.{Catalogue}
use settings_api.Domain.Registry.{entries_in, definition_for}
use settings_api.Domain.Policy.{Policy, no_policy}
use settings_api.Domain.Policy.Narrow.{
  Checked, Clauses, pin, not_an_object, not_a_namespace, settings_not_an_object, not_a_setting,
  clauses_not_an_object, unknown_clauses, not_clampable, checked, narrow,
}

-- `_CLAUSES` and `_CLAMPING`
abbrev pub clamping_names : List String
clamping_names = "minimum" ∷ "maximum" ∷ "choices" ∷ "max_items" ∷ []

abbrev pub clause_names : List String
clause_names = "pin" ∷ "default" ∷ clamping_names

-- `_check_clauses`, and the clauses as a dictionary.
unfoldable pub check_clauses : SettingDef → Json → Checked Clauses
unfolding filter contains
check_clauses d (obj fs) =
    let unknown = filter (λ name. not (contains clause_names name)) (keys (members fs)) in
    let clamping = filter (contains clamping_names) (keys (members fs)) in
    (do
      raise_if (not (is_nil unknown)) (unknown_clauses (qualified d) unknown)
      raise_if (not (is_nil clamping) && not d.operator_clampable)
          (not_clampable (qualified d) clamping)
      ok (members fs))
check_clauses d _ = err (clauses_not_an_object (qualified d))

-- `narrowed == definition`: the fields that no `replace` touches are the same by construction.
unfoldable pub same_entry : SettingDef → SettingDef → Bool
unfolding py_eq
same_entry e d =
    e.minimum == d.minimum
    && e.maximum == d.maximum
    && e.choices == d.choices
    && e.max_items == d.max_items
    && py_eq e.default d.default

module _ (py : Platform) (catalogue : Catalogue) where
  abbrev pub set_override : SettingDef → SettingDef → Policy → Policy
  set_override d e p =
      if same_entry e d then p else record p { overrides = insert p.overrides (qualified d) e }

  abbrev pub set_pin : SettingDef → SettingDef → Option Json → Policy → Checked Policy
  set_pin d e none p = ok p
  set_pin d e (some v) p = do
    w ← checked py e pin v
    ok (record p { pins = insert p.pins (qualified d) w })

  -- One round of the inner loop of `parse`.
  unfoldable pub parse_setting : String → Policy → String → Json → Checked Policy
  unfolding definition_for check_clauses narrow checked same_entry insert get
  parse_setting namespace p key value = do
    d ←
        map_err (λ _. not_a_setting (qualify namespace key))
          (definition_for catalogue namespace key)
    clauses ← check_clauses d value
    e ← narrow py d clauses
    set_pin d e (get clauses "pin") (set_override d e p)

  unfoldable pub parse_settings : String → Policy → Dict String Json → Checked Policy
  parse_settings namespace p [] = ok p
  parse_settings namespace p ((key, value) ∷ rest) = do
    next ← parse_setting namespace p key value
    parse_settings namespace next rest

  -- `_check_namespace`, and the settings as a dictionary.
  unfoldable pub check_namespace : String → Json → Checked (Dict String Json)
  unfolding entries_in
  check_namespace namespace (obj fs) = do
    entries ← map_err (λ _. not_a_namespace namespace) (entries_in catalogue namespace)
    ok (members fs)
  check_namespace namespace _ = do
    entries ← map_err (λ _. not_a_namespace namespace) (entries_in catalogue namespace)
    err (settings_not_an_object namespace)

  unfoldable pub parse_namespaces : Policy → Dict String Json → Checked Policy
  parse_namespaces p [] = ok p
  parse_namespaces p ((namespace, value) ∷ rest) = do
    settings ← check_namespace namespace value
    next ← parse_settings namespace p settings
    parse_namespaces next rest

  -- `parse`
  unfoldable pub parse : Json → Checked Policy
  parse (obj fs) = parse_namespaces no_policy (members fs)
  parse _ = err not_an_object
