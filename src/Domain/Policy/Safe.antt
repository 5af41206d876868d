-- ===== src/Domain/Policy/Safe.antt =====
-- A policy that `parse` of domain/policy.py accepts narrows the catalogue, and pins only legal values.
use settings_api.Prelude.{
  ◌≡◌, refl, subst, ap, Bool-cases, inl, inr, String, Option, none, some, [], ◌∷◌, All, ok,
  >>=-eq-ok, map_err, map_err-eq-ok, string_eq,
}
use settings_api.Prelude.Dict.{Dict, get, insert-All, get-All}
use settings_api.Domain.Platform.{Platform}
use settings_api.Domain.Value.{Value}
use settings_api.Domain.Json.{Json, obj, members, as_value}
use settings_api.Domain.Types.{SettingDef, qualified}
use settings_api.Domain.Types.Validate.{validate}
use settings_api.Domain.Types.Legal.{Legal, validate-Legal}
use settings_api.Domain.Catalogue.{Catalogue, by_qualified}
use settings_api.Domain.Registry.{definition_for}
use settings_api.Domain.Registry.Lookup.{IsListed, AllChecked, definition_for_exact}
use settings_api.Domain.Policy.{Policy, no_policy, or_given, definition_of, pin_on}
use settings_api.Domain.Policy.Narrow.{Clause, pin, checked, refuse_or, narrow}
use settings_api.Domain.Policy.Parse.{
  same_entry, check_clauses, set_override, set_pin, parse_setting, parse_settings, check_namespace,
  parse_namespaces, parse,
}
use settings_api.Domain.Policy.Narrower.{Narrower, Narrower-refl, narrow-Narrower}

module _ (py : Platform) (catalogue : Catalogue) where
  -- The override of a listed entry, narrower than it.
  abbrev IsOverride : String × SettingDef → Type 0
  IsOverride o = (d : SettingDef) × (qualified d ≡ o.0) × IsListed catalogue d × Narrower py d o.1

  abbrev IsPin : String × Value → Type 0
  IsPin o = (d : SettingDef) × (qualified d ≡ o.0) × IsListed catalogue d × Legal py d o.1

  pub record IsSafe (p : Policy) : Type 0 where
    pub overrides : All IsOverride p.overrides
    pub pins : All IsPin p.pins

  refuse_or-Legal :
      (d : SettingDef) (c : Clause) (o : Option Value) (w : Value)
      → refuse_or py d c o ≡ ok w
      → Legal py d w
  refuse_or-Legal d c none w h = cc
  refuse_or-Legal d c (some v) w h = validate-Legal py d v (map_err-eq-ok _ (validate py d v) h)

  checked-Legal :
      (d : SettingDef) (c : Clause) (v : Json) (w : Value) → checked py d c v ≡ ok w → Legal py d w
  unfolding checked
  checked-Legal d c v w h = refuse_or-Legal d c (as_value v) w h

  set_override-IsSafe :
      (d e : SettingDef) (p : Policy)
      → IsListed catalogue d
      → Narrower py d e
      → IsSafe p
      → IsSafe (set_override py catalogue d e p)
  set_override-IsSafe d e p listed n safe = elim (Bool-cases (same_entry e d)) [
    | inl same ↦ rw same safe
    | inr other ↦ rw other (record {
      overrides =
          insert-All IsOverride p.overrides (qualified d) e safe.overrides (d, refl, listed, n);
      pins = safe.pins;
    })
  ]

  set_pin-IsSafe :
      (d e : SettingDef) (given : Option Json) (p q : Policy)
      → IsListed catalogue d
      → Narrower py d e
      → IsSafe p
      → set_pin py catalogue d e given p ≡ ok q
      → IsSafe q
  set_pin-IsSafe d e none p q listed n safe h = subst IsSafe (cc) safe
  set_pin-IsSafe d e (some v) p q listed n safe h =
      let (w, got, same) = >>=-eq-ok (checked py e pin v) _ h in
      subst IsSafe (cc) (record {
        overrides = safe.overrides;
        pins =
            insert-All IsPin p.pins (qualified d) w safe.pins
              (d, refl, listed, n.legal w (checked-Legal e pin v w got));
      })

  parse_setting-IsSafe :
      (namespace key : String) (value : Json) (p q : Policy)
      → AllChecked py catalogue
      → IsSafe p
      → parse_setting py catalogue namespace p key value ≡ ok q
      → IsSafe q
  unfolding parse_setting
  parse_setting-IsSafe namespace key value p q all_ safe h =
      let (d, found, h₁) = >>=-eq-ok (map_err _ (definition_for catalogue namespace key)) _ h in
      let (clauses, read, h₂) = >>=-eq-ok (check_clauses d value) _ h₁ in
      let (e, narrowed, h₃) = >>=-eq-ok (narrow py d clauses) _ h₂ in
      let (_, _, _, _, listed) =
        definition_for_exact py catalogue namespace key d all_
          (map_err-eq-ok _ (definition_for catalogue namespace key) found) in
      let n = narrow-Narrower py d e clauses narrowed in
      set_pin-IsSafe d e (get clauses "pin") (set_override py catalogue d e p) q listed n
        (set_override-IsSafe d e p listed n safe) h₃

  parse_settings-IsSafe :
      (namespace : String) (settings : Dict String Json) (p q : Policy)
      → AllChecked py catalogue
      → IsSafe p
      → parse_settings py catalogue namespace p settings ≡ ok q
      → IsSafe q
  unfolding parse_settings
  parse_settings-IsSafe namespace [] p q all_ safe h = subst IsSafe (cc) safe
  parse_settings-IsSafe namespace ((key, value) ∷ rest) p q all_ safe h =
      let (next, here, later) = >>=-eq-ok (parse_setting py catalogue namespace p key value) _ h in
      parse_settings-IsSafe namespace rest next q all_
        (parse_setting-IsSafe namespace key value p next all_ safe here) later

  parse_namespaces-IsSafe :
      (document : Dict String Json) (p q : Policy)
      → AllChecked py catalogue
      → IsSafe p
      → parse_namespaces py catalogue p document ≡ ok q
      → IsSafe q
  unfolding parse_namespaces
  parse_namespaces-IsSafe [] p q all_ safe h = subst IsSafe (cc) safe
  parse_namespaces-IsSafe ((namespace, value) ∷ rest) p q all_ safe h =
      let (settings, read, h₁) = >>=-eq-ok (check_namespace py catalogue namespace value) _ h in
      let (next, here, later) = >>=-eq-ok (parse_settings py catalogue namespace p settings) _ h₁ in
      parse_namespaces-IsSafe rest next q all_
        (parse_settings-IsSafe namespace settings p next all_ safe here) later

  parse-IsSafe :
      (document : Json) (p : Policy)
      → AllChecked py catalogue
      → parse py catalogue document ≡ ok p
      → IsSafe p
  unfolding parse
  parse-IsSafe (obj fs) p all_ h =
      parse_namespaces-IsSafe (members fs) no_policy p all_ (record { overrides = tt; pins = tt }) h
  parse-IsSafe document p all_ h = cc

module _ (py : Platform) (catalogue : Catalogue) where
  same_listed :
      (d e : SettingDef)
      → IsListed catalogue d
      → IsListed catalogue e
      → qualified e ≡ qualified d
      → e ≡ d
  same_listed d e ld le same = cc (ap (get (by_qualified catalogue)) same)

  module _ (document : Json) (p : Policy) (checked_ : AllChecked py catalogue)
      (parsed : parse py catalogue document ≡ ok p) (d : SettingDef)
      (listed : IsListed catalogue d) where
    override-Narrower :
        (o : Option SettingDef) → get p.overrides (qualified d) ≡ o → Narrower py d (or_given o d)
    override-Narrower none e = Narrower-refl py d
    override-Narrower (some n) e =
        let safe = parse-IsSafe py catalogue document p checked_ parsed in
        let (c, named, at, narrower) =
          get-All (IsOverride py catalogue) p.overrides (qualified d) n safe.overrides e in
        subst (λ x. Narrower py x n) (same_listed d c listed at named) narrower

    -- Over a checked catalogue, an entry as a parsed policy has it differs from the catalogue's only in
    -- its default, its bounds, its choices and its item cap, and allows no value that the catalogue
    -- refuses.
    pub definition_of-Narrower : Narrower py d (definition_of p d)
    unfolding definition_of
    definition_of-Narrower = override-Narrower (get p.overrides (qualified d)) refl

    -- Over a checked catalogue, a value that a parsed policy pins is one that the catalogue's entry
    -- allows.
    pub pin_on-Legal : (v : Value) → pin_on p d ≡ some v → Legal py d v
    unfolding pin_on
    pin_on-Legal v e =
        let safe = parse-IsSafe py catalogue document p checked_ parsed in
        let (c, named, at, fits) =
          get-All (IsPin py catalogue) p.pins (qualified d) v safe.pins e in
        subst (λ x. Legal py x v) (same_listed d c listed at named) fits
