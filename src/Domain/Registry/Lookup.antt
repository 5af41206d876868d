-- ===== src/Domain/Registry/Lookup.antt =====
-- What the lookups of domain/registry.py return over a catalogue whose entries passed their check.
use settings_api.Prelude.{◌≡◌, ap, ap₂, ◌∙◌, false, String, some, arith, All, ok, string_eq}
use settings_api.Prelude.Dict.{get}
use settings_api.Domain.Platform.{Platform}
use settings_api.Domain.Types.{SettingDef, qualify, qualified, retired}
use settings_api.Domain.Types.Check.{check}
use settings_api.Domain.Catalogue.{Catalogue, every_entry, by_qualified}
use settings_api.Domain.Catalogue.Assembled.{IsChecked, by_qualified_exact}
use settings_api.Domain.Registry.{entries_in, definition_for}

-- The entry stands in the index under its own name.
abbrev pub IsListed : Catalogue → SettingDef → Type 0
IsListed catalogue d = get (by_qualified catalogue) (qualified d) ≡ some d

abbrev pub AllChecked : Platform → Catalogue → Type 0
AllChecked py catalogue = All (IsChecked py) (every_entry catalogue)

definition_for_found :
    (catalogue : Catalogue) (namespace key : String) (d : SettingDef)
    → definition_for catalogue namespace key ≡ ok d
    → (get (by_qualified catalogue) (qualify namespace key) ≡ some d) × (retired d ≡ false)
unfolding definition_for entries_in
definition_for_found catalogue namespace key d h = ground arith

-- Over a checked catalogue, what `definition_for` returns is the entry of that very namespace and key,
-- is not retired, has passed its check, and stands in the index under its own name.
pub definition_for_exact :
    (py : Platform) (catalogue : Catalogue) (namespace key : String) (d : SettingDef)
    → AllChecked py catalogue
    → definition_for catalogue namespace key ≡ ok d
    → (d.namespace ≡ namespace)
      × (d.key ≡ key)
      × (retired d ≡ false)
      × (check py d ≡ ok tt)
      × IsListed catalogue d
definition_for_exact py catalogue namespace key d checked h =
    let (found, live) = definition_for_found catalogue namespace key d h in
    let (here, named, sound) = by_qualified_exact py catalogue namespace key d checked found in
    (here, named, live, sound, ap (get (by_qualified catalogue)) (ap₂ qualify here named) ∙ found)
