-- ===== src/Domain/Catalogue/Assembled.antt =====
-- What domain/catalogue/__init__.py guarantees of a catalogue that it assembles, and what the lookups
-- of domain/registry.py then find.
use settings_api.Prelude.{
  ◌≡◌, refl, subst, String, some, List, [], ◌∷◌, arith, All, All-append, All-map, string_eq, eq_iff,
  ok,
}
use settings_api.Prelude.Dict.{Dict, insert, get, get-All, insert-All}
use settings_api.Domain.Platform.{Platform}
use settings_api.Domain.Types.{SettingDef, qualify, qualified}
use settings_api.Domain.Types.Names.{HasNoDot, matches_key-HasNoDot}
use settings_api.Domain.Types.Check.{check, entry_names}
use settings_api.Domain.Catalogue.{
  Catalogue, NamespaceModule, check_entries, assemble, assemble_from, every_entry, index_entries,
  by_qualified,
}
use settings_api.Domain.Catalogue.Qualified.{qualify_inj}

module _ (py : Platform) where
  -- An entry that stands in its own namespace's module and passed `check`.
  abbrev pub IsEntryOf : String → SettingDef → Type 0
  IsEntryOf namespace d = (d.namespace ≡ namespace) × (check py d ≡ ok tt)

  abbrev pub IsChecked : SettingDef → Type 0
  IsChecked d = check py d ≡ ok tt

  check_entries-All :
      (namespace : String) (seen : List String) (entries : List SettingDef)
      → check_entries py namespace seen entries ≡ ok tt
      → All (IsEntryOf namespace) entries
  unfolding check_entries
  check_entries-All namespace seen [] h = tt
  check_entries-All namespace seen (d ∷ ds) h =
      ground (arith, eq_iff d.namespace namespace, check_entries-All namespace (d.key ∷ seen) ds)

  abbrev pub ModuleOk : String × List SettingDef → Type 0
  ModuleOk m = All (IsEntryOf m.0) m.1

  assemble_from-All :
      (built : Catalogue) (modules : List NamespaceModule) (catalogue : Catalogue)
      → All ModuleOk built
      → assemble_from py built modules ≡ ok catalogue
      → All ModuleOk catalogue
  unfolding assemble_from
  assemble_from-All built [] catalogue hs h = subst (All ModuleOk) (cc) hs
  assemble_from-All built ((n, es) ∷ ms) catalogue hs h = ground (
    arith,
    check_entries-All n [] es,
    insert-All ModuleOk built n es hs,
    assemble_from-All (insert built n es) ms catalogue,
  )

  pub entry_names_ok : (d : SettingDef) → check py d ≡ ok tt → HasNoDot d.namespace × HasNoDot d.key
  unfolding check entry_names
  entry_names_ok d h = ground (arith, matches_key-HasNoDot d.namespace, matches_key-HasNoDot d.key)

  IsIndexed : String × SettingDef → Type 0
  IsIndexed p = (qualified p.1 ≡ p.0) × IsChecked p.1

  every_entry-All :
      (catalogue : Catalogue) → All ModuleOk catalogue → All IsChecked (every_entry catalogue)
  unfolding every_entry
  every_entry-All [] h = tt
  every_entry-All ((n, es) ∷ rest) (h, hs) =
      All-append IsChecked es (every_entry rest) (All-map es (λ d ok_. ok_.1) h)
        (every_entry-All rest hs)

  index_entries-All :
      (index : Dict String SettingDef) (es : List SettingDef)
      → All IsIndexed index
      → All IsChecked es
      → All IsIndexed (index_entries index es)
  unfolding index_entries IsIndexed
  index_entries-All index [] hs h = hs
  index_entries-All index (d ∷ ds) hs (h, ok_) =
      index_entries-All (insert index (qualified d) d) ds
        (insert-All IsIndexed index (qualified d) d hs (refl, h)) ok_

  -- In a catalogue that `_assemble` returns every entry stands in the module of its namespace.
  pub assemble-ModuleOk :
      (modules : List NamespaceModule) (catalogue : Catalogue)
      → assemble py modules ≡ ok catalogue
      → All ModuleOk catalogue
  assemble-ModuleOk modules catalogue h = assemble_from-All [] modules catalogue tt h

  -- Every entry of a catalogue that `_assemble` returns has passed its own check.
  pub assemble-All-IsChecked :
      (modules : List NamespaceModule) (catalogue : Catalogue)
      → assemble py modules ≡ ok catalogue
      → All IsChecked (every_entry catalogue)
  assemble-All-IsChecked modules catalogue h =
      every_entry-All catalogue (assemble-ModuleOk modules catalogue h)

  -- What `BY_QUALIFIED` holds under a name is the entry of that namespace and key.
  pub by_qualified_exact :
      (catalogue : Catalogue) (namespace key : String) (d : SettingDef)
      → All IsChecked (every_entry catalogue)
      → get (by_qualified catalogue) (qualify namespace key) ≡ some d
      → (d.namespace ≡ namespace) × (d.key ≡ key) × IsChecked d
  unfolding by_qualified IsIndexed
  by_qualified_exact catalogue namespace key d checked found =
      let at =
        get-All IsIndexed (by_qualified catalogue) (qualify namespace key) d
          (index_entries-All [] (every_entry catalogue) tt checked) found in
      let dots = entry_names_ok d at.1 in
      let same = qualify_inj d.namespace d.key namespace key dots.0 dots.1 at.0 in
      (same.0, same.1, at.1)
