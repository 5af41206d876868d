-- ===== src/Domain/Catalogue/Exact.antt =====
-- What domain/catalogue/__init__.py builds out of the modules it accepts.
use mathlib.Core.List.{append-nil, append_assoc}
use settings_api.Prelude.{
  ◌≡◌, sym, ◌∙◌, ap, subst, String, none, List, [], ◌∷◌, ◌++◌, arith, string_eq, ok,
}
use settings_api.Prelude.Dict.{insert, get, KeysUnique, insert-absent, insert-KeysUnique}
use settings_api.Domain.Platform.{Platform}
use settings_api.Domain.Types.{SettingDef}
use settings_api.Domain.Catalogue.{Catalogue, NamespaceModule, assemble, assemble_from}

module _ (py : Platform) where
  assemble_from-step :
      (built : Catalogue) (n : String) (es : List SettingDef) (ms : List NamespaceModule)
      (catalogue : Catalogue)
      → assemble_from py built ((n, es) ∷ ms) ≡ ok catalogue
      → (get built n ≡ none) × (assemble_from py (insert built n es) ms ≡ ok catalogue)
  unfolding assemble_from
  assemble_from-step built n es ms catalogue h = ground arith

  assemble_from-exact :
      (built : Catalogue) (modules : List NamespaceModule) (catalogue : Catalogue)
      → KeysUnique built
      → assemble_from py built modules ≡ ok catalogue
      → (catalogue ≡ built ++ modules) × KeysUnique catalogue
  unfolding assemble_from
  assemble_from-exact built [] catalogue u h =
      subst (λ c. (c ≡ built ++ []) × KeysUnique c) {x = built} {y = catalogue} (cc)
        (sym (append-nil built), u)
  assemble_from-exact built ((n, es) ∷ ms) catalogue u h =
      let (fresh, rest) = assemble_from-step built n es ms catalogue h in
      let (same, unique) =
        assemble_from-exact (insert built n es) ms catalogue (insert-KeysUnique built n es u)
          rest in
      (
        same
            ∙ (ap (λ b. b ++ ms) (insert-absent built n es fresh)
                ∙ append_assoc built ((n, es) ∷ []) ms),
        unique,
      )

  -- The catalogue that `_assemble` returns is the list of modules it was given, in their order and with
  -- their entries, and no two modules have the same namespace: an installed package can neither
  -- replace nor extend a namespace that stands before it.
  pub assemble-exact :
      (modules : List NamespaceModule) (catalogue : Catalogue)
      → assemble py modules ≡ ok catalogue
      → (catalogue ≡ modules) × KeysUnique catalogue
  assemble-exact modules catalogue h = assemble_from-exact [] modules catalogue tt h
