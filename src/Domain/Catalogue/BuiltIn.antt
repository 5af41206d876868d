-- ===== src/Domain/Catalogue/BuiltIn.antt =====
-- `_MODULES` of domain/catalogue/__init__.py: the namespaces of this repository, in the order of the
-- documentation, and what assembling them needs of the machine.
use settings_api.Prelude.{◌≡◌, refl, true, List, [], ◌∷◌, ok, All, All-map, list_beq}
use settings_api.Prelude.Dict.{get, insert}
use settings_api.Domain.Platform.{Platform}
use settings_api.Domain.Catalogue.{
  NamespaceModule, check_entries, assemble, assemble_from, every_entry,
}
use settings_api.Domain.Types.Check.Sound.{IsSound, check-IsSound}
use settings_api.Domain.Catalogue.Assembled.{assemble-All-IsChecked}
use settings_api.Domain.Types.Check.{
  check, entry_names, entry_prose, entry_bounds, entry_default, entry_fallback, entry_lifecycle,
  entry_agent_access, entry_scope,
}
use settings_api.Domain.Catalogue.Common
use settings_api.Domain.Catalogue.Keyring
use settings_api.Domain.Catalogue.User
use settings_api.Domain.Catalogue.Persona
use settings_api.Domain.Catalogue.Memory
use settings_api.Domain.Catalogue.Lucy
use settings_api.Domain.Catalogue.Lucy.Namespace
use settings_api.Domain.Catalogue.Spotify
use settings_api.Domain.Catalogue.Search
use settings_api.Domain.Catalogue.Environments
use settings_api.Domain.Catalogue.Github

abbrev pub built_in : List NamespaceModule
built_in =
    (Common.namespace, Common.settings)
    ∷ (Keyring.namespace, Keyring.settings)
    ∷ (User.namespace, User.settings)
    ∷ (Persona.namespace, Persona.settings)
    ∷ (Memory.namespace, Memory.settings)
    ∷ (Namespace.namespace, Lucy.settings)
    ∷ (Spotify.namespace, Spotify.settings)
    ∷ (Search.namespace, Search.settings)
    ∷ (Environments.namespace, Environments.settings)
    ∷ (Github.namespace, Github.settings)
    ∷ []

-- The machine resolves `UTC`, and `re` finds that each default with a pattern matches it.
pub record ReadsDefaults (py : Platform) : Type 0 where
  pub zone : py.resolves_zone "UTC" ≡ true
  pub profile : py.fullmatch "^[a-z0-9](?:[a-z0-9._-]*[a-z0-9])?$" "personal" ≡ true
  pub language : py.fullmatch "^[a-z]{2,3}(?:-[a-z0-9]{2,4})?$" "en" ≡ true
  pub region : py.fullmatch "^[a-z]{2}$" "us" ≡ true
  pub model :
      py.fullmatch "^[a-z0-9][a-z0-9-]*:[A-Za-z0-9][A-Za-z0-9._-]*$" "anthropic:claude-opus-5"
      ≡ true
  pub quiet_hours :
      py.fullmatch "^$|^([01]\\d|2[0-3]):[0-5]\\d-([01]\\d|2[0-3]):[0-5]\\d$" "" ≡ true

module _ (py : Platform) (reads : ReadsDefaults py) where
  assembled : assemble py built_in ≡ ok built_in
  unfolding check check_entries entry_names entry_prose list_beq entry_bounds entry_default
      entry_fallback entry_lifecycle entry_agent_access entry_scope assemble_from get insert
  assembled =
      rw (reads.zone, reads.profile, reads.language, reads.region, reads.model, reads.quiet_hours)
        refl

  -- On a machine that resolves `UTC` and on which each default with a pattern matches it, the process
  -- starts: the namespaces of this repository pass the check at import, the catalogue is exactly
  -- they, and every one of their entries is sound.
  pub assemble-built_in :
      (assemble py built_in ≡ ok built_in) × All (IsSound py) (every_entry built_in)
  assemble-built_in = (
    assembled,
    All-map (every_entry built_in) (λ d ok_. check-IsSound py d ok_)
        (assemble-All-IsChecked py built_in built_in assembled),
  )
