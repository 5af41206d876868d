-- ===== src/Tests/Catalogue.antt =====
-- The namespaces of the repository on one machine.
use settings_api.Prelude.{◌≡◌, refl, All, [], ◌∷◌, contains, string_eq, ok}
use settings_api.Prelude.Dict.{KeysUnique}
use settings_api.Domain.Platform.{Platform}
use settings_api.Domain.Types.Check.Sound.{IsSound}
use settings_api.Domain.Catalogue.{assemble, every_entry}
use settings_api.Domain.Catalogue.BuiltIn.{built_in, ReadsDefaults, assemble-built_in}
use settings_api.Domain.Catalogue.Exact.{assemble-exact}
use settings_api.Tests.{machine}

-- Its `re` knows the five defaults that have a pattern.
abbrev reader : Platform
unfolding contains
reader = record machine {
  resolves_zone = λ s. contains ("Europe/London" ∷ "UTC" ∷ []) s;
  fullmatch =
      λ pattern s. contains ("personal" ∷ "en" ∷ "us" ∷ "anthropic:claude-opus-5" ∷ "" ∷ []) s;
}

reads : ReadsDefaults reader
unfolding contains
reads = record {
  zone = refl;
  profile = refl;
  language = refl;
  region = refl;
  model = refl;
  quiet_hours = refl;
}

assemble-built_in_example :
    (assemble reader built_in ≡ ok built_in) × All (IsSound reader) (every_entry built_in)
assemble-built_in_example = assemble-built_in reader reads

assemble-exact_example : (built_in ≡ built_in) × KeysUnique built_in
assemble-exact_example = assemble-exact reader built_in built_in (assemble-built_in reader reads).0
