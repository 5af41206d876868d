-- ===== src/Domain/Catalogue/Lucy/Manner.antt =====
-- domain/catalogue/lucy/manner.py: the entries of the `lucy` namespace that this file declares.
use settings_api.Prelude.{List, [], ◌∷◌, true}
use settings_api.Domain.Value.{bool, str}
use settings_api.Domain.Types.{
  SettingDef, SettingType, existing, profile, use_default, with_approval,
}
use settings_api.Domain.Catalogue.Entry.{entry}
use settings_api.Domain.Catalogue.Lucy.Namespace.{namespace}

abbrev ambiguity : SettingDef
ambiguity =
    record (entry namespace "ambiguity" SettingType.enum (str "assume_and_say") use_default
      existing) {
        summary = "Whether Lucy guesses or asks when a request could mean two things.";
        description =
            "`assume_and_say` takes the careful reading and says which in one line. `ask_first` costs a round trip and never acts on a wrong guess.\n\nAnything destructive or outward still asks either way, so both values are safe to land on during an outage.";
        scope = profile;
        choices = "assume_and_say" ∷ "ask_first" ∷ [];
        agent_writable = with_approval;
        conservative_values = str "assume_and_say" ∷ str "ask_first" ∷ [];
        origin_note =
            "The hub reads it into TurnPolicy.manner. With `ask_first`, the prompt's `preferences` section tells the model to ask which reading was meant, in one question, before acting; the default is the authored rule and adds no text.";
      }

abbrev opinions : SettingDef
opinions =
    record (entry namespace "opinions" SettingType.enum (str "when_they_matter") use_default
      existing) {
        summary = "Whether Lucy offers its own view or keeps it until asked.";
        description =
            "`when_they_matter` gives a view once, where it would change the decision. `only_when_asked` does the thing without commentary.";
        scope = profile;
        choices = "when_they_matter" ∷ "only_when_asked" ∷ [];
        agent_writable = with_approval;
        conservative_values = str "when_they_matter" ∷ str "only_when_asked" ∷ [];
        origin_note =
            "The hub reads it into TurnPolicy.manner. With `only_when_asked`, the `preferences` section says to give an opinion only when asked; the default is the authored rule and adds no text.";
      }

abbrev announce_memory_writes : SettingDef
announce_memory_writes =
    record (entry namespace "announce_memory_writes" SettingType.bool (bool true) use_default
      existing) {
        summary = "Whether Lucy mentions it when it keeps something about you.";
        description =
            "Off keeps quietly. What is kept is still yours to read, correct and delete, and `memory_write_policy` still decides whether anything may be kept at all.\n\nOn is the transparent side and is what an outage lands on: being told about a note you did not need to hear about costs a clause, and not being told about one you would have objected to is the failure.";
        scope = profile;
        agent_writable = with_approval;
        conservative_values = bool true ∷ [];
        origin_note =
            "The hub reads it into TurnPolicy.manner; only a literal false turns it off. Off, the `preferences` section says not to mention a kept note unless asked.";
      }

abbrev pub settings : List SettingDef
settings = ambiguity ∷ opinions ∷ announce_memory_writes ∷ []
