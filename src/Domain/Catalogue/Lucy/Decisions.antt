-- ===== src/Domain/Catalogue/Lucy/Decisions.antt =====
-- domain/catalogue/lucy/decisions.py: the entries of the `lucy` namespace that this file declares.
use settings_api.Prelude.{List, [], ◌∷◌, some, true, false}
use settings_api.Prelude.Int.{pos}
use settings_api.Domain.Value.{bool, int}
use settings_api.Domain.Types.{SettingDef, SettingType, existing, use_default}
use settings_api.Domain.Catalogue.Entry.{entry}
use settings_api.Domain.Catalogue.Lucy.Namespace.{namespace}

abbrev decisions : SettingDef
decisions =
    record (entry namespace "decisions" SettingType.bool (bool false) use_default existing) {
      summary = "Enable Laya-assisted decisions.";
      description = "Off makes no decision calls. On uses the configured decision service.";
      conservative_values = bool false ∷ [];
      origin_note = "Consumed by the hub's per-turn decisions policy.";
    }

abbrev decision_shadow_mode : SettingDef
decision_shadow_mode =
    record (entry namespace "decision_shadow_mode" SettingType.bool (bool true) use_default
      existing) {
        summary = "Measure decisions without applying them.";
        description = "On records suggestions while preserving ordinary behavior.";
        conservative_values = bool true ∷ [];
        origin_note = "Consumed by the hub's per-turn decisions policy.";
      }

abbrev decision_capabilities : SettingDef
decision_capabilities =
    record (entry namespace "decision_capabilities" SettingType.bool (bool true) use_default
      existing) {
        summary = "Preload relevant available capabilities.";
        description = "Only when decisions are enabled. Never executes tools or grants permission.";
        conservative_values = bool true ∷ [];
        origin_note = "Consumed by the hub's per-turn decisions policy.";
      }

abbrev decision_memory : SettingDef
decision_memory =
    record (entry namespace "decision_memory" SettingType.bool (bool true) use_default existing) {
      summary = "Rank trusted memory topics by relevance.";
      description = "Only when decisions are enabled. Incognito sends no memories.";
      conservative_values = bool true ∷ [];
      origin_note = "Consumed by the hub's per-turn decisions policy.";
    }

abbrev decision_recovery : SettingDef
decision_recovery =
    record (entry namespace "decision_recovery" SettingType.bool (bool false) use_default
      existing) {
        summary = "Suggest a new approach after repeated failures.";
        description = "Advisory only. Existing loop limits and approvals remain in force.";
        conservative_values = bool false ∷ [];
        origin_note = "Consumed by the hub's per-turn decisions policy.";
      }

abbrev decision_claims : SettingDef
decision_claims =
    record (entry namespace "decision_claims" SettingType.bool (bool true) use_default existing) {
      summary = "Catch a reply that claims work no step did, in any wording.";
      description = "Only when decisions are enabled. Otherwise replies go out unchecked.";
      conservative_values = bool true ∷ [];
      origin_note = "Consumed by the hub's per-turn decisions policy.";
    }

abbrev decision_keeping : SettingDef
decision_keeping =
    record (entry namespace "decision_keeping" SettingType.bool (bool true) use_default existing) {
      summary = "Notice when something worth keeping was said and nothing kept it.";
      description =
          "Only when decisions are enabled. It can only prompt the assistant to consider keeping it; the memory write policy and approvals still decide whether it is kept.";
      conservative_values = bool true ∷ bool false ∷ [];
      origin_note = "Consumed by the hub's per-turn decisions policy.";
    }

abbrev decision_timeout_ms : SettingDef
decision_timeout_ms =
    record (entry namespace "decision_timeout_ms" SettingType.int (int (pos 1000)) use_default
      existing) {
        summary = "Maximum wait for one decision in milliseconds.";
        description =
            "Exhaustion uses ordinary behavior; helpers do not call the decision service.";
        minimum = some (pos 50);
        maximum = some (pos 5000);
        operator_clampable = true;
        conservative_values = int (pos 1000) ∷ [];
        origin_note = "Consumed by the hub's per-turn decisions policy.";
      }

abbrev decision_max_per_turn : SettingDef
decision_max_per_turn =
    record (entry namespace "decision_max_per_turn" SettingType.int (int (pos 8)) use_default
      existing) {
        summary = "Maximum decision calls in one main turn.";
        description =
            "Exhaustion uses ordinary behavior; helpers do not call the decision service.";
        minimum = some (pos 1);
        maximum = some (pos 32);
        operator_clampable = true;
        conservative_values = int (pos 8) ∷ [];
        origin_note = "Consumed by the hub's per-turn decisions policy.";
      }

abbrev pub settings : List SettingDef
settings =
    decisions ∷ decision_shadow_mode ∷ decision_capabilities ∷ decision_memory ∷ decision_recovery
    ∷ decision_claims ∷ decision_keeping ∷ decision_timeout_ms ∷ decision_max_per_turn ∷ []
