-- ===== src/Domain/Catalogue/User.antt =====
-- domain/catalogue/user.py: the entries of the `user` namespace, with their prose.
use settings_api.Prelude.{String, List, [], ◌∷◌, some, true, false}
use settings_api.Prelude.Int.{pos}
use settings_api.Domain.Value.{null, bool, int, str}
use settings_api.Domain.Types.{SettingDef, SettingType, existing, use_default}
use settings_api.Domain.Catalogue.Entry.{entry}

abbrev pub namespace : String
namespace = "user"

abbrev erasure_mode : SettingDef
erasure_mode =
    record (entry namespace "erasure_mode" SettingType.enum (str "grace") use_default existing) {
      summary = "What deleting one entry actually does: schedule it, destroy it, or keep a mark.";
      description =
          "`grace` hides it immediately and destroys the bytes after `grace_days`. `immediate` destroys it inside the request, with no recovery. `tombstone` hides it and never destroys it, for people who would rather keep the record of what they changed their mind about.\n\n**Changes are never retroactive.** Switching to `immediate` does not destroy what is already waiting out a grace period, and switching away from `tombstone` does not schedule what is already tombstoned. A settings change that silently destroyed data would be the worst surprise this family could produce.\n\nBoth `grace` and `tombstone` are safe to fall back to, because neither destroys anything during the outage. `immediate` is not, which is the whole content of this entry's conservative set: a future change of default must stay inside it.";
      choices = "grace" ∷ "immediate" ∷ "tombstone" ∷ [];
      conservative_values = str "grace" ∷ str "tombstone" ∷ [];
      origin_note = "user-api's `ErasureMode`, behind its `SettingsStore` port since day one.";
    }

abbrev grace_days : SettingDef
grace_days =
    record (entry namespace "grace_days" SettingType.int (int (pos 30)) use_default existing) {
      summary = "How long a deleted entry stays recoverable before its bytes are destroyed.";
      description =
          "Only meaningful when `erasure_mode` is `grace`. Thirty days is long enough to notice a mistake and short enough that 'deleted' still means something. Zero means the next sweep destroys it, which is close to `immediate` without being it -- the difference is whether the bytes go inside the request.\n\nThis setting is the reason storage here is sparse rather than dense. user-api shipped a defect where the row-creating write filled in the *domain* default instead of the *deployment* default, so an account on a seven-day deployment whose first ever settings change was something else silently acquired a thirty-day window. Storing only what somebody actually chose makes that unrepresentable -- see ADR-0005.";
      minimum = some (pos 0);
      maximum = some (pos 365);
      operator_clampable = true;
      conservative_values = int (pos 30) ∷ [];
      origin_note = "user-api's `grace_days`, and its deployment-wide `default_grace_days`.";
    }

abbrev log_values : SettingDef
log_values =
    record (entry namespace "log_values" SettingType.bool (bool false) use_default existing) {
      summary = "Whether user-api's change log keeps the old value when something changes.";
      description =
          "Off by default, and this is a privacy decision rather than a storage one. The event log is a second copy of the personal data: 'changed diagnosis from X to Y' *is* the sensitive fact, and an event recording it would survive the purge of the entry it describes unless something went looking.\n\nTurned on, the old value is kept and is purged along with its entry, so the promise still holds -- it is just doing more work. Off is the conservative value and the one an outage lands on: a log that recorded nothing is recoverable by asking the person, and a log that recorded something it should not have is not.";
      conservative_values = bool false ∷ [];
      origin_note = "user-api's `log_values`, default false.";
    }

abbrev default_write_scope : SettingDef
default_write_scope =
    record (entry namespace "default_write_scope" SettingType.str null use_default existing) {
      summary = "Which compartment a new entry lands in when the writer does not say.";
      description =
          "Null means unscoped, which is what user-api does today: an entry with no scope is readable by every valid token. Naming a scope here makes new entries land in that compartment instead, for somebody who would rather the default were narrow.\n\nIt can only ever *narrow*: a token still cannot write to a scope it does not grant, so setting this to a scope an assistant's token lacks makes that assistant's writes fail rather than making them privileged. Null is the conservative value because it is what every existing entry already assumes, so an outage cannot silently change where writes land.\n\nIt applies when a write leaves `scopes` out; an explicit empty list is the writer choosing unscoped and is respected. It also applies when `set_field` replaces a field, because a replace sets the field's scopes, and not to `revise_entry`, where leaving scopes out leaves them alone. A scope the deployment does not configure behaves like one the token lacks.";
      nullable = true;
      max_chars = some (pos 32);
      pattern = some "^[a-z][a-z0-9_]*$";
      conservative_values = null ∷ [];
      origin_note =
          "user-api reads it per request: a set_field or write_note that omits `scopes` lands in this compartment, held to the token's own scope like a named one; `scopes: []` still means unscoped.";
    }

abbrev max_pinned : SettingDef
max_pinned =
    record (entry namespace "max_pinned" SettingType.int (int (pos 40)) use_default existing) {
      summary = "How many entries may be in the block loaded at the start of every conversation.";
      description =
          "The always-load set is a token budget before it is a preference: every pinned entry is bytes on every conversation this person has. Lowering it is how somebody says 'load less about me by default'.\n\nA person may lower the operator's cap and may never raise it, which is the general rule for every cap here. A deployment that serves a smaller context narrows it in policy, and `describe_settings` then reports the narrowed maximum rather than this one.";
      minimum = some (pos 1);
      maximum = some (pos 40);
      operator_clampable = true;
      conservative_values = int (pos 40) ∷ [];
      origin_note = "user-api's `max_pinned`, default 40.";
    }

abbrev search_default_limit : SettingDef
search_default_limit =
    record (entry namespace "search_default_limit" SettingType.int (int (pos 20)) use_default
      existing) {
        summary = "How many entries a recall returns when the caller does not ask for a number.";
        description =
            "More context loaded by default against a larger prompt, or less to read and more round trips. The maximum here is user-api's own `search_max_limit`, not a number chosen here.\n\nThe counterpart of `persona.recall_default_limit`, and present for the same reason: the two services ask a person the same question about two different records, and leaving one of them deployment-wide while the other is personal would be an inconsistency nobody could explain.";
        minimum = some (pos 1);
        maximum = some (pos 100);
        operator_clampable = true;
        conservative_values = int (pos 20) ∷ [];
        origin_note = "user-api's `search_default_limit`, bounded above by its `search_max_limit`.";
      }

abbrev pub settings : List SettingDef
settings =
    erasure_mode ∷ grace_days ∷ log_values ∷ default_write_scope ∷ max_pinned ∷ search_default_limit
    ∷ []
