-- ===== src/Domain/Catalogue/Lucy/Recall.antt =====
-- domain/catalogue/lucy/recall.py: the entries of the `lucy` namespace that this file declares.
use settings_api.Prelude.{List, [], ◌∷◌, some, true, false}
use settings_api.Prelude.Int.{pos}
use settings_api.Domain.Value.{bool, int, str}
use settings_api.Domain.Types.{SettingDef, SettingType, existing, profile, use_default}
use settings_api.Domain.Catalogue.Entry.{entry}
use settings_api.Domain.Catalogue.Lucy.Namespace.{namespace}

abbrev memory_write_policy : SettingDef
memory_write_policy =
    record (entry namespace "memory_write_policy" SettingType.enum (str "ask_first") use_default
      existing) {
        summary = "Whether Lucy may remember something about you without being asked.";
        description =
            "`never` means only an explicit 'remember this' writes anything. `automatic` lets Lucy keep what it judges worth keeping, and you can read and correct all of it afterwards. Falling back to `ask_first` during an outage records less than you chose, never more, which is the direction a fallback should fail in.";
        choices = "never" ∷ "ask_first" ∷ "automatic" ∷ [];
        conservative_values = str "never" ∷ str "ask_first" ∷ [];
        origin_note =
            "The hub refuses notes.setFact and notes.remember when this is never, even with a grant. automatic lets those writes through in ask mode. Confirm, correct and forget are unchanged.";
      }

abbrev memory_retrieval_limit : SettingDef
memory_retrieval_limit =
    record (entry namespace "memory_retrieval_limit" SettingType.int (int (pos 12)) use_default
      existing) {
        summary = "How many remembered facts Lucy may bring into one conversation.";
        description =
            "Zero means Lucy still knows the topic index -- what it knows *about* -- but pulls nothing in until you ask. Higher numbers cost context and can bury the useful memories among the merely related ones.";
        minimum = some (pos 0);
        maximum = some (pos 100);
        operator_clampable = true;
        conservative_values = int (pos 12) ∷ [];
        origin_note = "The hub's live memory index is capped at this many topics per turn.";
      }

abbrev incognito : SettingDef
incognito =
    record (entry namespace "incognito" SettingType.bool (bool false) use_default existing) {
      summary = "Start conversations that neither read your memories nor write any.";
      description =
          "A conversation still works: Lucy simply does not bring anything it has learned about you into it, and keeps nothing from it afterwards. The transcript is still stored, because you asked for a conversation and not for a disappearing one -- delete the session to be rid of that too.";
      scope = profile;
      conservative_values = bool false ∷ [];
      origin_note = "The hub applies this as the default on a new session when create omits it.";
    }

abbrev log_message_content : SettingDef
log_message_content =
    record (entry namespace "log_message_content" SettingType.bool (bool false) use_default
      existing) {
        summary = "Whether what you say is written to the operational log.";
        description =
            "Off means the log records counts, shapes and timings and never a sentence you wrote. On is for debugging your own deployment, and it puts your conversations wherever those logs go. Falling back to off records less, never more.";
        conservative_values = bool false ∷ [];
        origin_note =
            "The hub unredacts message-content fields on log lines for the duration of a turn when this is on. File contents, memory bodies and tool results stay out.";
      }

abbrev pub settings : List SettingDef
settings = memory_write_policy ∷ memory_retrieval_limit ∷ incognito ∷ log_message_content ∷ []
