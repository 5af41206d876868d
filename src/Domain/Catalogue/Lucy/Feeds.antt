-- ===== src/Domain/Catalogue/Lucy/Feeds.antt =====
-- domain/catalogue/lucy/feeds.py: the three switches of the feeds, and the toggles built from its two tables.
use settings_api.Prelude.{String, ◌<>◌, ◌++◌, map, Bool, List, [], ◌∷◌, true, false}
use settings_api.Domain.Value.{Value, bool}
use settings_api.Domain.Types.{
  SettingDef, SettingType, existing, never, profile, use_default, with_approval,
}
use settings_api.Domain.Catalogue.Entry.{entry}
use settings_api.Domain.Catalogue.Lucy.Namespace.{namespace}

abbrev prompt_feeds_enabled : SettingDef
prompt_feeds_enabled =
    record (entry namespace "prompt_feeds_enabled" SettingType.bool (bool true) use_default
      existing) {
        summary = "Whether sibling feeds appear in the prompt at all.";
        description =
            "Off removes persona notes, now-playing, the workspace shell, everything a sibling publishes for the model to see. Tool results still arrive; this only governs the standing and live blocks.\n\nBoth values are conservative because neither is a restriction the person expressed against the other: falling back to on during an outage shows what Lucy shows today, and a person who turned this off still has the per-capability switches.";
        scope = profile;
        agent_writable = with_approval;
        conservative_values = bool true ∷ bool false ∷ [];
        origin_note =
            "The hub reads this at prepare_turn as the master feed switch. Keep the key in lockstep with lucy_api.context.policy.MASTER; catalogue modules cannot import the hub.";
      }

abbrev prompt_hide_personal_feeds : SettingDef
prompt_hide_personal_feeds =
    record (entry namespace "prompt_hide_personal_feeds" SettingType.bool (bool true) use_default
      existing) {
        summary = "Whether incognito hides feeds marked as personal.";
        description =
            "On, an incognito session does not show who you are, what is playing, or the workspace you left open. Off still does not log those lines.\n\nOn is the conservative value and the one an outage lands on: hiding more during a settings outage is recoverable, and showing a personal line the person turned off is not.";
        agent_writable = with_approval;
        conservative_values = bool true ∷ [];
        origin_note =
            "The hub reads this at prepare_turn. Keep the key in lockstep with lucy_api.context.policy.HIDE_PERSONAL.";
      }

abbrev prompt_allow_unknown_feed_fields : SettingDef
prompt_allow_unknown_feed_fields =
    record (entry namespace "prompt_allow_unknown_feed_fields" SettingType.bool (bool false)
      use_default existing) {
        summary = "Whether a sibling may introduce feed keys Lucy does not already know.";
        description =
            "Off, a new key is dropped. That is the shape of a prompt injection from a compromised sibling: a field Lucy never declared, carrying an instruction.\n\nAn assistant may never turn this on. Off is conservative and is what an outage lands on.";
        agent_writable = never;
        conservative_values = bool false ∷ [];
        origin_note =
            "The hub reads this at prepare_turn. Keep the key in lockstep with lucy_api.context.policy.ALLOW_UNKNOWN.";
      }

abbrev switches : List SettingDef
switches = prompt_feeds_enabled ∷ prompt_hide_personal_feeds ∷ prompt_allow_unknown_feed_fields ∷ []

abbrev feed_caps : List String
feed_caps = "account" ∷ "persona" ∷ "music" ∷ "workspace" ∷ "research" ∷ []

-- A row of `_FEED_FIELDS`: capability, key, default and summary.
abbrev FeedField : Type 0
FeedField = String × String × Bool × String

abbrev feed_fields : List FeedField
feed_fields =
    ("account", "pinned", true, "Pinned fields and notes the person asked to keep in view.")
    ∷ ("persona", "identity", true, "Who you are, in this profile.")
    ∷ ("persona", "notes", true, "Pinned notes about the person.")
    ∷ ("music", "now_playing", true, "What is playing, and how far in.")
    ∷ ("music", "device", true, "The speaker or computer audio is coming from.")
    ∷ ("music", "shuffled", true, "Whether the queue is shuffled.")
    ∷ ("music", "repeat", true, "Whether the queue or track repeats.")
    ∷ ("music", "queue_head", false, "What is lined up next.")
    ∷ ("workspace", "cwd", true, "The current directory inside the workspace.")
    ∷ ("workspace", "shell", true, "Which shell is running.")
    ∷ ("workspace", "pid", true, "The running shell's process id.")
    ∷ ("workspace", "shells_running", true, "How many shells are open right now.")
    ∷ ("workspace", "sandbox", true, "How isolated the workspace is.")
    ∷ ("workspace", "git_branch", true, "The current git branch, if there is one.")
    ∷ ("workspace", "last_command", false, "The last command that ran, without its output.")
    ∷ ("research", "backend", false, "Which search backend is in force.")
    ∷ []

abbrev flag_conservative : Bool → List Value
flag_conservative false = bool false ∷ []
flag_conservative true = bool true ∷ bool false ∷ []

abbrev feed_flag : String → Bool → String → String → SettingDef
feed_flag key default summary description =
    record (entry namespace key SettingType.bool (bool default) use_default existing) {
      agent_writable = with_approval;
      conservative_values = flag_conservative default;
      origin_note = "The hub applies this as a prompt-feed toggle at prepare_turn.";
      scope = profile;
      summary = summary;
      description = description;
    }

abbrev cap_toggle : String → SettingDef
cap_toggle capability =
    feed_flag ("feeds_" <> capability) true
      ("Whether the " <> (capability <> " feed appears in the prompt."))
      ("Off hides every "
        <> (capability
            <> " line, including ones left on individually. Lucy owns this switch so a sibling outage cannot put the lines back."))

abbrev field_toggle : FeedField → SettingDef
field_toggle (capability, key, default, summary) =
    feed_flag ("feeds_" <> (capability <> ("_" <> key))) default summary (
      "One line of the "
      <> (capability
          <> " feed. Off leaves the rest of that feed in place. Unknown keys from a sibling are dropped unless `prompt_allow_unknown_feed_fields` is on."))

abbrev feed_toggles : List SettingDef
feed_toggles = map cap_toggle feed_caps ++ map field_toggle feed_fields

abbrev pub settings : List SettingDef
settings = switches ++ feed_toggles
