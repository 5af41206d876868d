-- ===== src/Domain/Catalogue/Lucy/Permissions.antt =====
-- domain/catalogue/lucy/permissions.py: the entries of the `lucy` namespace that this file declares.
use settings_api.Prelude.{List, [], ◌∷◌, some, true, false}
use settings_api.Prelude.Int.{pos}
use settings_api.Domain.Value.{bool, str, str_list}
use settings_api.Domain.Types.{SettingDef, SettingType, existing, profile, refuse, use_default}
use settings_api.Domain.Catalogue.Entry.{entry}
use settings_api.Domain.Catalogue.Lucy.Namespace.{namespace}

abbrev permission_mode : SettingDef
permission_mode =
    record (entry namespace "permission_mode" SettingType.enum (str "ask") use_default existing) {
      summary = "Whether Lucy asks before doing something that changes the world.";
      description =
          "`ask` checks anything not already granted. `accept_edits` grants workspace writes and asks about everything else. `plan` is read-only and refuses every write with a sentence saying so. `auto` allows everything and asks nothing -- explicit opt-in, and every event records that the mode was `auto`, because a decision nobody was asked about should at least be one somebody can find.\n\nFalling back to `ask` during an outage means more prompts, never fewer.";
      scope = profile;
      choices = "ask" ∷ "accept_edits" ∷ "plan" ∷ "auto" ∷ [];
      conservative_values = str "ask" ∷ str "plan" ∷ [];
      origin_note =
          "The hub applies this as the default on a new session when create omits it. The session row is the live value after that.";
    }

abbrev approval_policy : SettingDef
approval_policy =
    record (entry namespace "approval_policy" SettingType.enum (str "destructive_always_asks")
      refuse existing) {
        summary = "The things Lucy must ask about no matter what else you have allowed.";
        description =
            "This is a floor, not a preference: it is what `auto` cannot switch off. Something irreversible always gets a question.\n\nIt refuses rather than falling back, and that is deliberate. Every other setting here has a safe default to land on during an outage; this one's job is to be the last thing standing, so a settings outage must not be a way to find out what happens when it is absent.";
        choices = "destructive_always_asks" ∷ "spend_and_destructive_ask" ∷ [];
        origin_note =
            "The hub refuses the turn when this cannot be confirmed, rather than guessing the floor.";
      }

abbrev confirm_outward_actions : SettingDef
confirm_outward_actions =
    record (entry namespace "confirm_outward_actions" SettingType.bool (bool true) use_default
      existing) {
        summary = "Whether anything other people will see is confirmed before it happens.";
        description =
            "Sending a message, posting something, adding to a shared playlist, writing to a repository somebody else reads. These are the actions whose cost is not technical: an unwanted file is deleted and forgotten, and an unwanted message has been read by the time you notice.\n\nOn asks first, whatever `permission_mode` says -- it is a question about where the effect lands rather than about which tool produced it, so `auto` does not switch it off. Off is for somebody running unattended work who has accepted that. On is conservative and is what an outage lands on: more questions, never fewer.";
        scope = profile;
        conservative_values = bool true ∷ [];
        origin_note =
            "The hub asks before an outward write even in auto, unless a grant already allows it. Plan mode still refuses writes.";
      }

abbrev enabled_capabilities : SettingDef
enabled_capabilities =
    record (entry namespace "enabled_capabilities" SettingType.str_list (str_list []) use_default
      existing) {
        summary = "Capabilities to offer even when they are not connected yet.";
        description =
            "Empty means Lucy offers whatever is connected and stays quiet about the rest. Naming one here makes Lucy mention it and offer to set it up.";
        max_items = some (pos 32);
        max_item_chars = some (pos 48);
        conservative_values = str_list [] ∷ [];
        origin_note =
            "The hub names these in the model prompt when they are disconnected; the HTTP catalogue still lists every pack.";
      }

abbrev disabled_capabilities : SettingDef
disabled_capabilities =
    record (entry namespace "disabled_capabilities" SettingType.str_list (str_list []) refuse
      existing) {
        summary = "Capabilities to hide completely, connected or not.";
        description =
            "A disabled capability is not offered and not mentioned. Lucy is told it is switched off rather than simply not seeing it, so that it stops suggesting the thing instead of forgetting the thing exists.\n\n**This refuses rather than falling back.** An empty list is the default because that is how Lucy works at all, so landing on it during an outage would re-enable something the person turned off -- and nobody would find out, because the turn would succeed.";
        max_items = some (pos 32);
        max_item_chars = some (pos 48);
        origin_note = "The hub hides a listed capability from tools. An outage refuses the turn.";
      }

abbrev claude_code_delegation : SettingDef
claude_code_delegation =
    record (entry namespace "claude_code_delegation" SettingType.bool (bool false) use_default
      existing) {
        summary = "Whether Lucy may hand a whole task to Claude Code on your machine.";
        description =
            "On, Lucy can delegate a task you asked for to a real Claude Code session on this machine -- in the folders you list, at the run level you choose, and only ever after you approve each task on its own card. Off, the capability is absent, and Lucy can only tell you where to turn it on.\n\nEach delegated session runs with your own Claude Code login and spends your own Claude budget, which is why every switch here is yours alone.";
        scope = profile;
        conservative_values = bool false ∷ [];
        origin_note =
            "The hub's coder capability reads it. Off, the capability reports disabled and tells Lucy it is the person's switch. An outage lands on off, never more. No assistant may change it, with approval or without: a model that could turn it on could hand itself the person's computer.";
      }

abbrev claude_code_directories : SettingDef
claude_code_directories =
    record (entry namespace "claude_code_directories" SettingType.str_list (str_list []) use_default
      existing) {
        summary = "The folders on your machine a delegated Claude Code task may work in.";
        description =
            "Absolute paths, one per entry. A task runs in exactly one of them -- Lucy asks when a request does not say which -- and a folder not on this list is refused outright, however the task was worded. The list is yours alone to edit; Lucy can read it to say where she may work, and nothing more.";
        scope = profile;
        max_items = some (pos 16);
        max_item_chars = some (pos 256);
        conservative_values = str_list [] ∷ [];
        origin_note =
            "The hub refuses a delegation whose directory is not listed here, before anything reaches the bridge. Empty means delegation is off even when the switch above is on. An outage lands on empty.";
      }

abbrev claude_code_run_level : SettingDef
claude_code_run_level =
    record (entry namespace "claude_code_run_level" SettingType.enum (str "edits") use_default
      existing) {
        summary = "The most a delegated Claude Code task may do without asking anyone.";
        description =
            "`plan` is read-only: the task explores and reports, and changes nothing. `ask` is Claude Code's own default: anything that needs permission is refused and brought back to you, and Lucy asks you on a card before letting it. `edits` lets it edit files in its folder on its own and asks about everything beyond that -- the default, and the sensible place to start. `full` lets it run commands and act without further prompts, which is for folders you would trust a contractor alone in.\n\nThis is a ceiling: Lucy may plan first at a more careful level and carry the plan out at yours, never above it. Lucy may never change it, with approval or without.";
        scope = profile;
        choices = "plan" ∷ "ask" ∷ "edits" ∷ "full" ∷ [];
        conservative_values = str "plan" ∷ str "ask" ∷ str "edits" ∷ [];
        origin_note =
            "A ceiling, in the order plan < ask < edits < full: Lucy may run a turn at this level or a more careful one -- plan first, then carry the plan out -- never looser. The bridge maps each to the claude CLI's permission mode: plan, default, acceptEdits, bypassPermissions. The card names the level of every turn. An outage falls no looser than edits.";
      }

abbrev pub settings : List SettingDef
settings =
    permission_mode ∷ approval_policy ∷ confirm_outward_actions ∷ enabled_capabilities
    ∷ disabled_capabilities ∷ claude_code_delegation ∷ claude_code_directories
    ∷ claude_code_run_level ∷ []
