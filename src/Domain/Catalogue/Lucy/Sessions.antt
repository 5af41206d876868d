-- ===== src/Domain/Catalogue/Lucy/Sessions.antt =====
-- domain/catalogue/lucy/sessions.py: the entries of the `lucy` namespace that this file declares.
use settings_api.Prelude.{List, [], ◌∷◌, some, true, false}
use settings_api.Prelude.Int.{pos}
use settings_api.Domain.Value.{bool, int, str}
use settings_api.Domain.Types.{
  SettingDef, SettingType, account, existing, freely, profile, use_default, with_approval,
}
use settings_api.Domain.Catalogue.Entry.{entry}
use settings_api.Domain.Catalogue.Lucy.Namespace.{namespace}

abbrev input_policy : SettingDef
input_policy =
    record (entry namespace "input_policy" SettingType.enum (str "enqueue") use_default existing) {
      summary = "What happens when you say something while Lucy is still working.";
      description =
          "`enqueue` finishes the current turn and then reads what you said. `interrupt` stops, keeps the progress, and takes the new message. `rollback` discards the turn. `reject` refuses the second message.\n\nThis needs an answer because a web page, a command line and another agent can all be in one conversation at once; left to emerge, the result is an interleaved transcript nobody can read.";
      scope = profile;
      choices = "reject" ∷ "enqueue" ∷ "interrupt" ∷ "rollback" ∷ [];
      conservative_values = str "enqueue" ∷ [];
      origin_note = "The hub applies this as the default on a new session when create omits it.";
    }

abbrev auto_title : SettingDef
auto_title =
    record (entry namespace "auto_title" SettingType.bool (bool true) use_default existing) {
      summary = "Whether a conversation gets a title written from what it is about.";
      description =
          "On, the first exchange is turned into a short title so a list of sessions reads as a list of subjects rather than of timestamps. Off, a session keeps the time it started until you name it yourself.\n\nThe title is derived from the conversation, so it is one more short piece of text about you, stored where the session is stored and destroyed with it. Neither value is a restriction against the other, which is why both are safe to land on: a session that acquired a title during an outage can be renamed, and one that did not can be titled later.";
      scope = profile;
      agent_writable = with_approval;
      conservative_values = bool true ∷ bool false ∷ [];
      origin_note =
          "The hub titles an untitled parent session from the first user message once the turn completes.";
    }

abbrev session_idle_archive_days : SettingDef
session_idle_archive_days =
    record (entry namespace "session_idle_archive_days" SettingType.int (int (pos 30)) use_default
      existing) {
        summary = "How long a conversation sits idle before it is archived. Zero means never.";
        description =
            "Archiving is about the list, not the data: an archived session is out of the way, still searchable and still openable. Nothing is deleted by this setting and nothing can be -- deleting a conversation is something you do deliberately, and a number in a settings page is not that.\n\nZero keeps everything in front of you, which is the honest default for somebody who has not thought about it. Both zero and the default are safe to fall back to for the same reason: neither destroys anything, so the worst an outage can do here is leave a list untidy.";
        scope = profile;
        minimum = some (pos 0);
        maximum = some (pos 3650);
        operator_clampable = true;
        conservative_values = int (pos 0) ∷ int (pos 30) ∷ [];
        origin_note =
            "The hub archives quiet conversations as they are listed, using updated_at. A live or parked turn is never treated as idle. Zero days means never.";
      }

abbrev workspace_retention_hours : SettingDef
workspace_retention_hours =
    record (entry namespace "workspace_retention_hours" SettingType.int (int (pos 24)) use_default
      existing) {
        summary = "How long a conversation's files survive after it goes quiet.";
        description =
            "Reading a file does not count as activity in the service that holds it, so a long conversation can have its files reaped underneath it. Lucy keeps the sandbox alive while a session is open and warns you before this runs out.";
        scope = profile;
        minimum = some (pos 1);
        maximum = some (pos 720);
        operator_clampable = true;
        conservative_values = int (pos 24) ∷ [];
        origin_note =
            "The hub puts remaining seconds on the workspace live block from last activity plus this retention, so a long conversation can see the sandbox expiry coming.";
      }

abbrev stream_thinking : SettingDef
stream_thinking =
    record (entry namespace "stream_thinking" SettingType.bool (bool false) use_default existing) {
      summary = "Whether you see Lucy's reasoning as it happens.";
      description =
          "Off by default because reasoning is working-out rather than an answer, and reading it as though it were an answer is misleading. Turning it on does not change what Lucy does, only what you watch.";
      scope = profile;
      conservative_values = bool false ∷ [];
      origin_note = "The hub streams reasoning events only when this is on.";
    }

abbrev notify_on_long_turn : SettingDef
notify_on_long_turn =
    record (entry namespace "notify_on_long_turn" SettingType.bool (bool true) use_default
      existing) {
        summary = "Whether to say so when a turn is taking a long time.";
        description =
            "On, a turn that passes `long_turn_seconds` says what it is doing and roughly how far along it is, so a long wait is a long wait rather than a silence you have to decide about. Off, it simply arrives when it arrives.\n\nOn is conservative: a notice somebody did not want is an annoyance, and abandoning a turn that was nearly finished because nothing said so is the failure this exists to prevent.";
        scope = profile;
        agent_writable = freely;
        conservative_values = bool true ∷ [];
        origin_note = "The hub emits lucy.turn.slow after this many seconds of a running turn.";
      }

abbrev long_turn_seconds : SettingDef
long_turn_seconds =
    record (entry namespace "long_turn_seconds" SettingType.int (int (pos 60)) use_default
      existing) {
        summary = "How long a turn runs before it counts as a long one.";
        description =
            "Only meaningful with `notify_on_long_turn` on. Sixty seconds is roughly where a person stops assuming the answer is nearly there and starts wondering whether anything is happening.\n\nLower it if you would rather hear early and often; raise it if the work you do is routinely slow and the notices have become noise. It says nothing about when a turn is stopped -- that is `max_turn_seconds`, and this one only talks.";
        scope = profile;
        minimum = some (pos 5);
        maximum = some (pos 3600);
        agent_writable = freely;
        conservative_values = int (pos 60) ∷ [];
        origin_note = "The hub waits this many seconds before emitting lucy.turn.slow.";
      }

abbrev delete_archived_sessions_after_days : SettingDef
delete_archived_sessions_after_days =
    record (entry namespace "delete_archived_sessions_after_days" SettingType.int (int (pos 0))
      use_default existing) {
        summary =
            "How many days an archived conversation is kept before it is deleted. 0 is never.";
        description =
            "Archiving only hides a conversation; this is for when you want old transcripts actually gone. Deletion cannot be undone: the transcript, its files and its workspace folder go. Memories are kept, because they are yours to manage separately.\n\nOnly a conversation archived that long *and* untouched that long is deleted, and never one with anything still running. Zero, the default and what an outage lands on, deletes nothing. One value for the account, because conversations are listed across every profile at once. No assistant may change it.";
        scope = account;
        minimum = some (pos 0);
        maximum = some (pos 3650);
        operator_clampable = true;
        conservative_values = int (pos 0) ∷ [];
        origin_note =
            "The hub reads it when conversations are listed (sessions/retention.py): it deletes at most ten per listing, each archived and untouched for this many days, never one with an unfinished turn, a running helper or a waiting watch. Each deletion is audited, and the conversation's files and workspace folder go too.";
      }

abbrev pub settings : List SettingDef
settings =
    input_policy ∷ auto_title ∷ session_idle_archive_days ∷ workspace_retention_hours
    ∷ stream_thinking ∷ notify_on_long_turn ∷ long_turn_seconds
    ∷ delete_archived_sessions_after_days ∷ []
