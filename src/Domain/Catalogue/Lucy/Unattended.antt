-- ===== src/Domain/Catalogue/Lucy/Unattended.antt =====
-- domain/catalogue/lucy/unattended.py: the entries of the `lucy` namespace that this file declares.
use settings_api.Prelude.{List, [], ◌∷◌, some, true, false}
use settings_api.Prelude.Int.{pos}
use settings_api.Domain.Value.{bool, int, str}
use settings_api.Domain.Types.{
  SettingDef, SettingType, existing, profile, refuse, use_default, with_approval,
}
use settings_api.Domain.Catalogue.Entry.{entry}
use settings_api.Domain.Catalogue.Lucy.Namespace.{namespace}

abbrev act_unattended : SettingDef
act_unattended =
    record (entry namespace "act_unattended" SettingType.bool (bool true) refuse existing) {
      summary = "Whether a turn Lucy opens on her own may act for you, or only report.";
      description =
          "On, a watch or check-in that wakes the conversation records standing consent you can see and revoke, so the turn it opens can finish what you asked -- merge the pull request once CI is green. Off, that turn says what happened and asks before doing anything.\n\nOn is what Lucy always did, and it is the permissive value, so an outage refuses rather than guessing: a turn that cannot read this does not act. No assistant may change it, with approval or without.";
      scope = profile;
      origin_note =
          "The hub reads it into TurnPolicy.act_unattended. Off, a watch or check-in records no standing consent, consent recorded before it was turned off is not used, and the tool result tells the model the woken turn may only report. Refused, it reads as off.";
    }

abbrev quiet_hours : SettingDef
quiet_hours = record (entry namespace "quiet_hours" SettingType.str (str "") use_default existing) {
  summary = "Hours, on your clock, when Lucy opens no turn on her own.";
  description =
      "`HH:MM-HH:MM` in your time zone, and it may wrap midnight: `23:00-07:00`. Empty means none. An ending inside the window is still announced where you can see it; only the turn that tells you waits until the window closes, and it survives a restart.\n\nA window whose start and end are the same minute is no window -- 'quiet all day' is `wake_by_default` turned off. An outage falls back to none: a message that arrives at night is an annoyance, and one that never arrives is the failure.";
  scope = profile;
  max_chars = some (pos 11);
  pattern = some "^$|^([01]\\d|2[0-3]):[0-5]\\d-([01]\\d|2[0-3]):[0-5]\\d$";
  agent_writable = with_approval;
  conservative_values = str "" ∷ [];
  origin_note =
      "The hub reads it into TurnPolicy.quiet_hours, on the person's `common.timezone`. A wake inside the window is held back as a durable check-in due when it closes; the ending's event and live-block line still go out at once.";
}

abbrev wake_by_default : SettingDef
wake_by_default =
    record (entry namespace "wake_by_default" SettingType.bool (bool true) use_default existing) {
      summary = "Whether a watch wakes the conversation when it fires, unless told otherwise.";
      description =
          "Off, a fired watch waits for the next time you talk, and its result is in the live block then. A watch the model starts with `wake` on still wakes, because you asked for that one.\n\nBoth values are safe to land on: neither grants anything, and a woken turn is still bound by `act_unattended` and `quiet_hours`.";
      scope = profile;
      agent_writable = with_approval;
      conservative_values = bool true ∷ bool false ∷ [];
      origin_note =
          "The hub reads it into TurnPolicy.wake_by_default, as what `watch.start` and `repos.watch` do when the model passes no `wake`; the schema says which default applies.";
    }

abbrev watch_default_minutes : SettingDef
watch_default_minutes =
    record (entry namespace "watch_default_minutes" SettingType.int (int (pos 5)) use_default
      existing) {
        summary = "How long a watch keeps looking when nobody said how long.";
        description =
            "A watch never lives past an hour. Expiry is a notice, not a failure: the watch says it stopped looking and what it last saw.\n\nFive minutes is what Lucy always did, and the shorter side is the safe one: a watch that expires early reports and does nothing extra.";
        scope = profile;
        minimum = some (pos 1);
        maximum = some (pos 60);
        operator_clampable = true;
        agent_writable = with_approval;
        conservative_values = int (pos 5) ∷ [];
        origin_note =
            "The hub reads it into TurnPolicy.watch_default_minutes, as the lifetime of a `watch.start` that names no `for_seconds`. Repository watches have their own default, `github.watch_default_hours`.";
      }

abbrev pub settings : List SettingDef
settings = act_unattended ∷ quiet_hours ∷ wake_by_default ∷ watch_default_minutes ∷ []
