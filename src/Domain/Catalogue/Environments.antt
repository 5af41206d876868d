-- ===== src/Domain/Catalogue/Environments.antt =====
-- domain/catalogue/environments.py: the entries of the `environments` namespace, with their prose.
use settings_api.Prelude.{String, List, [], ◌∷◌, some, true, false}
use settings_api.Prelude.Int.{pos}
use settings_api.Domain.Value.{bool, int, str}
use settings_api.Domain.Types.{SettingDef, SettingType, existing, profile, proposed, use_default}
use settings_api.Domain.Catalogue.Entry.{entry}

abbrev pub namespace : String
namespace = "environments"

abbrev idle_environment_hours : SettingDef
idle_environment_hours =
    record (entry namespace "idle_environment_hours" SettingType.int (int (pos 24)) use_default
      existing) {
        summary = "How long an environment nobody is using survives before it is torn down.";
        description =
            "An environment with no live shell and no activity for this long is reaped, and its files go with it. Hours rather than seconds, because this is a person's choice and seconds are a machine's unit; environments-api converts.\n\nThe maximum is a week, for somebody who leaves work half-finished over a weekend. Lowering it gives the box its disk back sooner.\n\nA day is the fallback rather than the short end, and the reason is that the two directions are not symmetrical here. Reaping early during an outage deletes somebody's unfinished work, which cannot be fetched again; keeping an idle sandbox a little longer than asked costs disk. A day is also what environments-api does today, so an outage changes nothing anybody relies on.";
        scope = profile;
        minimum = some (pos 1);
        maximum = some (pos 168);
        operator_clampable = true;
        conservative_values = int (pos 24) ∷ [];
        origin_note = "environments-api's `environment_idle_ttl_seconds`, default one day.";
      }

abbrev idle_shell_minutes : SettingDef
idle_shell_minutes =
    record (entry namespace "idle_shell_minutes" SettingType.int (int (pos 60)) use_default
      existing) {
        summary = "How long a shell nobody is using stays open before it is closed.";
        description =
            "Closing an idle shell ends the process running in it, not the environment's files: those follow `idle_environment_hours`. Minutes rather than seconds, for the same reason as its neighbour.\n\nLowering it makes sure a forgotten session does not sit on a shared machine with credentials injected into its environment. Raising it, up to a day, suits long commands that print nothing for a while.\n\nAn hour is the fallback because it is today's behaviour, and because a shell closed early by an outage would be a long build lost, which is the worse of the two directions.";
        scope = profile;
        minimum = some (pos 1);
        maximum = some (pos 1440);
        operator_clampable = true;
        conservative_values = int (pos 60) ∷ [];
        origin_note = "environments-api's `shell_idle_ttl_seconds`, default one hour.";
      }

abbrev max_environments_per_profile : SettingDef
max_environments_per_profile =
    record (entry namespace "max_environments_per_profile" SettingType.int (int (pos 5)) use_default
      existing) {
        summary = "How many environments this person may keep in one profile at once.";
        description =
            "The maximum is the operator's own per-profile cap rather than a number with meaning of its own: a person may lower it and never raise it, and the operator's per-account cap still applies across every profile on top.\n\nLowering it is how somebody stops an assistant from creating a fresh environment for every question instead of reusing the one it has.\n\nFalling back to the cap during an outage means environments-api behaves exactly as it does today. Nothing about this setting protects anybody's privacy, so landing on the cap weakens nothing.";
        minimum = some (pos 1);
        maximum = some (pos 5);
        operator_clampable = true;
        conservative_values = int (pos 5) ∷ [];
        origin_note = "environments-api's `max_environments_per_profile`.";
      }

abbrev default_shell : SettingDef
default_shell =
    record (entry namespace "default_shell" SettingType.enum (str "bash") use_default existing) {
      summary = "Which shell a new session starts.";
      description =
          "`sh` is for people whose scripts are meant to be portable and who want to find out when they are not. `bash` is what environments-api starts today.\n\nThe choices are deliberately two shells every sandbox image has. A free-text path would be a person choosing which binary runs inside the sandbox, which is the operator's decision. `bash` means the operator's configured shell, which is bash unless they chose otherwise, and an image without the chosen shell falls back to the deployment's own rather than failing the session.\n\n`bash` is the fallback because it is today's behaviour and the more capable of the two, so an outage never turns a working script into a failing one.";
      scope = profile;
      choices = "bash" ∷ "sh" ∷ [];
      conservative_values = str "bash" ∷ [];
      origin_note =
          "environments-api reads it when a shell opens. `sh` starts the deployment's `ENVAPI_SH_BINARY` (an operator who blanks it turns the choice off); `bash` starts `ENVAPI_SHELL_BINARY`. A chosen shell the host does not have falls back to `ENVAPI_SHELL_BINARY`, is logged, and the shell reports which binary ran.";
    }

abbrev persist_history : SettingDef
persist_history =
    record (entry namespace "persist_history" SettingType.bool (bool false) use_default proposed) {
      summary = "Whether a shell's command history survives the shell that wrote it.";
      description =
          "On would keep a shell's command history for the next session in the same environment. Off, nothing is kept beyond the service's own command records.\n\nOff is conservative: command history is a second copy of whatever was typed, including tokens pasted in a hurry, and an outage that started keeping it would be a record nobody asked for.";
      scope = profile;
      conservative_values = bool false ∷ [];
      origin_note =
          "Not read, and not implementable as described: environments-api's shells are non-interactive (commands are piped in, `HISTFILE` is empty), so bash records no history and sh has none. Persisting it would mean recording the framed command lines, injected credentials included. The service's own command records already outlive the shell until the environment is reset or pruned.";
    }

abbrev command_timeout_seconds : SettingDef
command_timeout_seconds =
    record (entry namespace "command_timeout_seconds" SettingType.int (int (pos 60)) use_default
      existing) {
        summary = "How long a command may run before the shell kills it, when nobody says.";
        description =
            "Five seconds is for people who want a hung install to fail fast. An hour is for a long build that prints nothing for a while. The request may still name a shorter or longer limit inside this range.\n\nOne minute is what the hub gives a command today and is therefore the fallback: an outage that shortened it would kill a build; an outage that lengthened it would leave a runaway process sitting on the box.";
        scope = profile;
        minimum = some (pos 5);
        maximum = some (pos 3600);
        operator_clampable = true;
        conservative_values = int (pos 60) ∷ [];
        origin_note =
            "Read by the LUCY hub, which gives it to a command that names no timeout, inside the hub's own ceiling of ten minutes. environments-api itself takes the timeout on each request and does not read this.";
      }

abbrev max_output_bytes : SettingDef
max_output_bytes =
    record (entry namespace "max_output_bytes" SettingType.int (int (pos 1048576)) use_default
      existing) {
        summary = "How much of a command's output may be captured and handed back.";
        description =
            "A ceiling on what Lucy will ever put in a tool result, not on what the process may print. Bytes beyond this are truncated with a count, never silently dropped.\n\nOne mebibyte is the fallback because it is a typical capture cap and because raising it during an outage would spend prompt on a log dump nobody asked to keep. The operator may still clamp this down on a small box.";
        minimum = some (pos 4096);
        maximum = some (pos 8388608);
        operator_clampable = true;
        conservative_values = int (pos 1048576) ∷ [];
        origin_note =
            "Read by the LUCY hub, which captures at most 64 KiB of a command's output: a smaller value here narrows that, and a larger one changes nothing. environments-api itself takes the cap on each request and does not read this.";
      }

abbrev pub settings : List SettingDef
settings =
    idle_environment_hours ∷ idle_shell_minutes ∷ max_environments_per_profile ∷ default_shell
    ∷ persist_history ∷ command_timeout_seconds ∷ max_output_bytes ∷ []
