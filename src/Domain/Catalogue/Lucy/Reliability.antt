-- ===== src/Domain/Catalogue/Lucy/Reliability.antt =====
-- domain/catalogue/lucy/reliability.py: the entries of the `lucy` namespace that this file declares.
use settings_api.Prelude.{List, [], ◌∷◌, some, true}
use settings_api.Prelude.Int.{pos}
use settings_api.Domain.Value.{int}
use settings_api.Domain.Types.{SettingDef, SettingType, existing, use_default}
use settings_api.Domain.Catalogue.Entry.{entry}
use settings_api.Domain.Catalogue.Lucy.Namespace.{namespace}

abbrev retry_attempts : SettingDef
retry_attempts =
    record (entry namespace "retry_attempts" SettingType.int (int (pos 2)) use_default existing) {
      summary = "How many times a failed call to another service is tried again.";
      description =
          "Only for failures where trying again is meaningful -- a timeout, a rate limit, a connection that dropped. A refusal is never retried, because asking a second time for something you were told you may not have is how a permission prompt becomes a permission loop.\n\nZero surfaces every hiccup to you. Higher hides them at the cost of a turn that sits there for longer before admitting the service is down. `retry_max_seconds` is the other half: whichever runs out first ends it.";
      minimum = some (pos 0);
      maximum = some (pos 10);
      operator_clampable = true;
      conservative_values = int (pos 2) ∷ [];
      origin_note = "The hub retries 5xx/429 sibling calls this many times after the first try.";
    }

abbrev retry_max_seconds : SettingDef
retry_max_seconds =
    record (entry namespace "retry_max_seconds" SettingType.int (int (pos 30)) use_default
      existing) {
        summary = "How long retrying one call may go on before it gives up.";
        description =
            "The backoff between attempts grows, so a generous `retry_attempts` can add up to minutes of silence. This is the clock over the count: whichever is reached first ends the retrying and the failure is reported.\n\nWorth setting against how long you are prepared to watch a spinner. A service that has been unreachable for thirty seconds is usually going to be unreachable for thirty more, and hearing so is more useful than waiting.";
        minimum = some (pos 1);
        maximum = some (pos 600);
        operator_clampable = true;
        conservative_values = int (pos 30) ∷ [];
        origin_note = "The hub stops retrying a sibling call once this window has elapsed.";
      }

abbrev downstream_timeout_seconds : SettingDef
downstream_timeout_seconds =
    record (entry namespace "downstream_timeout_seconds" SettingType.int (int (pos 10)) use_default
      existing) {
        summary = "How long one call to another service may take before it is abandoned.";
        description =
            "Every request the hub makes to a sibling -- memory, persona, keyring, the rest -- is bounded by this. It is deployment-wide today, which is the wrong shape: a person on a slow link and a person on the same machine as the services want different numbers.\n\nShort means a slow service is treated as a down service, which is usually the right call and occasionally throws away an answer that was coming. Long means a sibling having a bad day holds up your turn. This is the per-call timeout; `step_timeout_seconds` bounds a tool step, which may be several calls.";
        minimum = some (pos 1);
        maximum = some (pos 300);
        operator_clampable = true;
        conservative_values = int (pos 10) ∷ [];
        origin_note =
            "The hub's `http_timeout_seconds`, default 10, applied to every sibling call.";
      }

abbrev pub settings : List SettingDef
settings = retry_attempts ∷ retry_max_seconds ∷ downstream_timeout_seconds ∷ []
