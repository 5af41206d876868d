-- ===== src/Domain/Catalogue/Lucy/Helpers.antt =====
-- domain/catalogue/lucy/helpers.py: the entries of the `lucy` namespace that this file declares.
use settings_api.Prelude.{List, [], ◌∷◌, some, true}
use settings_api.Prelude.Int.{pos}
use settings_api.Domain.Value.{null, int}
use settings_api.Domain.Types.{
  SettingDef, SettingType, existing, profile, use_default, with_approval,
}
use settings_api.Domain.Catalogue.Entry.{entry}
use settings_api.Domain.Catalogue.Lucy.Namespace.{namespace}

abbrev agent_max_depth : SettingDef
agent_max_depth =
    record (entry namespace "agent_max_depth" SettingType.int (int (pos 3)) use_default existing) {
      summary = "How many levels of helper Lucy may start beneath itself.";
      description =
          "One means Lucy does everything itself. Each level multiplies what a single request can cost, which is why the ceiling is low. Three is safe to land on because three is the designed maximum: falling back here cannot widen anything past what the system allows at its most permissive.";
      minimum = some (pos 1);
      maximum = some (pos 5);
      operator_clampable = true;
      conservative_values = int (pos 1) ∷ int (pos 3) ∷ [];
      origin_note = "The hub enforces this as the spawn/reopen nesting cap.";
    }

abbrev agent_max_concurrent : SettingDef
agent_max_concurrent =
    record (entry namespace "agent_max_concurrent" SettingType.int (int (pos 5)) use_default
      existing) {
        summary = "How many helpers may work at once.";
        description =
            "Start low. Three focused helpers usually beat five scattered ones, and every one of them is spending tokens on your behalf at the same time.";
        minimum = some (pos 1);
        maximum = some (pos 20);
        operator_clampable = true;
        conservative_values = int (pos 1) ∷ int (pos 5) ∷ [];
        origin_note = "The hub refuses spawn/reopen once this many helpers are running.";
      }

abbrev agent_result_token_cap : SettingDef
agent_result_token_cap =
    record (entry namespace "agent_result_token_cap" SettingType.int (int (pos 2000)) use_default
      existing) {
        summary = "How much a helper may hand back when it is finished.";
        description =
            "A helper returns a summary plus references -- workspace paths, result references, its own id -- never a transcript. This is the size of that summary, and it is the single most important number in the helper design: a helper that returns forty thousand tokens of findings is strictly worse than never having started one, because the parent pays for all of it and got no say in what was kept.\n\nRaise it when helpers keep being asked to summarise something genuinely large and the parent keeps having to ask follow-up questions. The references are always there, so a parent that wants the detail can go and read it.";
        minimum = some (pos 200);
        maximum = some (pos 20000);
        operator_clampable = true;
        conservative_values = int (pos 2000) ∷ [];
        origin_note = "The hub caps a helper's returned summary at this many tokens.";
      }

abbrev agent_wall_clock_seconds : SettingDef
agent_wall_clock_seconds =
    record (entry namespace "agent_wall_clock_seconds" SettingType.int (int (pos 600)) use_default
      existing) {
        summary = "How long one helper may run before it is stopped and asked for what it has.";
        description =
            "A clock per helper rather than for the whole fan-out, because the failure it catches is one helper stuck on something slow while the others finished ten minutes ago.\n\nA stopped helper is asked to hand back what it has rather than being discarded, so a short setting costs completeness rather than the work. Raise it for research that genuinely takes a while; lower it when you are waiting and would rather have a partial answer now.";
        minimum = some (pos 10);
        maximum = some (pos 7200);
        operator_clampable = true;
        conservative_values = int (pos 600) ∷ [];
        origin_note =
            "The hub stops a helper that exceeds this wall clock and asks for what it has.";
      }

abbrev agent_message_max_chars : SettingDef
agent_message_max_chars =
    record (entry namespace "agent_message_max_chars" SettingType.int (int (pos 4000)) use_default
      existing) {
        summary = "The largest message one helper may send another.";
        description =
            "Messages between helpers are for steering -- 'stop, the file moved', 'this is taking longer than you think' -- and not for moving work around. Anything large belongs in the workspace, where it can be referenced instead of copied into everybody's context.\n\nThe cap is refused at the sender, so an oversized message is a failure the sending helper can see and act on rather than something that vanishes on the way. Raising it makes it easier to pass content around by message, which is the habit the cap exists to discourage.";
        minimum = some (pos 100);
        maximum = some (pos 32000);
        operator_clampable = true;
        conservative_values = int (pos 4000) ∷ [];
        origin_note = "The hub applies this as the per-message cap on helper mail.";
      }

abbrev agent_message_burst : SettingDef
agent_message_burst =
    record (entry namespace "agent_message_burst" SettingType.int (int (pos 5)) use_default
      existing) {
        summary = "How many messages one helper may send another before it has to wait.";
        description =
            "Two models politely acknowledging each other is the default failure of a message channel rather than a hypothetical one, and this is what stops it paying for itself. The limit is per recipient and refused at the sender, so a helper finds out it is talking too much instead of discovering later that nobody was listening.\n\nRaise it for work where helpers genuinely coordinate step by step. Keep it low if a fan-out has ever turned into a conversation between the helpers about the conversation between the helpers.";
        minimum = some (pos 1);
        maximum = some (pos 50);
        operator_clampable = true;
        conservative_values = int (pos 5) ∷ [];
        origin_note = "The hub applies this as the per-recipient burst cap on helper mail.";
      }

abbrev helper_model : SettingDef
helper_model = record (entry namespace "helper_model" SettingType.str null use_default existing) {
  summary = "Which model helpers run on, as provider:model. Null means the conversation's.";
  description =
      "A cheaper or faster model for the helpers a conversation starts, while the conversation keeps yours: reading files, checking a claim, searching. It never changes `model`.\n\nA helper model this deployment cannot run, or one that is down, falls back to the conversation's model, and the helper's report says which answered. Null is what an outage lands on: helpers run on the model you already chose.";
  scope = profile;
  nullable = true;
  max_chars = some (pos 128);
  pattern = some "^[a-z0-9][a-z0-9-]*:[A-Za-z0-9][A-Za-z0-9._-]*$";
  agent_writable = with_approval;
  conservative_values = null ∷ [];
  origin_note =
      "The hub runs every helper on it (agents/runtime.py), falling back to the conversation's model with a notice in the helper's report when it cannot be built, and retrying once on the conversation's model when it is unavailable.";
}

abbrev pub settings : List SettingDef
settings =
    agent_max_depth ∷ agent_max_concurrent ∷ agent_result_token_cap ∷ agent_wall_clock_seconds
    ∷ agent_message_max_chars ∷ agent_message_burst ∷ helper_model ∷ []
