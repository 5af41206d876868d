-- ===== src/Domain/Catalogue/Lucy/Limits.antt =====
-- domain/catalogue/lucy/limits.py: the entries of the `lucy` namespace that this file declares.
use settings_api.Prelude.{List, [], ◌∷◌, some, true}
use settings_api.Prelude.Int.{pos}
use settings_api.Domain.Value.{int, str}
use settings_api.Domain.Types.{
  SettingDef, SettingType, existing, profile, use_default, with_approval,
}
use settings_api.Domain.Catalogue.Entry.{entry}
use settings_api.Domain.Catalogue.Lucy.Namespace.{namespace}

abbrev max_output_tokens_per_turn : SettingDef
max_output_tokens_per_turn =
    record (entry namespace "max_output_tokens_per_turn" SettingType.int (int (pos 8000))
      use_default existing) {
        summary = "How much Lucy may generate in a single reply.";
        description =
            "The ceiling on one answer, counted in tokens the model writes. Raising it lets a long piece of work come back whole instead of in pieces; lowering it is how somebody says 'answer me, do not write me an essay', and it is the cheapest single lever on what a conversation costs.\n\nA reply that reaches the ceiling stops mid-sentence and says so, so the failure is visible and the next turn can continue. Falling back to the default during an outage spends less than anybody who raised it and truncates a reply for anybody who did -- both are recoverable by asking again, which is why this falls back rather than refusing.";
        minimum = some (pos 256);
        maximum = some (pos 128000);
        operator_clampable = true;
        conservative_values = int (pos 8000) ∷ [];
        origin_note = "The hub sends this as max_output_tokens on each model request.";
      }

abbrev max_tool_calls_per_turn : SettingDef
max_tool_calls_per_turn =
    record (entry namespace "max_tool_calls_per_turn" SettingType.int (int (pos 60)) use_default
      existing) {
        summary = "How many tool calls one turn may make before it has to stop and report.";
        description =
            "Counted across the whole turn rather than per plan, so a turn cannot get past it by submitting six plans of ten. When it is reached the turn ends and says what it did and what it did not get to, rather than failing.\n\nLower is a shorter leash: good for a conversation, frustrating for a piece of work that genuinely needs fifty reads. Raising it is how an unattended task gets to finish, and it is also how an unattended task gets expensive. Falling back to the designed value spends no more than the system spends today.";
        minimum = some (pos 1);
        maximum = some (pos 500);
        operator_clampable = true;
        conservative_values = int (pos 60) ∷ [];
        origin_note = "The hub's turn budget reads this as max_tool_calls.";
      }

abbrev max_turn_seconds : SettingDef
max_turn_seconds =
    record (entry namespace "max_turn_seconds" SettingType.int (int (pos 0)) use_default existing) {
      summary = "A wall-clock ceiling on one whole turn. Zero means no ceiling.";
      description =
          "Zero is today's behaviour: a turn runs until it is finished, out of tool calls, or out of budget. Setting a number is how somebody says 'if you have not answered me in five minutes, stop and tell me where you got to'.\n\nIt is a clock, not a budget, so it catches the failure the token counters miss: a turn waiting on something slow spends almost nothing and can wait forever. Zero is conservative because it is what happens today -- an outage that landed here cannot cut a turn short that somebody was waiting on.";
      minimum = some (pos 0);
      maximum = some (pos 86400);
      operator_clampable = true;
      conservative_values = int (pos 0) ∷ [];
      origin_note = "The hub's turn budget reads this as max_seconds. Zero remains unlimited.";
    }

abbrev max_llm_turns : SettingDef
max_llm_turns =
    record (entry namespace "max_llm_turns" SettingType.int (int (pos 12)) use_default existing) {
      summary = "How many model rounds one main turn may take before it stops.";
      description =
          "One round is one model response, usually followed by a plan of tool calls. Twelve allows a substantial task while still stopping a model that keeps asking for another plan without converging. Reaching it leaves the turn resumable and records the exact count.\n\nLower it for short conversational work. Raise it for long autonomous work, knowing that this permits more model calls as well as more time. During an outage the fixed limit the hub used before this setting remains in force.";
      minimum = some (pos 1);
      maximum = some (pos 100);
      operator_clampable = true;
      conservative_values = int (pos 12) ∷ [];
      origin_note =
          "The hub already stops its main loop at `Budget.max_iterations`; this setting makes that existing fixed limit personal.";
    }

abbrev max_subagent_turns : SettingDef
max_subagent_turns =
    record (entry namespace "max_subagent_turns" SettingType.int (int (pos 8)) use_default
      existing) {
        summary = "How many model rounds one child agent may take before it stops.";
        description =
            "Applied to each child independently, not shared across the fan-out. A child that reaches it returns the useful work and references it has so far rather than disappearing; the lead can then finish or deliberately continue.\n\nThe default is shorter than the lead's because several children may spend it at once. Depth and concurrency are separate limits: raising this lets each existing child run longer but does not allow more children to start.";
        minimum = some (pos 1);
        maximum = some (pos 50);
        operator_clampable = true;
        conservative_values = int (pos 8) ∷ [];
        origin_note =
            "The hub stops each child loop at this count. Depth and concurrency are separate.";
      }

abbrev max_steps_per_plan : SettingDef
max_steps_per_plan =
    record (entry namespace "max_steps_per_plan" SettingType.int (int (pos 20)) use_default
      existing) {
        summary = "How many steps one tool plan may contain before it is refused.";
        description =
            "A plan is the batch of calls Lucy submits in one go. This is the guard against a model that has decided the answer is four hundred more calls: the plan is refused with the count, and Lucy has to narrow it and try again.\n\nLowering it forces smaller, more considered batches and costs round trips. Raising it lets one plan do more unattended, which is the thing that goes wrong expensively. Falling back to the designed value cannot widen anything past what the system allows at its most permissive.";
        scope = profile;
        minimum = some (pos 1);
        maximum = some (pos 100);
        operator_clampable = true;
        conservative_values = int (pos 20) ∷ [];
        origin_note = "The hub's plan schema and weftai maxSteps both read this.";
      }

abbrev max_parallel_steps : SettingDef
max_parallel_steps =
    record (entry namespace "max_parallel_steps" SettingType.int (int (pos 4)) use_default
      existing) {
        summary = "How many steps of one plan may run at the same time.";
        description =
            "One means every step waits for the one before it, which is slower and far easier to follow when something goes wrong. Higher finishes a wide plan sooner and interleaves the output of several tools in the transcript.\n\nThis is concurrency inside a single plan, not helpers: `agent_max_concurrent` is the other one. Both values in the conservative set are safe -- one is the most cautious setting there is, and four is the designed default -- and an outage landing on either cannot run more at once than the system already does.";
        scope = profile;
        minimum = some (pos 1);
        maximum = some (pos 16);
        operator_clampable = true;
        conservative_values = int (pos 1) ∷ int (pos 4) ∷ [];
        origin_note = "The hub's weftai runtime reads this as maxParallel.";
      }

abbrev step_timeout_seconds : SettingDef
step_timeout_seconds =
    record (entry namespace "step_timeout_seconds" SettingType.int (int (pos 10)) use_default
      existing) {
        summary = "How long one step of a plan may take before it is abandoned.";
        description =
            "Ten seconds is tuned for tools that answer promptly, and it is too short for a build, a large download or a search against a slow provider. Raising it is what somebody does when a real piece of work keeps being cut off; the cost is that a hung tool now holds the turn for that long before anybody finds out.\n\nA timed-out step is reported to the model as a result rather than raised as an error, so Lucy can try something else instead of the turn collapsing. Falling back during an outage gives the timeout the tools were written against.";
        scope = profile;
        minimum = some (pos 1);
        maximum = some (pos 600);
        operator_clampable = true;
        conservative_values = int (pos 10) ∷ [];
        origin_note = "The hub's weftai runtime reads this as stepTimeoutMs.";
      }

abbrev plan_timeout_seconds : SettingDef
plan_timeout_seconds =
    record (entry namespace "plan_timeout_seconds" SettingType.int (int (pos 60)) use_default
      existing) {
        summary = "How long a whole plan of steps may take before it is abandoned.";
        description =
            "The ceiling over `step_timeout_seconds`: twenty steps that each finish just inside their own timeout still have to finish inside this one. Without it a plan of slow-but-not-hung steps runs for as long as it likes.\n\nSet it comfortably above the step timeout. Setting it below means the plan is abandoned before its first step can even time out, which is legal, confusing, and not something this service can cross-check -- a catalogue entry is checked on its own and the other value may not be set at all.";
        scope = profile;
        minimum = some (pos 1);
        maximum = some (pos 3600);
        operator_clampable = true;
        conservative_values = int (pos 60) ∷ [];
        origin_note = "The hub's weftai runtime reads this as planTimeoutMs.";
      }

abbrev session_token_budget : SettingDef
session_token_budget =
    record (entry namespace "session_token_budget" SettingType.int (int (pos 0)) use_default
      existing) {
        summary = "A ceiling on what one conversation may spend. Zero means no ceiling.";
        description =
            "Counted across Lucy and every helper it starts, so a fan-out cannot spend past it by splitting the work up. Lucy warns as it approaches and stops at it.";
        minimum = some (pos 0);
        maximum = some (pos 100000000);
        operator_clampable = true;
        conservative_values = int (pos 0) ∷ [];
        origin_note = "The hub's turn budget uses this as max_tokens; zero means no session cap.";
      }

abbrev workspace_edit_matching : SettingDef
workspace_edit_matching =
    record (entry namespace "workspace_edit_matching" SettingType.enum (str "fuzzy") use_default
      existing) {
        summary = "How closely a file edit must match the text Lucy quoted before it is applied.";
        description =
            "`exact` applies only to the text as written. `whitespace` also forgives indentation and spacing. `fuzzy`, the default, also accepts a close likeness. Anything looser than you allow is refused, and Lucy re-reads the file.\n\nEvery value is safe to land on: every applied edit says which rung matched, and an edit against a file that changed since it was read is refused whatever this says.";
        scope = profile;
        choices = "exact" ∷ "whitespace" ∷ "fuzzy" ∷ [];
        agent_writable = with_approval;
        conservative_values = str "fuzzy" ∷ str "whitespace" ∷ str "exact" ∷ [];
        origin_note =
            "The hub's `workspace.edit` stops its exact, whitespace, fuzzy ladder at the chosen rung (workspace/text.py) and refuses a looser near miss with the nearest difference, so the model re-reads the file.";
      }

abbrev pub settings : List SettingDef
settings =
    max_output_tokens_per_turn ∷ max_tool_calls_per_turn ∷ max_turn_seconds ∷ max_llm_turns
    ∷ max_subagent_turns ∷ max_steps_per_plan ∷ max_parallel_steps ∷ step_timeout_seconds
    ∷ plan_timeout_seconds ∷ session_token_budget ∷ workspace_edit_matching ∷ []
