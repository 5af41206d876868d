-- ===== src/Domain/Catalogue/Lucy/Context.antt =====
-- domain/catalogue/lucy/context.py: the entries of the `lucy` namespace that this file declares.
use settings_api.Prelude.{List, [], ◌∷◌, some, true}
use settings_api.Prelude.Int.{pos}
use settings_api.Domain.Value.{int, str_list}
use settings_api.Domain.Types.{
  SettingDef, SettingType, existing, profile, use_default, with_approval,
}
use settings_api.Domain.Catalogue.Entry.{entry}
use settings_api.Domain.Catalogue.Lucy.Namespace.{namespace}

abbrev max_context_tokens : SettingDef
max_context_tokens =
    record (entry namespace "max_context_tokens" SettingType.int (int (pos 200000)) use_default
      existing) {
        summary = "How much context one turn may use before Lucy starts reclaiming room.";
        description =
            "The bands are shares of this number, so lowering it makes every band smaller together rather than starving one of them. Set below what the model actually supports to spend less; setting it above only wastes the reserve.\n\nThe floor is 32,000 because the fixed prompt and the plan schema are about 19,000 on their own. Below that nothing fits and nothing can be reclaimed, and the hub holds the same floor, so a smaller number here would be accepted and then not used.";
        minimum = some (pos 32000);
        maximum = some (pos 1000000);
        operator_clampable = true;
        conservative_values = int (pos 200000) ∷ [];
        origin_note =
            "The hub's band allocator takes this as the window; shares are fractions of it.";
      }

abbrev reserve_percent : SettingDef
reserve_percent =
    record (entry namespace "reserve_percent" SettingType.int (int (pos 13)) use_default existing) {
      summary = "What share of the window is kept empty for the reply and one more result.";
      description =
          "The reserve is never written to. It is the room this turn's answer needs, plus enough for one large tool result to arrive without evicting the memory that says who you are.\n\nLowering it hands the room to history and tool results, and pays for it the first time a long answer meets a big result at the end of a full conversation. Raising it is what somebody does when replies keep being cut short. Every other band is a share of what is left, so this number moves all of them together.";
      scope = profile;
      minimum = some (pos 5);
      maximum = some (pos 40);
      operator_clampable = true;
      conservative_values = int (pos 13) ∷ [];
      origin_note = "The hub rescales written bands from this reserve through shares_for().";
    }

abbrev warn_at_percent : SettingDef
warn_at_percent =
    record (entry namespace "warn_at_percent" SettingType.int (int (pos 60)) use_default existing) {
      summary = "How full the window gets before Lucy says so.";
      description =
          "A notice rather than an action: nothing is reclaimed at this point, you are simply told the room is going. It is worth having separately from `compaction_trigger_percent` because the useful moment to hear about it is before the summarising happens, while finishing the thought or starting a fresh session is still your choice rather than something done for you.\n\nSet it above the compaction trigger and you will be warned about a compaction that has already happened. Set it very low and every long conversation nags.";
      scope = profile;
      minimum = some (pos 10);
      maximum = some (pos 95);
      operator_clampable = true;
      conservative_values = int (pos 60) ∷ [];
      origin_note =
          "The hub emits a context notice at this fullness; dropping starts at the compact trigger.";
    }

abbrev compaction_trigger_percent : SettingDef
compaction_trigger_percent =
    record (entry namespace "compaction_trigger_percent" SettingType.int (int (pos 72)) use_default
      existing) {
        summary = "How full the window gets before a conversation is summarised.";
        description =
            "The ceiling is 90 on purpose, and the default sits well below it. Quality is already degrading by ninety percent full, and at ninety-five there is no room left for the summarising call itself -- so waiting longer does not save a summary, it loses one.";
        scope = profile;
        minimum = some (pos 50);
        maximum = some (pos 90);
        operator_clampable = true;
        conservative_values = int (pos 72) ∷ [];
        origin_note = "The hub auto-compacts a live turn once it crosses this share of the window.";
      }

abbrev history_turns_kept : SettingDef
history_turns_kept =
    record (entry namespace "history_turns_kept" SettingType.int (int (pos 4)) use_default
      existing) {
        summary = "How many recent exchanges are never summarised away.";
        description =
            "Compaction replaces old exchanges with a summary of them. This is the tail it may not touch: the last few turns stay verbatim, because a summary of what you said thirty seconds ago is how an assistant loses the thread of the thing it is currently doing.\n\nRaising it keeps more of the recent conversation exact and leaves less room for everything else. Zero lets compaction summarise right up to the current turn, which is the cheapest and the most likely to produce a reply that has subtly misremembered the last thing you asked for.";
        scope = profile;
        minimum = some (pos 0);
        maximum = some (pos 100);
        operator_clampable = true;
        conservative_values = int (pos 4) ∷ [];
        origin_note = "The hub's auto-compact keeps this many newest turns verbatim.";
      }

abbrev tool_results_kept : SettingDef
tool_results_kept =
    record (entry namespace "tool_results_kept" SettingType.int (int (pos 3)) use_default
      existing) {
        summary = "How many recent tool results survive reclamation in full.";
        description =
            "Tool results are the largest band and the first one reclaimed, and the one Lucy is most likely to need again is the one that just arrived. This is the floor under that: however tight the window gets, this many of the newest results are kept whole rather than shortened to a reference.\n\nZero means everything competes on cost alone, which reclaims the most room and occasionally throws away the file Lucy was halfway through reading. Higher protects more and leaves less for the conversation itself.";
        scope = profile;
        minimum = some (pos 0);
        maximum = some (pos 50);
        operator_clampable = true;
        conservative_values = int (pos 3) ∷ [];
        origin_note =
            "The hub's reclamation ladder keeps this many newest unprotected tool results.";
      }

abbrev max_tool_result_tokens : SettingDef
max_tool_result_tokens =
    record (entry namespace "max_tool_result_tokens" SettingType.int (int (pos 25000)) use_default
      existing) {
        summary = "How large one tool result may be before it is spilled instead of inlined.";
        description =
            "A result over this goes to the workspace and the model gets a reference and a head instead. The number is a judgement about where reading the whole thing stops being worth what it costs: one forty-thousand-token result evicts the pinned memory that tells Lucy who you are.\n\nRaising it keeps more in front of the model and reclaims the room from somewhere else. Lowering it spills sooner, which costs a round trip when the answer really was in the middle of the file. Nothing is lost either way -- a spilled result is still on disk and still fetchable -- so falling back to the designed value during an outage costs a little context and no information.";
        minimum = some (pos 1000);
        maximum = some (pos 100000);
        operator_clampable = true;
        conservative_values = int (pos 25000) ∷ [];
        origin_note =
            "The hub spills a tool result past this many tokens and keeps the rest by reference.";
      }

abbrev render_read_tokens : SettingDef
render_read_tokens =
    record (entry namespace "render_read_tokens" SettingType.int (int (pos 2000)) use_default
      existing) {
        summary = "How much of a single read result the model is shown.";
        description =
            "One of three budgets the result formatter works to. This is the full read: when Lucy asks for a file or a page, this is how much of it comes back before the rest becomes a reference.\n\nRaising it means fewer follow-up reads and a bigger prompt on every turn that did one. Lowering it is the right move for somebody working with large files who would rather Lucy searched than skimmed. Nothing is lost at any value -- the remainder is still fetchable -- which is why landing on the designed value during an outage costs a round trip and no information.";
        minimum = some (pos 100);
        maximum = some (pos 20000);
        operator_clampable = true;
        conservative_values = int (pos 2000) ∷ [];
        origin_note = "The hub's result formatter reads this as the full-read budget.";
      }

abbrev render_preview_tokens : SettingDef
render_preview_tokens =
    record (entry namespace "render_preview_tokens" SettingType.int (int (pos 400)) use_default
      existing) {
        summary = "How much of a previewed result the model is shown.";
        description =
            "The small budget, and small on purpose. A preview is what comes back when Lucy listed forty things and needs to know *which* of them to look at properly; spending a read's worth of tokens on each of forty previews is how a listing fills the window.\n\nRaise it when Lucy keeps picking the wrong item out of a list and having to go back. Keep it low when the lists are long and the answer is usually obvious from a title.";
        minimum = some (pos 50);
        maximum = some (pos 5000);
        operator_clampable = true;
        conservative_values = int (pos 400) ∷ [];
        origin_note = "The hub's result formatter reads this as the preview budget.";
      }

abbrev render_total_tokens : SettingDef
render_total_tokens =
    record (entry namespace "render_total_tokens" SettingType.int (int (pos 8000)) use_default
      existing) {
        summary = "How much of the window one plan's results may take in total.";
        description =
            "The ceiling over the other two: twenty steps that each render inside the read budget still have to share this. Once it is spent the remaining results are rendered as references only, and Lucy is told that is what happened.\n\nThis is the number that decides whether a wide plan crowds out the conversation it was meant to serve. Raising it buys detail at the cost of history; lowering it keeps more of what you said and makes Lucy fetch more deliberately.";
        minimum = some (pos 500);
        maximum = some (pos 100000);
        operator_clampable = true;
        conservative_values = int (pos 8000) ∷ [];
        origin_note = "The hub's result formatter reads this as the total budget for one plan.";
      }

abbrev preferred_capabilities : SettingDef
preferred_capabilities =
    record (entry namespace "preferred_capabilities" SettingType.str_list (str_list []) use_default
      existing) {
        summary = "Capabilities to have ready from the start of a new conversation.";
        description =
            "When more capabilities are connected than one turn holds at once, these are held first, in this order, after the ones the conversation has already used. The rest stay one `capabilities.use` away.\n\nIt only reorders what is ready: it never turns on one that is off or not connected, and an empty list is the built-in order.";
        scope = profile;
        max_items = some (pos 16);
        max_item_chars = some (pos 48);
        agent_writable = with_approval;
        conservative_values = str_list [] ∷ [];
        origin_note =
            "The hub ranks ready capabilities by what the conversation used, then this list, then its built-in order (packs/registry.py choose_bound), so the prompt, the plan schema and the executor agree on what is bound.";
      }

abbrev prompt_sections_disabled : SettingDef
prompt_sections_disabled =
    record (entry namespace "prompt_sections_disabled" SettingType.str_list (str_list [])
      use_default existing) {
        summary = "Parts of Lucy's standing instructions this profile leaves out.";
        description =
            "Each part costs tokens on every turn. Leave out `workspace` if you never use the sandbox, `helpers` if you never want them. Any of `behaviour`, `lessons`, `helpers`, `workspace`, `memory` and `context` may be listed; the tool rules and the safety rules can never be left out, and a name that cannot is ignored rather than failing the turn.\n\nEmpty, the default and what an outage lands on, sends every part, which only adds guidance. No assistant may change it: it is the model's own instructions.";
        scope = profile;
        max_items = some (pos 6);
        max_item_chars = some (pos 16);
        conservative_values = str_list [] ∷ [];
        origin_note =
            "The hub leaves the named sections out of the standing prompt and out of the window it counts, for the main turn, its helpers and GET /context. It accepts behaviour, lessons, helpers, workspace, memory and context, ignores any other name, and its settings.set refuses this key whatever settings-api says.";
      }

abbrev pub settings : List SettingDef
settings =
    max_context_tokens ∷ reserve_percent ∷ warn_at_percent ∷ compaction_trigger_percent
    ∷ history_turns_kept ∷ tool_results_kept ∷ max_tool_result_tokens ∷ render_read_tokens
    ∷ render_preview_tokens ∷ render_total_tokens ∷ preferred_capabilities
    ∷ prompt_sections_disabled ∷ []
