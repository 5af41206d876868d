-- ===== src/Domain/Catalogue/Lucy/Model.antt =====
-- domain/catalogue/lucy/model.py: the entries of the `lucy` namespace that this file declares.
use settings_api.Prelude.{List, [], ◌∷◌, some, true}
use settings_api.Prelude.Int.{pos}
use settings_api.Domain.Value.{null, bool, int, str}
use settings_api.Domain.Types.{
  SettingDef, SettingType, existing, freely, profile, refuse, use_default,
}
use settings_api.Domain.Catalogue.Entry.{entry}
use settings_api.Domain.Catalogue.Lucy.Namespace.{namespace}

abbrev model : SettingDef
model =
    record (entry namespace "model" SettingType.str (str "anthropic:claude-opus-5") use_default
      existing) {
        summary = "Which model answers, written as provider:model.";
        description =
            "Changing this changes how a conversation reads and what it costs. It is safe to fall back to the default during an outage: a conversation in a different model's voice is surprising, not harmful, and the alternative is refusing to answer at all.";
        scope = profile;
        max_chars = some (pos 128);
        pattern = some "^[a-z0-9][a-z0-9-]*:[A-Za-z0-9][A-Za-z0-9._-]*$";
        conservative_values = str "anthropic:claude-opus-5" ∷ [];
        origin_note =
            "The hub uses this as the session default when a conversation does not name one.";
      }

abbrev fallback_model : SettingDef
fallback_model =
    record (entry namespace "fallback_model" SettingType.str null use_default existing) {
      summary = "Which model to try when the chosen one is unavailable, as provider:model.";
      description =
          "Null means there is no second choice: if `model` cannot be reached the turn fails and says so. Naming one here means an outage at one provider becomes a reply in a different voice rather than no reply.\n\nWorth naming a model from a different provider, since the failure this covers is usually the provider rather than the model. Lucy says which model answered whenever it is not the one you chose -- a silent substitution would leave you judging one model by another's work.\n\nNull is conservative because it is the choice that does nothing: falling back to it during an outage cannot send a conversation to a provider you never named.";
      scope = profile;
      nullable = true;
      max_chars = some (pos 128);
      pattern = some "^[a-z0-9][a-z0-9-]*:[A-Za-z0-9][A-Za-z0-9._-]*$";
      conservative_values = null ∷ [];
      origin_note =
          "The hub tries this model once when the chosen one is unavailable, and names which voice answered.";
    }

abbrev thinking : SettingDef
thinking =
    record (entry namespace "thinking" SettingType.enum (str "medium") use_default existing) {
      summary = "How much working-out the model is asked to do on an ordinary turn.";
      description =
          "`off` skips it. `high` spends tokens on hard plans. This is not a prompt override and does not change who Lucy is; a persona note still wins on voice.\n\n`high` is left out of the conservative set because it is the expensive end. An outage that landed on `medium` spends less than a person who chose `high`, never more, which is the direction a fallback should fail in.";
      scope = profile;
      choices = "off" ∷ "minimal" ∷ "low" ∷ "medium" ∷ "high" ∷ [];
      conservative_values = str "off" ∷ str "minimal" ∷ str "low" ∷ str "medium" ∷ [];
      origin_note = "The hub sends this as the provider thinking effort on each model request.";
    }

abbrev max_thinking_tokens : SettingDef
max_thinking_tokens =
    record (entry namespace "max_thinking_tokens" SettingType.int (int (pos 0)) use_default
      existing) {
        summary =
            "A hard ceiling on the working-out for one turn. Zero means the effort level decides.";
        description =
            "`thinking` says how hard to work in the provider's own vocabulary; this puts a number on it. Zero leaves the effort level to choose, which is the ordinary case and the one to leave alone.\n\nA number is for somebody who has watched `high` spend twenty thousand tokens deciding something and wants the option kept without the bill. It is a ceiling and not a target: a turn that needs less still spends less.\n\nZero is conservative because it is what happens today. It is also the *unbounded* value, which is unusual for this catalogue and worth saying plainly: the safe fallback here costs tokens rather than anything that cannot be undone.";
        minimum = some (pos 0);
        maximum = some (pos 200000);
        operator_clampable = true;
        conservative_values = int (pos 0) ∷ [];
        origin_note =
            "The hub sends this as Anthropic budget_tokens when it is above zero; zero leaves the effort level to choose.";
      }

abbrev temperature : SettingDef
temperature =
    record (entry namespace "temperature" SettingType.int (int (pos 100)) use_default existing) {
      summary = "How varied the model's wording is, in hundredths: 100 means 1.0.";
      description =
          "Hundredths rather than a decimal, because a setting value here is a whole number, a flag, a string or a short list and nothing else -- 0 is 0.0 and 200 is 2.0. The provider's own default is 1.0, which is what 100 means and what this sends.\n\nLow makes repeated questions get near-identical answers and makes the writing flatter. High makes it more varied and more likely to wander. It changes the wording rather than the reasoning: `thinking` is the knob for how hard the model works, and this is the knob for how it sounds while doing it.";
      scope = profile;
      minimum = some (pos 0);
      maximum = some (pos 200);
      conservative_values = int (pos 100) ∷ [];
      agent_writable = freely;
      origin_note = "The hub sends temperature as hundredths divided by 100.";
    }

abbrev response_style : SettingDef
response_style =
    record (entry namespace "response_style" SettingType.enum (str "natural") use_default
      existing) {
        summary = "How much Lucy says when it is not asked to be short.";
        description =
            "`brief` answers and stops. `thorough` shows its reasoning and its alternatives. This is a default, not a rule: asking for one or the other in a conversation still wins.";
        scope = profile;
        choices = "brief" ∷ "natural" ∷ "thorough" ∷ [];
        conservative_values = str "natural" ∷ [];
        origin_note =
            "The hub appends a length instruction to the behaviour section when this is not natural.";
      }

abbrev formatting : SettingDef
formatting =
    record (entry namespace "formatting" SettingType.enum (str "auto") use_default existing) {
      summary = "Whether replies are written in Markdown, in plain text, or as Lucy sees fit.";
      description =
          "`plain` is for a client that shows text as it arrives -- a voice, an SMS, a terminal with no renderer -- where a heading is a line of hashes and a table is a row of pipes. `markdown` says the client renders it, so structure is welcome. `auto` says nothing and leaves it to Lucy.\n\nIt changes how an answer is laid out, never what it says.";
      scope = profile;
      choices = "auto" ∷ "plain" ∷ "markdown" ∷ [];
      conservative_values = str "auto" ∷ [];
      origin_note = "The hub states it in the prompt when it is not auto.";
    }

abbrev emoji : SettingDef
emoji = record (entry namespace "emoji" SettingType.bool (bool true) use_default existing) {
  summary = "Whether Lucy may use emoji in what it writes to you.";
  description =
      "On says nothing and leaves it to Lucy, which is how it behaves today. Off asks for none at all -- for a screen reader that reads each one out by name, or for somebody who simply does not want them.\n\nOn is the fallback because it is today's behaviour: an outage adds a decoration, it does not take anything away.";
  scope = profile;
  conservative_values = bool true ∷ [];
  origin_note = "The hub tells the model not to use emoji when this is off.";
}

abbrev vision_enabled : SettingDef
vision_enabled =
    record (entry namespace "vision_enabled" SettingType.bool (bool true) refuse existing) {
      summary = "Whether images in a message may be sent to the model at all.";
      description =
          "On, a screenshot or a photo you attach goes to the provider along with the text. Off, it is never sent: Lucy is told an image was attached and that it may not look at it, which is a better failure than quietly answering about text it could only half understand.\n\n**This refuses rather than falling back.** On is the default because it is how the assistant works, so landing on it during an outage would send a picture to a provider somebody had explicitly decided should not receive their pictures -- and nobody would find out, because the turn would succeed. A refused turn is one you can retry; a screenshot of a document already sent is not recoverable. The refusal only bites on a turn that actually carries an image.";
      scope = profile;
      origin_note =
          "The hub tells the model images were not sent when this is off. An outage still refuses only disabled_capabilities and approval_policy.";
    }

abbrev pub settings : List SettingDef
settings =
    model ∷ fallback_model ∷ thinking ∷ max_thinking_tokens ∷ temperature ∷ response_style
    ∷ formatting ∷ emoji ∷ vision_enabled ∷ []
