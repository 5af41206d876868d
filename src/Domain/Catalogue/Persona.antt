-- ===== src/Domain/Catalogue/Persona.antt =====
-- domain/catalogue/persona.py: the entries of the `persona` namespace, with their prose.
use settings_api.Prelude.{String, List, [], ◌∷◌, some, true, false}
use settings_api.Prelude.Int.{pos}
use settings_api.Domain.Value.{null, bool, int, str}
use settings_api.Domain.Types.{SettingDef, SettingType, account, existing, profile, use_default}
use settings_api.Domain.Catalogue.Entry.{entry}

abbrev pub namespace : String
namespace = "persona"

abbrev default_persona : SettingDef
default_persona =
    record (entry namespace "default_persona" SettingType.str null use_default existing) {
      summary = "Which persona `@default` loads when a conversation does not name one.";
      description =
          "Null means there is no default and a caller must name one, as persona-api always required. Naming one here makes `@default` mean that persona on every persona route.\n\nOne value per account, not per profile: which persona to load is asked before there is a profile to name, so a value stored against a profile would never be read.\n\nNull is the conservative value, and for an unusual reason: falling back to null makes the call fail loudly, while falling back to a name would silently load *a* persona during an outage -- and a persona is the voice the assistant speaks in, so the wrong one is conspicuous in a way a wrong integer is not.";
      scope = account;
      nullable = true;
      max_chars = some (pos 64);
      pattern = some "^[a-z0-9](?:[a-z0-9._-]*[a-z0-9])?$";
      conservative_values = null ∷ [];
      origin_note =
          "persona-api reads it, with no profile, whenever a `{profile}` path segment is `@default`, and resolves that segment to this persona before the route runs. Null, an outage, or a name it cannot store leaves `@default` refused.";
    }

abbrev recall_default_limit : SettingDef
recall_default_limit =
    record (entry namespace "recall_default_limit" SettingType.int (int (pos 20)) use_default
      existing) {
        summary = "How many items a recall returns when the caller does not ask for a number.";
        description =
            "Bounded above by persona-api's own `recall_max_limit`, which is 100. Raising this means more context loaded by default and a larger prompt; lowering it means less to read and more round trips.";
        scope = profile;
        minimum = some (pos 1);
        maximum = some (pos 100);
        operator_clampable = true;
        conservative_values = int (pos 20) ∷ [];
        origin_note =
            "persona-api's `recall_default_limit`, default 20, which its list, recall, export and event routes use when a request names no limit.";
      }

abbrev log_values : SettingDef
log_values =
    record (entry namespace "log_values" SettingType.bool (bool false) use_default existing) {
      summary = "Whether persona-api's change log keeps the old value when something changes.";
      description =
          "The same decision as `user.log_values` and spelled the same way, because a person answering 'does the log keep what I changed' should answer it once per service at most and never in two different vocabularies.\n\nOff is conservative: a log that recorded nothing can be reconstructed by asking, and a log that recorded something it should not have cannot be unrecorded.";
      conservative_values = bool false ∷ [];
      origin_note =
          "persona-api reads it on set_field and revise_note: on, a change that replaces a field's value or a note's body keeps what it replaced in that event. Whatever destroys the row strips the kept value in the same transaction.";
    }

abbrev erasure_mode : SettingDef
erasure_mode =
    record (entry namespace "erasure_mode" SettingType.enum (str "tombstone") use_default
      existing) {
        summary = "What deleting a persona field or note does: keep it, destroy it later, or now.";
        description =
            "Identical in meaning and spelling to `user.erasure_mode`. `tombstone` hides the field or note and keeps it, recoverable; it is what persona-api always did, so it is the default. `grace` hides it now and destroys it after `grace_days`; setting a forgotten field again before then revives it. `immediate` destroys it inside the request, with no recovery.\n\nThe choice is written on each row when it is forgotten and never re-read, so a change here is never retroactive.";
        choices = "grace" ∷ "immediate" ∷ "tombstone" ∷ [];
        conservative_values = str "tombstone" ∷ str "grace" ∷ [];
        origin_note =
            "persona-api reads it on forget_field and forget_note and writes the answer on the row: `tombstone` keeps it, `grace` schedules its sweeper, `immediate` destroys the row, its logged values and its search terms before responding.";
      }

abbrev grace_days : SettingDef
grace_days =
    record (entry namespace "grace_days" SettingType.int (int (pos 30)) use_default existing) {
      summary =
          "How long a deleted persona field or note stays recoverable before it is destroyed.";
      description =
          "Only meaningful when `persona.erasure_mode` is `grace`. The period is fixed on each row when it is forgotten, so changing this never reschedules something already waiting. Zero means the next sweep, which is still not `immediate`.\n\nThirty days to match user-api, for the same reason the vocabulary matches: two services that hold a person's data and forget it on different schedules are two things to remember rather than one.";
      minimum = some (pos 0);
      maximum = some (pos 365);
      operator_clampable = true;
      conservative_values = int (pos 30) ∷ [];
      origin_note =
          "persona-api writes forget time plus this many days on a row forgotten under `grace`; its sweeper (hourly by default) destroys the row once that has passed.";
    }

abbrev max_pinned_fields : SettingDef
max_pinned_fields =
    record (entry namespace "max_pinned_fields" SettingType.int (int (pos 20)) use_default
      existing) {
        summary = "How many persona fields go into the prompt on every turn.";
        description =
            "persona-api's own docstring puts it exactly right: pinned is a token budget, not a preference. Every pinned field is bytes in the assistant's prompt on every single turn, so this is really 'how much of the context window may this persona spend describing itself'.\n\nThe same decision as `user.max_pinned`, and spelled the same way on purpose. A person who has decided to load less by default should not have to make that decision twice in two different vocabularies.";
        minimum = some (pos 1);
        maximum = some (pos 20);
        operator_clampable = true;
        conservative_values = int (pos 20) ∷ [];
        origin_note = "persona-api's `max_pinned_fields`, default 20.";
      }

abbrev max_pinned_notes : SettingDef
max_pinned_notes =
    record (entry namespace "max_pinned_notes" SettingType.int (int (pos 20)) use_default
      existing) {
        summary = "How many persona notes go into the prompt on every turn.";
        description =
            "The other half of the always-load block. Separate from `max_pinned_fields` because persona-api counts them separately and because they cost differently: a field is a short named fact and a note is up to four thousand characters of prose.\n\nSomebody who wants a persona that remembers what it is but not every episode lowers this and leaves the fields alone, which is not expressible with one combined number.";
        minimum = some (pos 1);
        maximum = some (pos 20);
        operator_clampable = true;
        conservative_values = int (pos 20) ∷ [];
        origin_note = "persona-api's `max_pinned_notes`, default 20.";
      }

abbrev pub settings : List SettingDef
settings =
    default_persona ∷ recall_default_limit ∷ log_values ∷ erasure_mode ∷ grace_days
    ∷ max_pinned_fields ∷ max_pinned_notes ∷ []
