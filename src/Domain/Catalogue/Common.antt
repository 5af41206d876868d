-- ===== src/Domain/Catalogue/Common.antt =====
-- domain/catalogue/common.py: the entries of the `common` namespace, with their prose.
use settings_api.Prelude.{String, List, [], ◌∷◌, some, true}
use settings_api.Prelude.Int.{pos}
use settings_api.Domain.Value.{null, bool, int, str}
use settings_api.Domain.Types.{
  SettingDef, SettingType, ExtraCheck, existing, proposed, refuse, use_default,
}
use settings_api.Domain.Catalogue.Entry.{entry}

abbrev pub namespace : String
namespace = "common"

abbrev timezone : SettingDef
timezone = record (entry namespace "timezone" SettingType.str (str "UTC") use_default existing) {
  summary = "The time zone this person lives in, as an IANA name such as Europe/Lisbon.";
  description =
      "Used whenever a service renders a time for this person -- a job that finished 'at 14:20', a session that expires 'tomorrow morning', a reminder. An assistant asked to 'remind me at nine' reads nine on this clock. Set it to an IANA zone name; the value is checked against the tzdata this deployment has, so a zone that does not exist is refused at the moment it is set rather than raising deep in a render path months later.\n\nFalling back to UTC during an outage shows the right instant in the wrong zone, which is a legible error rather than a wrong one. That is why it falls back rather than refusing.";
  max_chars = some (pos 64);
  extra_check = ExtraCheck.timezone;
  conservative_values = str "UTC" ∷ [];
  origin_note =
      "Read by the LUCY hub when it prepares a turn: the clock the assistant is shown is this zone's, with its name and its offset that day.";
}

abbrev locale : SettingDef
locale = record (entry namespace "locale" SettingType.str null use_default existing) {
  summary = "The language and region to write to this person in, as a BCP-47 tag.";
  description =
      "Language first, then an optional script and region: `en-GB`, `pt-PT`, `zh-Hans-CN`. Services use it to choose a language and to format dates and numbers.\n\nNull, the default, means nobody has chosen: an assistant then answers in the language it is written to in, which is a better guide than a default nobody picked. Null is conservative for the same reason: an outage that landed on it changes how nothing is written.\n\nThe pattern requires the canonical casing -- lowercase language, title-case script, uppercase region -- because a tag that differs only in case is the same tag, and two spellings of the same answer is how a lookup table acquires a miss.";
  nullable = true;
  max_chars = some (pos 35);
  pattern = some "^[a-z]{2,3}(-[A-Z][a-z]{3})?(-[A-Z]{2}|-[0-9]{3})?$";
  conservative_values = null ∷ [];
  origin_note =
      "Read by the LUCY hub when it prepares a turn: a chosen locale is stated to the assistant, and none says nothing.";
}

abbrev units : SettingDef
units = record (entry namespace "units" SettingType.enum (str "metric") use_default existing) {
  summary = "Whether to state distances, weights and temperatures in metric or imperial.";
  description =
      "A presentation choice, not a storage one: services record whatever unit the source gave them and convert on the way out. Nothing is reinterpreted when this changes, so switching it cannot turn 20 degrees into 20 of something else.";
  choices = "metric" ∷ "imperial" ∷ [];
  conservative_values = str "metric" ∷ [];
  origin_note =
      "Read by the LUCY hub when it prepares a turn: `imperial` is stated to the assistant, and `metric` says nothing.";
}

abbrev time_format : SettingDef
time_format =
    record (entry namespace "time_format" SettingType.enum (str "24h") use_default existing) {
      summary = "Whether to write clock times as 14:20 or as 2:20 pm.";
      description =
          "Separate from `locale` on purpose. The two usually agree and a person is entitled to disagree with their own locale about this one -- plenty of people read en-GB and want a 12-hour clock, and a service that derived this from the locale would give them no way to say so.";
      choices = "24h" ∷ "12h" ∷ [];
      conservative_values = str "24h" ∷ [];
      origin_note =
          "Read by the LUCY hub when it prepares a turn: `12h` is stated to the assistant, and `24h` says nothing.";
    }

abbrev default_profile : SettingDef
default_profile =
    record (entry namespace "default_profile" SettingType.str (str "personal") refuse existing) {
      summary = "Which keyring profile a service should use when the request does not name one.";
      description =
          "A profile is a named set of credentials -- `personal` and `work` can hold different Spotify accounts -- and this says which one is meant by default. The pattern is keyring's own profile-name rule, so a value set here is one keyring will accept.\n\n**This one refuses rather than falling back**, and it is the clearest case for doing so in the whole catalogue. Falling back to `personal` for somebody whose default is `work` would not fail -- it would quietly act on the wrong account, adding tracks to the wrong playlist or searching with the wrong subscription. A refused request is a request the person can retry; a request served against the wrong identity is one nobody notices until later.";
      max_chars = some (pos 64);
      pattern = some "^[a-z0-9](?:[a-z0-9._-]*[a-z0-9])?$";
      origin_note =
          "Replaces spotify-api's `keyring_default_profile`, web-search-api's `WSA_KEYRING_DEFAULT_PROFILE` and environments-api's `ENVAPI_DEFAULT_PROFILE` (all 'personal'), and another service's `default_profile` ('default'); each reads this and keeps its own as the answer until a person chooses. keyring itself has no such notion.";
    }

abbrev redact_values_in_logs : SettingDef
redact_values_in_logs =
    record (entry namespace "redact_values_in_logs" SettingType.bool (bool true) use_default
      proposed) {
        summary = "Whether services must keep this person's values out of their log records.";
        description =
            "On by default and safe to land on, which is what makes it a fallback rather than a refusal: an outage cannot turn redaction off.\n\nTurning it off is a debugging affordance for somebody diagnosing their own account, not a performance one. Note the asymmetry it does not have: this service redacts its own logs unconditionally and this setting cannot change that. There is no setting anywhere that lets a person's own setting values into settings-api's log records.";
        conservative_values = bool true ∷ [];
        origin_note = "New here.";
      }

abbrev job_retention_hours : SettingDef
job_retention_hours =
    record (entry namespace "job_retention_hours" SettingType.int (int (pos 1)) use_default
      existing) {
        summary = "How long the record of a finished background job stays readable.";
        description =
            "The record, not the result: what was asked for, when, whether it worked and why not. Three services keep one of these and each had its own deployment-wide number, so this is the general answer for all of them.\n\nA namespace may override it -- `spotify.job_retention_hours` does, because spotify-api's own ceiling is 24 hours rather than a week, and a namespace whose job leaves a file on a shared disk has its own reason to. Where a namespace has its own, that one wins; where it does not, this is what the service reads. That override is the reason `common` is merged *underneath* a namespace rather than over it.\n\nOne hour is the short end and is therefore the safe fallback: an outage that landed here forgets somebody's job record sooner than they asked, not later.";
        minimum = some (pos 0);
        maximum = some (pos 168);
        operator_clampable = true;
        conservative_values = int (pos 1) ∷ [];
        origin_note =
            "The same knob in three services with three spellings: spotify-api's `job_ttl_seconds`, web-search-api's `WSA_JOB_RETENTION_SECONDS`, and a third service's own `job_ttl_seconds`. All three default to one hour.";
      }

abbrev currency : SettingDef
currency = record (entry namespace "currency" SettingType.str null use_default existing) {
  summary = "Which currency to state a cost in, as an ISO 4217 code such as GBP or EUR.";
  description =
      "Anything in the family that puts a number on what something cost -- a token budget, a spend warning, a subscription -- says it in this. Null means nobody has chosen, and a cost is stated in whatever it was billed in. It is not derived from `locale`, which would be wrong for everybody who lives in one country and is billed in another.\n\nPresentation only. Nothing is converted, recharged or recorded differently because of it, and a service that cannot convert says what it was billed in rather than guessing a rate. Null is conservative because it changes nothing: an outage that landed on it shows the same number in the same place as today.";
  nullable = true;
  max_chars = some (pos 3);
  pattern = some "^[A-Z]{3}$";
  conservative_values = null ∷ [];
  origin_note =
      "Read by the LUCY hub when it prepares a turn: a chosen currency is stated to the assistant. No service converts an amount it was billed.";
}

abbrev pub settings : List SettingDef
settings =
    timezone ∷ locale ∷ units ∷ time_format ∷ default_profile ∷ redact_values_in_logs
    ∷ job_retention_hours ∷ currency ∷ []
