-- ===== src/Tests.antt =====
-- The theorems at work: one small deployment, its catalogue, its policy and its tables.
mod Domain
mod Store
mod Ideal
mod Sweeper
mod Service
mod Access
mod Catalogue
mod Client
mod Routes
use settings_api.Prelude.{
  Bool, true, false, String, Option, none, some, List, [], ◌∷◌, ◌==◌, string_eq, nat_eq,
}
use settings_api.Prelude.Int.{ℤ, pos}
use settings_api.Domain.Platform.{Platform}
use settings_api.Domain.Value.{Value, int, str}
use settings_api.Domain.Types.{
  SettingDef, SettingType, ExtraCheck, OnUnavailable, Origin, AgentAccess, SettingScope,
}

-- A machine that knows two time zones and reads every date.
abbrev pub machine : Platform
machine = record {
  fullmatch = λ pattern s. s == "ab";
  resolves_zone = λ s. s == "Europe/London";
  from_iso_date = λ text. some 1;
  is_word_beyond_ascii = λ c. false;
  is_digit_beyond_ascii = λ c. c == 0xb2;
  digit_beyond_ascii = λ c. none;
}

-- A setting like `voice.volume`: a whole number from 0 to 10.
abbrev pub volume : SettingDef
volume = record {
  namespace = "voice";
  key = "volume";
  value_type = SettingType.int;
  default = int (pos 5);
  summary = "How loud.";
  description = "How loud the assistant speaks.";
  on_unavailable = OnUnavailable.use_default;
  origin = Origin.proposed;
  origin_note = "";
  minimum = some (pos 0);
  maximum = some (pos 10);
  choices = [];
  max_chars = none;
  pattern = none;
  max_items = none;
  max_item_chars = none;
  nullable = false;
  extra_check = ExtraCheck.none;
  operator_clampable = true;
  owner_writable_only = false;
  scope = SettingScope.account;
  agent_writable = AgentAccess.freely;
  conservative_values = int (pos 5) ∷ [];
  deprecated_by = none;
  retired_at = none;
  labels = [];
}
