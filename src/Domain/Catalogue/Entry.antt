-- ===== src/Domain/Catalogue/Entry.antt =====
-- The constructor of `SettingDef` in domain/types.py: what has no default is an argument, the two texts
-- of prose are filled in with the rest, and every other field starts at its default.
use settings_api.Prelude.{String, none, false, []}
use settings_api.Domain.Value.{Value}
use settings_api.Domain.Types.{
  SettingDef, SettingType, OnUnavailable, Origin, AgentAccess, SettingScope, ExtraCheck,
}

abbrev pub entry : String → String → SettingType → Value → OnUnavailable → Origin → SettingDef
entry namespace key value_type default on_unavailable origin = record {
  namespace = namespace;
  key = key;
  value_type = value_type;
  default = default;
  summary = "";
  description = "";
  on_unavailable = on_unavailable;
  origin = origin;
  origin_note = "";
  minimum = none;
  maximum = none;
  choices = [];
  max_chars = none;
  pattern = none;
  max_items = none;
  max_item_chars = none;
  nullable = false;
  extra_check = ExtraCheck.none;
  operator_clampable = false;
  owner_writable_only = false;
  scope = SettingScope.account;
  agent_writable = AgentAccess.never;
  conservative_values = [];
  deprecated_by = none;
  retired_at = none;
  labels = [];
}
