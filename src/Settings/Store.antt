-- ===== src/Settings/Store.antt =====
-- settings/store.py: the vocabulary of the store.
use settings_api.Prelude.{ℕ, Bool, String, Option, List}
use settings_api.Prelude.Dict.{Dict}
use settings_api.Domain.Value.{Value}
use settings_api.Domain.Types.{qualify}
use settings_api.Storage.{Instant, Action}

abbrev pub max_profiles_per_account : ℕ
max_profiles_per_account = 32

pub record StoredSetting : Type 0 where
  pub namespace : String
  pub key : String
  pub value : Value
  pub set_at : Instant
  pub set_by : String
  pub profile : String

-- `(profile, namespace.key)`
abbrev pub RowKey : Type 0
RowKey = String × String

abbrev pub stored_key : StoredSetting → RowKey
stored_key s = (s.profile, qualify s.namespace s.key)

-- `exists` is `is_known`.
pub record AccountState : Type 0 where
  pub is_known : Bool
  pub revision : ℕ
  pub rows : Dict RowKey StoredSetting

pub record Change : Type 0 where
  pub namespace : String
  pub key : String
  pub value : Value
  pub reset : Bool
  pub profile : String

abbrev pub change_name : Change → String
change_name c = qualify c.namespace c.key

abbrev pub change_key : Change → RowKey
change_key c = (c.profile, change_name c)

pub record Applied : Type 0 where
  pub revision : ℕ
  pub changed : List String

-- The keyword arguments of `SettingsStore.apply`.
pub record Write : Type 0 where
  pub changes : List Change
  pub now : Instant
  pub action : Action
  pub actor : String
  pub service : Option String
  pub event_cap : ℕ
  pub if_revision : Option ℕ
