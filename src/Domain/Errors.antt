-- ===== src/Domain/Errors.antt =====
-- domain/errors.py: what a caller is told, as values. What a message names is kept, its wording is
-- not. `integrity_error` is sqlite3's own exception and
-- `value_error` is Python's, which no class of domain/errors.py covers; `bad_tag` is the
-- RevisionMismatchError of api/dependencies.py, which names the length of the tag.
use settings_api.Prelude.{ℕ, String, List}
use settings_api.Domain.Types.{Rule}

-- What a credential looks like: one for each reason of domain/secrets.py.
pub data Suspicion : Type 0 where
  prefixed : String → Suspicion
  private_key web_token high_entropy : Suspicion

-- Why an `InvalidSettingValueError` was raised.
pub data Refusal : Type 0 where
  broken_rule : Rule → Refusal
  too_large too_many_profiles bad_profile : Refusal
  bad_version : ℕ → Refusal

pub data Error : Type 0 where
  authentication keyring_unreachable integrity_error value_error : Error
  bad_tag : ℕ → Error
  unknown_namespace namespace_not_granted : String → Error
  unknown_setting : (namespace key : String) → Error
  unknown_settings setting_scope : List String → Error
  setting_not_writable setting_pinned : String → Error
  invalid_value : (setting : String) → Refusal → Error
  credential_refused : (setting : String) → Suspicion → Error
  revision_mismatch : (current expected : ℕ) → Error
