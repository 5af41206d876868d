-- ===== src/Api/Status.antt =====
-- api/errors.py: the status that each error is answered with, and the header that goes along.
use settings_api.Prelude.{ℕ, String, Option, none, some}
use settings_api.Domain.Errors

-- `_DOMAIN_STATUS`, the handler of `KeyringUnreachableError`, and 500 for what no handler names.
unfoldable pub status_of : Errors.Error → ℕ
status_of Errors.authentication = 401
status_of (Errors.namespace_not_granted _) = 403
status_of (Errors.setting_not_writable _) = 403
status_of (Errors.unknown_namespace _) = 404
status_of (Errors.unknown_setting _ _) = 404
status_of (Errors.unknown_settings _) = 400
status_of (Errors.setting_pinned _) = 409
status_of (Errors.revision_mismatch _ _) = 412
status_of (Errors.bad_tag _) = 412
status_of (Errors.invalid_value _ _) = 422
status_of (Errors.credential_refused _ _) = 422
status_of (Errors.setting_scope _) = 422
status_of Errors.keyring_unreachable = 503
status_of Errors.integrity_error = 500
status_of Errors.value_error = 500

-- `Retry-After`
unfoldable pub retry_after : Errors.Error → Option String
retry_after Errors.keyring_unreachable = some "5"
retry_after _ = none
