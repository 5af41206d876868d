-- ===== src/Tests/Access.antt =====
-- Tokens, grants, credentials and values of the deployment.
use settings_api.Prelude.{
  ap, ◌≡◌, ◌≢◌, ◌↔◌, ◌⊎◌, refl, arith, All, Bool, true, false, String, none, some, [], ◌∷◌, is_some,
  contains, length, string_eq, nat_eq, pair_eq, Result, ok, err, ◌==◌,
}
use settings_api.Prelude.Int.{pos}
use settings_api.Prelude.Text.{codes, starts_with, behind}
use settings_api.Domain.Value.{int}
use settings_api.Domain.Types.Names.{HasNoDot, matches_key, matches_key-HasNoDot}
use settings_api.Domain.Catalogue.{common}
use settings_api.Domain.Namespaces.{
  ServiceGrant, grants, granted_namespaces, accepts_audience, granted_namespaces-allowed,
}
use settings_api.Domain.Namespaces.Apart.{accepts_audience-apart}
use settings_api.Domain.Values
use settings_api.Domain.Values.{Acceptable, validate_iff-Acceptable}
use settings_api.Domain.Values.Encode.{digits}
use settings_api.Domain.Secrets.{is_token_char}
use settings_api.Domain.Secrets.Scan.{looks_like_a_credential, looks_like_a_credential-prefix}
use settings_api.Identity.{
  Refused, token_refused, Identity, Keyring, VerifiedToken, verify_for_service,
  verify_for_service-own,
}
use settings_api.Api.{revision_from_if_match}
use settings_api.Api.RoundTrip.{revision_from_if_match-etag}
use settings_api.Domain.Errors.{bad_tag, value_error}
use settings_api.Settings.Service.Writes.{etag}
use settings_api.Domain.Values.Encode.{digits_within}
use settings_api.Prelude.{◌≤◌, list_beq, length, list_eq, nat_eq, if◌then◌else◌, some, ◌++◌}
use settings_api.Tests.{machine, volume}
use settings_api.Tests.Domain.{runs_domain}

validate_iff-Acceptable_example :
    (Values.validate machine volume (int (pos 7)) 0 ≡ ok (int (pos 7)))
    ↔ Acceptable machine volume (int (pos 7)) 0
validate_iff-Acceptable_example = validate_iff-Acceptable machine volume (int (pos 7)) 0

token_form : All (λ c. is_token_char c ≡ true) (codes "abcd1234")
token_form = ground arith

looks_like_a_credential-prefix_example :
    is_some (looks_like_a_credential machine "my key: ghp_abcd1234.") ≡ true
unfolding runs_domain
looks_like_a_credential-prefix_example =
    looks_like_a_credential-prefix machine "my key: ghp_abcd1234." "ghp_" (codes "my key: ")
      (codes "abcd1234") (codes ".") refl refl refl token_form (omega arith)

abbrev grant_of : String → ServiceGrant
grant_of prefix = record { service = prefix; audience_prefix = prefix; namespaces = "voice" ∷ [] }

tool_named : HasNoDot "tool" × HasNoDot "toolkit"
unfolding matches_key
tool_named = (matches_key-HasNoDot "tool" refl, matches_key-HasNoDot "toolkit" refl)

tool_apart : codes "tool" ≢ codes "toolkit"
tool_apart e = omega (arith, ap length e)

accepted : accepts_audience (grant_of "tool") "tool.jobs" ≡ true
unfolding runs_domain accepts_audience starts_with behind
accepted = refl

accepts_audience-apart_example : accepts_audience (grant_of "toolkit") "tool.jobs" ≡ false
accepts_audience-apart_example =
    accepts_audience-apart (grant_of "tool") (grant_of "toolkit") "tool.jobs" tool_named.0
      tool_named.1 tool_apart accepted

granted :
    granted_namespaces "settings.voice" "settings" ("voice" ∷ []) ≡ ok ("voice" ∷ "common" ∷ [])
unfolding runs_domain granted_namespaces
granted = refl

held : contains {A = String} ("voice" ∷ "common" ∷ []) "common" ≡ true
unfolding runs_domain
held = refl

granted_namespaces-allowed_example :
    (contains {A = String} ("voice" ∷ []) "common" ≡ true) ⊎ (◌≡◌ {A = String} "common" common)
granted_namespaces-allowed_example =
    granted_namespaces-allowed "settings.voice" "settings" ("voice" ∷ []) ("voice" ∷ "common" ∷ [])
      "common" granted held

-- A verifier that knows one token, minted for `tool.jobs`.
abbrev checked_token : Bool → Result Refused VerifiedToken
checked_token true = ok (record { account_id = "ada"; audience = "tool.jobs" })
checked_token false = err token_refused

abbrev keyring : Keyring
keyring = record {
  verify = λ token accepts. checked_token (accepts "tool.jobs");
  in_family = λ prefix audience. prefix == audience;
  identify = λ token. none;
}

honours :
    (token : String) (accepts : String → Bool) (v : VerifiedToken)
    → keyring.verify token accepts ≡ ok v
    → accepts v.audience ≡ true
honours token accepts v h = ground arith

abbrev ada_for_tool : Identity
ada_for_tool = record {
  account_id = "ada";
  audience = "tool.jobs";
  namespaces = "common" ∷ "voice" ∷ [];
  service = some "tool";
}

verified : verify_for_service keyring "t" (grant_of "tool") ≡ ok ada_for_tool
unfolding runs_domain verify_for_service
verified = refl

verify_for_service-own_example :
    (accepts_audience (grant_of "tool") "tool.jobs" ≡ true)
    × (ada_for_tool.service ≡ some "tool")
    × (contains ada_for_tool.namespaces "user" ≡ grants (grant_of "tool") "user")
verify_for_service-own_example =
    verify_for_service-own keyring "t" (grant_of "tool") ada_for_tool "user" honours verified

forty_two_short : length (digits 42) ≤ 4300
unfolding digits_within
forty_two_short = omega arith

revision_from_if_match-etag_example :
    revision_from_if_match machine (some (etag "ada.l" 42)) "ada" ≡ (
      if codes "ada.l" == codes "ada"
      then ok (some 42)
      else err (bad_tag (length (etag "ada.l" 42))))
revision_from_if_match-etag_example =
    revision_from_if_match-etag machine "ada.l" "ada" 42 refl forty_two_short

-- `str.isdigit` accepts a superscript two, and `int` does not.
superscript_two :
    revision_from_if_match machine (some (codes "\"ada." ++ 0xb2 ∷ b'"' ∷ [])) "ada"
    ≡ err value_error
unfolding revision_from_if_match list_beq
superscript_two = refl
