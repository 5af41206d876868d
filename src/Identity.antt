-- ===== src/Identity.antt =====
-- auth/tokens.py and auth/service_tokens.py: who a request is for. The shared verifier and the service
-- authenticator are keyring_client's, and are parameters.
use settings_api.Prelude.{
  ◌≡◌, arith, Bool, true, String, ◌<>◌, Option, none, some, List, ◌∷◌, contains, string_eq, Result,
  ok, err, ◌>>=◌, map_err, >>=-eq-ok,
}
use settings_api.Prelude.Dict.{Dict, get}
use settings_api.Domain.Errors.{Error, authentication, keyring_unreachable}
use settings_api.Domain.Catalogue.{common}
use settings_api.Domain.Namespaces.{ServiceGrant, grants, accepts_audience, granted_namespaces}

pub record Identity : Type 0 where
  pub account_id : String
  pub audience : String
  pub namespaces : List String
  pub service : Option String

-- `Identity.actor`
abbrev pub actor_of : String → Option String → String
actor_of audience none = audience
actor_of audience (some service) = "service:" <> service

abbrev pub actor : Identity → String
actor identity = actor_of identity.audience identity.service

-- keyring_client's `VerifiedToken`, and how its verifier refuses.
pub record VerifiedToken : Type 0 where
  pub account_id : String
  pub audience : String

pub data Refused : Type 0 where
  token_refused keys_unavailable : Refused

-- keyring_client: the verifier for an audience policy, the audience family of a prefix, and the name of
-- the service that a service token belongs to.
pub record Keyring : Type 0 where
  pub verify : String → (String → Bool) → Result Refused VerifiedToken
  pub in_family : String → String → Bool
  pub identify : String → Option String

abbrev pub translate : Refused → Error
translate token_refused = authentication
translate keys_unavailable = keyring_unreachable

module _ (keyring : Keyring) where
  -- `_verify`
  abbrev pub verify_token : String → (String → Bool) → Result Error VerifiedToken
  verify_token token accepts = map_err translate (keyring.verify token accepts)

  -- `TokenVerifier.verify_owner`
  unfoldable pub verify_owner : String → List String → String → Result Error Identity
  unfolding granted_namespaces
  verify_owner prefix allowed token = do
    verified ← verify_token token (keyring.in_family prefix)
    namespaces ← map_err (λ _. authentication) (granted_namespaces verified.audience prefix allowed)
    ok (record {
      account_id = verified.account_id;
      audience = verified.audience;
      namespaces = namespaces;
      service = none;
    })

  -- `TokenVerifier.verify_for_service`
  unfoldable pub verify_for_service : String → ServiceGrant → Result Error Identity
  unfolding accepts_audience
  verify_for_service token grant = do
    verified ← verify_token token (accepts_audience grant)
    ok (record {
      account_id = verified.account_id;
      audience = verified.audience;
      namespaces = common ∷ grant.namespaces;
      service = some grant.service;
    })

  abbrev pub grant_named : Dict String ServiceGrant → Option String → Result Error ServiceGrant
  grant_named grants none = err authentication
  grant_named grants (some name) = elim (get grants name) [
    | none ↦ err authentication
    | some grant ↦ ok grant
  ]

  -- `ServiceAuthenticator.identify`; the grants and the tokens have the same names.
  unfoldable pub identify_service : Dict String ServiceGrant → String → Result Error ServiceGrant
  unfolding get
  identify_service grants token = grant_named grants (keyring.identify token)

  -- What keyring_client documents: a token that it verifies has an audience that the policy accepts.
  abbrev pub HonoursPolicy : Type 0
  HonoursPolicy =
      (token : String) (accepts : String → Bool) (v : VerifiedToken)
      → keyring.verify token accepts ≡ ok v
      → accepts v.audience ≡ true

  -- Where the verifier honours its policy: an identity on the internal surface comes from a token minted
  -- for that very service, records the service, and sees the namespaces of its grant and no others.
  pub verify_for_service-own :
      (token : String) (grant : ServiceGrant) (identity : Identity) (namespace : String)
      → HonoursPolicy
      → verify_for_service token grant ≡ ok identity
      → (accepts_audience grant identity.audience ≡ true)
        × (identity.service ≡ some grant.service)
        × (contains identity.namespaces namespace ≡ grants grant namespace)
  unfolding verify_for_service grants contains
  verify_for_service-own token grant identity namespace honours h =
      let (v, found, made) = >>=-eq-ok (verify_token token (accepts_audience grant)) _ h in
      ground (
        arith,
        honours token (accepts_audience grant) v,
        string_eq.beq_iff common namespace,
        string_eq.beq_iff namespace common,
      )
