-- ===== src/Domain/Namespaces.antt =====
-- domain/namespaces.py: who may see which namespace.
pub mod Apart
use settings_api.Prelude.{
  ◌≡◌, refl, ◌⊎◌, inl, inr, arith, Bool, true, false, not, ◌&&◌, ◌||◌, String, ◌<>◌, List, [], ◌∷◌,
  contains, if◌then◌else◌, ◌==◌, string_eq, Result, ok, err, raise_if,
}
use settings_api.Prelude.Text.{partition_dot, starts_with}
use settings_api.Domain.Errors.{Error, unknown_namespace, namespace_not_granted}
use settings_api.Domain.Catalogue.{common}

pub record ServiceGrant : Type 0 where
  pub service : String
  pub audience_prefix : String
  pub namespaces : List String

module _ (g : ServiceGrant) where
  unfoldable pub grants : String → Bool
  unfolding contains
  grants namespace = namespace == common || contains g.namespaces namespace

  unfoldable pub accepts_audience : String → Bool
  unfolding starts_with
  accepts_audience audience =
      audience == g.audience_prefix || starts_with audience (g.audience_prefix <> ".")

  -- `ServiceGrant.require`
  unfoldable pub require : String → Result Error (Unit {0})
  unfolding grants
  require namespace = raise_if (not (grants namespace)) (namespace_not_granted namespace)

-- `granted_namespaces`; a `frozenset` is a list that is only asked what it contains.
unfoldable pub granted_namespaces : String → String → List String → Result Error (List String)
unfolding partition_dot contains
granted_namespaces audience prefix allowed =
    let (head, separator, namespace) = partition_dot audience in
    if audience == prefix
    then ok allowed
    else if not separator || not (head == prefix)
    then err (namespace_not_granted audience)
    else if not (contains allowed namespace)
    then err (namespace_not_granted audience)
    else ok (namespace ∷ common ∷ [])

unfoldable pub require_known : String → List String → Result Error (Unit {0})
unfolding contains
require_known namespace known =
    raise_if (not (contains known namespace)) (unknown_namespace namespace)

unfoldable pub require_granted : String → List String → Result Error (Unit {0})
unfolding contains
require_granted namespace granted =
    raise_if (not (contains granted namespace)) (namespace_not_granted namespace)

-- A token grants only namespaces that the deployment allows, and `common`.
pub granted_namespaces-allowed :
    (audience prefix : String) (allowed granted : List String) (namespace : String)
    → granted_namespaces audience prefix allowed ≡ ok granted
    → contains granted namespace ≡ true
    → (contains allowed namespace ≡ true) ⊎ (namespace ≡ common)
unfolding granted_namespaces contains
granted_namespaces-allowed audience prefix allowed granted namespace h held = ground (
  arith,
  string_eq.beq_iff (partition_dot audience).2 namespace,
  string_eq.beq_iff common namespace,
)
