-- ===== src/Domain/Namespaces/Apart.antt =====
-- `ServiceGrant.accepts_audience` of domain/namespaces.py keeps services apart.
use Prim.Native.Char.{code}
use text.Mathlib.TextLemmas.{nil-append, cons-append}
use settings_api.Prelude.{
  ℕ, ◌≡◌, ◌≢◌, refl, sym, ap, ◌∙◌, inl, inr, arith, true, false, String, ◌<>◌, List, [], ◌∷◌, ◌++◌,
  All, is_some, if◌then◌else◌, ◌==◌, nat_eq, string_eq, Bool-cases,
}
use settings_api.Prelude.Text.{codes, behind, starts_with}
use settings_api.Domain.Types.Names.{HasNoDot}
use settings_api.Domain.Namespaces.{ServiceGrant, accepts_audience}

-- What stands before the first dot.
unfoldable pub head_codes : List ℕ → List ℕ
head_codes [] = []
head_codes (c ∷ s) = let rest = head_codes s in if c == b'.' then [] else c ∷ rest

head_codes-same : (s : List ℕ) → All (λ c. c ≢ b'.') s → head_codes s ≡ s
unfolding head_codes
head_codes-same [] h = refl
head_codes-same (c ∷ s) (h, hs) = ground (arith, head_codes-same s hs)

head_codes-behind :
    (p s : List ℕ)
    → All (λ c. c ≢ b'.') p
    → is_some (behind (p ++ b'.' ∷ []) s) ≡ true
    → head_codes s ≡ p
unfolding head_codes behind
head_codes-behind [] [] h found = ground arith
head_codes-behind [] (c ∷ s) h found = ground arith
head_codes-behind (x ∷ p) [] h found = ground arith
head_codes-behind (x ∷ p) (c ∷ s) (h, hs) found = ground (arith, head_codes-behind p s hs)

codes-append : (a b : String) → codes (a <> b) ≡ codes a ++ codes b
codes-append String.[] b = ap codes (nil-append b)
codes-append (String.◌∷◌ c a) b =
    ap codes (cons-append c a b) ∙ ap (λ s. code c ∷ s) (codes-append a b)

-- The audiences that a service accepts all have its prefix before their first dot.
accepts_audience-head :
    (g : ServiceGrant) (audience : String)
    → HasNoDot g.audience_prefix
    → accepts_audience g audience ≡ true
    → head_codes (codes audience) ≡ codes g.audience_prefix
unfolding accepts_audience starts_with
accepts_audience-head g audience form h = ground (
  arith,
  string_eq.beq_iff audience g.audience_prefix,
  codes-append g.audience_prefix ".",
  head_codes-same (codes g.audience_prefix) form,
  head_codes-behind (codes g.audience_prefix) (codes audience) form,
)

-- Two services whose prefixes hold no dot and differ accept no audience in common.
pub accepts_audience-apart :
    (g h : ServiceGrant) (audience : String)
    → HasNoDot g.audience_prefix
    → HasNoDot h.audience_prefix
    → codes g.audience_prefix ≢ codes h.audience_prefix
    → accepts_audience g audience ≡ true
    → accepts_audience h audience ≡ false
accepts_audience-apart g h audience form_g form_h apart accepted =
    elim (Bool-cases (accepts_audience h audience)) [
      | inl both ↦ absurd (
          apart (
            sym (accepts_audience-head g audience form_g accepted)
            ∙ accepts_audience-head h audience form_h both))
      | inr refused ↦ refused
    ]
