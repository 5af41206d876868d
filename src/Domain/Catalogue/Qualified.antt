-- ===== src/Domain/Catalogue/Qualified.antt =====
-- `f"{namespace}.{key}"` of domain/types.py names one setting, since a namespace holds no dot.
use Prim.Native.String.{String, [], ◌∷◌}
use Prim.Native.Char.{Char, code}
use text.Mathlib.TextLemmas.{nil-append, cons-append, head-eq_of_cons-eq, tail-eq_of_cons-eq}
use settings_api.Prelude.{subst, ◌≡◌, ◌≢◌, refl, ap, ap₂, ◌∙◌, sym, ◌<>◌}
use settings_api.Domain.Types.{qualify}
use settings_api.Domain.Types.Names.{HasNoDot}

abbrev dot : Char
dot = "."

qualify-nil : (k : String) → qualify [] k ≡ dot ∷ k
qualify-nil k = nil-append ("." <> k) ∙ cons-append dot [] k ∙ ap (λ s. dot ∷ s) (nil-append k)

qualify-cons : (c : Char) (n k : String) → qualify (c ∷ n) k ≡ c ∷ qualify n k
qualify-cons c n k = cons-append c n ("." <> k)

dot_first : (c : Char) (n k j : String) → code c ≢ b'.' → qualify (c ∷ n) k ≢ qualify [] j
dot_first c n k j h e =
    h (ap code (head-eq_of_cons-eq (sym (qualify-cons c n k) ∙ e ∙ qualify-nil j)))

-- A key holds no dot, so what stands behind the first dot of a name cannot hold another.
dot_in_key : (m j : String) → HasNoDot (qualify m j) → ⊥
dot_in_key [] j h = (rw qualify-nil at h).0 refl
dot_in_key (c ∷ m) j h = dot_in_key m j (rw qualify-cons at h).1

-- The name of an entry, whose namespace and key hold no dot, is the name of no other pair.
pub qualify_inj :
    (n k m j : String) → HasNoDot n → HasNoDot k → qualify n k ≡ qualify m j → (n ≡ m) × (k ≡ j)
qualify_inj [] k [] j hn hk e = (refl, tail-eq_of_cons-eq (sym (qualify-nil k) ∙ e ∙ qualify-nil j))
qualify_inj [] k (c ∷ m) j hn hk e =
    let same = tail-eq_of_cons-eq (sym (qualify-nil k) ∙ e ∙ qualify-cons c m j) in
    absurd (dot_in_key m j (subst HasNoDot same hk))
qualify_inj (c ∷ n) k [] j hn hk e = absurd (dot_first c n k j hn.0 e)
qualify_inj (c ∷ n) k (d ∷ m) j hn hk e =
    let same = sym (qualify-cons c n k) ∙ e ∙ qualify-cons d m j in
    let (rest, keys) = qualify_inj n k m j hn.1 hk (tail-eq_of_cons-eq same) in
    (ap₂ ◌∷◌ (head-eq_of_cons-eq same) rest, keys)
