-- ===== src/Prelude/Loops.antt =====
-- `for` loops that may raise.
use mathlib.Core.Path.{◌≡◌}
use mathlib.Core.List.{List, [], ◌∷◌}
use settings_api.Prelude.Lists.{All}
use settings_api.Prelude.Results.{Result, ok, ◌>>=◌, ◌>>◌, >>=-eq-ok}

-- A loop whose body only checks.
module _ {ℓ} {E : Type 0} {A : Type ℓ} where
  unfoldable pub for_each : List A → (A → Result E (Unit {0})) → Result E (Unit {0})
  for_each [] body = ok tt
  for_each (x ∷ xs) body = let rest = for_each xs body in body x >> rest

  pub for_each_ok :
      (xs : List A) (body : A → Result E (Unit {0}))
      → for_each xs body ≡ ok tt
      → All (λ x. body x ≡ ok tt) xs
  unfolding for_each
  for_each_ok [] body h = tt
  for_each_ok (x ∷ xs) body h =
      let (u, here, later) = >>=-eq-ok (body x) (λ _. for_each xs body) h in
      (here, for_each_ok xs body later)

-- A loop that carries a value.
module _ {ℓ κ} {E : Type 0} {A : Type ℓ} {S : Type κ} where
  unfoldable pub fold_m : (S → A → Result E S) → S → List A → Result E S
  fold_m body s [] = ok s
  fold_m body s (x ∷ xs) = do s' ← body s x; fold_m body s' xs

-- A comprehension whose body may raise.
module _ {ℓ κ} {E : Type 0} {A : Type ℓ} {B : Type κ} where
  unfoldable pub map_m : (A → Result E B) → List A → Result E (List B)
  map_m f [] = ok []
  map_m f (x ∷ xs) = let rest = map_m f xs in do y ← f x; ys ← rest; ok (y ∷ ys)
