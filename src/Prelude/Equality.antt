-- ===== src/Prelude/Equality.antt =====
-- Equality tests, one operator for numbers, texts, pairs, options and lists.
use Prim.Native.Nat.{ℕ}
use Prim.Native.String.{String}
use mathlib.Core.Path.{◌≡◌, refl}
use mathlib.Core.Logic.{◌↔◌}
use mathlib.Core.Bool.{Bool, true, false, ◌&&◌}
use mathlib.Core.Option.{Option, none, some}
use mathlib.Core.List.{List, [], ◌∷◌}
use native.Mathlib.Omega.{arith}
use text.Mathlib.Text.{◌==◌ as str_eq}
use text.Mathlib.TextEquality.{eq_iff}
use settings_api.Prelude.Tests.{nat_beq, nat_beq_iff}

pub record Eq {ℓ} (A : Type ℓ) : Type ℓ where
  pub beq : A → A → Bool
  pub beq_iff : (x y : A) → (beq x y ≡ true) ↔ (x ≡ y)

-- `x == y` of a type that has a test.
infix 50 ◌==◌
abbrev pub ◌==◌ {ℓ} : {A : Type ℓ} ⦃test : Eq A⦄ → A → A → Bool
◌==◌ ⦃test⦄ x y = test.beq x y

instance abbrev pub nat_eq : Eq ℕ
nat_eq = record { beq_iff = nat_beq_iff; beq = nat_beq }

module _ {ℓ κ} {A : Type ℓ} {B : Type κ} ⦃e : Eq A⦄ ⦃f : Eq B⦄ where
  abbrev pub pair_beq : A × B → A × B → Bool
  pair_beq (a, b) (c, d) = a == c && b == d

  pub pair_beq_iff : (p q : A × B) → (pair_beq p q ≡ true) ↔ (p ≡ q)
  pair_beq_iff (a, b) (c, d) = ground (arith, e.beq_iff a c, f.beq_iff b d)

  instance abbrev pub pair_eq : Eq (A × B)
  pair_eq = record { beq = pair_beq; beq_iff = pair_beq_iff }

module _ {ℓ κ μ} {A : Type ℓ} {B : Type κ} {C : Type μ} ⦃e : Eq A⦄ ⦃f : Eq B⦄ ⦃g : Eq C⦄ where
  abbrev pub triple_beq : A × B × C → A × B × C → Bool
  triple_beq (a, b, c) (x, y, z) = a == x && b == y && c == z

  pub triple_beq_iff : (p q : A × B × C) → (triple_beq p q ≡ true) ↔ (p ≡ q)
  triple_beq_iff (a, b, c) (x, y, z) = ground (arith, e.beq_iff a x, f.beq_iff b y, g.beq_iff c z)

  instance abbrev pub triple_eq : Eq (A × B × C)
  triple_eq = record { beq = triple_beq; beq_iff = triple_beq_iff }

instance abbrev pub string_eq : Eq String
string_eq = record { beq_iff = eq_iff; beq = str_eq }

module _ {ℓ} {A : Type ℓ} ⦃e : Eq A⦄ where
  abbrev pub option_beq : Option A → Option A → Bool
  option_beq none none = true
  option_beq (some a) (some b) = a == b
  option_beq _ _ = false

  pub option_beq_iff : (a b : Option A) → (option_beq a b ≡ true) ↔ (a ≡ b)
  option_beq_iff none none = ground arith
  option_beq_iff none (some b) = ground arith
  option_beq_iff (some a) none = ground arith
  option_beq_iff (some a) (some b) = ground (arith, e.beq_iff a b)

  instance abbrev pub option_eq : Eq (Option A)
  option_eq = record { beq = option_beq; beq_iff = option_beq_iff }

  unfoldable pub list_beq : List A → List A → Bool
  list_beq [] [] = true
  list_beq (a ∷ xs) (b ∷ bs) = a == b && list_beq xs bs
  list_beq _ _ = false

module _ {ℓ} {A : Type ℓ} ⦃e : Eq A⦄ where
  pub list_beq_iff : (a b : List A) → (list_beq a b ≡ true) ↔ (a ≡ b)
  unfolding list_beq
  list_beq_iff [] [] = ground arith
  list_beq_iff [] (b ∷ bs) = ground arith
  list_beq_iff (a ∷ xs) [] = ground arith
  list_beq_iff (a ∷ xs) (b ∷ bs) = ground (arith, e.beq_iff a b, list_beq_iff xs bs)

  instance abbrev pub list_eq : Eq (List A)
  list_eq = record { beq = list_beq; beq_iff = list_beq_iff }

  pub beq_refl : (a : A) → (a == a) ≡ true
  beq_refl a = (e.beq_iff a a).1 refl
