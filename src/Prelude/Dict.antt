-- ===== src/Prelude/Dict.antt =====
-- A Python `dict`: an association list in insertion order. Setting a key that is there keeps its
-- place.
use Prim.Native.Nat.{◌≤◌, ◌<◌}
use mathlib.Core.Path.{◌≡◌, refl, sym, subst, ap}
use mathlib.Core.Bool.{Bool}
use mathlib.Core.Option.{Option, none, some}
use mathlib.Core.List.{List, [], ◌∷◌, ◌++◌}
use mathlib.Core.Logic.{inl, inr}
use native.Mathlib.Omega.{arith}
use settings_api.Prelude.Tests.{if◌then◌else◌, is_some, Bool-cases}
use settings_api.Prelude.Lists.{All, length}
use settings_api.Prelude.Equality.{Eq, ◌==◌}

abbrev pub Dict {ℓ κ} : Type ℓ → Type κ → Type (ℓ ⊔ κ)
Dict K V = List (K × V)

abbrev pub keys {ℓ κ} : {K : Type ℓ} {V : Type κ} → Dict K V → List K
keys [] = []
keys ((k, v) ∷ d) = k ∷ keys d

module _ {ℓ κ} {K : Type ℓ} {V : Type κ} ⦃e : Eq K⦄ where
  -- `d.get(k)`
  unfoldable pub get : Dict K V → K → Option V
  get [] k = none
  get ((j, v) ∷ d) k = let rest = get d k in if j == k then some v else rest

  -- `d[k] = v`
  unfoldable pub insert : Dict K V → K → V → Dict K V
  insert [] k v = (k, v) ∷ []
  insert ((j, w) ∷ d) k v = let rest = insert d k v in if j == k then (j, v) ∷ d else (j, w) ∷ rest

  -- `k in d`
  abbrev pub has_key : Dict K V → K → Bool
  has_key d k = is_some (get d k)

  -- `d.update(other)`
  unfoldable pub update : Dict K V → Dict K V → Dict K V
  unfolding insert
  update d [] = d
  update d ((k, v) ∷ other) = update (insert d k v) other

module _ {ℓ κ} {K : Type ℓ} {V : Type κ} ⦃e : Eq K⦄ where
  pub get-insert :
      (d : Dict K V) (k j : K) (v : V) → get (insert d k v) j ≡ (if k == j then some v else get d j)
  unfolding get insert
  get-insert [] k j v = refl
  get-insert ((i, w) ∷ d) k j v =
      ground (arith, e.beq_iff k j, e.beq_iff i k, e.beq_iff i j, get-insert d k j v)

  -- What holds of every item holds of the one that is found.
  pub get-All {μ} :
      (P : K × V → Type μ) (d : Dict K V) (k : K) (v : V) → All P d → get d k ≡ some v → P (k, v)
  unfolding get
  get-All P [] k v h found = cc
  get-All P ((j, w) ∷ d) k v (h, hs) found = elim (Bool-cases (j == k)) [
    | inl same ↦ subst P (ground (arith, e.beq_iff j k)) h
    | inr other ↦ get-All P d k v hs (rw other at found)
  ]

  pub insert-All {μ} :
      (P : K × V → Type μ) (d : Dict K V) (k : K) (v : V)
      → All P d
      → P (k, v)
      → All P (insert d k v)
  unfolding insert
  insert-All P [] k v hs h = (h, tt)
  insert-All P ((j, w) ∷ d) k v (g, gs) h = elim (Bool-cases (j == k)) [
    | inl same ↦ rw same (subst (λ i. P (i, v)) (sym ((e.beq_iff j k).0 same)) h, gs)
    | inr other ↦ rw other (g, insert-All P d k v gs h)
  ]

  pub insert-absent :
      (d : Dict K V) (k : K) (v : V) → get d k ≡ none → insert d k v ≡ d ++ ((k, v) ∷ [])
  unfolding insert get
  insert-absent [] k v h = refl
  insert-absent ((j, w) ∷ d) k v h = ground (arith, insert-absent d k v)

-- `d.pop(k, None)`, and a dictionary without the keys that pass a test.
module _ {ℓ κ} {K : Type ℓ} {V : Type κ} where
  unfoldable pub drop_keys : (K → Bool) → Dict K V → Dict K V
  drop_keys p [] = []
  drop_keys p ((k, v) ∷ d) = let rest = drop_keys p d in if p k then rest else (k, v) ∷ rest

  pub drop_keys-All {μ} :
      (P : K × V → Type μ) (p : K → Bool) (d : Dict K V) → All P d → All P (drop_keys p d)
  unfolding drop_keys
  drop_keys-All P p [] hs = tt
  drop_keys-All P p ((k, v) ∷ d) (h, hs) = elim (Bool-cases (p k)) [
    | inl dropped ↦ rw dropped (drop_keys-All P p d hs)
    | inr kept ↦ rw kept (h, drop_keys-All P p d hs)
  ]

module _ {ℓ κ} {K : Type ℓ} {V : Type κ} ⦃e : Eq K⦄ where
  abbrev pub erase : Dict K V → K → Dict K V
  erase d k = drop_keys (λ j. j == k) d

  pub get-drop_keys :
      (p : K → Bool) (d : Dict K V) (j : K)
      → get (drop_keys p d) j ≡ (if p j then none else get d j)
  unfolding get drop_keys
  get-drop_keys p [] j = ground arith
  get-drop_keys p ((k, v) ∷ d) j =
      ground (arith, e.beq_iff k j, get-drop_keys p d j, ap p {x = k} {y = j})

  pub length-drop_keys-le : (p : K → Bool) (d : Dict K V) → length (drop_keys p d) ≤ length d
  unfolding drop_keys
  length-drop_keys-le p [] = omega arith
  length-drop_keys-le p ((j, v) ∷ d) = ground (arith, length-drop_keys-le p d)

  pub length-erase_found :
      (d : Dict K V) (k : K) (v : V) → get d k ≡ some v → length (erase d k) < length d
  unfolding get drop_keys
  length-erase_found [] k v h = cc
  length-erase_found ((j, w) ∷ d) k v h =
      ground (arith, length-erase_found d k v, length-drop_keys-le (λ i. i == k) d)

  pub length-insert_found :
      (d : Dict K V) (k : K) (v w : V) → get d k ≡ some v → length (insert d k w) ≡ length d
  unfolding get insert
  length-insert_found [] k v w h = cc
  length-insert_found ((j, x) ∷ d) k v w h = ground (arith, length-insert_found d k v w)

  -- The key at the end, as of a dictionary that it was popped from and set in again.
  abbrev pub push_last : Dict K V → K → V → Dict K V
  push_last d k v = erase d k ++ ((k, v) ∷ [])

  put_back : Dict K V → K → Option V → Dict K V
  unfolding insert drop_keys
  put_back d k none = erase d k
  put_back d k (some v) = insert d k v

  -- What stands under a key is replaced by what `f` makes of it; `none` is no entry.
  unfoldable pub adjust : Dict K V → K → (Option V → Option V) → Dict K V
  unfolding put_back get
  adjust d k f = put_back d k (f (get d k))

  get-put_back :
      (d : Dict K V) (k j : K) (o : Option V)
      → get (put_back d k o) j ≡ (if k == j then o else get d j)
  unfolding put_back
  get-put_back d k j none =
      ground (arith, e.beq_iff k j, e.beq_iff j k, get-drop_keys (λ i. i == k) d j)
  get-put_back d k j (some v) = get-insert d k j v

  pub get-adjust :
      (d : Dict K V) (k j : K) (f : Option V → Option V)
      → get (adjust d k f) j ≡ (if k == j then f (get d j) else get d j)
  unfolding adjust
  get-adjust d k j f = elim (Bool-cases (k == j)) [
    | inl same ↦
        let p : k ≡ j = (e.beq_iff k j).0 same in
        rw (get-put_back d k j (f (get d k)), same, p) refl
    | inr other ↦ rw (get-put_back d k j (f (get d k)), other) refl
  ]

-- No key stands in the dictionary twice.
module _ {ℓ κ} {K : Type ℓ} {V : Type κ} ⦃e : Eq K⦄ where
  abbrev pub KeysUnique : Dict K V → Type κ
  KeysUnique [] = Unit
  KeysUnique ((k, v) ∷ d) = (get d k ≡ none) × KeysUnique d

  pub insert-KeysUnique : (d : Dict K V) (k : K) (v : V) → KeysUnique d → KeysUnique (insert d k v)
  unfolding insert get
  insert-KeysUnique [] k v u = (refl, tt)
  insert-KeysUnique ((j, w) ∷ d) k v (h, u) = elim (Bool-cases (j == k)) [
    | inl same ↦ rw same (h, u)
    | inr other ↦ rw other (
      ground (arith, e.beq_iff j k, e.beq_iff k j, get-insert d k j v),
      insert-KeysUnique d k v u,
    )
  ]
