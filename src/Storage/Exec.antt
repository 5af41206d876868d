-- ===== src/Storage/Exec.antt =====
-- Work on a connection. What was written before a raise stays written until the transaction around it
-- rolls back, so the tables come back beside the error too.
use settings_api.Prelude.{◌≡◌, refl, Bool, true, false, Result, ok, err, ◌⊎◌, inl, inr}
use settings_api.Domain.Errors.{Error}
use settings_api.Storage.{Db}

abbrev pub Exec {ℓ} : Type ℓ → Type ℓ
Exec A = Db → Result Error A × Db

module _ {ℓ} {A : Type ℓ} where
  abbrev pub pure : A → Exec A
  pure a db = (ok a, db)

  abbrev pub raise : Error → Exec A
  raise e db = (err e, db)

  abbrev pub lift : Result Error A → Exec A
  lift r db = (r, db)

  abbrev pub gets : (Db → A) → Exec A
  gets f db = (ok (f db), db)

abbrev pub modify : (Db → Db) → Exec (Unit {0})
modify f db = (ok tt, f db)

module _ {ℓ} {A B : Type ℓ} where
  abbrev pub continue : Result Error A → (A → Exec B) → Exec B
  continue (ok a) f db = f a db
  continue (err e) f db = (err e, db)

  infixl 5 ◌>>=◌
  abbrev pub ◌>>=◌ : Exec A → (A → Exec B) → Exec B
  ◌>>=◌ m f db = let (r, db') = m db in continue r f db'

infixl 5 ◌>>◌
abbrev pub ◌>>◌ : {B : Type 0} → Exec (Unit {0}) → Exec B → Exec B
m >> k = m >>= λ _. k

abbrev pub raise_when : Bool → Error → Exec (Unit {0})
raise_when true e db = (err e, db)
raise_when false e db = (ok tt, db)

-- `_in_transaction`: the work's writes stand if it returns, and none of them does if it raises.
module _ {ℓ} {A : Type ℓ} where
  abbrev pub settle : Db → Result Error A × Db → Result Error A × Db
  settle before (ok a, after) = (ok a, after)
  settle before (err e, after) = (err e, before)

  unfoldable pub transact : Exec A → Exec A
  transact work db = settle db (work db)

-- Inversion of a block that returned.
module _ {ℓ} {A B : Type ℓ} where
  continue-eq-ok :
      (r : Result Error A) (f : A → Exec B) (db : Db) {b : B} {end : Db}
      → continue r f db ≡ (ok b, end)
      → (a : A) × (r ≡ ok a) × (f a db ≡ (ok b, end))
  continue-eq-ok (ok a) f db h = (a, refl, h)
  continue-eq-ok (err e) f db h = cc

  pub >>=-eq-ok :
      (m : Exec A) (f : A → Exec B) (db : Db) {b : B} {end : Db}
      → (m >>= f) db ≡ (ok b, end)
      → (a : A) × ((m db).0 ≡ ok a) × (f a (m db).1 ≡ (ok b, end))
  >>=-eq-ok m f db h = continue-eq-ok (m db).0 f (m db).1 h

  -- Inversion of a block that raised: its first part did, or the rest.
  continue-raises :
      (r : Result Error A) (f : A → Exec B) (db : Db) (e : Error)
      → (continue r f db).0 ≡ err e
      → (r ≡ err e) ⊎ ((a : A) × ((f a db).0 ≡ err e))
  continue-raises (ok a) f db e h = inr (a, h)
  continue-raises (err x) f db e h = inl (cc)

  pub >>=-raises :
      (m : Exec A) (f : A → Exec B) (db : Db) (e : Error)
      → ((m >>= f) db).0 ≡ err e
      → ((m db).0 ≡ err e) ⊎ ((a : A) × ((f a (m db).1).0 ≡ err e))
  >>=-raises m f db e h = continue-raises (m db).0 f (m db).1 e h

pub raise_when_ok :
    {B : Type 0} (test : Bool) (e : Error) (k : Exec B) (db : Db) {b : B} {end : Db}
    → (raise_when test e >> k) db ≡ (ok b, end)
    → (test ≡ false) × (k db ≡ (ok b, end))
raise_when_ok true e k db h = cc
raise_when_ok false e k db h = (refl, h)
