-- ===== src/Prelude/Action.antt =====
-- Methods that change an object and may return an error: what was changed before the error stays.
use mathlib.Core.Path.{◌≡◌, refl}

pub data Result {ℓ κ} (E : Type ℓ) (A : Type κ) : Type (ℓ ⊔ κ) where
  ok : A → Result E A
  err : E → Result E A

abbrev pub Action {ℓ κ μ} : Type ℓ → Type κ → Type μ → Type (ℓ ⊔ κ ⊔ μ)
Action S E A = S → Result E A × S

module _ {ℓ κ μ ν} {S : Type ℓ} {E : Type κ} {A : Type μ} {B : Type ν} where
  abbrev pub continue : Result E A → (A → Action S E B) → Action S E B
  continue (ok a) f s = f a s
  continue (err e) f s = (err e, s)

  infixl 5 ◌>>=◌
  abbrev pub ◌>>=◌ : Action S E A → (A → Action S E B) → Action S E B
  ◌>>=◌ m f s = let r = m s in continue r.0 f r.1

module _ {ℓ κ μ} {S : Type ℓ} {E : Type κ} {A : Type μ} where
  abbrev pub pure : A → Action S E A
  pure a s = (ok a, s)

  abbrev pub raise : E → Action S E A
  raise e s = (err e, s)

-- What holds of a block holds by its two ways: the first action fails, or the rest follows it.
module _ {ℓ κ μ ν ι} {S : Type ℓ} {E : Type κ} {A : Type μ} {B : Type ν}
    (Q : Result E B → S → Type ι) where
  continue-post :
      (r : Result E A) (f : A → Action S E B) (s : S)
      → ((e : E) → r ≡ err e → Q (err e) s)
      → ((a : A) → r ≡ ok a → Q (f a s).0 (f a s).1)
      → Q (continue r f s).0 (continue r f s).1
  continue-post (ok a) f s failed followed = followed a refl
  continue-post (err e) f s failed followed = failed e refl

  pub >>=-post :
      (m : Action S E A) (f : A → Action S E B) (s : S)
      → ((e : E) → (m s).0 ≡ err e → Q (err e) (m s).1)
      → ((a : A) → (m s).0 ≡ ok a → Q (f a (m s).1).0 (f a (m s).1).1)
      → Q ((m >>= f) s).0 ((m >>= f) s).1
  >>=-post m f s = continue-post (m s).0 f (m s).1
