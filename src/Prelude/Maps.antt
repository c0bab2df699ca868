-- ===== src/Prelude/Maps.antt =====
-- Go's `map[K]V`, as a list of bindings. The position of a binding stands for the order in which
-- `range` visits it, which Go leaves open: a theorem over every list holds for every order.
use mathlib.Core.Logic.{inl, inr}
use mathlib.Core.Path.{◌∙◌, ◌≡◌, refl}
use mathlib.Core.Option.{Option, none, some}
use mathlib.Core.List.{List, [], ◌∷◌}
use native.Mathlib.Omega.{arith}
use flotta_device_worker.Prelude.Tests.{Eq, ◌==◌, if◌then◌else◌, beq_refl, Bool-cases}

abbrev pub Map {ℓ κ} : Type ℓ → Type κ → Type (ℓ ⊔ κ)
Map K V = List (K × V)

module _ {ℓ κ} {K : Type ℓ} {V : Type κ} ⦃e : Eq K⦄ where
  unfoldable pub lookup : K → Map K V → Option V
  lookup key [] = none
  lookup key ((j, v) ∷ rest) = if j == key then some v else lookup key rest

  -- m[k] = v
  unfoldable pub insert : K → V → Map K V → Map K V
  insert key v [] = (key, v) ∷ []
  insert key v ((j, w) ∷ rest) = if j == key then (j, v) ∷ rest else (j, w) ∷ insert key v rest

  -- delete(m, k)
  unfoldable pub delete : K → Map K V → Map K V
  delete key [] = []
  delete key ((j, w) ∷ rest) =
      let others = delete key rest in if j == key then others else (j, w) ∷ others

  pub lookup-insert :
      (key j : K) (v : V) (rest : Map K V)
      → lookup j (insert key v rest) ≡ (if key == j then some v else lookup j rest)
  unfolding lookup insert
  lookup-insert key j v [] = refl
  lookup-insert key j v ((i, w) ∷ rest) =
      ground
        (arith, e.equal_iff key j, e.equal_iff i key, e.equal_iff i j, lookup-insert key j v rest)

  pub lookup-delete :
      (key j : K) (rest : Map K V)
      → lookup j (delete key rest) ≡ (if key == j then none else lookup j rest)
  unfolding lookup delete
  lookup-delete key j [] = ground arith
  lookup-delete key j ((i, w) ∷ rest) =
      ground
        (arith, e.equal_iff key j, e.equal_iff i key, e.equal_iff i j, lookup-delete key j rest)

  pub lookup-insert_self :
      (key : K) (v : V) (rest : Map K V) → lookup key (insert key v rest) ≡ some v
  lookup-insert_self key v rest = simp (lookup-insert, beq_refl)

pub ruleset map_laws = (lookup-insert, lookup-delete, beq_refl)

-- No key is bound twice, as in every Go map.
abbrev pub IsDistinct {ℓ κ} : {K : Type ℓ} {V : Type κ} ⦃e : Eq K⦄ → Map K V → Type κ
IsDistinct [] = Unit
IsDistinct ((k, v) ∷ m) = (lookup k m ≡ none) × IsDistinct m

module _ {ℓ κ} {K : Type ℓ} {V : Type κ} ⦃e : Eq K⦄ where
  pub insert-IsDistinct : (k : K) (v : V) (m : Map K V) → IsDistinct m → IsDistinct (insert k v m)
  unfolding insert lookup
  insert-IsDistinct k v [] h = (refl, tt)
  insert-IsDistinct k v ((j, w) ∷ m) h = elim (Bool-cases (j == k)) [
    | inl same ↦ rw same h
    | inr other ↦ rw other (
      (lookup-insert k j v m ∙ ground (arith, h.0, e.equal_iff k j, e.equal_iff j k)),
      insert-IsDistinct k v m h.1,
    )
  ]

  pub delete-IsDistinct : (k : K) (m : Map K V) → IsDistinct m → IsDistinct (delete k m)
  unfolding delete lookup
  delete-IsDistinct k [] h = tt
  delete-IsDistinct k ((j, w) ∷ m) h = elim (Bool-cases (j == k)) [
    | inl same ↦ rw same (delete-IsDistinct k m h.1)
    | inr other ↦ rw other ((lookup-delete k j m ∙ ground (arith, h.0)), delete-IsDistinct k m h.1)
  ]
