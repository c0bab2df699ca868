-- ===== src/Configuration/Unordered.antt =====
-- `isEqualUnorderedWorkloadLists` and `isEqualUnorderedSecretLists` of
-- internal/configuration/configuration.go, which are one function at two types.
use flotta_device_worker.Prelude.{
  suc, ◌≡◌, ◌≢◌, refl, sym, ap, ◌∙◌, ◌⊎◌, ◌↔◌, inl, inr, Bool, true, false, none, some, String,
  List, [], ◌∷◌, length, if◌then◌else◌, nat_beq, Map, lookup, insert, string_eq, lookup-insert,
  lookup-insert_self, All, arith, eq_iff, ◌==◌, Bool-cases, Option-cases,
}
use mathlib.Core.Path.{subst}
use mathlib.Core.Logic.Or
use mathlib.Core.HLevel.{¬_prop}
use mathlib.Core.Bool.{Bool-set}
use mathlib.Core.List
use mathlib.Core.Nat.{suc as library_suc, le_of_eq}
use mathlib.Core.List.{
  Mem, Mem-prop, Perm, Nodup, mem-cons, mem-cons_self, mem-cons_of_mem, not-mem-nil, Nodup-cons,
}
use mathlib.Core.List.Perm
use mathlib.Core.List.Nodup as ListNodup
use mathlib.Core.List.Subperm

-- A named item, and reflect.DeepEqual on items, which decides equality.
pub record Item : Type 1 where
  pub Carrier : Type 0
  pub name : Carrier → String
  pub deep_equal : Carrier → Carrier → Bool
  pub deep_equal_iff : (a b : Carrier) → (deep_equal a b ≡ true) ↔ (a ≡ b)

module _ (item : Item) where
  open item use {Carrier, name, deep_equal, deep_equal_iff}

  -- The map that the first loop fills.
  unfoldable pub index : List Carrier → Map String Carrier → Map String Carrier
  index [] m = m
  index (x ∷ xs) m = index xs (insert (name x) x m)

  unfoldable pub known : Map String Carrier → Carrier → Bool
  known m y = elim (lookup (name y) m) [ none ↦ false | some x ↦ deep_equal y x ]

  -- The second loop.
  unfoldable pub all_known : Map String Carrier → List Carrier → Bool
  unfolding known
  all_known m [] = true
  all_known m (y ∷ ys) = if known m y then all_known m ys else false

  unfoldable pub is_equal_unordered : List Carrier → List Carrier → Bool
  unfolding index all_known
  is_equal_unordered xs ys =
      if nat_beq (length xs) (length ys) then all_known (index xs []) ys else false

  -- No two items have one name.
  abbrev pub DistinctNames : List Carrier → Type 0
  DistinctNames [] = Unit
  DistinctNames (x ∷ xs) = All (λ y. name y ≢ name x) xs × DistinctNames xs

  index-new :
      (xs : List Carrier) (m : Map String Carrier) (n : String)
      → All (λ y. name y ≢ n) xs
      → lookup n (index xs m) ≡ lookup n m
  unfolding index
  index-new [] m n h = refl
  index-new (x ∷ xs) m n h =
      index-new xs (insert (name x) x m) n h.1
      ∙ rw lookup-insert (ground (arith, eq_iff (name x) n, h.0))

  known_self :
      (m : Map String Carrier) (y : Carrier) → lookup (name y) m ≡ some y → known m y ≡ true
  unfolding known
  known_self m y e = ground (arith, deep_equal_iff y y)

  known-index :
      (xs : List Carrier) (m : Map String Carrier) (x : Carrier)
      → DistinctNames xs
      → Mem x xs
      → known (index xs m) x ≡ true
  unfolding index
  known-index [] m x d h = absurd (not-mem-nil h)
  known-index (y ∷ ys) m x d h =
      Or.elim (Bool-set _ _) (mem-cons.0 h)
        (λ e.
          subst (λ z. known (index ys (insert (name y) y m)) z ≡ true) (sym e)
            (known_self (index ys (insert (name y) y m)) y
              (index-new ys (insert (name y) y m) (name y) d.0 ∙ lookup-insert_self (name y) y m)))
        (λ t. known-index ys (insert (name y) y m) x d.1 t)

  index-mem :
      (xs : List Carrier) (m : Map String Carrier) (n : String) (v : Carrier)
      → lookup n (index xs m) ≡ some v
      → Mem v xs ⊎ (lookup n m ≡ some v)
  unfolding index
  index-mem [] m n v e = inr e
  index-mem (x ∷ xs) m n v e = elim (index-mem xs (insert (name x) x m) n v e) [
    | inl t ↦ inl (mem-cons_of_mem x t)
    | inr q ↦ elim (Bool-cases (name x == n)) [
      | inl same ↦ inl (
          subst (λ z. Mem z (x ∷ xs)) (ground (arith, lookup-insert (name x) n x m, q))
            mem-cons_self)
      | inr other ↦ inr (ground (arith, lookup-insert (name x) n x m, q))
    ]
  ]

  all_known_of :
      (m : Map String Carrier) (ys : List Carrier)
      → ((y : Carrier) → Mem y ys → known m y ≡ true)
      → all_known m ys ≡ true
  unfolding all_known
  all_known_of m [] h = refl
  all_known_of m (y ∷ ys) h =
      rw (h y mem-cons_self) (all_known_of m ys (λ z t. h z (mem-cons_of_mem y t)))

  mem_of_all_known :
      (xs ys : List Carrier)
      → all_known (index xs []) ys ≡ true
      → (y : Carrier) → Mem y ys
      → Mem y xs
  unfolding all_known
  mem_of_all_known xs [] h y t = absurd (not-mem-nil t)
  mem_of_all_known xs (z ∷ zs) h y t = elim (Option-cases (lookup (name z) (index xs []))) [
    | inl e ↦ absurd (ground arith)
    | inr (v, e) ↦
        let same : z ≡ v = (deep_equal_iff z v).0 (ground arith) in
        let rest : all_known (index xs []) zs ≡ true = ground arith in
        Or.elim Mem-prop (mem-cons.0 t)
          (λ q.
            subst (λ u. Mem u xs) (sym (q ∙ same))
              (elim (index-mem xs [] (name z) v e) [
                | inl w ↦ w
                | inr bad ↦ absurd (unfold lookup in ground arith)
              ]))
          (λ w. mem_of_all_known xs zs rest y w)
  ]

  not_named :
      (xs : List Carrier) (n : String) (x : Carrier)
      → All (λ y. name y ≢ n) xs
      → Mem x xs
      → name x ≢ n
  not_named [] n x h t = absurd (not-mem-nil t)
  not_named (y ∷ ys) n x h t =
      Or.elim (¬_prop) (mem-cons.0 t) (λ e. subst (λ z. name z ≢ n) (sym e) h.0)
        (not_named ys n x h.1)

  DistinctNames-Nodup : (xs : List Carrier) → DistinctNames xs → Nodup xs
  DistinctNames-Nodup [] d = List.Pairwise.nil
  DistinctNames-Nodup (x ∷ xs) d =
      Nodup-cons.1 ((λ t. not_named xs (name x) x d.0 t refl), DistinctNames-Nodup xs d.1)

  -- The native length of a list is the library's.
  length_eq : (xs ys : List Carrier) → length xs ≡ length ys → List.length xs ≡ List.length ys
  length_eq [] [] e = refl
  length_eq [] (y ∷ ys) e = absurd (omega arith)
  length_eq (x ∷ xs) [] e = absurd (omega arith)
  length_eq (x ∷ xs) (y ∷ ys) e = ap library_suc (length_eq xs ys (omega arith))

  length_eq_of_library :
      (xs ys : List Carrier) → List.length xs ≡ List.length ys → length xs ≡ length ys
  length_eq_of_library [] [] e = refl
  length_eq_of_library [] (y ∷ ys) e = cc
  length_eq_of_library (x ∷ xs) [] e = cc
  length_eq_of_library (x ∷ xs) (y ∷ ys) e = ap suc (length_eq_of_library xs ys (cc))

  -- When no two items of a list share a name, the two lists are found equal exactly if one is a
  -- rearrangement of the other.
  pub is_equal_unordered_iff :
      (xs ys : List Carrier)
      → DistinctNames xs
      → DistinctNames ys
      → (is_equal_unordered xs ys ≡ true) ↔ Perm ys xs
  unfolding is_equal_unordered
  is_equal_unordered_iff xs ys dx dy = (
    (λ h.
        let lengths : length xs ≡ length ys = ground arith in
        let kept : all_known (index xs []) ys ≡ true = ground arith in
        Subperm.perm_of_length_le
          (ListNodup.subperm (DistinctNames-Nodup ys dy) (mem_of_all_known xs ys kept))
          (le_of_eq (length_eq xs ys lengths))),
    (λ p.
        let lengths : length ys ≡ length xs = length_eq_of_library ys xs (Perm.length-eq p) in
        ground (
          arith,
          lengths,
          all_known_of (index xs []) ys (λ y t. known-index xs [] y dx ((Perm.mem_iff p).0 t)),
        )),
  )

  -- With names that repeat this fails: a list that has lost an item `b` for a second copy of `a` is
  -- taken to be the same, and the other way round not.
  pub is_equal_unordered_repeated :
      (a b : Carrier)
      → name a ≢ name b
      → (is_equal_unordered (a ∷ b ∷ []) (a ∷ a ∷ []) ≡ true)
        × (is_equal_unordered (a ∷ a ∷ []) (a ∷ b ∷ []) ≡ false)
  unfolding is_equal_unordered lookup insert
  is_equal_unordered_repeated a b ne = ground (
    arith,
    eq_iff (name a) (name b),
    eq_iff (name a) (name a),
    eq_iff (name b) (name b),
    eq_iff (name b) (name a),
    deep_equal_iff a a,
  )
