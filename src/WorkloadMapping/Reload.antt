-- ===== src/WorkloadMapping/Reload.antt =====
-- What internal/workload/mapping/mapping.go writes to the file, `NewMappingRepository` reads back.
use flotta_device_worker.Prelude.{
  ◌≡◌, refl, ◌∙◌, sym, inl, inr, Option, none, some, String, [], ◌∷◌, Map, lookup, insert,
  string_eq, lookup-insert, arith, eq_iff, ◌==◌, Bool-cases, Option-cases, IsDistinct,
}
use flotta_device_worker.WorkloadMapping.{
  Repository, is_written, mappings, fill, persist, new_mapping_repository,
}
use flotta_device_worker.WorkloadMapping.Inverse.{IsInverse}

abbrev or_else : Option String → Option String → Option String
or_else none o = o
or_else (some s) o = some s

fill-ids :
    (l : Map String String) (a b : Map String String)
    → IsDistinct l
    → (i : String) → lookup i (fill (mappings l) (a, b)).0 ≡ or_else (lookup i l) (lookup i a)
unfolding fill mappings lookup
fill-ids [] a b h i = refl
fill-ids ((j, n) ∷ l) a b h i =
    fill-ids l (insert j n a) (insert n j b) h.1 i
    ∙ rw lookup-insert (ground (arith, eq_iff j i, h.0))

module _ (names : Map String String) where
  -- Every binding of `l` is one of `names` turned round.
  abbrev Agrees : Map String String → Type 0
  Agrees l = (n i : String) → lookup i l ≡ some n → lookup n names ≡ some i

  Agrees-tail :
      (j m : String) (l : Map String String) → lookup j l ≡ none → Agrees ((j, m) ∷ l) → Agrees l
  unfolding lookup
  Agrees-tail j m l new h n i e = h n i (ground (arith, eq_iff j i, new, e))

  Agrees-head :
      (j m : String) (l : Map String String) → Agrees ((j, m) ∷ l) → lookup m names ≡ some j
  unfolding lookup
  Agrees-head j m l h = h m j (ground (arith, eq_iff j j))

  fill-kept :
      (l a b : Map String String)
      → IsDistinct l
      → Agrees l
      → (n : String) → lookup n b ≡ lookup n names
      → lookup n (fill (mappings l) (a, b)).1 ≡ lookup n names
  unfolding fill mappings
  fill-kept [] a b d h n e = e
  fill-kept ((j, m) ∷ l) a b d h n e =
      fill-kept l (insert j m a) (insert m j b) d.1 (Agrees-tail j m l d.0 h) n
        (rw lookup-insert (ground (arith, eq_iff m n, Agrees-head j m l h, e)))

  fill-found :
      (l a b : Map String String)
      → IsDistinct l
      → Agrees l
      → (n i : String) → lookup i l ≡ some n
      → lookup n (fill (mappings l) (a, b)).1 ≡ lookup n names
  unfolding fill mappings lookup
  fill-found [] a b d h n i e = cc
  fill-found ((j, m) ∷ l) a b d h n i e = elim (Bool-cases (j == i)) [
    | inl same ↦
        let mn : m ≡ n = ground (arith, e) in
        fill-kept l (insert j m a) (insert m j b) d.1 (Agrees-tail j m l d.0 h) n
          (rw lookup-insert (ground (arith, eq_iff m n, Agrees-head j m l h, mn)))
    | inr other ↦
        fill-found l (insert j m a) (insert m j b) d.1 (Agrees-tail j m l d.0 h) n i
          (ground (arith, e))
  ]

-- A repository whose maps are inverse, once written, is read back with the same lookups both ways.
pub new_mapping_repository-persist :
    (m : Repository)
    → IsInverse m.id_to_name m.name_to_id
    → IsDistinct m.id_to_name
    → (m' : Repository) × (new_mapping_repository (persist is_written m).1.file ≡ some m')
      × ((i : String) → lookup i m'.id_to_name ≡ lookup i m.id_to_name)
      × ((n : String) → lookup n m'.name_to_id ≡ lookup n m.name_to_id)
unfolding new_mapping_repository persist lookup
new_mapping_repository-persist m h d =
    let maps = fill (mappings m.id_to_name) ([], []) in
    (
      record { id_to_name = maps.0; name_to_id = maps.1; file = (persist is_written m).1.file },
      refl,
      (λ i. fill-ids m.id_to_name [] [] d i ∙ ground arith),
      (λ n. elim (Option-cases (lookup n m.name_to_id)) [
        | inl e ↦ fill-kept m.name_to_id m.id_to_name [] [] d h.back n (sym e)
        | inr (i, e) ↦ fill-found m.name_to_id m.id_to_name [] [] d h.back n i (h.there n i e)
      ]),
    )
