-- ===== src/WorkloadMapping/Tests.antt =====
-- The theorems on internal/workload/mapping/mapping.go at concrete inputs.
use flotta_device_worker.Prelude.{
  ◌≡◌, refl, some, String, [], ◌∷◌, lookup, string_eq, arith, eq_iff,
}
use flotta_device_worker.WorkloadMapping.{
  Repository, absent, is_written, persist, new_mapping_repository,
}
use flotta_device_worker.WorkloadMapping.Inverse.{IsInverse}
use flotta_device_worker.WorkloadMapping.Reload.{new_mapping_repository-persist}

abbrev empty : Repository
empty = record { id_to_name = []; name_to_id = []; file = absent }

abbrev one_pod : Repository
one_pod = record { id_to_name = ("1f", "web") ∷ []; name_to_id = ("web", "1f") ∷ []; file = absent }

empty-IsInverse : IsInverse [] []
unfolding lookup
empty-IsInverse = record { there = λ n i e. cc; back = λ n i e. cc; no_empty_id = refl }

one_pod-IsInverse : IsInverse (one_pod.id_to_name) (one_pod.name_to_id)
unfolding lookup
one_pod-IsInverse = record {
  there = λ n i. ground (arith, eq_iff "web" n, eq_iff "1f" i);
  back = λ n i. ground (arith, eq_iff "web" n, eq_iff "1f" i);
  no_empty_id = ground (arith, eq_iff "1f" "");
}

new_mapping_repository-persist_example :
    (m' : Repository) × (new_mapping_repository (persist is_written one_pod).1.file ≡ some m')
    × ((i : String) → lookup i m'.id_to_name ≡ lookup i one_pod.id_to_name)
    × ((n : String) → lookup n m'.name_to_id ≡ lookup n one_pod.name_to_id)
new_mapping_repository-persist_example =
    new_mapping_repository-persist one_pod one_pod-IsInverse (unfold lookup in (refl, tt))
