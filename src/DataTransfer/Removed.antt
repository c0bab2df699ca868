-- ===== src/DataTransfer/Removed.antt =====
-- What internal/datatransfer/monitor.go keeps of a workload that is removed.
use flotta_device_worker.Prelude.{
  ℕ, ◌≡◌, refl, ap, ◌∙◌, ◌⊎◌, inl, inr, true, false, none, some, String, List, [], ◌∷◌, ◌++◌,
  if◌then◌else◌, arith, Map, lookup, lookup-insert, lookup-delete, string_eq, ◌==◌, Option-cases,
  Bool-cases,
}
use flotta_device_worker.DataTransfer.{
  egress, ingress, DataConfiguration, Err, Outside, Monitor, contains_data_paths,
  get_data_config_of_workload, sync_data_paths, store_last_update_time, when_done,
  sync_paths_workload, workload_removed, get_last_successful_sync_time,
}
use flotta_device_worker.DataTransfer.Grown.{sync_data_paths-IsGrown, IsGrown-trans}

module _ (out : Outside) (name : String) where
  -- At most the time of the workload differs between two states.
  abbrev IsOnly : Monitor → Monitor → Type 0
  IsOnly m m' =
      (n : String)
      → (if name == n then none else lookup n m'.last_successful_sync_times)
        ≡ (if name == n then none else lookup n m.last_successful_sync_times)

  when_done-IsOnly : (es : List Err) (m : Monitor) → IsOnly m (when_done out name es m)
  unfolding store_last_update_time
  when_done-IsOnly [] m n =
      ground (arith, lookup-insert name n (out.now m.calls) m.last_successful_sync_times)
  when_done-IsOnly (e ∷ es) m n = refl

  sync_paths_workload-same :
      (m : Monitor)
      → (out.has_storage_defined ≡ false)
        ⊎ (get_data_config_of_workload name out.configured_workloads ≡ none)
      → sync_paths_workload out name m ≡ m
  unfolding sync_paths_workload
  sync_paths_workload-same m (inl e) = ground (arith, e)
  sync_paths_workload-same m (inr e) = ground (arith, e)

  sync_paths_workload-tried :
      (m : Monitor) (d : DataConfiguration)
      → out.has_storage_defined ≡ true
      → get_data_config_of_workload name out.configured_workloads ≡ some d
      → let host_path = out.exported_host_path name in
        let out' = sync_data_paths out d.egress_paths host_path name egress m in
        let in' = sync_data_paths out d.ingress_paths host_path name ingress out'.1 in
        sync_paths_workload out name m
        ≡ (if contains_data_paths (some d) then when_done out name (out'.0 ++ in'.0) in'.1 else m)
  unfolding sync_paths_workload
  sync_paths_workload-tried m d h e = ground (arith, h, e)

  tried-IsOnly :
      (d : DataConfiguration) (m : Monitor)
      → let host_path = out.exported_host_path name in
        let out' = sync_data_paths out d.egress_paths host_path name egress m in
        let in' = sync_data_paths out d.ingress_paths host_path name ingress out'.1 in
        IsOnly m (when_done out name (out'.0 ++ in'.0) in'.1)
  tried-IsOnly d m n =
      let host_path = out.exported_host_path name in
      let a = sync_data_paths out d.egress_paths host_path name egress m in
      let b = sync_data_paths out d.ingress_paths host_path name ingress a.1 in
      let grown =
        IsGrown-trans out m a.1 b.1
          (sync_data_paths-IsGrown out d.egress_paths host_path name egress m)
          (sync_data_paths-IsGrown out d.ingress_paths host_path name ingress a.1) in
      when_done-IsOnly (a.0 ++ b.0) b.1 n
      ∙ ap (λ (t : Map String ℕ). if name == n then none else lookup n t) grown.0

  sync_paths_workload-IsOnly : (m : Monitor) → IsOnly m (sync_paths_workload out name m)
  sync_paths_workload-IsOnly m n = elim (Bool-cases out.has_storage_defined) [
    | inr no' ↦ rw (sync_paths_workload-same m (inl no')) refl
    | inl yes' ↦ elim (Option-cases (get_data_config_of_workload name out.configured_workloads)) [
      | inl e ↦ rw (sync_paths_workload-same m (inr e)) refl
      | inr (d, e) ↦
          rw (sync_paths_workload-tried m d yes' e)
            (elim (Bool-cases (contains_data_paths (some d))) [
              | inl given ↦ rw given (tried-IsOnly d m n)
              | inr none' ↦ rw none' refl
            ])
    ]
  ]

  -- After a workload was removed it has no time, whether or not it could be synchronised for the last
  -- time, and every other workload has the time that it had.
  pub workload_removed_lem :
      (m : Monitor) (n : String)
      → get_last_successful_sync_time n (workload_removed out name m)
        ≡ (if name == n then none else get_last_successful_sync_time n m)
  unfolding get_last_successful_sync_time workload_removed
  workload_removed_lem m n =
      lookup-delete name n (sync_paths_workload out name m).last_successful_sync_times
      ∙ sync_paths_workload-IsOnly m n
