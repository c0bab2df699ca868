-- ===== src/DataTransfer.antt =====
-- `Monitor` of internal/datatransfer/monitor.go: the paths of a workload are synchronised with a storage,
-- at the ticks of a ticker and when the workload is removed.
pub mod Paths
pub mod Grown
pub mod Times
pub mod Removed
pub mod Storage
pub mod Sessions
mod Tests
use flotta_device_worker.Prelude.{
  ℕ, Bool, true, false, not, ◌&&◌, ◌||◌, Option, none, some, String, List, [], ◌∷◌, ◌++◌, map,
  if◌then◌else◌, Map, lookup, insert, delete, string_eq, ◌==◌,
}

pub data Direction : Type 0 where
  egress ingress : Direction

-- models.DataPath
pub record DataPath : Type 0 where
  pub source : String
  pub target : String

-- models.DataConfiguration, whose lists may be nil.
pub record DataConfiguration : Type 0 where
  pub egress_paths : Option (List DataPath)
  pub ingress_paths : Option (List DataPath)

-- models.Workload, of which the name and the data are read.
pub record Workload : Type 0 where
  pub name : String
  pub data_paths : Option DataConfiguration

-- A call of a storage, which has a number, or of the metrics.
pub data Call : Type 0 where
  connects disconnects : ℕ → Call
  syncs : ℕ → String → String → Call
  reports : String → Direction → Call

pub data Err : Type 0 where
  no_file_sync panics : Err
  not_connected : ℕ → Err
  not_synced : String → String → Err
  not_listed : Err

-- The code outside this file: which storage `fsSync` holds after some calls (`Update` may replace it
-- between any two), what the storages answer, the clock, path.Join, the workload manager, and the
-- configuration.
pub record Outside : Type 0 where
  pub fs_sync : List Call → Option ℕ
  pub connects_well : List Call → ℕ → Bool
  pub syncs_well : List Call → ℕ → String → String → Bool
  pub now : List Call → ℕ
  pub join : String → String → String
  pub list_workloads : Option (List String)
  pub exported_host_path : String → String
  pub configured_workloads : List Workload
  pub has_storage_defined : Bool

-- `lastSuccessfulSyncTimes`, and the calls so far.
pub record Monitor : Type 0 where
  pub last_successful_sync_times : Map String ℕ
  pub calls : List Call

-- `NewMonitor`
abbrev pub new_monitor : Monitor
new_monitor = record { last_successful_sync_times = []; calls = [] }

abbrev pub paths_of : Option (List DataPath) → List DataPath
paths_of none = []
paths_of (some ps) = ps

abbrev pub is_nonempty : List DataPath → Bool
is_nonempty [] = false
is_nonempty (p ∷ ps) = true

-- `containsDataPaths`
unfoldable pub contains_data_paths : Option DataConfiguration → Bool
contains_data_paths none = false
contains_data_paths (some d) =
    is_nonempty (paths_of d.egress_paths) || is_nonempty (paths_of d.ingress_paths)

-- `GetLastSuccessfulSyncTime`
unfoldable pub get_last_successful_sync_time : String → Monitor → Option ℕ
get_last_successful_sync_time name m = lookup name m.last_successful_sync_times

-- `getDataConfigOfWorkload`
unfoldable pub get_data_config_of_workload : String → List Workload → Option DataConfiguration
get_data_config_of_workload name [] = none
get_data_config_of_workload name (w ∷ ws) =
    if w.name == name then w.data_paths else get_data_config_of_workload name ws

-- The loop that fills `workloadToDataPaths`.
unfoldable pub index : List Workload → Map String DataConfiguration → Map String DataConfiguration
unfolding contains_data_paths
index [] found = found
index (w ∷ ws) found = index ws (elim w.data_paths [
  | none ↦ found
  | some d ↦ if contains_data_paths (some d) then insert w.name d found else found
])

module _ (out : Outside) where
  open out use {fs_sync, now}

  abbrev call : Call → Monitor → Monitor
  call c m = record m { calls = m.calls ++ c ∷ [] }

  -- `resolvePaths`
  unfoldable pub resolve_paths : Direction → String → DataPath → String × String
  resolve_paths egress host_path p = (out.join host_path p.source, p.target)
  resolve_paths ingress host_path p = (p.source, out.join host_path p.target)

  -- `syncPath`, which reads `fsSync` itself. Once set, `fsSync` is never nil again.
  unfoldable pub sync_path : String × String → Monitor → List Err × Monitor
  sync_path (source, target) m = elim (fs_sync m.calls) [
    | none ↦ (panics ∷ [], m)
    | some k ↦ (
      if out.syncs_well m.calls k source target then [] else not_synced source target ∷ [],
      call (syncs k source target) m,
    )
  ]

  unfoldable pub sync_each : Direction → String → List DataPath → Monitor → List Err × Monitor
  unfolding resolve_paths sync_path
  sync_each dir host_path [] m = ([], m)
  sync_each dir host_path (p ∷ ps) m =
      let r = sync_path (resolve_paths dir host_path p) m in
      let rest = sync_each dir host_path ps r.1 in (r.0 ++ rest.0, rest.1)

  -- The part of `syncDataPaths` under the test that there are paths.
  unfoldable pub sync_given :
      Option (List DataPath) → String → String → Direction → Monitor → List Err × Monitor
  unfolding sync_each
  sync_given none host_path name dir m = ([], m)
  sync_given (some ps) host_path name dir m =
      let r = sync_each dir host_path ps m in (r.0, call (reports name dir) r.1)

  -- `syncDataPaths`
  unfoldable pub sync_data_paths :
      Option (List DataPath) → String → String → Direction → Monitor → List Err × Monitor
  unfolding sync_given
  sync_data_paths paths host_path name dir m = elim (fs_sync m.calls) [
    | none ↦ (no_file_sync ∷ [], m)
    | some k ↦
        let m' = call (connects k) m in
        if out.connects_well m.calls k
        then (let r = sync_given paths host_path name dir m' in (r.0, call (disconnects k) r.1))
        else (not_connected k ∷ [], m')
  ]

  -- `storeLastUpdateTime`
  unfoldable pub store_last_update_time : String → Monitor → Monitor
  store_last_update_time name m = record m {
    last_successful_sync_times = insert name (now m.calls) m.last_successful_sync_times;
  }

  -- `processSyncDataPaths`, which stops at the first direction that fails.
  unfoldable pub process_sync_data_paths : String → DataConfiguration → Monitor → List Err × Monitor
  unfolding sync_data_paths store_last_update_time
  process_sync_data_paths name d m =
      let host_path = out.exported_host_path name in
      let out' = sync_data_paths d.egress_paths host_path name egress m in
      let in' = sync_data_paths d.ingress_paths host_path name ingress out'.1 in
      elim out'.0 [
        | [] ↦ elim in'.0 [
          | [] ↦ ([], store_last_update_time name in'.1)
          | (e ∷ es) ↦ (e ∷ es, in'.1)
        ]
        | (e ∷ es) ↦ (e ∷ es, out'.1)
      ]

  -- The loop of `syncPaths` over the workloads that are deployed.
  unfoldable pub process_each :
      Map String DataConfiguration → List String → Monitor → List Err × Monitor
  unfolding process_sync_data_paths
  process_each found [] m = ([], m)
  process_each found (name ∷ names) m =
      let r : List Err × Monitor = elim (lookup name found) [
        | none ↦ ([], m)
        | some d ↦ process_sync_data_paths name d m
      ] in
      let rest = process_each found names r.1 in (r.0 ++ rest.0, rest.1)

  -- `syncPaths`
  unfoldable pub sync_paths : Monitor → List Err × Monitor
  unfolding index process_each
  sync_paths m = elim out.list_workloads [
    | none ↦ (not_listed ∷ [], m)
    | some names ↦
        if out.has_storage_defined
        then process_each (index out.configured_workloads []) names m
        else ([], m)
  ]

  abbrev pub when_done : String → List Err → Monitor → Monitor
  when_done name [] m = store_last_update_time name m
  when_done name (e ∷ es) m = m

  -- `syncPathsWorkload`, which tries both directions.
  unfoldable pub sync_paths_workload : String → Monitor → Monitor
  unfolding contains_data_paths get_data_config_of_workload sync_data_paths
  sync_paths_workload name m =
      let host_path = out.exported_host_path name in
      if out.has_storage_defined
      then elim (get_data_config_of_workload name out.configured_workloads) [
        | none ↦ m
        | some d ↦
            let out' = sync_data_paths d.egress_paths host_path name egress m in
            let in' = sync_data_paths d.ingress_paths host_path name ingress out'.1 in
            if contains_data_paths (some d) then when_done name (out'.0 ++ in'.0) in'.1 else m
      ]
      else m

  -- `WorkloadRemoved`
  unfoldable pub workload_removed : String → Monitor → Monitor
  unfolding sync_paths_workload
  workload_removed name m =
      let m' = sync_paths_workload name m in
      record m' { last_successful_sync_times = delete name m'.last_successful_sync_times }
