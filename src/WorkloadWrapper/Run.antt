-- ===== src/WorkloadWrapper/Run.antt =====
-- `Run`, `List`, `Init` and the events of internal/workload/wrapper.go.
use flotta_device_worker.Prelude.{
  false, Option, none, some, String, List, [], ◌∷◌, ◌++◌, map, Map, string_eq, ◌==◌, if◌then◌else◌,
}
use flotta_device_worker.Prelude.Action.{Result, ok, err, Action, ◌>>=◌}
use flotta_device_worker.WorkloadMapping
use flotta_device_worker.WorkloadWrapper.Netfilter.{netfilter_add_table, netfilter_delete_table}
use flotta_device_worker.WorkloadWrapper.Services
use flotta_device_worker.WorkloadWrapper.Services.{Service}
use flotta_device_worker.WorkloadWrapper.Units
use flotta_device_worker.WorkloadWrapper.Podman
use flotta_device_worker.WorkloadWrapper.Podman.{
  WorkloadInfo, PodReport, PodmanEvent, started_container, stopped_container,
}
use flotta_device_worker.WorkloadWrapper.Wrapper.{
  Pod, Err, not_run, not_stored, no_service, no_report, no_table, not_started, panics, Workload,
  Outside, nf_table_name, given, at_nft, at_units, at_services, at_mapping,
  apply_network_configuration, create_service,
}

-- `podIds[0].Id`
abbrev pub first_id : List PodReport → Result Err String
first_id [] = err panics
first_id (r ∷ rs) = ok r.id

-- What an observer is told.
pub data Told : Type 0 where
  workload_started : String → List PodReport → Told
  workload_removed : String → Told

-- The goroutine of `newWorkloadInstance`: what each observer is told about an event.
unfoldable pub tell : PodmanEvent → Told
tell (started_container name report) = workload_started name (report ∷ [])
tell (stopped_container name) = workload_removed name

-- A name that the mapping has for the pod's id replaces the name that podman has.
unfoldable pub rename : WorkloadMapping.Repository → WorkloadInfo → WorkloadInfo
rename m info =
    let mapped_name = WorkloadMapping.get_name info.id m in
    if mapped_name == "" then info else record info { name = mapped_name }

module _ {S P : Type 0} (out : Outside S P) where
  open out use {nft, engine, system}

  abbrev M : Type 0 → Type 0
  M A = Action (Workload S P) Err A

  abbrev pub run_pods : String → String → Map String String → M (List PodReport)
  run_pods manifest_path auth_file_path annotations s =
      let r = Podman.run engine manifest_path auth_file_path annotations s.workloads in
      (given r.0 not_run, record s { workloads = r.1 })

  abbrev pub generate : Pod → String → M Service
  generate pod manifest_path s = (
    given
        (Podman.generate_systemd_service engine out.contains (out.connected s.units.requests)
          pod.name pod.labels manifest_path out.monitoring_interval s.workloads)
        no_service,
    s,
  )

  abbrev pub send_started : String → M (Unit {0})
  send_started name s = elim (Podman.get_pod_report_for_id engine name s.workloads) [
    | none ↦ (err no_report, s)
    | some report ↦ (ok tt, record s { events = s.events ++ started_container name report ∷ [] })
  ]

  -- What `Run` does once the pod runs and is mapped.
  unfoldable pub serve : Pod → String → M (Unit {0})
  serve pod manifest_path = do
    svc ← generate pod manifest_path
    _ ← create_service out svc
    _ ← λ s. at_services out not_stored (Services.add (out.write_services s.services) svc) s
    send_started pod.name

  -- `Run`
  unfoldable pub run : Pod → String → String → Map String String → M (Unit {0})
  run pod manifest_path auth_file_path annotations = do
    _ ← apply_network_configuration out pod
    reports ← run_pods manifest_path auth_file_path annotations
    id ← λ s. (first_id reports, s)
    _ ← λ s. at_mapping out (WorkloadMapping.add (out.persist_mapping s.mapping) pod.name id) s
    serve pod manifest_path

  -- `List`
  unfoldable pub list : Workload S P → Option (List WorkloadInfo)
  unfolding rename
  list s = elim (Podman.list engine s.workloads) [
    | none ↦ none
    | some infos ↦ some (map (rename s.mapping) infos)
  ]

  -- `Init`, which starts podman's timer for updates and adds the table of the packet filter.
  unfoldable pub init : M (Unit {0})
  init s =
      elim (Units.new_systemd_rootless (out.connected s.units.requests) "podman-auto-update" []
        false) [
          | none ↦ (err no_service, s)
          | some svc ↦
              (at_units out not_started (Units.start system svc) >>= λ _.
              at_nft out no_table (netfilter_add_table nft nf_table_name))
                s
        ]

  unfoldable pub remove_table : M (Unit {0})
  remove_table = at_nft out no_table (netfilter_delete_table nft nf_table_name)

  -- The parameter is what is left of the file if it cannot be removed.
  unfoldable pub remove_services_file : Option Services.FileState → M (Unit {0})
  remove_services_file left = at_services out not_stored (Services.remove_services_file left)

  unfoldable pub remove_mapping_file : Option WorkloadMapping.FileState → M (Unit {0})
  remove_mapping_file left = at_mapping out (WorkloadMapping.remove_mapping_file left)

  unfoldable pub persist_configuration : M (Unit {0})
  persist_configuration s =
      at_mapping out (WorkloadMapping.persist (out.persist_mapping s.mapping)) s
