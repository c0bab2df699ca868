-- ===== src/WorkloadWrapper/Lifecycle.antt =====
-- `Run` of internal/workload/wrapper.go, and `Remove` after it.
use flotta_device_worker.Prelude.{
  ◌≡◌, ◌≢◌, refl, ap, ◌∙◌, false, none, some, String, List, [], ◌∷◌, ◌++◌, Map, string_eq, ◌==◌,
  if◌then◌else◌, arith, lookup-insert, eq_iff, beq_refl,
}
use flotta_device_worker.Prelude.Action.{ok}
use flotta_device_worker.WorkloadMapping
use flotta_device_worker.WorkloadMapping.Inverse.{get-add}
use flotta_device_worker.WorkloadWrapper.Services
use flotta_device_worker.WorkloadWrapper.Services.{Service, IsNamed, write_lem, add-IsNamed}
use flotta_device_worker.WorkloadWrapper.Podman
use flotta_device_worker.WorkloadWrapper.Podman.{PodReport, started_container}
use flotta_device_worker.WorkloadWrapper.Wrapper.{Pod, Workload, Outside, pod_of, remove}
use flotta_device_worker.WorkloadWrapper.Run.{run}
use flotta_device_worker.WorkloadWrapper.Ran.{run-IsRun}
use flotta_device_worker.WorkloadWrapper.Removed.{remove_lem}

get-add_service :
    (w : Services.Written) (svc : Service) (m : Services.Manager) (n : String)
    → Services.get n (Services.add w svc m).1
      ≡ (if svc.name == n then some svc else Services.get n m)
unfolding Services.get Services.add
get-add_service w svc m n = rw (write_lem w _) (lookup-insert svc.name n svc m.services)

pod_of_lem :
    (name id : String) (m : WorkloadMapping.Repository)
    → WorkloadMapping.get_id name m ≡ id
    → id ≢ ""
    → pod_of name m ≡ id
unfolding pod_of
pod_of_lem name id m h ne = ground (arith, h, eq_iff id "")

module _ {S P : Type 0} (out : Outside S P) (pod : Pod) (manifest_path auth_file_path : String)
    (annotations : Map String String) (s : Workload S P)
    (h : (run out pod manifest_path auth_file_path annotations s).0 ≡ ok tt) where
  -- After a `Run` that succeeds, the workload's name is mapped to the first pod that podman reports, and
  -- that pod to the name; a service of that name is kept; one event says that the workload has started;
  -- and the pod ids and services of other workloads are as they were.
  pub run_lem :
      let s' = (run out pod manifest_path auth_file_path annotations s).1 in
      (report : PodReport) × (others : List PodReport) × ((Podman.run out.engine manifest_path
          auth_file_path annotations s.workloads).0
        ≡ some (report ∷ others))
      × (WorkloadMapping.get_name report.id s'.mapping ≡ pod.name)
      × ((n : String)
          → WorkloadMapping.get_id n s'.mapping
            ≡ (if pod.name == n then report.id else WorkloadMapping.get_id n s.mapping))
      × (svc : Service) × (svc.name ≡ pod.name)
      × ((n : String)
          → Services.get n s'.services
            ≡ (if pod.name == n then some svc else Services.get n s.services))
      × (told : PodReport) × (s'.events ≡ s.events ++ started_container pod.name told ∷ [])
  run_lem =
      let (report, others, played, m, svc, named, v, told, e) =
        run-IsRun out pod manifest_path auth_file_path annotations s h in
      let (id, name, other, _) =
        get-add (out.persist_mapping s.mapping) pod.name report.id s.mapping in
      (
        report,
        others,
        played,
        rw m name,
        λ n. rw m (ground (arith, id, other n, eq_iff pod.name n)),
        svc,
        named,
        λ n.
            rw v (get-add_service (out.write_services s.services) svc s.services n ∙ rw named refl),
        told,
        e,
      )

  -- `Remove` undoes `Run`: if a `Run` that succeeded was told of a first pod with an id that is not
  -- empty, and each service stood under its own name before, then a `Remove` that succeeds removes that
  -- very pod, and leaves the name with no pod id and no service.
  pub remove-run :
      (report : PodReport) (others : List PodReport)
      → (Podman.run out.engine manifest_path auth_file_path annotations s.workloads).0
        ≡ some (report ∷ others)
      → report.id ≢ ""
      → IsNamed s.services
      → let r = remove out pod.name (run out pod manifest_path auth_file_path annotations s).1 in
        r.0 ≡ ok tt
        → (out.engine.pod report.id r.1.workloads ≡ false)
          × (WorkloadMapping.get_id pod.name r.1.mapping ≡ "")
          × (Services.get pod.name r.1.services ≡ none)
  remove-run report others told ne named removed =
      let s' = (run out pod manifest_path auth_file_path annotations s).1 in
      let (report', others', played, m, svc, own, v, _, _) =
        run-IsRun out pod manifest_path auth_file_path annotations s h in
      let same : report' ≡ report = ground (arith, told, played) in
      let (id, _, _, _) = get-add (out.persist_mapping s.mapping) pod.name report'.id s.mapping in
      let now : IsNamed s'.services =
        rw v (add-IsNamed (out.write_services s.services) svc s.services named) in
      let (absent, gone) = remove_lem out pod.name s' now removed in
      let mapped : pod_of pod.name s'.mapping ≡ report.id =
        pod_of_lem pod.name report.id s'.mapping
          (ap (WorkloadMapping.get_id pod.name) m ∙ id ∙ ap (λ (r : PodReport). r.id) same) ne in
      let out' = gone pod.name in
      (
        rw (← mapped) absent,
        ground (arith, out'.0, beq_refl pod.name),
        ground (arith, out'.1, beq_refl pod.name),
      )
