-- ===== src/WorkloadWrapper/Removed.antt =====
-- What `Remove` of internal/workload/wrapper.go leaves of a workload.
use flotta_device_worker.Prelude.{
  ◌≡◌, refl, inl, inr, true, false, not, ◌&&◌, none, String, string_eq, ◌==◌, if◌then◌else◌, arith,
  Bool-cases, Option-cases, lookup, delete, lookup-delete, eq_iff,
}
use flotta_device_worker.Prelude.Action.{ok, >>=-post, Result}
use flotta_device_worker.WorkloadMapping
use flotta_device_worker.WorkloadMapping.Inverse.{get-remove}
use flotta_device_worker.WorkloadWrapper.Netfilter.{
  netfilter_delete_chain, has_chain, delete_chain_lem,
}
use flotta_device_worker.WorkloadWrapper.Services
use flotta_device_worker.WorkloadWrapper.Services.{Service, IsNamed, write_lem}
use flotta_device_worker.WorkloadWrapper.Units
use flotta_device_worker.WorkloadWrapper.Podman
use flotta_device_worker.WorkloadWrapper.PodmanLaws.{remove-pod}
use flotta_device_worker.WorkloadWrapper.Wrapper.{
  Workload, Outside, Err, pod_of, nf_table_name, disable_service, remove_service, remove,
}

get_id-remove :
    (p : WorkloadMapping.Persist) (name n : String) (m : WorkloadMapping.Repository)
    → WorkloadMapping.get_id n (WorkloadMapping.remove p name m).1
      ≡ (if name == n then "" else WorkloadMapping.get_id n m)
get_id-remove p name n m =
    let (gone, _, others) = get-remove p name m in ground (arith, gone, others n, eq_iff name n)

module _ {S P : Type 0} (out : Outside S P) where
  -- Only the units and the services differ between two states.
  abbrev pub IsElsewhere : Workload S P → Workload S P → Type 0
  IsElsewhere s t =
      (t.mapping ≡ s.mapping) × (t.netfilter ≡ s.netfilter) × (t.workloads ≡ s.workloads)

  disable_service_lem :
      (svc : Service) (s : Workload S P)
      → let r = disable_service out svc s in
        IsElsewhere s r.1
        × (r.0 ≡ ok tt → r.1.services.services ≡ delete svc.name s.services.services)
  unfolding disable_service Services.remove
  disable_service_lem svc s =
      let stopped = (Units.stop out.system svc s.units).1 in
      let disabled = Units.disable out.system svc stopped in
      let removed = Units.remove out.system svc disabled.1 in
      elim (Bool-cases disabled.0) [
        | inr no' ↦ rw no' ((refl, refl, refl), λ e. cc)
        | inl yes' ↦ rw yes' (elim (Bool-cases removed.0) [
          | inr no' ↦ rw no' ((refl, refl, refl), λ e. cc)
          | inl yes' ↦
              rw yes' ((refl, refl, refl), λ e. write_lem (out.write_services s.services) _)
        ])
      ]

  remove_service_lem :
      (name : String) (s : Workload S P)
      → IsNamed s.services
      → let r = remove_service out name s in
        IsElsewhere s r.1
        × (r.0 ≡ ok tt
            → (n : String)
            → Services.get n r.1.services ≡ (if name == n then none else Services.get n s.services))
  unfolding remove_service Services.get
  remove_service_lem name s h = elim (Option-cases (lookup name s.services.services)) [
    | inl missing ↦
        rw (remove_service, Services.get, missing)
          ((refl, refl, refl), λ e n. ground (arith, missing, eq_iff name n))
    | inr (svc, there) ↦
        rw (remove_service, Services.get, there)
          (
            (disable_service_lem svc s).0,
            λ e n.
                rw ((disable_service_lem svc s).1 e, h.named name svc there)
                  (lookup-delete name n s.services.services),
          )
  ]

  -- The parts of a state after a `Remove` that succeeded.
  abbrev IsRemoved : String → Workload S P → Workload S P → Type 0
  IsRemoved name s t =
      (t.mapping ≡ (WorkloadMapping.remove (out.persist_mapping s.mapping) name s.mapping).1)
      × (t.netfilter ≡ (netfilter_delete_chain out.nft nf_table_name name s.netfilter).1)
      × (t.workloads ≡ (Podman.remove out.engine (pod_of name s.mapping) s.workloads).1)
      × ((Podman.remove out.engine (pod_of name s.mapping) s.workloads).0 ≡ true)
      × ((n : String)
          → Services.get n t.services ≡ (if name == n then none else Services.get n s.services))

  remove-IsRemoved :
      (name : String) (s : Workload S P)
      → IsNamed s.services
      → (remove out name s).0 ≡ ok tt
      → IsRemoved name s (remove out name s).1
  unfolding remove
  remove-IsRemoved name s h =
      let ((m, n, w), services) = remove_service_lem name s h in
      let Q : Result Err (Unit {0}) → Workload S P → Type 0 =
        λ r t. r ≡ ok tt → IsRemoved name s t in
      >>=-post Q (remove_service out name) _ s (λ e _ q. cc)
        (λ a removed.
          elim (Bool-cases (Podman.remove out.engine (pod_of name s.mapping) s.workloads).0) [
            | inr no' ↦ rw (w, no') (λ q. cc)
            | inl yes' ↦ rw (w, m, n, yes') (λ q. (refl, refl, refl, refl, services removed))
          ])

  -- A `Remove` that succeeds leaves nothing of the workload, and the rest alone: the pod that its name was
  -- mapped to (or that has the name itself, if it was not mapped) is not there; the name has no pod id and
  -- no service any more; and every other workload keeps its pod id and its service.
  pub remove_lem :
      (name : String) (s : Workload S P)
      → IsNamed s.services
      → (remove out name s).0 ≡ ok tt
      → let s' = (remove out name s).1 in
        (out.engine.pod (pod_of name s.mapping) s'.workloads ≡ false)
        × ((n : String)
            → (WorkloadMapping.get_id n s'.mapping
                ≡ (if name == n then "" else WorkloadMapping.get_id n s.mapping))
              × (Services.get n s'.services
                  ≡ (if name == n then none else Services.get n s.services)))
  remove_lem name s h removed =
      let (m, n, w, good, services) = remove-IsRemoved name s h removed in
      rw (m, w)
        (
          remove-pod out.engine (pod_of name s.mapping) s.workloads good,
          λ n. (get_id-remove (out.persist_mapping s.mapping) name n s.mapping, services n),
        )

  -- If moreover the packet filter could delete the chain, the workload has none, and every other has one
  -- as before.
  pub remove-has_chain :
      (name other : String) (s : Workload S P)
      → IsNamed s.services
      → (remove out name s).0 ≡ ok tt
      → (netfilter_delete_chain out.nft nf_table_name name s.netfilter).0 ≡ true
      → has_chain out.nft nf_table_name other (remove out name s).1.netfilter
        ≡ (not (name == other) && has_chain out.nft nf_table_name other s.netfilter)
  remove-has_chain name other s h removed deleted =
      let (_, n, _, _, _) = remove-IsRemoved name s h removed in
      rw n (delete_chain_lem out.nft nf_table_name name other s.netfilter deleted)
