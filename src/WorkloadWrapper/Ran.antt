-- ===== src/WorkloadWrapper/Ran.antt =====
-- What `Run` of internal/workload/wrapper.go makes of a workload, and `Remove` after it.
use flotta_device_worker.Prelude.{
  ◌≡◌, refl, sym, ap, ◌∙◌, inl, inr, Bool, Option, none, some, String, List, [], ◌∷◌, ◌++◌, Map,
  string_eq, arith, Bool-cases, Option-cases,
}
use flotta_device_worker.Prelude.Int.{ℤ}
use flotta_device_worker.Prelude.Action.{ok, >>=-post, Result}
use flotta_device_worker.WorkloadMapping
use flotta_device_worker.WorkloadWrapper.Netfilter.{netfilter_add_chain, netfilter_add_rule}
use flotta_device_worker.WorkloadWrapper.Services
use flotta_device_worker.WorkloadWrapper.Services.{Service, IsNamed, write_lem, add-IsNamed}
use flotta_device_worker.WorkloadWrapper.Units
use flotta_device_worker.WorkloadWrapper.Podman
use flotta_device_worker.WorkloadWrapper.Podman.{PodReport, started_container}
use flotta_device_worker.WorkloadWrapper.Wrapper.{
  Pod, Workload, Outside, Err, nf_table_name, rule, add_rules, open_ports, get_host_ports,
  apply_network_configuration, create_service, at_services, not_stored, given, no_service,
  at_mapping, not_run,
}
use flotta_device_worker.WorkloadWrapper.Run.{
  run, serve, run_pods, generate, send_started, first_id,
}

generate_lem :
    {P : Type 0} (engine : _) (contains : String → String → Bool) (c : Bool) (name : String)
    (labels : Map String String) (m : String) (i : _) (p : P) (svc : Service)
    → Podman.generate_systemd_service engine contains c name labels m i p ≡ some svc
    → svc.name ≡ name
unfolding Podman.generate_systemd_service Units.new_systemd Units.new_systemd_rootless
generate_lem engine contains c name labels m i p svc h = ground (arith, h)

given_lem : {A : Type 0} (o : Option A) (e : Err) (a : A) → given o e ≡ ok a → o ≡ some a
given_lem none e a h = cc
given_lem (some b) e a h = cc

first_id_lem :
    (rs : List PodReport) (id : String)
    → first_id rs ≡ ok id
    → (r : PodReport) × (rest : List PodReport) × (rs ≡ r ∷ rest) × (r.id ≡ id)
first_id_lem [] id h = cc
first_id_lem (r ∷ rest) id h = (r, rest, refl, cc)

module _ {S P : Type 0} (out : Outside S P) where
  -- Only the packet filter differs between two states.
  abbrev IsApplied : Workload S P → Workload S P → Type 0
  IsApplied s t =
      (t.mapping ≡ s.mapping)
      × (t.services ≡ s.services)
      × (t.workloads ≡ s.workloads)
      × (t.events ≡ s.events)

  add_rules-IsApplied :
      (name : String) (ps : List ℤ) (s : Workload S P) → IsApplied s (add_rules out name ps s).1
  unfolding add_rules
  add_rules-IsApplied name [] s = (refl, refl, refl, refl)
  add_rules-IsApplied name (p ∷ ps) s =
      elim (Bool-cases (netfilter_add_rule out.nft nf_table_name name (rule out p) s.netfilter).0) [
        | inl yes' ↦ rw yes' (add_rules-IsApplied name ps _)
        | inr no' ↦ rw no' (refl, refl, refl, refl)
      ]

  open_ports-IsApplied :
      (name : String) (ps : List ℤ) (s : Workload S P) → IsApplied s (open_ports out name ps s).1
  unfolding open_ports
  open_ports-IsApplied name [] s = (refl, refl, refl, refl)
  open_ports-IsApplied name (p ∷ ps) s =
      elim (Bool-cases (netfilter_add_chain out.nft nf_table_name name s.netfilter).0) [
        | inl yes' ↦ rw yes' (add_rules-IsApplied name (p ∷ ps) _)
        | inr no' ↦ rw no' (refl, refl, refl, refl)
      ]

  apply-IsApplied :
      (pod : Pod) (s : Workload S P) → IsApplied s (apply_network_configuration out pod s).1
  unfolding apply_network_configuration
  apply-IsApplied pod s = elim (Option-cases (get_host_ports pod)) [
    | inl e ↦ rw (apply_network_configuration, e) (refl, refl, refl, refl)
    | inr (ps, e) ↦ rw (apply_network_configuration, e) (open_ports-IsApplied pod.name ps s)
  ]

  -- Only the units differ between two states.
  abbrev IsServed : Workload S P → Workload S P → Type 0
  IsServed s t =
      (t.mapping ≡ s.mapping)
      × (t.services ≡ s.services)
      × (t.workloads ≡ s.workloads)
      × (t.events ≡ s.events)

  create_service-IsServed :
      (svc : Service) (s : Workload S P) → IsServed s (create_service out svc s).1
  unfolding create_service
  create_service-IsServed svc s =
      let added = Units.add out.system svc s.units in
      elim (Bool-cases added.0) [
        | inr no' ↦ rw no' (refl, refl, refl, refl)
        | inl yes' ↦ rw yes' (elim (Bool-cases (Units.enable out.system svc added.1).0) [
          | inr no' ↦ rw no' (refl, refl, refl, refl)
          | inl yes' ↦ rw yes' (refl, refl, refl, refl)
        ])
      ]

  -- What `Run` leaves once it has mapped the pod, if it succeeds.
  abbrev IsStarted : String → Workload S P → Workload S P → Type 0
  IsStarted name s t =
      (t.mapping ≡ s.mapping)
      × (t.workloads ≡ s.workloads)
      × (svc : Service) × (svc.name ≡ name)
      × (t.services ≡ (Services.add (out.write_services s.services) svc s.services).1)
      × (report : PodReport) × (t.events ≡ s.events ++ started_container name report ∷ [])

  send_started_lem :
      (name : String) (s : Workload S P)
      → let r = send_started out name s in
        r.0 ≡ ok tt
        → (r.1.mapping ≡ s.mapping)
          × (r.1.workloads ≡ s.workloads)
          × (r.1.services ≡ s.services)
          × (report : PodReport) × (r.1.events ≡ s.events ++ started_container name report ∷ [])
  send_started_lem name s =
      elim (Option-cases (Podman.get_pod_report_for_id out.engine name s.workloads)) [
        | inl none' ↦ rw (send_started, none') (λ q. cc)
        | inr (report, some') ↦ rw (send_started, some') (λ q. (refl, refl, refl, report, refl))
      ]

  serve-IsStarted :
      (pod : Pod) (manifest_path : String) (s : Workload S P)
      → (serve out pod manifest_path s).0 ≡ ok tt
      → IsStarted pod.name s (serve out pod manifest_path s).1
  unfolding serve
  serve-IsStarted pod manifest_path s =
      let Q : Result Err (Unit {0}) → Workload S P → Type 0 =
        λ r t. r ≡ ok tt → IsStarted pod.name s t in
      >>=-post Q (generate out pod manifest_path) _ s (λ e h q. cc)
        (λ svc made.
          let (m, v, w, e) = create_service-IsServed svc s in
          let s1 = (create_service out svc s).1 in
          let adding = λ (t : Workload S P).
            at_services out not_stored (Services.add (out.write_services t.services) svc) t in
          >>=-post Q (create_service out svc) _ s (λ e h q. cc)
            (λ u created.
              >>=-post Q adding _ s1 (λ e h q. cc)
                (λ u stored q.
                  let (m', w', v', report, e') = send_started_lem pod.name (adding s1).1 q in
                  (
                    m' ∙ m,
                    w' ∙ w,
                    svc,
                    generate_lem out.engine out.contains (out.connected s.units.requests) pod.name
                        pod.labels manifest_path out.monitoring_interval s.workloads svc
                        (given_lem _ no_service svc made),
                    v' ∙ ap (λ m. (Services.add (out.write_services m) svc m).1) v,
                    report,
                    e' ∙ ap (λ l. l ++ started_container pod.name report ∷ []) e,
                  ))))

  -- What a `Run` that succeeds was told of its pod, and what it leaves.
  abbrev pub IsRun :
      Pod → String → String → Map String String → Workload S P → Workload S P → Type 0
  IsRun pod manifest_path auth_file_path annotations s t =
      (report : PodReport) × (others : List PodReport) × ((Podman.run out.engine manifest_path
          auth_file_path annotations s.workloads).0
        ≡ some (report ∷ others))
      × (t.mapping
          ≡ (WorkloadMapping.add (out.persist_mapping s.mapping) pod.name report.id s.mapping).1)
      × (svc : Service) × (svc.name ≡ pod.name)
      × (t.services ≡ (Services.add (out.write_services s.services) svc s.services).1)
      × (told : PodReport) × (t.events ≡ s.events ++ started_container pod.name told ∷ [])

  pub run-IsRun :
      (pod : Pod) (manifest_path auth_file_path : String) (annotations : Map String String)
      → (s : Workload S P) → (run out pod manifest_path auth_file_path annotations s).0 ≡ ok tt
      → IsRun pod manifest_path auth_file_path annotations s
          (run out pod manifest_path auth_file_path annotations s).1
  unfolding run
  run-IsRun pod manifest_path auth_file_path annotations s =
      let Q : Result Err (Unit {0}) → Workload S P → Type 0 =
        λ r t. r ≡ ok tt → IsRun pod manifest_path auth_file_path annotations s t in
      let (m, v, w, e) = apply-IsApplied pod s in
      let s1 = (apply_network_configuration out pod s).1 in
      let playing = run_pods out manifest_path auth_file_path annotations in
      let s2 = (playing s1).1 in
      >>=-post Q (apply_network_configuration out pod) _ s (λ e h q. cc)
        (λ u applied.
          >>=-post Q playing _ s1 (λ e h q. cc)
            (λ reports played.
              >>=-post Q (λ t. (first_id reports, t)) _ s2 (λ e h q. cc)
                (λ id first.
                  let mapping = λ (t : Workload S P).
                    at_mapping out (WorkloadMapping.add (out.persist_mapping t.mapping) pod.name id)
                      t in
                  >>=-post Q mapping _ s2 (λ e h q. cc)
                    (λ u mapped q.
                      let (m', w', svc, named, v', told, e') =
                        serve-IsStarted pod manifest_path (mapping s2).1 q in
                      let (report, others, all, same) = first_id_lem reports id first in
                      (
                        report,
                        others,
                        ap
                              (λ p.
                                (Podman.run out.engine manifest_path auth_file_path annotations
                                  p).0)
                              (sym w)
                            ∙ given_lem _ not_run reports played
                            ∙ ap some all,
                        m' ∙ (rw (m, same) refl),
                        svc,
                        named,
                        v' ∙ (rw v refl),
                        told,
                        e' ∙ (rw e refl),
                      )))))
