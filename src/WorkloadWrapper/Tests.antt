-- ===== src/WorkloadWrapper/Tests.antt =====
-- The theorems on internal/workload/wrapper.go, podman.go, netfilter.go and systemd.go at concrete inputs.
use flotta_device_worker.Prelude.{
  ◌≡◌, refl, Bool, true, false, not, ◌&&◌, ◌||◌, Option, none, some, String, List, [], ◌∷◌, ◌++◌,
  lookup, insert, delete, string_eq, ◌==◌, if◌then◌else◌, beq_refl, arith, eq_iff,
}
use flotta_device_worker.Prelude.Int.{pos}
use flotta_device_worker.Prelude.Action.{ok}
use flotta_device_worker.WorkloadMapping
use flotta_device_worker.WorkloadWrapper.Netfilter.{
  Command, add_table, delete_table, add_chain, list_chain, delete_chain, add_rule, Outcome, done,
  no_such_file, Nft, netfilter_add_chain, netfilter_delete_chain, netfilter_add_rule,
}
use flotta_device_worker.WorkloadWrapper.Services
use flotta_device_worker.WorkloadWrapper.Services.{
  Service, Manager, IsNamed, new_systemd_manager-add, without_content,
}
use flotta_device_worker.WorkloadWrapper.Units
use flotta_device_worker.WorkloadWrapper.UnitFiles.{remove-add}
use flotta_device_worker.WorkloadWrapper.Engine.{Engine, numbers}
use flotta_device_worker.WorkloadWrapper.Podman
use flotta_device_worker.WorkloadWrapper.Podman.{PodReport, started_container}
use flotta_device_worker.WorkloadWrapper.Wrapper.{
  Workload, Outside, Pod, get_host_ports, pod_of, remove, apply_network_configuration, open_ports,
  add_rules, create_service, remove_service, disable_service,
}
use flotta_device_worker.WorkloadWrapper.Run.{run, serve}
use flotta_device_worker.WorkloadWrapper.Lifecycle.{run_lem, remove-run}

-- A packet filter that does what it is told; its state says which table has which chain.
abbrev Chains : Type 0
Chains = String → String → Bool

abbrev obey : Command → Chains → Outcome × Chains
obey (add_chain t c) s = (done, λ t' c'. t == t' && c == c' || s t' c')
obey (list_chain t c) s = (if s t c then done else no_such_file, s)
obey (delete_chain t c) s = (done, λ t' c'. not (t == t' && c == c') && s t' c')
obey (add_rule t c r) s = (done, s)
obey (add_table t) s = (done, s)
obey (delete_table t) s = (done, s)

abbrev obedient : Nft Chains
obedient = record {
  run = obey;
  chain = λ t c s. s t c;
  lists = λ t c s. refl;
  lists_there = λ t c s. ground arith;
  adds = λ t c s e t' c'. refl;
  deletes = λ t c s e t' c'. refl;
  keeps = λ t c r s t' c'. refl;
}

-- A podman that plays every manifest as one pod, with the id "17".
abbrev Pods : Type 0
Pods = (String → Bool) × (String → Option String)

abbrev willing : Engine Pods
willing = record {
  version = λ p. numbers 4 2;
  list = λ p. some [];
  exists = λ n p. some (p.0 n);
  remove = λ n p. (true, ((λ m. not (n == m) && p.0 m), p.1));
  stop = λ n p. (true, p);
  start = λ n p. (true, p);
  inspect = λ n p. some (record { name = "web"; containers = [] });
  inspect_container = λ n p. none;
  play = λ m a l p.
      (some (record { id = "17"; containers = [] } ∷ []), ((λ m. "17" == m || p.0 m), p.1));
  secrets = λ p. some [];
  remove_secret = λ n p. (true, (p.0, λ m. if n == m then none else p.1 m));
  create_secret = λ n d p. (true, (p.0, λ m. if n == m then some d else p.1 m));
  generate = λ n i p. some (("pod", "[Unit]") ∷ []);
  pod = λ n p. p.0 n;
  secret = λ n p. p.1 n;
  exists_lem = λ n p b e. ground (arith, e);
  removes = λ n p e. ground (arith, beq_refl n);
  removes_secret = λ n p m. refl;
  creates_secret = λ n d p m. refl;
}

abbrev system : Units.System
system = record {
  reply = λ before q. Units.answered "done";
  writes = λ file. Units.is_written;
  may_remove = λ file. true;
}

abbrev outside : Outside Chains Pods
outside = record {
  nft = obedient;
  engine = willing;
  system = system;
  persist_mapping = λ m. WorkloadMapping.is_written;
  write_services = λ m. Services.is_written;
  contains = λ text part. false;
  decimal = λ n. "8080";
  connected = λ before. true;
  monitoring_interval = 15;
}

abbrev empty : Workload Chains Pods
empty = record {
  mapping = record { id_to_name = []; name_to_id = []; file = WorkloadMapping.absent };
  services = record { services = []; file = Services.absent };
  units = record { files = []; requests = [] };
  netfilter = λ t c. false;
  workloads = (λ m. false, λ m. none);
  events = [];
}

abbrev web : Pod
web = record {
  name = "web";
  labels = [];
  containers = record { name = "nginx"; host_ports = pos 8080 ∷ [] } ∷ [];
}

empty-IsNamed : IsNamed empty.services
empty-IsNamed = record { named = λ n svc. unfold lookup in λ e. cc }

web-runs : (run outside web "web.yaml" "" [] empty).0 ≡ ok tt
unfolding run serve apply_network_configuration get_host_ports open_ports add_rules create_service
    netfilter_add_chain netfilter_add_rule WorkloadMapping.add WorkloadMapping.persist Podman.run
    Podman.generate_systemd_service Podman.has_auto_update_enabled Units.new_systemd
    Units.new_systemd_rootless Units.add Units.add_units Units.reload Units.enable Units.start
    Services.add Services.write Podman.get_pod_report_for_id
web-runs = refl

run_lem_example :
    let s' = (run outside web "web.yaml" "" [] empty).1 in
    (report : PodReport) × (others : List PodReport) × ((Podman.run willing "web.yaml" "" []
        empty.workloads).0
      ≡ some (report ∷ others))
    × (WorkloadMapping.get_name report.id s'.mapping ≡ "web")
    × ((n : String)
        → WorkloadMapping.get_id n s'.mapping
          ≡ (if "web" == n then report.id else WorkloadMapping.get_id n empty.mapping))
    × (svc : Service) × (svc.name ≡ "web")
    × ((n : String)
        → Services.get n s'.services
          ≡ (if "web" == n then some svc else Services.get n empty.services))
    × (told : PodReport) × (s'.events ≡ [] ++ started_container "web" told ∷ [])
run_lem_example = run_lem outside web "web.yaml" "" [] empty web-runs

web-goes : (remove outside "web" (run outside web "web.yaml" "" [] empty).1).0 ≡ ok tt
unfolding run serve apply_network_configuration get_host_ports open_ports add_rules create_service
    netfilter_add_chain netfilter_add_rule WorkloadMapping.add WorkloadMapping.persist Podman.run
    Podman.generate_systemd_service Podman.has_auto_update_enabled Units.new_systemd
    Units.new_systemd_rootless Units.add Units.add_units Units.reload Units.enable Units.start
    Services.add Services.write Podman.get_pod_report_for_id Podman.append_containers remove
    remove_service disable_service Services.get Services.remove lookup insert delete Units.disable
    Units.stop Units.remove Units.remove_units Podman.remove Podman.exists pod_of
    WorkloadMapping.get_id WorkloadMapping.remove WorkloadMapping.mappings
    Units.default_service_name netfilter_delete_chain
web-goes = refl

remove-run_example :
    let r = remove outside "web" (run outside web "web.yaml" "" [] empty).1 in
    (willing.pod "17" r.1.workloads ≡ false)
    × (WorkloadMapping.get_id "web" r.1.mapping ≡ "")
    × (Services.get "web" r.1.services ≡ none)
remove-run_example =
    remove-run outside web "web.yaml" "" [] empty web-runs
      (record { id = "17"; name = ""; containers = [] }) []
      (unfold Podman.run Podman.append_containers in refl) (λ e. cc) empty-IsNamed web-goes

abbrev web_service : Service
web_service = record {
  name = "web";
  restart_sec = 15;
  units = "web" ∷ [];
  rootless = true;
  units_content = ("web", "[Unit]") ∷ [];
}

-- A state with the workload "web" running as the pod "17".
abbrev busy : Workload Chains Pods
busy = record empty {
  mapping = record {
    id_to_name = ("17", "web") ∷ [];
    name_to_id = ("web", "17") ∷ [];
    file = WorkloadMapping.absent;
  };
  services = record { services = ("web", web_service) ∷ []; file = Services.absent };
  units = record { files = ("web.service", "[Unit]") ∷ []; requests = [] };
  netfilter = λ t c. c == "wl-web";
  workloads = (λ m. m == "17", λ m. none);
}

busy-IsNamed : IsNamed busy.services
busy-IsNamed = record { named = λ n svc. unfold lookup in λ e. ground (arith, eq_iff "web" n) }

busy-goes : (remove outside "web" busy).0 ≡ ok tt
unfolding remove remove_service disable_service Services.get Services.remove Services.write lookup
    delete Units.disable Units.stop Units.remove Units.reload Units.remove_units Podman.remove
    Podman.exists pod_of WorkloadMapping.get_id WorkloadMapping.remove WorkloadMapping.persist
    WorkloadMapping.mappings Units.default_service_name netfilter_delete_chain
busy-goes = refl

remove-add_example :
    lookup "web.service"
      (Units.remove system web_service (Units.add system web_service empty.units).1).1.files
    ≡ none
unfolding Units.default_service_name
remove-add_example =
    remove-add system "web" (("web", "[Unit]") ∷ []) web_service empty.units
      (unfold lookup in (refl, tt)) (unfold Units.new_systemd Units.new_systemd_rootless in refl)
      (unfold Units.add Units.add_units Units.reload in refl) (λ f e. refl) "web.service"
