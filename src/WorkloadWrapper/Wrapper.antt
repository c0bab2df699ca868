-- ===== src/WorkloadWrapper/Wrapper.antt =====
-- `Workload` of internal/workload/wrapper.go: the operations on a pod, over the parts that it drives.
use flotta_device_worker.Prelude.{
  ℕ, Bool, true, false, ◌&&◌, Option, none, some, String, List, [], ◌∷◌, ◌++◌, Map, string_eq, ◌==◌,
  if◌then◌else◌, ltb,
}
use flotta_device_worker.Prelude.Int.{ℤ, pos, negsuc}
use flotta_device_worker.Prelude.Action.{Result, ok, err, Action, ◌>>=◌, pure, raise}
use Prim.Native.String.{◌++◌ as concat}
use flotta_device_worker.WorkloadMapping
use flotta_device_worker.WorkloadWrapper.Netfilter.{
  Nft, netfilter_add_chain, netfilter_add_rule, netfilter_delete_chain,
}
use flotta_device_worker.WorkloadWrapper.Services
use flotta_device_worker.WorkloadWrapper.Services.{Service}
use flotta_device_worker.WorkloadWrapper.Units
use flotta_device_worker.WorkloadWrapper.Engine.{Engine}
use flotta_device_worker.WorkloadWrapper.Podman
use flotta_device_worker.WorkloadWrapper.Podman.{
  WorkloadInfo, PodReport, PodmanEvent, started_container, stopped_container,
}

-- What is read of a v1.Pod: its name and labels, and the host ports of its containers, of type int32.
pub record Container : Type 0 where
  pub name : String
  pub host_ports : List ℤ

pub record Pod : Type 0 where
  pub name : String
  pub labels : Map String String
  pub containers : List Container

pub data Err : Type 0 where
  illegal_port no_chain no_rule not_removed not_run not_started no_service : Err
  not_added not_enabled not_disabled unit_not_removed not_stored no_report no_table : Err
  mapping_failed : WorkloadMapping.Err → Err
  panics : Err

-- The fields of `Workload` with a state, and the events sent to its channel.
pub record Workload (S P : Type 0) : Type 0 where
  pub mapping : WorkloadMapping.Repository
  pub services : Services.Manager
  pub units : Units.Units
  pub netfilter : S
  pub workloads : P
  pub events : List PodmanEvent

-- The code outside this repository: `nft`, podman's service and systemd, the files of the mapping and
-- of the services, strings.Contains,
-- the format `%d`, and whether a connection to systemd can be made.
pub record Outside (S P : Type 0) : Type 0 where
  pub nft : Nft S
  pub engine : Engine P
  pub system : Units.System
  pub persist_mapping : WorkloadMapping.Repository → WorkloadMapping.Persist
  pub write_services : Services.Manager → Services.Written
  pub contains : String → String → Bool
  pub decimal : ℤ → String
  pub connected : List Units.Request → Bool
  pub monitoring_interval : ℕ

abbrev pub nf_table_name : String
nf_table_name = "edge"

abbrev pub is_legal : ℤ → Bool
is_legal (pos p) = ltb 0 p && ltb p 65536
is_legal (negsuc p) = false

abbrev pub legal_ports : List ℤ → Option (List ℤ)
legal_ports [] = some []
legal_ports (p ∷ ps) = elim (legal_ports ps) [
  | none ↦ none
  | some rest ↦ if is_legal p then some (p ∷ rest) else none
]

abbrev pub container_ports : List Container → Option (List ℤ)
container_ports [] = some []
container_ports (c ∷ cs) = elim (legal_ports c.host_ports) [
  | none ↦ none
  | some ports ↦ elim (container_ports cs) [ none ↦ none | some rest ↦ some (ports ++ rest) ]
]

-- `getHostPorts`
unfoldable pub get_host_ports : Pod → Option (List ℤ)
get_host_ports pod = container_ports pod.containers

abbrev pub require : {A : Type 0} → A → Bool → Err → Result Err A
require a true e = ok a
require a false e = err e

abbrev pub given : {A : Type 0} → Option A → Err → Result Err A
given none e = err e
given (some a) e = ok a

abbrev pub no_error : Option WorkloadMapping.Err → Result Err (Unit {0})
no_error none = ok tt
no_error (some e) = err (mapping_failed e)

-- `GetId`, or the name itself if it is not mapped.
unfoldable pub pod_of : String → WorkloadMapping.Repository → String
pod_of name m = let id = WorkloadMapping.get_id name m in if id == "" then name else id

module _ {S P : Type 0} (out : Outside S P) where
  open out use {nft, engine, system}

  abbrev M : Type 0 → Type 0
  M A = Action (Workload S P) Err A

  -- A call of one part: its error is returned, or only logged.
  abbrev pub at_nft : Err → (S → Bool × S) → M (Unit {0})
  at_nft e f s = let r = f s.netfilter in (require tt r.0 e, record s { netfilter = r.1 })

  abbrev pub try_nft : (S → Bool × S) → M (Unit {0})
  try_nft f s = (ok tt, record s { netfilter = (f s.netfilter).1 })

  abbrev pub at_podman : Err → (P → Bool × P) → M (Unit {0})
  at_podman e f s = let r = f s.workloads in (require tt r.0 e, record s { workloads = r.1 })

  abbrev pub at_units : Err → (Units.Units → Bool × Units.Units) → M (Unit {0})
  at_units e f s = let r = f s.units in (require tt r.0 e, record s { units = r.1 })

  abbrev pub try_units : (Units.Units → Bool × Units.Units) → M (Unit {0})
  try_units f s = (ok tt, record s { units = (f s.units).1 })

  abbrev pub at_services : Err → (Services.Manager → Bool × Services.Manager) → M (Unit {0})
  at_services e f s = let r = f s.services in (require tt r.0 e, record s { services = r.1 })

  abbrev pub try_services : (Services.Manager → Bool × Services.Manager) → M (Unit {0})
  try_services f s = (ok tt, record s { services = (f s.services).1 })

  abbrev pub at_mapping :
      (WorkloadMapping.Repository → Option WorkloadMapping.Err × WorkloadMapping.Repository)
      → M (Unit {0})
  at_mapping f s = let r = f s.mapping in (no_error r.0, record s { mapping = r.1 })

  abbrev pub rule : ℤ → String
  rule p = concat "tcp dport " (concat (out.decimal p) " ct state new,established counter accept")

  unfoldable pub add_rules : String → List ℤ → M (Unit {0})
  unfolding netfilter_add_rule
  add_rules name [] = pure tt
  add_rules name (p ∷ ps) = do
    _ ← at_nft no_rule (netfilter_add_rule nft nf_table_name name (rule p))
    add_rules name ps

  unfoldable pub open_ports : String → List ℤ → M (Unit {0})
  unfolding add_rules
  open_ports name [] = pure tt
  open_ports name (p ∷ ps) = do
    _ ← at_nft no_chain (netfilter_add_chain nft nf_table_name name)
    add_rules name (p ∷ ps)

  -- `applyNetworkConfiguration`
  unfoldable pub apply_network_configuration : Pod → M (Unit {0})
  apply_network_configuration pod = elim (get_host_ports pod) [
    | none ↦ raise illegal_port
    | some ports ↦ open_ports pod.name ports
  ]

  -- `createService`; that the service does not start is only logged.
  unfoldable pub create_service : Service → M (Unit {0})
  create_service svc = do
    _ ← at_units not_added (Units.add system svc)
    _ ← at_units not_enabled (Units.enable system svc)
    try_units (Units.start system svc)

  -- The part of `removeService` for a service that is there.
  unfoldable pub disable_service : Service → M (Unit {0})
  disable_service svc = do
    _ ← try_units (Units.stop system svc)
    _ ← at_units not_disabled (Units.disable system svc)
    _ ← at_units unit_not_removed (Units.remove system svc)
    λ s. try_services (Services.remove (out.write_services s.services) svc) s

  -- `removeService`
  unfoldable pub remove_service : String → M (Unit {0})
  remove_service name s = elim (Services.get name s.services) [
    | none ↦ (ok tt, s)
    | some svc ↦ disable_service svc s
  ]

  -- `Remove`
  unfoldable pub remove : String → M (Unit {0})
  remove name s =
      (do
        _ ← remove_service name
        _ ← at_podman not_removed (Podman.remove engine (pod_of name s.mapping))
        _ ← try_nft (netfilter_delete_chain nft nf_table_name name)
        λ s'. at_mapping (WorkloadMapping.remove (out.persist_mapping s'.mapping) name) s')
        s

  -- `Stop`
  unfoldable pub stop : String → M (Unit {0})
  stop name s = at_podman not_removed (Podman.stop engine (pod_of name s.mapping)) s

  -- `Start`
  unfoldable pub start : Pod → M (Unit {0})
  start pod = do
    _ ← try_nft (netfilter_delete_chain nft nf_table_name pod.name)
    _ ← apply_network_configuration pod
    λ s. at_podman not_started (Podman.start engine (WorkloadMapping.get_id pod.name s.mapping)) s
