-- ===== src/Main.antt =====
-- cmd/device-worker/main.go: how the program is put together when it starts, and the graceful stop of its
-- parts before a reboot.
pub mod Wiring
pub mod Stops
mod Tests
use flotta_device_worker.Prelude.{
  Bool, true, false, Option, none, some, String, List, [], ◌∷◌, ◌++◌, if◌then◌else◌,
}
use Prim.Native.String.{◌++◌ as concat}
use flotta_device_worker.Prelude.Action.{Result, ok, err, Action, ◌>>=◌, pure, raise}

-- The parts of the program that are observers, or are deregistered, or are started.
pub data Component : Type 0 where
  metrics_store workload_metrics system_metrics data_transfer_metrics logs workloads : Component
  remote_write device_os mounts data_monitor ansible heartbeat configuration : Component

pub data Fatal : Type 0 where
  no_socket_address not_dialled not_registered not_listening no_data_directory no_store : Fatal
  no_system_metrics no_workload_manager no_mounts no_registration no_playbook_directory : Fatal
  not_serving : Fatal

-- `log.Fatal` ends the program; so does a call of a method of a nil pointer.
pub data Exit : Type 0 where
  fatal : Fatal → Exit
  panics : Exit

-- The environment: variables, the dispatcher, the file system, which parts can be made, and whether
-- `Init` of an observer returns; otherwise it panics.
pub record Environment : Type 0 where
  pub socket_address : Option String
  pub config_dir : Option String
  pub client_id : Option String
  pub dials : Bool
  pub registers : Bool
  pub listens : Bool
  pub makes_data_directory : Bool
  pub opens_store : Bool
  pub makes_system_metrics : Bool
  pub makes_workload_manager : Bool
  pub makes_mounts : Bool
  pub makes_registration : Bool
  pub makes_playbook_directory : Bool
  pub makes_ansible : Bool
  pub is_initial_config : Bool
  pub serves : Bool
  pub inits : Component → Bool

-- What `main` sets up: the observers of the configuration manager and of the workload manager, what is
-- deregistered with the device, what was started, and whether the device registers.
pub record Program : Type 0 where
  pub observers : List Component
  pub workload_observers : List Component
  pub deregistrables : List Component
  pub started : List Component
  pub registering : Bool

abbrev pub empty_program : Program
empty_program = record {
  observers = [];
  workload_observers = [];
  deregistrables = [];
  started = [];
  registering = false;
}

abbrev pub M : Type 0
M = Action Program Exit (Unit {0})

abbrev pub require : Bool → Fatal → M
require true f = pure tt
require false f = raise (fatal f)

-- `configManager.RegisterObserver`, which calls `Init` first and only logs an error of it.
abbrev pub observe_with : Bool → Component → M
observe_with true c p = (ok tt, record p { observers = p.observers ++ c ∷ [] })
observe_with false c p = (err panics, p)

-- `wl.RegisterObserver`
abbrev pub observe_workloads : Component → M
observe_workloads c p = (ok tt, record p { workload_observers = p.workload_observers ++ c ∷ [] })

abbrev pub start : Component → M
start c p = (ok tt, record p { started = p.started ++ c ∷ [] })

abbrev pub is_there : Option String → Bool
is_there none = false
is_there (some _) = true

-- The directory of the data and the id of the device.
unfoldable pub data_dir : Environment → String
data_dir env = elim env.config_dir [
  | none ↦ "/var/local/yggdrasil/device"
  | some dir ↦ concat dir "/device"
]

unfoldable pub device_id : Environment → String
device_id env = elim env.client_id [ none ↦ "unknown" | some id ↦ id ]

module _ (env : Environment) where
  abbrev pub observe : Component → M
  observe c = observe_with (env.inits c) c

  -- `main` up to the configuration manager.
  unfoldable pub connect : M
  connect = do
    _ ← require (is_there env.socket_address) no_socket_address
    _ ← require env.dials not_dialled
    _ ← require env.registers not_registered
    _ ← require env.listens not_listening
    require env.makes_data_directory no_data_directory

  -- The metrics.
  unfoldable pub set_up_metrics : M
  set_up_metrics = do
    _ ← require env.opens_store no_store
    _ ← observe metrics_store
    _ ← observe workload_metrics
    _ ← require env.makes_system_metrics no_system_metrics
    _ ← observe system_metrics
    observe data_transfer_metrics

  -- The workload manager with its observers, and the remote write.
  unfoldable pub set_up_workloads : M
  set_up_workloads = do
    _ ← require env.makes_workload_manager no_workload_manager
    _ ← observe logs
    _ ← observe_workloads logs
    _ ← observe workloads
    _ ← observe_workloads workload_metrics
    observe remote_write

  -- The operating system, the mounts and the data transfer.
  unfoldable pub set_up_device : M
  set_up_device = do
    _ ← observe device_os
    _ ← require env.makes_mounts no_mounts
    _ ← observe mounts
    _ ← observe_workloads data_monitor
    _ ← observe data_monitor
    start data_monitor

  -- The manager of playbooks. Without it the program goes on, with a nil pointer.
  unfoldable pub set_up_ansible : M
  set_up_ansible = do
    _ ← require env.makes_registration no_registration
    _ ← require env.makes_playbook_directory no_playbook_directory
    if env.makes_ansible then observe ansible else pure tt

  -- `reg.DeregisterLater`
  unfoldable pub deregister_later : M
  deregister_later p = (
    ok tt,
    record p {
      deregistrables =
          workloads ∷ configuration ∷ heartbeat ∷ ansible ∷ data_monitor ∷ system_metrics
          ∷ metrics_store ∷ [];
    },
  )

  unfoldable pub start_ansible : M
  start_ansible = if env.makes_ansible then start ansible else raise panics

  unfoldable pub register_device : M
  register_device p = (ok tt, record p { registering = true })

  -- The heartbeat, and what the program starts with: with a stored configuration the heartbeat and the
  -- manager of playbooks, else the registration.
  unfoldable pub start_work : M
  unfolding start_ansible
  start_work = do _ ← start heartbeat; start_ansible

  unfoldable pub set_up_heartbeat : M
  unfolding deregister_later start_work register_device
  set_up_heartbeat = do
    _ ← observe heartbeat
    _ ← deregister_later
    if env.is_initial_config then register_device else start_work

  -- `main`, until it serves or ends.
  unfoldable pub main : M
  unfolding connect set_up_metrics set_up_workloads set_up_device set_up_ansible set_up_heartbeat
  main = do
    _ ← connect
    _ ← set_up_metrics
    _ ← set_up_workloads
    _ ← set_up_device
    _ ← set_up_ansible
    _ ← set_up_heartbeat
    require env.serves not_serving

-- What `listenStartGracefulRebootChannel` stops, in this order.
abbrev pub stopped_first : List Component
stopped_first = workloads ∷ data_monitor ∷ system_metrics ∷ metrics_store ∷ heartbeat ∷ []

-- One round of its loop, for which parts stop without an error: what was asked to stop, and whether the
-- completion was told. An error ends the program.
unfoldable pub stop_all : (Component → Bool) → List Component → List Component × Bool
stop_all stops [] = ([], true)
stop_all stops (c ∷ rest) =
    let others = stop_all stops rest in
    if stops c then (c ∷ others.0, others.1) else (c ∷ [], false)

unfoldable pub graceful_reboot : (Component → Bool) → List Component × Bool
unfolding stop_all
graceful_reboot stops = stop_all stops stopped_first
