-- ===== src/Main/Wiring.antt =====
-- What cmd/device-worker/main.go has put together when it serves, and how it may end before.
use flotta_device_worker.Prelude.{
  ◌≡◌, ◌⊎◌, Bool, true, false, ◌&&◌, List, [], ◌∷◌, ◌++◌, if◌then◌else◌, arith,
}
use flotta_device_worker.Prelude.Action.{Result, ok, err}
use flotta_device_worker.Main.{
  Component, metrics_store, workload_metrics, system_metrics, data_transfer_metrics, logs,
  workloads, remote_write, device_os, mounts, data_monitor, ansible, heartbeat, configuration, Exit,
  fatal, panics, Environment, Program, empty_program, is_there, main,
}

-- Whether everything is there that the program cannot do without, ansible aside.
abbrev pub is_equipped : Environment → Bool
is_equipped env =
    is_there env.socket_address
    && env.dials
    && env.registers
    && env.listens
    && env.makes_data_directory
    && env.opens_store
    && env.makes_system_metrics
    && env.makes_workload_manager
    && env.makes_mounts
    && env.makes_registration
    && env.makes_playbook_directory

-- What is expected of a program that is set up.
abbrev pub expected_observers : Environment → List Component
expected_observers env =
    (metrics_store ∷ workload_metrics ∷ system_metrics ∷ data_transfer_metrics ∷ logs ∷ workloads
      ∷ remote_write ∷ device_os ∷ mounts ∷ data_monitor ∷ [])
    ++ (if env.makes_ansible then ansible ∷ [] else [])
    ++ heartbeat ∷ []

abbrev pub expected_program : Environment → Program
expected_program env = record {
  observers = expected_observers env;
  workload_observers = logs ∷ workload_metrics ∷ data_monitor ∷ [];
  deregistrables =
      workloads ∷ configuration ∷ heartbeat ∷ ansible ∷ data_monitor ∷ system_metrics
      ∷ metrics_store ∷ [];
  started = data_monitor ∷ (if env.is_initial_config then [] else heartbeat ∷ ansible ∷ []);
  registering = env.is_initial_config;
}

-- Whether `Init` of all observers returns.
abbrev pub all_init : (Component → Bool) → List Component → Bool
all_init inits [] = true
all_init inits (c ∷ cs) = inits c && all_init inits cs

-- By how `main` ends.
abbrev pub Ends : Environment → Result Exit (Unit {0}) → Program → Type 0
Ends env (ok _) p =
    (is_equipped env ≡ true)
    × (p ≡ expected_program env)
    × ((env.makes_ansible ≡ true) ⊎ (env.is_initial_config ≡ true))
    × (all_init env.inits (expected_observers env) ≡ true)
    × (env.serves ≡ true)
Ends env (err panics) p =
    (all_init env.inits (expected_observers env) ≡ false)
    ⊎ ((is_equipped env ≡ true) × (env.makes_ansible ≡ false) × (env.is_initial_config ≡ false))
Ends env (err (fatal f)) p = (is_equipped env ≡ false) ⊎ (env.serves ≡ false)

-- `main` serves only with everything that it needs, if it can serve and the `Init` of each observer
-- returns, and then it has put together what is expected; it panics only in the `Init` of an observer, or
-- without ansible on a device that has a configuration; and it ends by a fatal error only if something
-- that it needs is missing, or it cannot serve.
pub main_lem : (env : Environment) → Ends env (main env empty_program).0 (main env empty_program).1
unfolding main
main_lem env = ground arith
