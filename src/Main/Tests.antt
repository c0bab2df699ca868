-- ===== src/Main/Tests.antt =====
-- The theorems on cmd/device-worker/main.go at concrete inputs.
use flotta_device_worker.Prelude.{true, false, some}
use flotta_device_worker.Main.{Environment, empty_program, main}
use flotta_device_worker.Main.Wiring.{Ends, main_lem}

-- A device that was registered before, and has lost ansible.
abbrev without_ansible : Environment
without_ansible = record {
  socket_address = some "unix:/run/yggd.sock";
  config_dir = some "/etc";
  client_id = some "device";
  dials = true;
  registers = true;
  listens = true;
  makes_data_directory = true;
  opens_store = true;
  makes_system_metrics = true;
  makes_workload_manager = true;
  makes_mounts = true;
  makes_registration = true;
  makes_playbook_directory = true;
  makes_ansible = false;
  is_initial_config = false;
  serves = true;
  inits = λ c. true;
}

main_lem_example :
    Ends without_ansible
      (main without_ansible empty_program).0
      (main without_ansible empty_program).1
main_lem_example = main_lem without_ansible
