-- ===== src/Heartbeat/Tests.antt =====
-- The theorems on internal/heartbeat/heartbeat.go at concrete inputs.
use flotta_device_worker.Prelude.{ℕ, refl, true, false, none, some, String, [], ◌∷◌}
use flotta_device_worker.Hardware.{HardwareInfo}
use flotta_device_worker.Heartbeat.{new_timer}
use flotta_device_worker.Heartbeat.Timing.{IsTimed}
use flotta_device_worker.Heartbeat.Beat.{Outside, Pusher, failed, send, push_information}
use flotta_device_worker.Heartbeat.Push.{Pushed, is_accepted, push_information-Pushed}

new_timer-IsTimed : IsTimed new_timer
new_timer-IsTimed = record { none_lost = refl; made = λ e. cc; period = λ k e. cc }

abbrev hardware : HardwareInfo ℕ ℕ
hardware = record { immutable = some 1; hostname = "device"; interfaces = []; mounts = [] }

abbrev outside : Outside ℕ ℕ String ℕ
outside = record {
  include = true;
  scope = "delta";
  workloads = record { name = "web"; status = "Running" } ∷ [];
  playbooks = [];
  last_sync = λ name. none;
  mutable_info = some hardware;
  full_info = some hardware;
  same_interfaces = λ a b. true;
  marshals = true;
  replies = λ sent. failed;
}

abbrev fresh : Pusher ℕ ℕ String ℕ
fresh = record {
  previous_mutable_hardware_info = none;
  first_heartbeat = true;
  reg = false;
  workload_events = "started" ∷ [];
  ansible_events = "ran" ∷ [];
  outbox = [];
}

push_information-Pushed_example :
    Pushed outside (is_accepted outside fresh) fresh (push_information outside fresh).1
push_information-Pushed_example =
    push_information-Pushed outside fresh refl (unfold push_information send in λ e. cc)
