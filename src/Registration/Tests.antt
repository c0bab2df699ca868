-- ===== src/Registration/Tests.antt =====
-- The theorems on internal/registration/registration.go at concrete inputs.
use flotta_device_worker.Prelude.{ℕ, true, false, none, some, List, [], ◌∷◌}
use flotta_device_worker.Registration.{
  Outside, State, Sent, Reply, send_failed, response, certificate, not_json, register_device_once,
}
use flotta_device_worker.Registration.Once.{Registers, register_device_once-Registers}
use flotta_device_worker.Registration.Deregister.{Deregistrable}

-- A dispatcher that answers the first message by an error.
abbrev reply : List (Sent ℕ) → Reply
reply [] = send_failed
reply (m ∷ []) = response 208 not_json
reply (m ∷ n ∷ sent) = response 200 (certificate "pem")

abbrev outside : Outside ℕ ℕ
outside = record {
  hardware_ok = λ sent. true;
  marshals = λ sent. true;
  send = reply;
  is_register_cert = some true;
  create_device_certs = some (1, 2);
  current_key = none;
  renew = λ key. none;
  writes_certificate = λ cert key. true;
  left_certificate = λ cert key before. before;
}

abbrev new_device : State ℕ ℕ
new_device = record { outbox = []; written = none; registered = false }

register_device_once-Registers_example :
    Registers outside new_device
      (register_device_once outside new_device).0
      (register_device_once outside new_device).1
register_device_once-Registers_example = register_device_once-Registers outside new_device

-- Two parts, of which the first fails.
abbrev parts : List (Deregistrable ℕ)
parts = ("workload", λ w. (some "busy", w)) ∷ ("heartbeat", λ w. (none, 0)) ∷ []
