-- ===== src/Logs/Transport/Tests.antt =====
-- The theorem on the goroutine of internal/logs/workload.go at a concrete input.
use flotta_device_worker.Prelude.{◌+◌, ◌≡◌, refl, true, false, none, List, [], ◌∷◌}
use flotta_device_worker.Logs.{LogEntry, entry_size, write, read_line}
use flotta_device_worker.Logs.Transport.{
  TransportLog, Event, adds, takes, delivers, happen, happen_one, total, count, all_accepted,
}
use flotta_device_worker.Logs.Transport.Kept.{happen-total}

abbrev first : LogEntry
first = record { payload = 1 ∷ []; workload = "web" }

abbrev second : LogEntry
second = record { payload = 2 ∷ []; workload = "web" }

abbrev start : TransportLog
start = record {
  log = record { max_len = 10; entries = []; current_size = 0 };
  held = none;
  sent = [];
  dropped = [];
}

-- The first entry cannot be sent at once.
abbrev session : List Event
session =
    adds first
    ∷ adds second
    ∷ takes
    ∷ delivers false
    ∷ takes
    ∷ delivers true
    ∷ takes
    ∷ delivers true
    ∷ []

-- An entry that is put back comes after those behind it.
sent_session : (happen session start).sent ≡ second ∷ first ∷ []
unfolding happen happen_one write read_line entry_size
sent_session = refl

happen-total_example :
    total (λ e. true) (happen session start)
    ≡ total (λ e. true) start + count (λ e. true) (all_accepted session start)
happen-total_example = happen-total (λ e. true) session start
