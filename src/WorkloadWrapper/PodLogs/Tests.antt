-- ===== src/WorkloadWrapper/PodLogs/Tests.antt =====
-- The theorems on `Logs` of internal/workload/podman/podman.go at a concrete input.
use flotta_device_worker.Prelude.{
  Bool, true, false, ◌≡◌, refl, arith, String, List, [], ◌∷◌, ◌++◌, some, insert, lookup, string_eq,
}
use flotta_device_worker.WorkloadWrapper.PodLogs.{
  Logs, Event, arrives, reads, arrive, read, read_line, taken, IsTaken, start_logs, happen, passes,
  all_lines, arrived, lines_of,
}
use flotta_device_worker.WorkloadWrapper.PodLogs.Lines.{happen-all_lines}
use flotta_device_worker.WorkloadWrapper.PodLogs.Rounds.{passes-all_lines}

abbrev pod : List String
pod = "app" ∷ "db" ∷ []

abbrev session : List Event
session =
    arrives "app" "one" ∷ arrives "db" "ready" ∷ reads "db" ∷ arrives "app" "two" ∷ reads "app" ∷ []

abbrev start : Logs
start = record { buffers = ("app", []) ∷ ("db", []) ∷ []; handed = []; written = [] }

start_logs_pod : start_logs (some pod) ≡ some start
unfolding start_logs
start_logs_pod = refl

-- A writer that takes one line, and is full then.
abbrev accepts : List (String × String) → Bool
accepts handed = elim handed [ [] ↦ true | _ ↦ false ]

written_session : (happen accepts session start).written ≡ ("db", "ready") ∷ []
unfolding happen arrive read read_line insert lookup
written_session = refl

happen-all_lines_example :
    (all_lines "app" (happen accepts session start)
      ≡ all_lines "app" start ++ arrived "app" session)
    × IsTaken accepts (happen accepts session start)
happen-all_lines_example = happen-all_lines accepts "app" session start (unfold taken in refl)

abbrev busy : Logs
busy = record {
  buffers = ("app", "one" ∷ "two" ∷ []) ∷ ("db", "ready" ∷ []) ∷ [];
  handed = ("app", "zero") ∷ [];
  written = ("app", "zero") ∷ [];
}

passes-all_lines_example :
    (lines_of "app" (passes accepts 2 pod busy).handed ≡ all_lines "app" busy)
    × IsTaken accepts (passes accepts 2 pod busy)
passes-all_lines_example =
    passes-all_lines accepts "app" 2 pod busy refl (unfold lookup in (omega arith))
      (unfold taken in refl)
