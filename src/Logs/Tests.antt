-- ===== src/Logs/Tests.antt =====
-- The theorems on internal/logs/log_container.go and internal/logs/workload.go at concrete inputs.
use flotta_device_worker.Prelude.{
  ◌≤◌, arith, String, true, Map, ◌≡◌, refl, none, some, List, [], ◌∷◌, ◌++◌,
}
use flotta_device_worker.Logs.{LogEntry, FifoLog, entry_size, write}
use flotta_device_worker.Logs.Queue.{
  IsValid, total, write-IsValid, Op, writes, reads, run, run-order, run_bounded,
}
use flotta_device_worker.Logs.Target.{Kind, syslog, other_kind, Workload, new_workloads_logs_target}
use flotta_device_worker.Logs.Linked.{
  IsLinked, Operation, updates, starts_workload, removes_workload, perform_all,
  perform_all-IsLinked,
}

abbrev hello : LogEntry
hello = record { payload = 104 ∷ 105 ∷ []; workload = "web" }

abbrev buffer : FifoLog
buffer = record { max_len = 3; entries = hello ∷ []; current_size = 2 }

buffer-IsValid : IsValid buffer
buffer-IsValid = record { sized = unfold total entry_size in refl }

abbrev session : List Op
session = writes (some hello) ∷ writes (some hello) ∷ reads ∷ writes none ∷ []

write-IsValid_example : IsValid (write (some hello) buffer).1
write-IsValid_example = write-IsValid (some hello) buffer buffer-IsValid

run-order_example :
    hello ∷ [] ++ (run session buffer).taken
    ≡ (run session buffer).given ++ (run session buffer).after.entries
run-order_example = run-order session buffer

-- A log target that is there in both updates, and a workload that logs to it.
abbrev targets : Map String Kind
targets = ("main", syslog) ∷ ("odd", other_kind "file") ∷ []

abbrev web : Workload
web = record { name = "web"; log_collection = "main" }

abbrev operations : List Operation
operations =
    updates (λ key. true) targets (web ∷ [])
    ∷ starts_workload "web"
    ∷ updates (λ key. true) targets (web ∷ [])
    ∷ removes_workload "web"
    ∷ []

perform_all-IsLinked_example : IsLinked (perform_all operations new_workloads_logs_target)
perform_all-IsLinked_example = perform_all-IsLinked operations new_workloads_logs_target tt

run_bounded_example :
    IsValid (run session buffer).after
    × ((run session buffer).after.current_size ≤ 5)
    × ((run session buffer).after.max_len ≡ 3)
run_bounded_example =
    run_bounded session 2 buffer (unfold entry_size in (omega arith, (omega arith, (tt, (tt, tt)))))
      buffer-IsValid (omega arith)
