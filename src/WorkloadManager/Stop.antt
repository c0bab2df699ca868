-- ===== src/WorkloadManager/Stop.antt =====
-- `StopWorkloads` of internal/workload/manager.go.
use flotta_device_worker.Prelude.{
  ◌≡◌, refl, ap, Bool, true, false, ◌&&◌, Option, none, some, String, List, [], ◌∷◌,
}

-- The loop of `stopAllWorkloads`, for whether the wrapper stops each workload: whether there is no error, and
-- the workloads that it was told to stop.
unfoldable pub stop_each : (stops : String → Bool) → List String → Bool × List String
stop_each stops [] = (true, [])
stop_each stops (name ∷ names) =
    let rest = stop_each stops names in (stops name && rest.0, name ∷ rest.1)

-- `stopAllWorkloads`, for what the wrapper lists.
unfoldable pub stop_all_workloads :
    (stops : String → Bool) → Option (List String) → Bool × List String
unfolding stop_each
stop_all_workloads stops none = (false, [])
stop_all_workloads stops (some names) = stop_each stops names

-- `StopWorkloads`, which holds the lock of the management throughout.
unfoldable pub stop_workloads : (stops : String → Bool) → Option (List String) → Bool × List String
unfolding stop_all_workloads
stop_workloads stops listed = stop_all_workloads stops listed

unfoldable pub all_stop : (stops : String → Bool) → List String → Bool
all_stop stops [] = true
all_stop stops (name ∷ names) = stops name && all_stop stops names

-- Every workload is told to stop, in order, also after one that could not be stopped; and there is no
-- error exactly if all stop.
stop_each_lem :
    (stops : String → Bool) (names : List String)
    → stop_each stops names ≡ (all_stop stops names, names)
unfolding stop_each all_stop
stop_each_lem stops [] = refl
stop_each_lem stops (name ∷ names) =
    ap (λ rest. (stops name && rest.0, name ∷ rest.1)) (stop_each_lem stops names)
