-- ===== src/MetricsDaemon/Tests.antt =====
-- The theorems on internal/metrics/daemon.go and internal/metrics/system.go at concrete inputs.
use flotta_device_worker.Prelude.{
  none, some, [], ◌∷◌, true, false, lookup, string_eq, ℕ, ◌≢◌, refl, arith,
}
use flotta_device_worker.MetricsDaemon.Targets.{
  Target, at, new_target_metric, absent, starting, begin, stop, cancel_current, Steps, here, later,
  launches, begins,
}
use flotta_device_worker.MetricsDaemon.Fenced.{IsFenced, Steps-IsFenced}
use flotta_device_worker.MetricsDaemon.Quiet.{CanEnd, none_yet, stop-ends}
use flotta_device_worker.Prelude.Int.{pos}
use flotta_device_worker.MetricsDaemon.Observers.{
  Component, Observer, NodeExporter, system_target_name,
}
use flotta_device_worker.MetricsDaemon.Current.{IsCurrent, system_updates, system_updates-IsCurrent}
use flotta_device_worker.MetricsDaemon.Daemon.{new_metrics_daemon, IsOwned}

abbrev launched : Target
launched = record new_target_metric { goroutines = at (λ g. absent) 0 starting }

abbrev on_the_way : Target
on_the_way = begin 0 launched

launched-reached : Steps new_target_metric launched
launched-reached = later here (launches 0 refl)

on_the_way-reached : Steps new_target_metric on_the_way
on_the_way-reached = later launched-reached (begins 0 refl)

Steps-IsFenced_example : IsFenced on_the_way
Steps-IsFenced_example = Steps-IsFenced on_the_way-reached

none_starts : (g : ℕ) → on_the_way.goroutines g ≢ starting
unfolding begin cancel_current
none_starts g e = ground arith

stop-ends_example : CanEnd 0 (stop on_the_way)
stop-ends_example = stop-ends on_the_way-reached none_starts none_yet 0

new_metrics_daemon-IsOwned : IsOwned new_metrics_daemon
unfolding lookup
new_metrics_daemon-IsOwned = record { made = λ n o e. cc; own = λ m n o e f. cc }

-- The node exporter's service, which cannot be stopped.
abbrev exporter : NodeExporter
exporter = record {
  stops_well = false;
  disables_well = true;
  enables_well = true;
  starts_well = true;
}

abbrev observer : Observer
observer = record { daemon = new_metrics_daemon; latest_config = none; asked = [] }

observer-IsCurrent : IsCurrent system_target_name observer
observer-IsCurrent =
    (record { made = λ n o. unfold lookup in λ e. cc; own = λ m n o. unfold lookup in λ e. cc }, tt)

abbrev off : Component
off = record { interval = pos 0; disabled = true; allow_list = none }

system_updates-IsCurrent_example :
    IsCurrent system_target_name
      (system_updates (λ a b. false) ((exporter, none) ∷ (exporter, some off) ∷ []) observer)
system_updates-IsCurrent_example =
    system_updates-IsCurrent (λ a b. false) ((exporter, none) ∷ (exporter, some off) ∷ []) observer
      observer-IsCurrent
