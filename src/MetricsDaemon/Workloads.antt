-- ===== src/MetricsDaemon/Workloads.antt =====
-- `WorkloadMetrics` of internal/metrics/workload.go: the targets of the workloads that have metrics.
use Prim.Native.String.{◌++◌ as concat}
use flotta_device_worker.Prelude.{
  ℕ, ◌≡◌, refl, ◌∙◌, inl, inr, Bool, true, false, ◌||◌, Option, none, some, String, List, [], ◌∷◌,
  ◌++◌, if◌then◌else◌, Map, lookup, insert, string_eq, ◌==◌, arith, eq_iff, Bool-cases,
}
use flotta_device_worker.Prelude.Int.{ℤ, pos, is_positive}
use flotta_device_worker.MetricsDaemon.Collect.{
  SampleFilter, permissive, new_restrictive_allow_list,
}
use flotta_device_worker.MetricsDaemon.Daemon.{
  Daemon, IsOwned, add_target, delete_target, add_target_lem,
}
use flotta_device_worker.MetricsDaemon.Observers.{http, Asked}
use flotta_device_worker.WorkloadWrapper.Podman.{PodReport, ContainerReport}

-- models.ContainerMetrics
pub record Custom : Type 0 where
  pub disabled : Bool
  pub port : ℤ
  pub path : String

-- models.Metrics of a workload; the allow list may be nil.
pub record Metrics : Type 0 where
  pub path : String
  pub port : ℤ
  pub interval : ℤ
  pub allow_list : Option (List String)
  pub containers : Map String Custom

-- models.Workload, of which the name and the metrics, which may be nil, are read.
pub record Workload : Type 0 where
  pub name : String
  pub metrics : Option Metrics

-- `WorkloadMetrics` with its daemon, and the calls of `AddTarget` so far.
pub record WorkloadMetrics : Type 0 where
  pub daemon : Daemon
  pub workload_config : Map String Workload
  pub asked : List Asked

abbrev index : List Workload → Map String Workload → Map String Workload
index [] cfg = cfg
index (w ∷ ws) cfg = index ws (insert w.name w cfg)

-- `Init` and `Update`
unfoldable pub update : List Workload → WorkloadMetrics → WorkloadMetrics
update workloads m = record m { workload_config = index workloads [] }

-- `getWorkload`
unfoldable pub get_workload : String → WorkloadMetrics → Option Workload
get_workload name m = lookup name m.workload_config

-- `WorkloadRemoved`
unfoldable pub workload_removed : String → WorkloadMetrics → WorkloadMetrics
workload_removed name m = record m { daemon = delete_target name m.daemon }

-- `getPathOrDefault`
unfoldable pub get_path_or_default : String → String
get_path_or_default path = if path == "" then "/" else path

abbrev interval_of : Metrics → ℤ
interval_of c = if is_positive c.interval then c.interval else pos 60

abbrev filter_of : Option (List String) → SampleFilter
filter_of none = permissive
filter_of (some names) = new_restrictive_allow_list (some names)

-- `decimal` is the format `%d`.
module _ (decimal : ℤ → String) where
  abbrev url : String → ℤ → String → String
  url address port path =
      concat "http://"
        (concat address (concat ":" (concat (decimal port) (get_path_or_default path))))

  abbrev container_urls : Metrics → List ContainerReport → List String
  container_urls c [] = []
  container_urls c (r ∷ rs) =
      let rest = container_urls c rs in
      elim (lookup r.name c.containers) [
        | none ↦ url r.ip_address c.port c.path ∷ rest
        | some custom ↦
            if custom.disabled then rest else url r.ip_address custom.port custom.path ∷ rest
      ]

  -- `getWorkloadUrls`
  unfoldable pub get_workload_urls : PodReport → Metrics → List String
  get_workload_urls r c = container_urls c r.containers

  abbrev all_urls : Metrics → List PodReport → List String
  all_urls c [] = []
  all_urls c (r ∷ rs) = get_workload_urls r c ++ all_urls c rs

  -- The rounds of the loop of `WorkloadStarted`, each of which adds a target with all the addresses.
  unfoldable pub add_targets :
      Metrics → List String → List PodReport → WorkloadMetrics → WorkloadMetrics
  add_targets c urls [] m = m
  add_targets c urls (r ∷ rs) m = add_targets c urls rs (record m {
    daemon = add_target r.name m.daemon;
    asked =
        m.asked
        ++ record {
          name = r.name;
          scrapers = http urls;
          interval = interval_of c;
          filter = filter_of c.allow_list;
        }
          ∷ [];
  })

  -- `WorkloadStarted`
  unfoldable pub workload_started : String → List PodReport → WorkloadMetrics → WorkloadMetrics
  unfolding get_workload add_targets
  workload_started name reports m = elim (get_workload name m) [
    | none ↦ m
    | some w ↦ elim w.metrics [ none ↦ m | some c ↦ add_targets c (all_urls c reports) reports m ]
  ]

abbrev is_there : Option ℕ → Bool
is_there none = false
is_there (some o) = true

-- Whether one of the reports is of a pod with the name.
abbrev pub is_reported : String → List PodReport → Bool
is_reported n [] = false
is_reported n (r ∷ rs) = r.name == n || is_reported n rs

module _ (decimal : ℤ → String) where
  add_targets-there :
      (c : Metrics) (urls : List String) (rs : List PodReport) (m : WorkloadMetrics) (n : String)
      → IsOwned m.daemon
      → is_there (lookup n (add_targets decimal c urls rs m).daemon.targets)
        ≡ (is_reported n rs || is_there (lookup n m.daemon.targets))
  unfolding add_targets
  add_targets-there c urls [] m n h = refl
  add_targets-there c urls (r ∷ rs) m n h =
      let (own', there, _, others, _, _) = add_target_lem r.name m.daemon h in
      add_targets-there c urls rs _ n own' ∙ (elim (Bool-cases (r.name == n)) [
        | inl same ↦ ground (arith, same, there, eq_iff r.name n)
        | inr other ↦ ground (arith, other, others n, eq_iff r.name n)
      ])

  -- When a workload with metrics has started, there is a target under the name of each of its pods, not
  -- of the workload, and under every other name there is one as before.
  pub workload_started-there :
      (name : String) (reports : List PodReport) (m : WorkloadMetrics) (w : Workload) (c : Metrics)
      (n : String)
      → get_workload name m ≡ some w
      → w.metrics ≡ some c
      → IsOwned m.daemon
      → is_there (lookup n (workload_started decimal name reports m).daemon.targets)
        ≡ (is_reported n reports || is_there (lookup n m.daemon.targets))
  unfolding workload_started
  workload_started-there name reports m w c n known given h =
      rw (workload_started, known, given)
        (add_targets-there c (all_urls decimal c reports) reports m n h)
