-- ===== src/MetricsDaemon/Observers.antt =====
-- The observers that decide what the daemon collects: internal/metrics/system.go,
-- internal/metrics/data_transfer.go and internal/metrics/workload.go.

use flotta_device_worker.Prelude.{
  Bool, true, false, ◌&&◌, Option, none, some, String, List, [], ◌∷◌, ◌++◌, if◌then◌else◌,
  string_eq,
}
use flotta_device_worker.Prelude.Int.{ℤ, pos, is_zero}
use flotta_device_worker.MetricsDaemon.Collect.{
  SampleFilter, restrictive, new_restrictive_allow_list,
}
use flotta_device_worker.MetricsDaemon.Daemon.{Daemon, add_target, delete_target}

-- models.ComponentMetricsConfiguration; the allow list may be nil.
pub record Component : Type 0 where
  pub interval : ℤ
  pub disabled : Bool
  pub allow_list : Option (List String)

-- What is scraped for a target: addresses, or the registry of the data transfer.
pub data Scrapers : Type 0 where
  http : List String → Scrapers
  registry : Scrapers

-- The arguments of an `AddTarget`.
pub record Asked : Type 0 where
  pub name : String
  pub scrapers : Scrapers
  pub interval : ℤ
  pub filter : SampleFilter

-- An observer with the daemon: the configuration in force, and the calls of `AddTarget` so far.
pub record Observer : Type 0 where
  pub daemon : Daemon
  pub latest_config : Option Component
  pub asked : List Asked

abbrev pub system_target_name : String
system_target_name = "system"

abbrev pub data_transfer_target_name : String
data_transfer_target_name = "data transfer"

abbrev default_component : Component
default_component = record { interval = pos 60; disabled = false; allow_list = none }

-- `DefaultSystemAllowList`
abbrev default_system_allow_list : SampleFilter
default_system_allow_list = restrictive (
    "node_cpu_frequency_hertz" ∷ "node_cpu_scaling_frequency_min_hertz"
    ∷ "node_cpu_scaling_frequency_hertz" ∷ "node_cpu_scaling_frequency_max_hertz"
    ∷ "node_disk_read_bytes_total" ∷ "node_disk_written_bytes_total"
    ∷ "node_memory_MemAvailable_bytes" ∷ "node_memory_MemFree_bytes" ∷ "node_memory_MemTotal_bytes"
    ∷ "node_network_info" ∷ "node_network_receive_bytes_total" ∷ "node_network_transmit_bytes_total"
    ∷ [])

-- `DefaultDataTransferAllowList`
abbrev default_data_transfer_allow_list : SampleFilter
default_data_transfer_allow_list = restrictive (
    "flotta_agent_datasync_files_transferred_counter"
    ∷ "flotta_agent_datasync_bytes_transferred_counter"
    ∷ "flotta_agent_datasync_time_transferred_counter"
    ∷ "flotta_agent_datasync_deleted_files_transferred_counter" ∷ [])

-- `expectedConfiguration` and `retrieveConfigurationOrDefault`, of a part that may be missing.
unfoldable pub expected_configuration : Option Component → Component
expected_configuration none = default_component
expected_configuration (some c) = if is_zero c.interval then record c { interval = pos 60 } else c

-- `getSampleFilter` and `getDataTransferSampleFilter`, by their default.
unfoldable pub get_sample_filter : SampleFilter → Option (List String) → SampleFilter
get_sample_filter default none = default
get_sample_filter default (some names) = new_restrictive_allow_list (some names)

-- What `Stop`, `Disable`, `Enable` and `Start` of the node exporter's service answer.
pub record NodeExporter : Type 0 where
  pub stops_well : Bool
  pub disables_well : Bool
  pub enables_well : Bool
  pub starts_well : Bool

-- `ensureNodeExporterState`
unfoldable pub ensure_node_exporter_state : NodeExporter → Component → Bool
ensure_node_exporter_state n c =
    if c.disabled then n.stops_well && n.disables_well else n.enables_well && n.starts_well

-- The target of a component is deleted, or added with what it scrapes.
unfoldable pub set_target : String → Scrapers → SampleFilter → Component → Observer → Observer
unfolding get_sample_filter
set_target name scrapers default c o =
    if c.disabled
    then record o { daemon = delete_target name o.daemon; latest_config = some c }
    else record o {
      daemon = add_target name o.daemon;
      latest_config = some c;
      asked =
          o.asked
          ++ record {
            name = name;
            scrapers = scrapers;
            interval = c.interval;
            filter = get_sample_filter default c.allow_list;
          }
            ∷ [];
    }

-- `deep_equal` is reflect.DeepEqual.
module _ (deep_equal : Component → Component → Bool) where
  abbrev pub is_latest : Component → Option Component → Bool
  is_latest c none = false
  is_latest c (some old) = deep_equal c old

  -- `SystemMetrics.Update`: whether it succeeds.
  unfoldable pub system_update : NodeExporter → Option Component → Observer → Bool × Observer
  unfolding expected_configuration ensure_node_exporter_state set_target
  system_update n config o =
      let c = expected_configuration config in
      if is_latest c o.latest_config
      then (true, o)
      else if ensure_node_exporter_state n c
      then (
        true,
        set_target system_target_name (http ("http://localhost:9100/metrics" ∷ []))
            default_system_allow_list c o,
      )
      else (false, o)

  -- `DataTransferMetrics.Update`, with `checkForUpdates` and `updateTarget`.
  unfoldable pub data_transfer_update : Option Component → Observer → Observer
  unfolding expected_configuration set_target
  data_transfer_update config o =
      let c = expected_configuration config in
      if is_latest c o.latest_config
      then o
      else set_target data_transfer_target_name registry default_data_transfer_allow_list c o

-- `Deregister` of either.
unfoldable pub deregister : String → Observer → Observer
deregister name o = record o { daemon = delete_target name o.daemon }
