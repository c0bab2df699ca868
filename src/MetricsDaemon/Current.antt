-- ===== src/MetricsDaemon/Current.antt =====
-- What the daemon collects for a component is what its configuration in force asks for
-- (internal/metrics/system.go, internal/metrics/data_transfer.go).
use flotta_device_worker.Prelude.{
  ℕ, ◌≡◌, ap, ◌∙◌, inl, inr, Bool, true, false, not, Option, none, some, String, List, [], ◌∷◌,
  lookup, string_eq, arith, Bool-cases, beq_refl,
}
use flotta_device_worker.MetricsDaemon.Collect.{SampleFilter}
use flotta_device_worker.MetricsDaemon.Daemon.{
  IsOwned, delete_target, add_target_lem, delete_target_lem,
}
use flotta_device_worker.MetricsDaemon.Observers.{
  Component, Scrapers, Observer, NodeExporter, system_target_name, data_transfer_target_name,
  expected_configuration, ensure_node_exporter_state, set_target, is_latest, system_update,
  data_transfer_update,
}

abbrev is_there : Option ℕ → Bool
is_there none = false
is_there (some o) = true

abbrev Agrees : Option Component → Bool → Type 0
Agrees none b = Unit
Agrees (some c) b = b ≡ not c.disabled

-- The daemon has a target for the component exactly if the configuration in force does not disable it.
abbrev pub IsCurrent : String → Observer → Type 0
IsCurrent name o =
    IsOwned o.daemon × Agrees o.latest_config (is_there (lookup name o.daemon.targets))

set_target-IsCurrent :
    (name : String) (scrapers : Scrapers) (default : SampleFilter) (c : Component) (o : Observer)
    → IsOwned o.daemon
    → IsCurrent name (set_target name scrapers default c o)
set_target-IsCurrent name scrapers default c o h = elim (Bool-cases c.disabled) [
  | inl off ↦
      let (own', _, names, _, _) = delete_target_lem name o.daemon h in
      let gone : lookup name (delete_target name o.daemon).targets ≡ none =
        names name ∙ ground (arith, beq_refl name) in
      unfold set_target in rw (set_target, off) (own', ap is_there gone)
  | inr on ↦
      let (own', there, _, _, _, _) = add_target_lem name o.daemon h in
      unfold set_target in rw (set_target, on) (own', ap is_there there)
]

module _ (deep_equal : Component → Component → Bool) where
  system_update-IsCurrent :
      (n : NodeExporter) (config : Option Component) (o : Observer)
      → IsCurrent system_target_name o
      → IsCurrent system_target_name (system_update deep_equal n config o).1
  unfolding system_update
  system_update-IsCurrent n config o h =
      let c = expected_configuration config in
      elim (Bool-cases (is_latest deep_equal c o.latest_config)) [
        | inl same ↦ rw same h
        | inr new ↦ elim (Bool-cases (ensure_node_exporter_state n c)) [
          | inl good ↦ rw (new, good) (set_target-IsCurrent system_target_name _ _ c o h.0)
          | inr bad ↦ rw (new, bad) h
        ]
      ]

  pub data_transfer_update-IsCurrent :
      (config : Option Component) (o : Observer)
      → IsCurrent data_transfer_target_name o
      → IsCurrent data_transfer_target_name (data_transfer_update deep_equal config o)
  unfolding data_transfer_update
  data_transfer_update-IsCurrent config o h =
      let c = expected_configuration config in
      elim (Bool-cases (is_latest deep_equal c o.latest_config)) [
        | inl same ↦ rw same h
        | inr new ↦ rw new (set_target-IsCurrent data_transfer_target_name _ _ c o h.0)
      ]

  -- The updates of the system's metrics, each with what the node exporter's service answers.
  unfoldable pub system_updates : List (NodeExporter × Option Component) → Observer → Observer
  unfolding system_update
  system_updates [] o = o
  system_updates ((n, config) ∷ rest) o =
      system_updates rest (system_update deep_equal n config o).1

  -- Over any updates, whichever calls of the node exporter's service fail: once there is a configuration
  -- of the system's metrics in force, the daemon has a target for the system exactly if that does not
  -- disable it, if it is so at first.
  pub system_updates-IsCurrent :
      (updates : List (NodeExporter × Option Component)) (o : Observer)
      → IsCurrent system_target_name o
      → IsCurrent system_target_name (system_updates updates o)
  unfolding system_updates
  system_updates-IsCurrent [] o h = h
  system_updates-IsCurrent ((n, config) ∷ rest) o h =
      system_updates-IsCurrent rest (system_update deep_equal n config o).1
        (system_update-IsCurrent n config o h)
