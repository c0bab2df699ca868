-- ===== src/MetricsDaemon.antt =====
-- internal/metrics/daemon.go: the goroutines that collect a target's metrics, and the daemon that starts
-- and stops them.
pub mod Targets
pub mod Fenced
pub mod Quiet
pub mod Collect
pub mod Scrapers
pub mod Daemon
pub mod Observers
pub mod Current
pub mod Workloads
mod Tests
