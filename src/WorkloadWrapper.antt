-- ===== src/WorkloadWrapper.antt =====
-- internal/workload/wrapper.go with the parts that it drives: the packet filter
-- (internal/workload/network/netfilter.go), the service manager (internal/service/systemd.go) and the
-- mapping of names to pods.
pub mod Netfilter
pub mod Services
pub mod Units
pub mod UnitFiles
pub mod Engine
pub mod Podman
pub mod PodmanLaws
pub mod Wrapper
pub mod Run
pub mod Removed
pub mod Ports
pub mod Ran
pub mod Lifecycle
pub mod PodLogs
mod Tests
