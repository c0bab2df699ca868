-- ===== src/Lib.antt =====
-- Verification of the device worker (flotta-device-worker): the program on an edge device that takes
-- its configuration from the operator through the yggdrasil dispatcher, applies it, and reports back.
--
-- How the parts interact. A message of the operator reaches the configuration manager, which hands it
-- to its observers (workloads, heartbeat, metrics, mounts, ...), and keeps it in a file. The heartbeat
-- collects what the parts report, events of workloads and playbooks included, and sends it at the ticks
-- of a ticker; the registration enrols the device and fetches its certificate. The workload manager
-- runs and removes pods through the workload wrapper, which drives podman, systemd, the packet filter
-- and the mapping of names to pods, and tells its observers what started and stopped: the metrics daemon,
-- the log targets and the data transfer. The metrics that the device stores in a time series database
-- are sent to a remote server by a goroutine.
--
-- What is modelled where:
-- - Prelude: Boolean tests, lists, association lists for Go's maps (a missing key reads as the zero
--   value where the code relies on it), integers, and actions that may fail and keep their state.
-- - RemoteWrite (internal/metrics/remote_write.go). Request: `writeRequest` as `write_request`. Range:
--   `writeRange` as `write_range`. Window: `Write` as `write` and `skipEmptyRanges` as
--   `skip_empty_ranges`. Control: `Update`, `Init`, `applyConfig`, `removeServerCaFiles` and the
--   `getConfig` of `writeRoutine`. Encode: `toTimeSeries`. Series is the data (internal/metrics/metrics.go).
-- - Configuration (internal/configuration/configuration.go): `Manager` with `NewConfigurationManager`,
--   `RegisterObserver`, `Update`, `Deregister`. Unordered: `isEqualUnorderedWorkloadLists` and
--   `isEqualUnorderedSecretLists`, which differ in their types only.
-- - Heartbeat (internal/heartbeat/heartbeat.go): the ticker with `Start`, `Update`, `Deregister`. Beat:
--   `RetrieveInfo`, `buildHardwareInfo`, `send`, `pushInformation`.
-- - Registration (internal/registration/registration.go): `enrol`, `renewCertificate`,
--   `sendRegistrationRequest`, `parseRegistrationResponse`, `registerDeviceOnce`, `RegisterDevice` with
--   its retries. Deregister: `DeregisterLater`, `Deregister`. Certificates
--   (internal/registration/certs.go): `ClientCert` with `WriteCertificate`, `Renew`.
-- - Mounts (internal/mount/mount.go, internal/mount/info.go): `GetMounts`, `isValid`, `isEqual`, `Update`.
-- - Hardware (internal/hardware/hardware.go): the mutable and full information, and the delta.
-- - WorkloadMapping (internal/workload/mapping/mapping.go): the mapping of workload names to pod ids.
-- - WorkloadManager (internal/workload/manager.go): `Update` with `updateSecrets`, `podModified`,
--   `podAuthModified`, `manageAuthFile` and `PodShouldWaitForMount`, `Deregister` and `PopEvents`.
--   Pods: `toPod` with the labels that it shares with the workload. Stop: `StopWorkloads`.
-- - WorkloadWrapper (internal/workload/wrapper.go with the parts that it drives). Wrapper and Run: `Run`,
--   `Remove`, `Start`, `Stop`, `List`, `Init`. Netfilter (internal/workload/network/netfilter.go): the
--   commands of nft. Services and Units (internal/service/systemd.go): `systemdManager` and `systemd`.
--   Podman (internal/workload/podman/podman.go): the methods over podman's service, which is Engine.
--   PodLogs: `Logs` and `containerLog`.
-- - MetricsDaemon (internal/metrics/daemon.go, internal/metrics/allow-list.go). Targets: the goroutines
--   of `Start` and `Stop` as a step relation. Collect: `Run` and `Filter`. Daemon: `AddTarget` and
--   `DeleteTarget`. Observers (internal/metrics/system.go, internal/metrics/data_transfer.go) and
--   Workloads (internal/metrics/workload.go): what adds and deletes targets. Scrapers
--   (internal/metrics/scraper.go): `Scrape` over HTTP and over the counters.
-- - DataTransfer (internal/datatransfer/monitor.go): `syncPaths`, `syncPathsWorkload` and
--   `WorkloadRemoved` of the monitor, with the storage replaced at any moment.
--   Storage (internal/datatransfer/s3/sync.go): `Sync`.
-- - Server (internal/server/deviceserver.go): `Send` and the goroutine that updates, as steps.
-- - Upgrade (internal/os/os.go, internal/os/os_exec_commands.go): `Update`, `GetUpgradeStatus`.
-- - AnsibleMapping (internal/ansible/mapping/mapping.go): the mapping of playbooks.
-- - Tsdb (internal/metrics/metrics.go): `Update`, `Close`, `Deregister`, `AddMetric`, `AddVector`,
--   `GetMetricsForTimeRange` (Query), the times.
-- - Main (cmd/device-worker/main.go): `main` until it serves, and one round of the graceful stop.
-- - AnsibleManager (internal/ansible/ansible_manager.go). Handle: `HandlePlaybook` up to its goroutine,
--   and `sendEvents`. Execute: the goroutine `execPlaybook` and the loop that waits for it, as steps.
--   Pending: `ExecutePendingPlaybooks` and `execPlaybookSync`. Send: `send`.
-- - PlaybookEvents (internal/ansible/dispatcher/dispatcher_events.go). Events: one function per event.
--   Transform: `eventTransformer`. Message: `CreateMessage` and `ComposeDispatcherMessage`.
-- - Logs (internal/logs/log_container.go): the buffer of log lines. Target (internal/logs/workload.go):
--   the transports and writers with `Update`, `WorkloadStarted`, `WorkloadRemoved`.
--   Transport (internal/logs/workload.go, internal/logs/syslog_transport.go): the goroutine of `Start`,
--   and `WriteLog`.
--
-- Code outside the repository is a parameter: records named `Outside` hold the answers of files,
-- system calls, the dispatcher and encoders, which may fail and may depend on what was sent before;
-- `Nft` is the packet filter, `Engine` podman's service, `System` systemd, `Receiver` the remote metrics
-- server, `Tsdb` the time series database, `Models` the operator's message types with their equality.
-- `Nft` and `Engine` come with laws, which are what their manuals promise. Functions that hold a lock
-- throughout are one step.
--
-- Fuel: `write_loop` needs more than the series and samples that are left, and `send_series` gives
-- that; `write` needs more than the distance of the last write to the newest sample, in nanoseconds;
-- the retries of the registration run over the ticks that come.
--
-- Not modelled: ansible itself, the tags file, logging, contexts and time-outs, and what a write of a
-- container's log buffer does that overlaps a read of it (WorkloadWrapper/PodLogs). In RemoteWrite/Window
-- times are natural numbers of nanoseconds without overflow; the samples per request are taken as a
-- natural number.
pub mod AnsibleManager
pub mod AnsibleMapping
pub mod Configuration
pub mod DataTransfer
pub mod Hardware
pub mod Heartbeat
pub mod Logs
pub mod Main
pub mod MetricsDaemon
pub mod Mounts
pub mod PlaybookEvents
pub mod Prelude
pub mod Registration
pub mod RemoteWrite
pub mod Server
pub mod Tsdb
pub mod Upgrade
pub mod WorkloadManager
pub mod WorkloadMapping
pub mod WorkloadWrapper
