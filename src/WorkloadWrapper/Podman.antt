-- ===== src/WorkloadWrapper/Podman.antt =====
-- `podman` of internal/workload/podman/podman.go: the methods over podman's service.
use flotta_device_worker.Prelude.{
  ℕ, Bool, true, false, ◌&&◌, ◌||◌, Option, none, some, String, List, [], ◌∷◌, ◌++◌, map, Map,
  lookup, string_eq, if◌then◌else◌, nat_beq, ltb, leb,
}
use Prim.Native.String.{◌++◌ as concat}
use flotta_device_worker.WorkloadWrapper.Engine.{
  ListedPod, PlayedPod, Version, no_version, unparsable, numbers, Engine,
}
use flotta_device_worker.WorkloadWrapper.Services.{Service}
use flotta_device_worker.WorkloadWrapper.Units.{new_systemd}

-- api.WorkloadInfo
pub record WorkloadInfo : Type 0 where
  pub id : String
  pub name : String
  pub status : String

-- `ContainerReport` and `PodReport`
pub record ContainerReport : Type 0 where
  pub ip_address : String
  pub id : String
  pub name : String

pub record PodReport : Type 0 where
  pub id : String
  pub name : String
  pub containers : List ContainerReport

-- `AppendContainer`
unfoldable pub append_container : ContainerReport → PodReport → PodReport
append_container c r = record r { containers = r.containers ++ c ∷ [] }

-- A message of podman about a pod: what happened, the pod's id, and its name.
pub data Happened : Type 0 where
  started removed stopped other : Happened

pub record Message : Type 0 where
  pub action : Happened
  pub id : String
  pub name : String

-- `PodmanEvent`. The report of a stopped container is nil.
pub data PodmanEvent : Type 0 where
  started_container : String → PodReport → PodmanEvent
  stopped_container : String → PodmanEvent

abbrev podman_binary : String
podman_binary = "/usr/bin/podman"

abbrev default_network_name : String
default_network_name = "podman"

abbrev line : String → String → String
line a b = concat a (concat b "\n")

abbrev joined : List String → String
joined [] = ""
joined (l ∷ rest) = concat l (joined rest)

-- `autoUpdateServiceUnitTemplate` with the fields of `AutoUpdateUnit` filled in.
unfoldable pub auto_update_unit : String → String → String
auto_update_unit pod_name manifest_path = joined (
    line "[Unit]" ""
    ∷ line "Description=Podman " (concat pod_name ".service")
    ∷ line "Wants=network-online.target" ""
    ∷ line "After=network-online.target" ""
    ∷ line "" ""
    ∷ line "[Service]" ""
    ∷ line "Restart=on-failure" ""
    ∷ line "RestartSec=15" ""
    ∷ line (concat "ExecStart=" podman_binary) (concat " play kube --replace " manifest_path)
    ∷ line (concat "ExecStop=" podman_binary) (concat " play kube --down " manifest_path)
    ∷ line "Type=forking" ""
    ∷ line "" ""
    ∷ line "[Install]" ""
    ∷ line "WantedBy=default.target" ""
    ∷ [])

-- What `MinVersion` comes to: it panics on a version that it cannot parse.
pub data Checked : Type 0 where
  supported unsupported unknown panics : Checked

unfoldable pub min_version : Version → Checked
min_version no_version = unknown
min_version unparsable = panics
min_version (numbers major minor) =
    if ltb 4 major
    then supported
    else if nat_beq major 4 && leb 2 minor
    then supported
    else unsupported

module _ {P : Type 0} (engine : Engine P) where
  abbrev infos : List ListedPod → List WorkloadInfo
  infos = map (λ (pod : ListedPod). record { id = pod.id; name = pod.name; status = pod.status })

  unfoldable pub list : P → Option (List WorkloadInfo)
  list p = elim (engine.list p) [ none ↦ none | some pods ↦ some (infos pods) ]

  unfoldable pub exists : String → P → Option Bool
  exists = engine.exists

  -- `Remove`: whether it succeeds.
  unfoldable pub remove : String → P → Bool × P
  unfolding exists
  remove id p = elim (exists id p) [
    | none ↦ (false, p)
    | some there ↦ if there then engine.remove id p else (true, p)
  ]

  unfoldable pub stop : String → P → Bool × P
  stop id p = elim (engine.exists id p) [
    | none ↦ (false, p)
    | some there ↦ if there then engine.stop id p else (true, p)
  ]

  unfoldable pub start : String → P → Bool × P
  start = engine.start

  unfoldable pub get_container_details : String → P → Option ContainerReport
  get_container_details id p = elim (engine.inspect_container id p) [
    | none ↦ none
    | some info ↦ elim (lookup default_network_name info.networks) [
      | none ↦ none
      | some address ↦ some (record { ip_address = address; id = id; name = info.name })
    ]
  ]

  -- The loop over the containers of a pod, which leaves out those whose details are not known.
  unfoldable pub append_containers : P → List String → PodReport → PodReport
  unfolding append_container get_container_details
  append_containers p [] r = r
  append_containers p (id ∷ ids) r =
      append_containers p ids
        (elim (get_container_details id p) [ none ↦ r | some c ↦ append_container c r ])

  unfoldable pub get_pod_report_for_id : String → P → Option PodReport
  get_pod_report_for_id id p = elim (engine.inspect id p) [
    | none ↦ none
    | some info ↦ some (
        append_containers p info.containers (record { id = id; name = info.name; containers = [] }))
  ]

  abbrev pod_reports : P → List PlayedPod → List PodReport
  pod_reports p = map (λ (pod : PlayedPod).
      append_containers p pod.containers (record { id = pod.id; name = ""; containers = [] }))

  -- `Run`, which plays the manifest without starting the pods, and reports on each.
  unfoldable pub run : String → String → Map String String → P → Option (List PodReport) × P
  run manifest_path auth_file_path annotations p =
      let r = engine.play manifest_path auth_file_path annotations p in
      elim r.0 [ none ↦ (none, r.1) | some pods ↦ (some (pod_reports r.1 pods), r.1) ]

  unfoldable pub list_secrets : P → Option (List String)
  list_secrets = engine.secrets

  unfoldable pub remove_secret : String → P → Bool × P
  remove_secret = engine.remove_secret

  unfoldable pub create_secret : String → String → P → Bool × P
  create_secret = engine.create_secret

  -- `UpdateSecret`, which removes the secret before it creates it again.
  unfoldable pub update_secret : String → String → P → Bool × P
  unfolding remove_secret create_secret
  update_secret name content p =
      let r = remove_secret name p in if r.0 then create_secret name content r.1 else r

  abbrev labelled : (String → String → Bool) → Map String String → Bool
  labelled contains [] = false
  labelled contains ((label, _) ∷ rest) =
      contains label "io.containers.autoupdate" || labelled contains rest

  -- `hasAutoUpdateEnabled`; `contains` is strings.Contains.
  unfoldable pub has_auto_update_enabled : (String → String → Bool) → Map String String → Bool
  has_auto_update_enabled = labelled

  -- `GenerateSystemdService` for a pod of a name and labels; `connected` says whether systemd can be
  -- reached.
  unfoldable pub generate_systemd_service :
      (String → String → Bool) → Bool → String → Map String String → String → ℕ → P → Option Service
  unfolding has_auto_update_enabled new_systemd auto_update_unit
  generate_systemd_service contains connected pod_name labels manifest_path interval p =
      if has_auto_update_enabled contains labels
      then new_systemd connected pod_name ((pod_name, auto_update_unit pod_name manifest_path) ∷ [])
      else elim (engine.generate pod_name interval p) [
        | none ↦ none
        | some units ↦ new_systemd connected pod_name units
      ]

  -- What the goroutine that `Events` starts sends to the wrapper for a message.
  unfoldable pub to_event : P → Message → Option PodmanEvent
  unfolding get_pod_report_for_id
  to_event p m = elim m.action [
    | started ↦ elim (get_pod_report_for_id m.id p) [
      | none ↦ none
      | some report ↦ some (started_container m.name report)
    ]
    | removed ↦ some (stopped_container m.name)
    | stopped ↦ some (stopped_container m.name)
    | other ↦ none
  ]

  abbrev running : P → List WorkloadInfo → List PodmanEvent
  running p [] = []
  running p (w ∷ ws) =
      let rest = running p ws in
      elim (get_pod_report_for_id w.id p) [
        | none ↦ rest
        | some report ↦ started_container w.name report ∷ rest
      ]

  -- What `Events` sends for the pods that are there when it is called.
  unfoldable pub events : P → List PodmanEvent
  unfolding list get_pod_report_for_id
  events p = elim (list p) [ none ↦ [] | some workloads ↦ running p workloads ]
