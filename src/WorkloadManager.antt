-- ===== src/WorkloadManager.antt =====
-- `Update` of internal/workload/manager.go: bringing the pods to what the configuration asks for. The
-- management lock is held throughout, so an update is one step.
pub mod Update
pub mod Files
pub mod Deploy
pub mod Stale
pub mod Secrets
pub mod Waiting
pub mod Deregister
pub mod Pods
pub mod Stop
mod Tests
use flotta_device_worker.Prelude.{
  Bool, true, false, not, ◌&&◌, ◌||◌, Option, none, some, String, List, [], ◌∷◌, ◌++◌, map,
  if◌then◌else◌, Map, lookup, insert, delete, string_eq, ◌==◌,
}
use flotta_device_worker.Prelude.Action.{Result, ok, err, Action, ◌>>=◌, pure, raise}
use flotta_device_worker.Mounts.{Mount, is_path_mounted, Outside as MountsOutside}

-- A volume of a pod with a host path: its path, and whether it is a block device.
pub record Volume : Type 0 where
  pub path : String
  pub is_block_device : Bool

-- A pod: its volumes with a host path and a type of it, and the manifest that `toPodYaml` makes of it
-- with the config maps (`none` if it cannot be encoded).
pub record Pod : Type 0 where
  pub volumes : List Volume
  pub manifest : Option String

-- models.Workload: the rest of it, of a type `X`, is read by `toPod` only. The content of the file for
-- the image registries is "" if there is none.
pub record Workload (X : Type 0) : Type 0 where
  pub name : String
  pub specification : X
  pub auth_file : String

-- A call of the workload wrapper: `Remove`, `Run` with the manifest and the path of the auth file, which
-- is "" if there is none, and the calls for secrets.
pub data Call : Type 0 where
  removes : String → Call
  runs : String → String → String → Call
  creates_secret updates_secret : String → String → Call
  removes_secret : String → Call

pub data Err : Type 0 where
  not_converted should_wait no_directory no_yaml manifest_not_stored auth_not_stored : String → Err
  not_removed not_run directory_not_deleted stale_not_removed : String → Err
  secret_failed : String → Err
  not_listed secrets_not_listed : Err

-- What a write of a file comes to: a failed one leaves any content behind, or no file.
pub data Stored : Type 0 where
  stored : Stored
  not_stored : Option String → Stored

-- The code outside this file during one update: `toPod` with its YAML, `getWorkloadDirPath`, the mounts
-- (and the mount command, for `IsPathMounted`), the file system, and the wrapper, whose answers may
-- depend on its calls before. An error of `Run` has a message.
pub record Outside (X : Type 0) : Type 0 where
  pub to_pod : Workload X → Option Pod
  pub dir_path : String → String
  pub auth_path : String → String
  pub mounts : List Mount
  pub mounting : MountsOutside
  pub makes_dir : String → Bool
  pub manifest_readable : String → Bool
  pub auth_readable : String → Bool
  pub store_manifest : String → Stored
  pub store_auth : String → Stored
  pub delete_auth : String → Bool
  pub delete_dir : String → Bool
  pub list : List Call → Option (List String)
  pub remove_succeeds : List Call → String → Bool
  pub run_error : List Call → String → Option String
  pub list_secrets : List Call → Option (List String)
  pub secret_succeeds : List Call → Call → Bool

-- The fields of `WorkloadManager` that an update changes, the manifests and auth files by the
-- directory that they are in, and the calls of the wrapper.
pub record Manager : Type 0 where
  pub deregistered : Bool
  pub events_queue : List String
  pub manifests : Map String String
  pub auth_files : Map String String
  pub calls : List Call

-- `PopEvents`
unfoldable pub pop_events : Manager → List String × Manager
pop_events s = (s.events_queue, record s { events_queue = [] })

abbrev pub has_directory : String → List Mount → Bool
has_directory path [] = false
has_directory path (m ∷ ms) = m.directory == path || has_directory path ms

-- `PodShouldWaitForMount`
unfoldable pub pod_should_wait_for_mount : MountsOutside → List Mount → List Volume → Bool
pod_should_wait_for_mount out mounts [] = false
pod_should_wait_for_mount out mounts (v ∷ vs) =
    v.is_block_device && (has_directory v.path mounts && not (is_path_mounted out v.path))
    || pod_should_wait_for_mount out mounts vs

-- The file of a directory after a write.
unfoldable pub put : Stored → String → String → Map String String → Map String String
put stored dir content files = insert dir content files
put (not_stored none) dir content files = delete dir files
put (not_stored (some left)) dir content files = insert dir left files

abbrev pub succeeded : Stored → Bool
succeeded stored = true
succeeded (not_stored _) = false

unfoldable pub require : Bool → Err → Action Manager Err (Unit {0})
require true e = pure tt
require false e = raise e

unfoldable pub given : {A : Type 0} → Option A → Err → Action Manager Err A
given none e = raise e
given (some a) e = pure a

module _ {X : Type 0} (out : Outside X) where
  -- `podModified` and `podAuthModified`
  unfoldable pub pod_modified : String → String → Manager → Bool
  pod_modified dir manifest s = elim (lookup dir s.manifests) [
    | none ↦ true
    | some old ↦ not (out.manifest_readable dir) || not (old == manifest)
  ]

  unfoldable pub pod_auth_modified : String → String → Manager → Bool
  pod_auth_modified dir auth s = elim (lookup dir s.auth_files) [
    | none ↦ not (auth == "")
    | some old ↦ not (out.auth_readable dir) || not (old == auth)
  ]

  unfoldable pub store_manifest : String → String → String → Action Manager Err (Unit {0})
  store_manifest name dir manifest s =
      let w = out.store_manifest dir in
      let s' = record s { manifests = put w dir manifest s.manifests } in
      if succeeded w then (ok tt, s') else (err (manifest_not_stored name), s')

  -- `manageAuthFile`, which yields the path for `Run`.
  unfoldable pub manage_auth_file : String → String → String → Action Manager Err String
  manage_auth_file name dir auth s =
      if auth == ""
      then if out.delete_auth dir
        then (ok "", record s { auth_files = delete dir s.auth_files })
        else (err (auth_not_stored name), s)
      else (let w = out.store_auth dir in
          let s' = record s { auth_files = put w dir auth s.auth_files } in
          if succeeded w then (ok (out.auth_path dir), s') else (err (auth_not_stored name), s'))

  -- The wrapper's `Remove` and `Run`, with the event of a pod that cannot run.
  unfoldable pub remove : Err → String → Action Manager Err (Unit {0})
  remove e name s =
      let s' = record s { calls = s.calls ++ removes name ∷ [] } in
      if out.remove_succeeds s.calls name then (ok tt, s') else (err e, s')

  unfoldable pub run : String → String → String → Action Manager Err (Unit {0})
  run name manifest auth_path s =
      let s' = record s { calls = s.calls ++ runs name manifest auth_path ∷ [] } in
      elim (out.run_error s.calls name) [
        | none ↦ (ok tt, s')
        | some message ↦
            (err (not_run name), record s' { events_queue = s.events_queue ++ message ∷ [] })
      ]

  -- The part of the loop for a pod whose definition has changed.
  unfoldable pub redeploy : Workload X → String → Action Manager Err (Unit {0})
  unfolding store_manifest manage_auth_file
  redeploy w manifest = do
    _ ← store_manifest w.name (out.dir_path w.name) manifest
    auth_path ← manage_auth_file w.name (out.dir_path w.name) w.auth_file
    _ ← remove (not_removed w.name) w.name
    run w.name manifest auth_path

  unfoldable pub deploy_manifest : Workload X → String → Action Manager Err (Unit {0})
  deploy_manifest w manifest s =
      let dir = out.dir_path w.name in
      if pod_modified dir manifest s || pod_auth_modified dir w.auth_file s
      then redeploy w manifest s
      else (ok tt, s)

  -- One round of the loop over the configured workloads.
  unfoldable pub deploy : Workload X → Action Manager Err (Unit {0})
  unfolding require given
  deploy w = do
    pod ← given (out.to_pod w) (not_converted w.name)
    _ ←
        require (not (pod_should_wait_for_mount out.mounting out.mounts pod.volumes))
          (should_wait w.name)
    _ ← require (out.makes_dir (out.dir_path w.name)) (no_directory w.name)
    manifest ← given pod.manifest (no_yaml w.name)
    deploy_manifest w manifest
