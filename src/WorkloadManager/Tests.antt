-- ===== src/WorkloadManager/Tests.antt =====
-- The theorems on internal/workload/manager.go at concrete inputs.
use flotta_device_worker.Prelude.{
  ℕ, ◌≡◌, refl, true, false, not, ◌&&◌, none, some, String, List, [], ◌∷◌, ◌++◌, map, lookup,
  string_eq, arith,
}
use flotta_device_worker.Prelude.Action.{ok}
use flotta_device_worker.Mounts.{Outside as MountsOutside, block_device}
use flotta_device_worker.WorkloadManager.{
  Pod, Volume, Workload, Call, removes, stored, Outside, Manager, deploy_manifest, redeploy,
  pod_modified, store_manifest, manage_auth_file, remove, run,
}
use flotta_device_worker.WorkloadManager.Update.{contains, deploy_all, update_secrets, update}
use flotta_device_worker.WorkloadManager.Deploy.{deploy_manifest-deploy_manifest}
use flotta_device_worker.WorkloadManager.Stale.{update-removes}
use flotta_device_worker.WorkloadManager.Secrets.{effects, configured, update_secrets-configured}
use flotta_device_worker.WorkloadManager.Deregister.{Cleanup, deregister, update-deregister}

abbrev mounting : MountsOutside
mounting = record {
  mount_lines = some [];
  parse = λ line. none;
  contains = λ text part. true;
  stat = λ path. block_device;
  mount_succeeds = λ calls m options. true;
  umount_succeeds = λ calls m. true;
}

abbrev outside : Outside ℕ
outside = record {
  to_pod = λ w. some (record { volumes = []; manifest = some "pod" });
  dir_path = λ name. name;
  auth_path = λ dir. "auth";
  mounts = [];
  mounting = mounting;
  makes_dir = λ dir. true;
  manifest_readable = λ dir. true;
  auth_readable = λ dir. true;
  store_manifest = λ dir. stored;
  store_auth = λ dir. stored;
  delete_auth = λ dir. true;
  delete_dir = λ dir. true;
  list = λ calls. some ("web" ∷ "old" ∷ []);
  remove_succeeds = λ calls name. true;
  run_error = λ calls name. none;
  list_secrets = λ calls. some ("key" ∷ []);
  secret_succeeds = λ calls call. true;
}

-- A wrapper that runs no pod.
abbrev stuck : Outside ℕ
stuck = record outside { run_error = λ calls name. some "no image" }

abbrev web : Workload ℕ
web = record { name = "web"; specification = 1; auth_file = "" }

abbrev fresh : Manager
fresh = record {
  deregistered = false;
  events_queue = [];
  manifests = [];
  auth_files = [];
  calls = [];
}

deploy_manifest-deploy_manifest_example :
    let s' = (deploy_manifest stuck web "pod" fresh).1 in
    deploy_manifest stuck web "pod" s' ≡ (ok tt, s')
deploy_manifest-deploy_manifest_example =
    deploy_manifest-deploy_manifest stuck web "pod" fresh refl refl
      (unfold deploy_manifest pod_modified redeploy store_manifest manage_auth_file remove run
          lookup in
        λ e. cc)
      (unfold deploy_manifest pod_modified redeploy store_manifest manage_auth_file remove run
          lookup in
        λ e. cc)

update-removes_example :
    let b = (deploy_all outside (web ∷ []) (update_secrets outside [] fresh).1).1 in
    (names : List String) × ((update outside [] (web ∷ []) fresh).1.calls
      ≡ b.calls ++ map removes names)
    × ((n : String)
        → contains n names ≡ (contains n ("web" ∷ "old" ∷ []) && not (contains n ("web" ∷ []))))
update-removes_example = update-removes outside [] (web ∷ []) fresh ("web" ∷ "old" ∷ []) refl refl

-- A clean-up that cannot remove the table of the packet filter.
abbrev cleanup : Cleanup
cleanup = record {
  workloads_dir = true;
  table = false;
  volumes_dir = true;
  mapping_file = true;
  services_file = true;
}

update-deregister_example :
    let s' = (deregister outside cleanup fresh).1 in
    (s'.calls ≡ [] ++ map removes ("web" ∷ "old" ∷ []))
    × (update outside [] (web ∷ []) s' ≡ ([], s'))
update-deregister_example =
    update-deregister outside cleanup fresh ("web" ∷ "old" ∷ []) [] (web ∷ []) refl

-- A pod with a block device for which a mount is configured, and none is there.
abbrev disk : Volume
disk = record { path = "/data"; is_block_device = true }

abbrev database : Pod
database = record { volumes = disk ∷ []; manifest = some "pod" }

abbrev unmounted : Outside ℕ
unmounted = record outside {
  to_pod = λ w. some database;
  mounts = record { device = "/dev/sda1"; directory = "/data"; kind = "ext4"; options = "" } ∷ [];
}

-- Two secrets are configured, and the device has one that is not.
abbrev secrets : List (String × String)
secrets = ("new", "a") ∷ ("token", "b") ∷ []

update_secrets-configured_example :
    (more : List Call) × ((update_secrets outside secrets fresh).1.calls ≡ [] ++ more)
    × ((n : String) → lookup n (effects more (("key", "old") ∷ [])) ≡ configured secrets n)
update_secrets-configured_example =
    update_secrets-configured outside secrets fresh ("key" ∷ []) (("key", "old") ∷ []) refl
      (λ n. unfold lookup in ground arith)
