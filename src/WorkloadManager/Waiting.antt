-- ===== src/WorkloadManager/Waiting.antt =====
-- A pod waits for the mounts of its block devices (`Update` and `PodShouldWaitForMount` of
-- internal/workload/manager.go, with `IsPathMounted` of internal/mount/info.go).
use flotta_device_worker.Prelude.{◌≡◌, ap, ◌∙◌, true, false, some, List, [], ◌∷◌, ◌++◌, arith}
use flotta_device_worker.Prelude.Action.{err}
use flotta_device_worker.Mounts.{Mount, is_path_mounted, Outside as MountsOutside}
use flotta_device_worker.WorkloadManager.{
  Volume, Pod, Workload, Outside, Manager, should_wait, has_directory, pod_should_wait_for_mount,
  given, require, deploy,
}

waits :
    (out : MountsOutside) (mounts : List Mount) (before after : List Volume) (v : Volume)
    → v.is_block_device ≡ true
    → has_directory v.path mounts ≡ true
    → is_path_mounted out v.path ≡ false
    → pod_should_wait_for_mount out mounts (before ++ v ∷ after) ≡ true
unfolding pod_should_wait_for_mount
waits out mounts [] after v block configured missing = ground arith
waits out mounts (u ∷ before) after v block configured missing =
    ground (arith, waits out mounts before after v block configured missing)

-- A workload whose pod has, anywhere among its volumes, a block device at the directory of a configured
-- mount that is not mounted is not deployed: the round reports it and calls and changes nothing.
pub deploy-waits :
    {X : Type 0} (out : Outside X) (w : Workload X) (pod : Pod) (s : Manager)
    (before after : List Volume) (v : Volume)
    → out.to_pod w ≡ some pod
    → pod.volumes ≡ before ++ v ∷ after
    → v.is_block_device ≡ true
    → has_directory v.path out.mounts ≡ true
    → is_path_mounted out.mounting v.path ≡ false
    → deploy out w s ≡ (err (should_wait w.name), s)
unfolding deploy given require
deploy-waits out w pod s before after v converted volumes block configured missing =
    let waiting : pod_should_wait_for_mount out.mounting out.mounts pod.volumes ≡ true =
      ap (pod_should_wait_for_mount out.mounting out.mounts) volumes
      ∙ waits out.mounting out.mounts before after v block configured missing in
    ground (arith, waiting)
