-- ===== src/Mounts/Tests.antt =====
-- The theorems on internal/mount/mount.go at concrete inputs.
use flotta_device_worker.Prelude.{
  String, ◌⊎◌, ◌+◌, ◌≡◌, true, none, some, [], ◌∷◌, length, string_eq,
}
use flotta_device_worker.Mounts.{Mount, Outside, block_device, reconcile, contains_directory}
use flotta_device_worker.Mounts.Reconcile.{mounted, Distinct, IsThere, nothing_done, reconcile_lem}

abbrev storage : Mount
storage = record { device = "/dev/sda1"; directory = "/data"; kind = "ext4"; options = "" }

abbrev outside : Outside
outside = record {
  mount_lines = some [];
  parse = λ line. none;
  contains = λ text part. true;
  stat = λ path. block_device;
  mount_succeeds = λ calls m options. true;
  umount_succeeds = λ calls m. true;
}

reconcile_lem_example :
    let p = reconcile outside "ext4" "defaults" [] (storage ∷ storage ∷ []) nothing_done in
    (length p.errors + length p.already_mounted ≡ 2)
    × Distinct p.already_mounted
    × Distinct (mounted p.calls)
    × ((d : String)
        → contains_directory d (mounted p.calls) ≡ true
        → contains_directory d p.already_mounted ≡ true)
    × ((d : String)
        → contains_directory d p.already_mounted ≡ true
        → (contains_directory d (mounted p.calls) ≡ true) ⊎ IsThere [] (storage ∷ storage ∷ []) d)
reconcile_lem_example = reconcile_lem outside "ext4" "defaults" [] (storage ∷ storage ∷ [])
