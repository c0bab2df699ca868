-- ===== src/Upgrade/Tests.antt =====
-- The theorems on internal/os/os.go at concrete inputs.
use flotta_device_worker.Prelude.{◌≡◌, refl, true, false, none, some, [], ◌∷◌, string_eq}
use flotta_device_worker.Upgrade.{
  Deployment, OsInformation, missing, deployments, Outside, Os, new_os, get_upgrade_status,
}
use flotta_device_worker.Upgrade.Status.{get_upgrade_status_lem}

abbrev old : Deployment
old = record { checksum = "one"; timestamp = 1; booted = true }

abbrev new : Deployment
new = record { checksum = "two"; timestamp = 2; booted = false }

abbrev outside : Outside
outside = record {
  rpm_ostree_status = deployments (new ∷ old ∷ []);
  update_preview = some "two";
  upgrade_succeeds = true;
  reboot_succeeds = true;
  script = λ file. missing true true true;
  remote_left = none;
  contains = λ text part. true;
  time_text = λ t. "then";
}

-- A device whose upgrade fails.
abbrev stuck : Outside
stuck = record outside { upgrade_succeeds = false }

abbrev fresh : Os
fresh = new_os outside (some ("url=old" ∷ []))

abbrev two : OsInformation
two = record { commit_id = "two"; hosted_objects_url = "new" }

get_upgrade_status_lem_example :
    let status = (get_upgrade_status outside (record fresh { requested_os_commit = "two" })).0 in
    (status.0 ≡ "one") × (status.2 ≡ "failed")
get_upgrade_status_lem_example =
    get_upgrade_status_lem outside (new ∷ old ∷ []) (record fresh { requested_os_commit = "two" })
      refl refl (λ e. cc)
