-- ===== src/Upgrade.antt =====
-- internal/os/os.go and internal/os/os_exec_commands.go: upgrades of the operating system.
pub mod Requests
pub mod Status
mod Tests
use flotta_device_worker.Prelude.{
  ℕ, Bool, true, false, not, ◌&&◌, ◌||◌, Option, none, some, String, List, [], ◌∷◌, ◌++◌, map,
  if◌then◌else◌, string_eq, ◌==◌,
}
use Prim.Native.String.{◌++◌ as concat}
use flotta_device_worker.Prelude.Action.{Result, ok, err, Action, ◌>>=◌, pure, raise}

-- `Deployments`
pub record Deployment : Type 0 where
  pub checksum : String
  pub timestamp : ℕ
  pub booted : Bool

-- models.OsInformation, as far as it is read.
pub record OsInformation : Type 0 where
  pub commit_id : String
  pub hosted_objects_url : String

-- What is done to the system: the commands of rpm-ostree, the scripts, the graceful stop, the reboot.
pub data Call : Type 0 where
  previews upgrades stops_gracefully reboots : Call
  ensures : String → Call

pub data Err : Type 0 where
  remote_not_updated no_preview commit_not_found not_upgraded not_rebooted : Err
  script_missing : String → Err

-- What os.Stat says of a script, and whether it can be created, written and made executable.
pub data Script : Type 0 where
  there unknown : Script
  missing : Bool → Bool → Bool → Script

-- What `rpm-ostree status` answers: an error, a text that is not its JSON, or deployments.
pub data Answer : Type 0 where
  failed unparsable : Answer
  deployments : List Deployment → Answer

-- The code outside the repository: rpm-ostree, the file system (what a failed write leaves of the file
-- of the remote, or `none` if it succeeds), the reboot, strings.Contains, and the format of a time.
pub record Outside : Type 0 where
  pub rpm_ostree_status : Answer
  pub update_preview : Option String
  pub upgrade_succeeds : Bool
  pub reboot_succeeds : Bool
  pub script : String → Script
  pub remote_left : Option (Option (List String))
  pub contains : String → String → Bool
  pub time_text : ℕ → String

-- `OS`, the lines of the file of the remote (`none` if it cannot be read), and the calls so far.
pub record Os : Type 0 where
  pub enabled : Bool
  pub automatically_upgrade : Bool
  pub os_commit : String
  pub requested_os_commit : String
  pub hosted_objects_url : String
  pub last_upgrade_status : String
  pub last_upgrade_time : String
  pub edge_conf : Option (List String)
  pub calls : List Call

abbrev pub unknown_os_image_id : String
unknown_os_image_id = "unknown"

abbrev pub greenboot_health_check_file_name : String
greenboot_health_check_file_name = "/etc/greenboot/check/required.d/greenboot-health-check.sh"

abbrev pub greenboo_fail_file_name : String
greenboo_fail_file_name = "/etc/greenboot/red.d/bootfail.sh"

abbrev is_answered : Answer → Bool
is_answered failed = false
is_answered _ = true

abbrev M : Type 0
M = Action Os Err (Unit {0})

abbrev pub require : Bool → Err → M
require true e = pure tt
require false e = raise e

abbrev pub note : Call → M
note c o = (ok tt, record o { calls = o.calls ++ c ∷ [] })

abbrev pub is_ensured : Script → Bool
is_ensured there = true
is_ensured unknown = false
is_ensured (missing created written executable) = created && (written && executable)

module _ (out : Outside) where
  -- `NewOS`, with `IsRpmOstreeAvailable`.
  abbrev pub new_os : Option (List String) → Os
  new_os edge_conf = record {
    enabled = is_answered out.rpm_ostree_status;
    automatically_upgrade = true;
    os_commit = unknown_os_image_id;
    requested_os_commit = unknown_os_image_id;
    hosted_objects_url = "";
    last_upgrade_status = "";
    last_upgrade_time = "";
    edge_conf = edge_conf;
    calls = [];
  }

  unfoldable pub new_lines : String → List String → List String
  new_lines url = map (λ line. if out.contains line "url=" then concat "url=" url else line)

  -- `UpdateUrlInEdgeRemote`
  unfoldable pub update_url_in_edge_remote : String → M
  unfolding new_lines
  update_url_in_edge_remote url o = elim o.edge_conf [
    | none ↦ (err remote_not_updated, o)
    | some lines ↦ elim out.remote_left [
      | none ↦ (ok tt, record o { edge_conf = some (new_lines url lines) })
      | some left ↦ (err remote_not_updated, record o { edge_conf = left })
    ]
  ]

  -- `EnsureScriptExists`
  unfoldable pub ensure_script_exists : String → M
  ensure_script_exists file = do
    _ ← note (ensures file)
    require (is_ensured (out.script file)) (script_missing file)

  -- `updateGreenbootScripts`
  unfoldable pub update_greenboot_scripts : M
  unfolding ensure_script_exists
  update_greenboot_scripts = do
    _ ← ensure_script_exists greenboot_health_check_file_name
    ensure_script_exists greenboo_fail_file_name

  abbrev pub is_in : String → Option String → Result Err (Unit {0})
  is_in commit none = err no_preview
  is_in commit (some text) = if out.contains text commit then ok tt else err commit_not_found

  -- The part of `Update` that upgrades, with `gracefulRebootFlow`, whose signal somebody takes.
  unfoldable pub upgrade : String → M
  unfolding update_greenboot_scripts
  upgrade commit = do
    _ ← note previews
    _ ← λ o. (is_in commit out.update_preview, o)
    _ ← update_greenboot_scripts
    _ ← note upgrades
    _ ← require out.upgrade_succeeds not_upgraded
    _ ← note stops_gracefully
    _ ← note reboots
    require out.reboot_succeeds not_rebooted

  -- The part of `Update` for a commit that is not the requested one.
  unfoldable pub request : String → M
  unfolding upgrade
  request commit o =
      let o' = record o { requested_os_commit = commit } in
      if o.automatically_upgrade then upgrade commit o' else (ok tt, o')

  unfoldable pub update_url : String → M
  unfolding update_url_in_edge_remote
  update_url url o =
      if url == o.hosted_objects_url
      then (ok tt, o)
      else (update_url_in_edge_remote url >>= λ u o'.
            (ok tt, record o' { hosted_objects_url = url }))
          o

  unfoldable pub update_commit : String → M
  unfolding request
  update_commit commit o = if commit == o.requested_os_commit then (ok tt, o) else request commit o

  -- `Init` and `Update`, of a configuration with an `Os` or without.
  unfoldable pub update : Option OsInformation → M
  unfolding update_url update_commit
  update none o = (ok tt, o)
  update (some info) o =
      if o.enabled
      then (update_url info.hosted_objects_url >>= λ u. update_commit info.commit_id) o
      else (ok tt, o)

  -- The loop of `updateOsStatus` over the deployments.
  unfoldable pub note_deployment : Deployment → Os → Os
  note_deployment d o =
      let o' =
        if d.booted
        then (let b = record o { os_commit = d.checksum } in
            if b.requested_os_commit == unknown_os_image_id
            then record b {
              last_upgrade_time = out.time_text d.timestamp;
              last_upgrade_status = "succeeded";
            }
            else b)
        else o in
      if d.checksum == o'.requested_os_commit
      then record o' {
        last_upgrade_time = out.time_text d.timestamp;
        last_upgrade_status = if d.booted then "succeeded" else "failed";
      }
      else o'

  unfoldable pub note_deployments : List Deployment → Os → Os
  unfolding note_deployment
  note_deployments [] o = o
  note_deployments (d ∷ ds) o = note_deployments ds (note_deployment d o)

  -- `updateOsStatus`
  unfoldable pub update_os_status : Os → Os
  unfolding note_deployments
  update_os_status o = elim out.rpm_ostree_status [
    | failed ↦ o
    | unparsable ↦ o
    | deployments ds ↦ note_deployments ds o
  ]

  -- `GetUpgradeStatus`: the commit, the time and the status, and the state after it.
  unfoldable pub get_upgrade_status : Os → (String × String × String) × Os
  unfolding update_os_status
  get_upgrade_status o =
      let o' = if o.enabled then update_os_status o else o in
      ((o'.os_commit, o'.last_upgrade_time, o'.last_upgrade_status), o')
