-- ===== src/Upgrade/Status.antt =====
-- The status of upgrades that internal/os/os.go reports.
use flotta_device_worker.Prelude.{
  ◌≡◌, ◌≢◌, refl, sym, ap, ◌∙◌, Bool, true, false, Option, none, some, String, List, [], ◌∷◌,
  if◌then◌else◌, string_eq, ◌==◌, arith, eq_iff,
}
use flotta_device_worker.Upgrade.{
  Deployment, deployments, Outside, Os, unknown_os_image_id, note_deployment, note_deployments,
  update_os_status, get_upgrade_status,
}

abbrev or_else : Option Deployment → Option Deployment → Option Deployment
or_else none b = b
or_else (some a) b = some a

-- The last deployment of which something holds.
abbrev pub find_last : (Deployment → Bool) → List Deployment → Option Deployment
find_last holds' [] = none
find_last holds' (d ∷ ds) = or_else (find_last holds' ds) (if holds' d then some d else none)

abbrev pub commit_of : Option Deployment → String → String
commit_of none old = old
commit_of (some d) old = d.checksum

abbrev pub verdict_of : Option Deployment → String → String
verdict_of none old = old
verdict_of (some d) old = if d.booted then "succeeded" else "failed"

abbrev pub is_booted : Deployment → Bool
is_booted d = d.booted

abbrev pub is_of : String → Deployment → Bool
is_of commit d = d.checksum == commit

commit_of-or_else :
    (found : Option Deployment) (d : Deployment) (old : String)
    → commit_of found (if d.booted then d.checksum else old)
      ≡ commit_of (or_else found (if is_booted d then some d else none)) old
commit_of-or_else none d old = ground arith
commit_of-or_else (some e) d old = refl

verdict_of-or_else :
    (found : Option Deployment) (b : Bool) (d : Deployment) (old : String)
    → verdict_of found (if b then if d.booted then "succeeded" else "failed" else old)
      ≡ verdict_of (or_else found (if b then some d else none)) old
verdict_of-or_else none true d old = refl
verdict_of-or_else none false d old = refl
verdict_of-or_else (some e) b d old = refl

module _ (out : Outside) where
  note_deployment_lem :
      (d : Deployment) (o : Os)
      → o.requested_os_commit ≢ unknown_os_image_id
      → let t = note_deployment out d o in
        (t.requested_os_commit ≡ o.requested_os_commit)
        × (t.os_commit ≡ (if d.booted then d.checksum else o.os_commit))
        × (t.last_upgrade_status ≡ (
            if is_of o.requested_os_commit d
            then if d.booted then "succeeded" else "failed"
            else o.last_upgrade_status))
  unfolding note_deployment
  note_deployment_lem d o h =
      (ground arith, ground arith, ground (arith, eq_iff o.requested_os_commit unknown_os_image_id))

  note_deployments_lem :
      (ds : List Deployment) (o : Os)
      → o.requested_os_commit ≢ unknown_os_image_id
      → let t = note_deployments out ds o in
        (t.os_commit ≡ commit_of (find_last is_booted ds) o.os_commit)
        × (t.last_upgrade_status
            ≡ verdict_of (find_last (is_of o.requested_os_commit) ds) o.last_upgrade_status)
  unfolding note_deployments
  note_deployments_lem [] o h = (refl, refl)
  note_deployments_lem (d ∷ ds) o h =
      let (requested, commit, status) = note_deployment_lem d o h in
      let t = note_deployment out d o in
      let (c, v) = note_deployments_lem ds t (λ e. h (sym requested ∙ e)) in
      (
        c
            ∙ ap (commit_of (find_last is_booted ds)) commit
            ∙ commit_of-or_else (find_last is_booted ds) d o.os_commit,
        v
            ∙ rw (requested, status)
                (verdict_of-or_else (find_last (is_of o.requested_os_commit) ds)
                  (is_of o.requested_os_commit d) d o.last_upgrade_status),
      )

  get_upgrade_status-deployments :
      (ds : List Deployment) (o : Os)
      → out.rpm_ostree_status ≡ deployments ds
      → o.enabled ≡ true
      → let t = note_deployments out ds o in
        get_upgrade_status out o ≡ ((t.os_commit, t.last_upgrade_time, t.last_upgrade_status), t)
  unfolding get_upgrade_status update_os_status
  get_upgrade_status-deployments ds o answer on = ground (arith, answer, on)

  -- Once a commit was requested, the status that is reported for a device where rpm-ostree answers with
  -- deployments is: as the commit, that of the last booted deployment; as the result, success or failure
  -- as the last deployment of the requested commit is booted or not; and what was known before where
  -- there is no such deployment.
  pub get_upgrade_status_lem :
      (ds : List Deployment) (o : Os)
      → out.rpm_ostree_status ≡ deployments ds
      → o.enabled ≡ true
      → o.requested_os_commit ≢ unknown_os_image_id
      → let status = (get_upgrade_status out o).0 in
        (status.0 ≡ commit_of (find_last is_booted ds) o.os_commit)
        × (status.2 ≡ verdict_of (find_last (is_of o.requested_os_commit) ds) o.last_upgrade_status)
  get_upgrade_status_lem ds o answer on h =
      rw (get_upgrade_status-deployments ds o answer on) (note_deployments_lem ds o h)
