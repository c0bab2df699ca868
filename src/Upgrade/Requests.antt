-- ===== src/Upgrade/Requests.antt =====
-- When internal/os/os.go upgrades and reboots the device.
use flotta_device_worker.Prelude.{
  ◌≡◌, ◌≢◌, refl, ◌∙◌, ◌⊎◌, inl, inr, Bool, true, false, Option, none, some, String, List, [], ◌∷◌,
  ◌++◌, if◌then◌else◌, string_eq, ◌==◌, arith, Bool-cases, eq_iff, Option-cases,
}
use mathlib.Core.List.{append_assoc}
use flotta_device_worker.Prelude.Action.{ok, err}
use flotta_device_worker.Upgrade.{
  Call, previews, upgrades, stops_gracefully, reboots, ensures, Err, remote_not_updated, no_preview,
  commit_not_found, Outside, Os, OsInformation, greenboot_health_check_file_name,
  greenboo_fail_file_name, is_ensured, is_in, ensure_script_exists, update_greenboot_scripts,
  upgrade, request, update_url, update_url_in_edge_remote, update_commit, update,
}

-- The calls of a plan, up to the first that does not succeed.
abbrev pub until_failure : List (Call × Bool) → List Call
until_failure [] = []
until_failure ((c, good) ∷ rest) = c ∷ (if good then until_failure rest else [])

module _ (out : Outside) where
  -- Whether the preview of rpm-ostree names the commit.
  abbrev pub is_previewed : String → Option String → Bool
  is_previewed commit none = false
  is_previewed commit (some text) = out.contains text commit

  -- An upgrade, and what each step needs for the next to follow.
  abbrev pub plan : String → List (Call × Bool)
  plan commit =
      (previews, is_previewed commit out.update_preview)
      ∷ (
        ensures greenboot_health_check_file_name,
        is_ensured (out.script greenboot_health_check_file_name),
      )
      ∷ (ensures greenboo_fail_file_name, is_ensured (out.script greenboo_fail_file_name))
      ∷ (upgrades, out.upgrade_succeeds)
      ∷ (stops_gracefully, true)
      ∷ (reboots, out.reboot_succeeds)
      ∷ []

  is_in-good :
      (commit : String) (o : Option String)
      → is_previewed commit o ≡ true
      → is_in out commit o ≡ ok tt
  is_in-good commit none h = cc
  is_in-good commit (some text) h = ground (arith, h)

  is_in-bad :
      (commit : String) (o : Option String)
      → is_previewed commit o ≡ false
      → (e : Err) × (is_in out commit o ≡ err e)
  is_in-bad commit none h = (no_preview, refl)
  is_in-bad commit (some text) h = (commit_not_found, ground (arith, h))

  -- What decides on the next request is the same in two states.
  abbrev IsSame : Os → Os → Type 0
  IsSame o t =
      (t.enabled ≡ o.enabled)
      × (t.requested_os_commit ≡ o.requested_os_commit)
      × (t.hosted_objects_url ≡ o.hosted_objects_url)

  upgrade-both :
      (commit : String) (o : Os)
      → ((upgrade out commit o).1.calls ≡ o.calls ++ until_failure (plan commit))
        × IsSame o (upgrade out commit o).1
  unfolding upgrade update_greenboot_scripts ensure_script_exists
  upgrade-both commit o = elim (Bool-cases (is_previewed commit out.update_preview)) [
    | inr no' ↦ rw (no', (is_in-bad commit out.update_preview no').1) (refl, (refl, refl, refl))
    | inl yes' ↦ elim (Bool-cases (is_ensured (out.script greenboot_health_check_file_name))) [
      | inr no' ↦
          rw (yes', is_in-good commit out.update_preview yes', no')
            ((simp append_assoc), (refl, refl, refl))
      | inl yes2 ↦ elim (Bool-cases (is_ensured (out.script greenboo_fail_file_name))) [
        | inr no' ↦
            rw (yes', is_in-good commit out.update_preview yes', yes2, no')
              ((simp append_assoc), (refl, refl, refl))
        | inl yes3 ↦ elim (Bool-cases out.upgrade_succeeds) [
          | inr no' ↦
              rw (yes', is_in-good commit out.update_preview yes', yes2, yes3, no')
                ((simp append_assoc), (refl, refl, refl))
          | inl yes4 ↦ elim (Bool-cases out.reboot_succeeds) [
            | inr no' ↦
                rw (yes', is_in-good commit out.update_preview yes', yes2, yes3, yes4, no')
                  ((simp append_assoc), (refl, refl, refl))
            | inl yes5 ↦
                rw (yes', is_in-good commit out.update_preview yes', yes2, yes3, yes4, yes5)
                  ((simp append_assoc), (refl, refl, refl))
          ]
        ]
      ]
    ]
  ]

  -- The device is rebooted only after each step before it succeeded: the preview names the commit, both
  -- scripts are there, the upgrade is done, the workloads had time to stop. The calls of an upgrade are
  -- those of its plan in order, up to the first that does not succeed.
  pub upgrade-until_failure :
      (commit : String) (o : Os)
      → (upgrade out commit o).1.calls ≡ o.calls ++ until_failure (plan commit)
  upgrade-until_failure commit o = (upgrade-both commit o).0

  update_commit-upgrade :
      (commit : String) (o : Os)
      → (commit == o.requested_os_commit) ≡ false
      → o.automatically_upgrade ≡ true
      → update_commit out commit o ≡ upgrade out commit (record o { requested_os_commit = commit })
  unfolding update_commit request
  update_commit-upgrade commit o e f = ground (arith, e, f)

  update_commit-manual :
      (commit : String) (o : Os)
      → (commit == o.requested_os_commit) ≡ false
      → o.automatically_upgrade ≡ false
      → update_commit out commit o ≡ (ok tt, record o { requested_os_commit = commit })
  unfolding update_commit request
  update_commit-manual commit o e f = ground (arith, e, f)

  update_commit_lem :
      (commit : String) (o : Os)
      → let t = (update_commit out commit o).1 in
        (t.requested_os_commit ≡ commit) × (t.hosted_objects_url ≡ o.hosted_objects_url)
  update_commit_lem commit o = elim (Bool-cases (commit == o.requested_os_commit)) [
    | inl same ↦
        unfold update_commit in
        rw same (ground (arith, same, eq_iff commit o.requested_os_commit), refl)
    | inr other ↦ elim (Bool-cases o.automatically_upgrade) [
      | inr no' ↦ rw (update_commit-manual commit o other no') (refl, refl)
      | inl yes' ↦
          let (_, requested, url) =
            (upgrade-both commit (record o { requested_os_commit = commit })).1 in
          rw (update_commit-upgrade commit o other yes') (requested, url)
    ]
  ]

  update_url_lem :
      (url : String) (o : Os)
      → let r = update_url out url o in
        ((r.0 ≡ ok tt) × (r.1.hosted_objects_url ≡ url)) ⊎ (r.0 ≡ err remote_not_updated)
  unfolding update_url update_url_in_edge_remote
  update_url_lem url o = elim (Bool-cases (url == o.hosted_objects_url)) [
    | inl same ↦ rw same (inl (refl, ground (arith, same, eq_iff url o.hosted_objects_url)))
    | inr other ↦ elim (Option-cases o.edge_conf) [
      | inl e ↦ rw (other, e) (inr refl)
      | inr (lines, e) ↦ elim (Option-cases out.remote_left) [
        | inl f ↦ rw (other, e, f) (inl (refl, refl))
        | inr (left, f) ↦ rw (other, e, f) (inr refl)
      ]
    ]
  ]

  -- Nothing is left to do for a configuration.
  abbrev IsSettled : OsInformation → Os → Type 0
  IsSettled info o =
      (o.enabled ≡ false)
      ⊎ ((o.hosted_objects_url ≡ info.hosted_objects_url)
          × (o.requested_os_commit ≡ info.commit_id))

  settled-same :
      (info : OsInformation) (o : Os) → IsSettled info o → update out (some info) o ≡ (ok tt, o)
  unfolding update update_url update_commit
  settled-same info o (inl off) = ground (arith, off)
  settled-same info o (inr (url, commit)) = ground (
    arith,
    eq_iff info.hosted_objects_url o.hosted_objects_url,
    eq_iff info.commit_id o.requested_os_commit,
  )

  update-follows :
      (info : OsInformation) (o : Os)
      → o.enabled ≡ true
      → let r = update_url out info.hosted_objects_url o in
        r.0 ≡ ok tt → update out (some info) o ≡ update_commit out info.commit_id r.1
  unfolding update
  update-follows info o e f = ground (arith, e, f)

  update-fails :
      (info : OsInformation) (o : Os)
      → o.enabled ≡ true
      → (update_url out info.hosted_objects_url o).0 ≡ err remote_not_updated
      → (update out (some info) o).0 ≡ err remote_not_updated
  unfolding update
  update-fails info o e f = ground (arith, e, f)

  update-disabled :
      (info : OsInformation) (o : Os) → o.enabled ≡ false → update out (some info) o ≡ (ok tt, o)
  unfolding update
  update-disabled info o e = ground (arith, e)

  update-IsSettled :
      (info : OsInformation) (o : Os)
      → (update out (some info) o).0 ≢ err remote_not_updated
      → IsSettled info (update out (some info) o).1
  update-IsSettled info o h = elim (Bool-cases o.enabled) [
    | inr off ↦ rw (update-disabled info o off) (inl off)
    | inl on ↦
        let r = update_url out info.hosted_objects_url o in
        elim (update_url_lem info.hosted_objects_url o) [
          | inl (good, url) ↦
              let (commit, same) = update_commit_lem info.commit_id r.1 in
              rw (update-follows info o on good) (inr (same ∙ url, commit))
          | inr bad ↦ absurd (h (update-fails info o on bad))
        ]
  ]

  -- After an update that did not fail on the remote, the same configuration changes nothing and calls
  -- nothing, and no error is reported, whether or not the upgrade before had succeeded: a commit that
  -- could not be installed is not tried again.
  pub update-update :
      (info : OsInformation) (o : Os)
      → (update out (some info) o).0 ≢ err remote_not_updated
      → let o' = (update out (some info) o).1 in update out (some info) o' ≡ (ok tt, o')
  update-update info o h = settled-same info _ (update-IsSettled info o h)
