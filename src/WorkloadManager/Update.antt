-- ===== src/WorkloadManager/Update.antt =====
-- The loops of `Update` in internal/workload/manager.go: the secrets, the configured workloads, and the
-- workloads that are configured no more.
use flotta_device_worker.Prelude.{
  Bool, false, ◌||◌, none, some, String, List, [], ◌∷◌, ◌++◌, map, if◌then◌else◌, delete, string_eq,
  ◌==◌,
}
use flotta_device_worker.Prelude.Action.{Result, ok, err}
use flotta_device_worker.WorkloadManager.{
  Workload, Call, creates_secret, updates_secret, removes_secret, Err, secret_failed, not_listed,
  secrets_not_listed, directory_not_deleted, stale_not_removed, Outside, Manager, remove, deploy,
}

abbrev pub contains : String → List String → Bool
contains name [] = false
contains name (n ∷ ns) = n == name || contains name ns

-- The keys of a map that is filled from a list, or that lose one.
unfoldable pub without : String → List String → List String
without name [] = []
without name (n ∷ ns) = let rest = without name ns in if n == name then rest else n ∷ rest

unfoldable pub distinct_names : List String → List String
unfolding without
distinct_names [] = []
distinct_names (n ∷ ns) = n ∷ without n (distinct_names ns)

abbrev pub with_error : Result Err (Unit {0}) → List Err → List Err
with_error (ok _) errors = errors
with_error (err e) errors = e ∷ errors

module _ {X : Type 0} (out : Outside X) where
  -- A call for the secret `name`.
  unfoldable pub call_secret : String → Call → Manager → Result Err (Unit {0}) × Manager
  call_secret name call s = (
    if out.secret_succeeds s.calls call then ok tt else err (secret_failed name),
    record s { calls = s.calls ++ call ∷ [] },
  )

  -- The second loop of `updateSecrets`, over the secrets that are not configured.
  unfoldable pub remove_secrets : List String → Manager → List Err × Manager
  unfolding call_secret
  remove_secrets [] s = ([], s)
  remove_secrets (n ∷ ns) s =
      let r = call_secret n (removes_secret n) s in
      let rest = remove_secrets ns r.1 in (with_error r.0 rest.0, rest.1)

  -- The first loop, with the device's secrets that are not seen yet; then the second.
  unfoldable pub put_secrets : List (String × String) → List String → Manager → List Err × Manager
  unfolding remove_secrets call_secret
  put_secrets [] device s = remove_secrets device s
  put_secrets ((name, data') ∷ secrets) device s =
      let call =
        if contains name device then updates_secret name data' else creates_secret name data' in
      let r = call_secret name call s in
      let rest = put_secrets secrets (without name device) r.1 in (with_error r.0 rest.0, rest.1)

  -- `updateSecrets`
  unfoldable pub update_secrets : List (String × String) → Manager → List Err × Manager
  unfolding put_secrets
  update_secrets secrets s = elim (out.list_secrets s.calls) [
    | none ↦ (secrets_not_listed ∷ [], s)
    | some device ↦ put_secrets secrets (distinct_names device) s
  ]

  -- The loop over the configured workloads.
  unfoldable pub deploy_all : List (Workload X) → Manager → List Err × Manager
  unfolding deploy
  deploy_all [] s = ([], s)
  deploy_all (w ∷ ws) s =
      let r = deploy out w s in let rest = deploy_all ws r.1 in (with_error r.0 rest.0, rest.1)

  -- A workload that is not configured: its directory, and the workload.
  unfoldable pub delete_directory : String → Manager → Result Err (Unit {0}) × Manager
  delete_directory name s =
      let dir = out.dir_path name in
      if out.delete_dir dir
      then (
        ok tt,
        record s { manifests = delete dir s.manifests; auth_files = delete dir s.auth_files },
      )
      else (err (directory_not_deleted name), s)

  -- The loop over the deployed workloads.
  unfoldable pub remove_stale : List String → List String → Manager → List Err × Manager
  unfolding delete_directory remove
  remove_stale configured [] s = ([], s)
  remove_stale configured (name ∷ names) s =
      if contains name configured
      then remove_stale configured names s
      else (let d = delete_directory name s in
          let r = remove out (stale_not_removed name) name d.1 in
          let rest = remove_stale configured names r.1 in
          (with_error d.0 (with_error r.0 rest.0), rest.1))

  -- `Update`, for the secrets and workloads of the configuration.
  unfoldable pub update : List (String × String) → List (Workload X) → Manager → List Err × Manager
  unfolding update_secrets deploy_all remove_stale
  update secrets workloads s =
      if s.deregistered
      then ([], s)
      else (let a = update_secrets secrets s in
          let b = deploy_all workloads a.1 in
          elim (out.list b.1.calls) [
            | none ↦ (a.0 ++ b.0 ++ not_listed ∷ [], b.1)
            | some deployed ↦
                let c = remove_stale (map (λ w. w.name) workloads) (distinct_names deployed) b.1 in
                (a.0 ++ b.0 ++ c.0, c.1)
          ])
