-- ===== src/WorkloadManager/Files.antt =====
-- The files of a workload, and which steps of `Update` in internal/workload/manager.go write them.
use flotta_device_worker.Prelude.{
  ◌≡◌, refl, ◌⊎◌, inl, inr, true, none, some, String, [], ◌∷◌, ◌++◌, lookup, string_eq, ◌==◌,
  Bool-cases, lookup-insert, lookup-delete, beq_refl, arith, eq_iff,
}
use flotta_device_worker.Prelude.Action.{Result, ok, err}
use flotta_device_worker.WorkloadManager.{
  Workload, removes, runs, Err, manifest_not_stored, auth_not_stored, Stored, stored, not_stored,
  put, succeeded, Outside, Manager, pod_modified, pod_auth_modified, store_manifest,
  manage_auth_file, remove, run, deploy_manifest,
}

put-succeeded :
    (w : Stored) (dir content : String) (files : _)
    → succeeded w ≡ true
    → lookup dir (put w dir content files) ≡ some content
unfolding put
put-succeeded stored dir content files h = simp (lookup-insert, beq_refl)
put-succeeded (not_stored left) dir content files h = cc

module _ {X : Type 0} (out : Outside X) (w : Workload X) (manifest : String) where
  -- The files of the workload are those that the configuration asks for.
  abbrev pub IsWritten : Manager → Type 0
  IsWritten s =
      (lookup (out.dir_path w.name) s.manifests ≡ some manifest)
      × (((w.auth_file ≡ "") × (lookup (out.dir_path w.name) s.auth_files ≡ none))
          ⊎ (lookup (out.dir_path w.name) s.auth_files ≡ some w.auth_file))

  -- What a redeployment comes to: a file could not be written, or the files are as they should be.
  abbrev pub Outcome : Result Err (Unit {0}) → Manager → Type 0
  Outcome r s =
      (r ≡ err (manifest_not_stored w.name)) ⊎ ((r ≡ err (auth_not_stored w.name)) ⊎ IsWritten s)

  pub unchanged :
      (s : Manager)
      → out.manifest_readable (out.dir_path w.name) ≡ true
      → out.auth_readable (out.dir_path w.name) ≡ true
      → IsWritten s
      → deploy_manifest out w manifest s ≡ (ok tt, s)
  unfolding deploy_manifest pod_modified pod_auth_modified
  unchanged s a b (m, inl (e, n)) = ground (arith, beq_refl manifest, eq_iff w.auth_file "")
  unchanged s a b (m, inr n) = ground (arith, beq_refl manifest, beq_refl w.auth_file)

  pub stored_lem :
      (s : Manager)
      → let r = store_manifest out w.name (out.dir_path w.name) manifest s in
        ((r.0 ≡ err (manifest_not_stored w.name))
          ⊎ ((r.0 ≡ ok tt) × (lookup (out.dir_path w.name) r.1.manifests ≡ some manifest)))
        × (r.1.calls ≡ s.calls)
  unfolding store_manifest
  stored_lem s = elim (Bool-cases (succeeded (out.store_manifest (out.dir_path w.name)))) [
    | inl yes' ↦ rw yes' (
      inr (
        refl,
        put-succeeded (out.store_manifest (out.dir_path w.name)) (out.dir_path w.name) manifest
            s.manifests yes',
      ),
      refl,
    )
    | inr no' ↦ rw no' (inl refl, refl)
  ]

  pub manage_lem :
      (s : Manager)
      → lookup (out.dir_path w.name) s.manifests ≡ some manifest
      → let r = manage_auth_file out w.name (out.dir_path w.name) w.auth_file s in
        (r.0 ≡ err (auth_not_stored w.name)) ⊎ IsWritten r.1
  unfolding manage_auth_file
  manage_lem s m = elim (Bool-cases (w.auth_file == "")) [
    | inl empty ↦ elim (Bool-cases (out.delete_auth (out.dir_path w.name))) [
      | inl yes' ↦
          rw (empty, yes')
            (inr (m, inl ((eq_iff w.auth_file "").0 empty, simp (lookup-delete, beq_refl))))
      | inr no' ↦ rw (empty, no') (inl refl)
    ]
    | inr some_auth ↦ elim (Bool-cases (succeeded (out.store_auth (out.dir_path w.name)))) [
      | inl yes' ↦
          rw (some_auth, yes')
            (inr (
              m,
              inr (
                  put-succeeded (out.store_auth (out.dir_path w.name)) (out.dir_path w.name)
                    w.auth_file s.auth_files yes'),
            ))
      | inr no' ↦ rw (some_auth, no') (inl refl)
    ]
  ]

  pub manage_calls :
      (s : Manager)
      → (manage_auth_file out w.name (out.dir_path w.name) w.auth_file s).1.calls ≡ s.calls
  unfolding manage_auth_file
  manage_calls s = ground arith

  pub remove_calls :
      (e : Err) (s : Manager) → (remove out e w.name s).1.calls ≡ s.calls ++ removes w.name ∷ []
  unfolding remove
  remove_calls e s = ground arith

  pub run_calls :
      (auth_path : String) (s : Manager)
      → (run out w.name manifest auth_path s).1.calls
        ≡ s.calls ++ runs w.name manifest auth_path ∷ []
  unfolding run
  run_calls auth_path s = ground arith

  pub remove-IsWritten : (e : Err) (s : Manager) → IsWritten s → IsWritten (remove out e w.name s).1
  unfolding remove
  remove-IsWritten e s h = ground (arith, h)

  pub run-IsWritten :
      (auth_path : String) (s : Manager)
      → IsWritten s
      → IsWritten (run out w.name manifest auth_path s).1
  unfolding run
  run-IsWritten auth_path s h = ground (arith, h)
