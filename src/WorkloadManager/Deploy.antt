-- ===== src/WorkloadManager/Deploy.antt =====
-- When `Update` of internal/workload/manager.go starts a pod, and when it leaves it alone.
use flotta_device_worker.Prelude.{
  ◌≡◌, ◌≢◌, refl, sym, ap, ◌∙◌, ◌⊎◌, inl, inr, Bool, true, false, ◌||◌, some, String, [], ◌∷◌, ◌++◌,
  lookup, string_eq, Bool-cases, arith,
}
use mathlib.Core.Path.{subst}
use flotta_device_worker.Prelude.Action.{Result, ok, err, >>=-post}
use flotta_device_worker.WorkloadManager.{
  Workload, removes, runs, Err, manifest_not_stored, auth_not_stored, not_removed, Outside, Manager,
  pod_modified, pod_auth_modified, store_manifest, manage_auth_file, remove, redeploy,
  deploy_manifest,
}
use flotta_device_worker.WorkloadManager.Files.{
  IsWritten, Outcome, unchanged, stored_lem, manage_lem, manage_calls, remove_calls, run_calls,
  remove-IsWritten, run-IsWritten,
}

module _ {X : Type 0} (out : Outside X) (w : Workload X) (manifest : String) where
  redeploy-Outcome :
      (s : Manager)
      → (Outcome out w manifest) (redeploy out w manifest s).0 (redeploy out w manifest s).1
  unfolding redeploy
  redeploy-Outcome s =
      let dir = out.dir_path w.name in
      >>=-post (Outcome out w manifest) (store_manifest out w.name dir manifest) _ s
        (λ e h. elim (stored_lem out w manifest s).0 [
          | inl q ↦ inl (sym h ∙ q)
          | inr q ↦ absurd (ground (arith, q.0, h))
        ])
        (λ u h.
          let s1 = (store_manifest out w.name dir manifest s).1 in
          let m : lookup dir s1.manifests ≡ some manifest = elim (stored_lem out w manifest s).0 [
            | inl q ↦ absurd (ground (arith, q, h))
            | inr q ↦ q.1
          ] in
          >>=-post (Outcome out w manifest) (manage_auth_file out w.name dir w.auth_file) _ s1
            (λ e k. elim (manage_lem out w manifest s1 m) [
              | inl q ↦ inr (inl (cc))
              | inr q ↦ inr (inr q)
            ])
            (λ auth_path k.
              let s2 = (manage_auth_file out w.name dir w.auth_file s1).1 in
              let written : IsWritten out w manifest s2 = elim (manage_lem out w manifest s1 m) [
                | inl q ↦ absurd (ground (arith, q, k))
                | inr q ↦ q
              ] in
              >>=-post (Outcome out w manifest) (remove out (not_removed w.name) w.name) _ s2
                (λ e j. inr (inr (remove-IsWritten out w manifest (not_removed w.name) s2 written)))
                (λ v j. inr (
                  inr (
                    run-IsWritten out w manifest auth_path _
                      (remove-IsWritten out w manifest (not_removed w.name) s2 written))))))

  redeploy-calls :
      (s : Manager)
      → (redeploy out w manifest s).0 ≡ ok tt
      → (auth_path : String) × ((redeploy out w manifest s).1.calls
          ≡ s.calls ++ removes w.name ∷ [] ++ runs w.name manifest auth_path ∷ [])
  unfolding redeploy
  redeploy-calls s =
      let dir = out.dir_path w.name in
      let Called : Result Err (Unit {0}) → Manager → Type 0 = λ r t.
        r ≡ ok tt
        → (auth_path : String) × (t.calls
            ≡ s.calls ++ removes w.name ∷ [] ++ runs w.name manifest auth_path ∷ []) in
      let s1 = (store_manifest out w.name dir manifest s).1 in
      >>=-post Called (store_manifest out w.name dir manifest) _ s (λ e h. λ q. cc)
        (λ u h.
          let s2 = (manage_auth_file out w.name dir w.auth_file s1).1 in
          >>=-post Called (manage_auth_file out w.name dir w.auth_file) _ s1 (λ e k. λ q. cc)
            (λ auth_path k.
              >>=-post Called (remove out (not_removed w.name) w.name) _ s2 (λ e j. λ q. cc)
                (λ v j. λ q. (
                  auth_path,
                  run_calls out w manifest auth_path _
                      ∙ ap (λ c. c ++ runs w.name manifest auth_path ∷ [])
                          (remove_calls out w manifest (not_removed w.name) s2
                            ∙ ap (λ c. c ++ removes w.name ∷ [])
                                (manage_calls out w manifest s1 ∙ (stored_lem out w manifest s).1)),
                ))))

  abbrev modified : Manager → Bool
  modified s =
      pod_modified out (out.dir_path w.name) manifest s
      || pod_auth_modified out (out.dir_path w.name) w.auth_file s

  deploy_manifest-modified :
      (s : Manager)
      → modified s ≡ true
      → deploy_manifest out w manifest s ≡ redeploy out w manifest s
  unfolding deploy_manifest
  deploy_manifest-modified s h = rw h refl

  deploy_manifest-same :
      (s : Manager) → modified s ≡ false → deploy_manifest out w manifest s ≡ (ok tt, s)
  unfolding deploy_manifest
  deploy_manifest-same s h = rw h refl

  -- A workload that was handed to the wrapper is taken for deployed, also if the wrapper could not
  -- remove or run it: if the two files could be stored, or did not have to be, and can be read, the next
  -- round with the same workload reports no error, calls nothing and changes nothing.
  pub deploy_manifest-deploy_manifest :
      (s : Manager)
      → out.manifest_readable (out.dir_path w.name) ≡ true
      → out.auth_readable (out.dir_path w.name) ≡ true
      → (deploy_manifest out w manifest s).0 ≢ err (manifest_not_stored w.name)
      → (deploy_manifest out w manifest s).0 ≢ err (auth_not_stored w.name)
      → let s' = (deploy_manifest out w manifest s).1 in
        deploy_manifest out w manifest s' ≡ (ok tt, s')
  deploy_manifest-deploy_manifest s a b m n = elim (Bool-cases (modified s)) [
    | inl yes' ↦
        let e = deploy_manifest-modified s yes' in
        subst (λ t. deploy_manifest out w manifest t.1 ≡ (ok tt, t.1)) (sym e)
          (elim (redeploy-Outcome s) [
            | inl q ↦ absurd (m (ap (λ t. t.0) e ∙ q))
            | inr (inl q) ↦ absurd (n (ap (λ t. t.0) e ∙ q))
            | inr (inr written) ↦ unchanged out w manifest _ a b written
          ])
    | inr no' ↦
        let e = deploy_manifest-same s no' in
        subst (λ t. deploy_manifest out w manifest t.1 ≡ (ok tt, t.1)) (sym e) e
  ]

  -- A round that reports no error has either found the two files as they should be and done nothing,
  -- or has removed the workload and run its pod, in this order and with no other call.
  pub deploy_manifest-calls :
      (s : Manager)
      → (deploy_manifest out w manifest s).0 ≡ ok tt
      → let s' = (deploy_manifest out w manifest s).1 in
        (s' ≡ s)
        ⊎ ((auth_path : String) × (s'.calls
              ≡ s.calls ++ removes w.name ∷ [] ++ runs w.name manifest auth_path ∷ []))
  deploy_manifest-calls s h = elim (Bool-cases (modified s)) [
    | inl yes' ↦
        let e = deploy_manifest-modified s yes' in
        inr (
          subst
            (λ t.
              (auth_path : String) × (t.1.calls
                ≡ s.calls ++ removes w.name ∷ [] ++ runs w.name manifest auth_path ∷ []))
            (sym e) (redeploy-calls s (sym (ap (λ t. t.0) e) ∙ h)))
    | inr no' ↦ inl (ap (λ t. t.1) (deploy_manifest-same s no'))
  ]
