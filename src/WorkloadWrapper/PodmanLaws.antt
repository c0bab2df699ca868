-- ===== src/WorkloadWrapper/PodmanLaws.antt =====
-- What the methods of internal/workload/podman/podman.go leave behind in podman's service.
use flotta_device_worker.Prelude.{
  ◌≡◌, inl, inr, true, false, ◌&&◌, none, some, String, string_eq, ◌==◌, if◌then◌else◌, arith,
  Bool-cases, Option-cases,
}
use flotta_device_worker.WorkloadWrapper.Engine.{Engine}
use flotta_device_worker.WorkloadWrapper.Podman.{
  remove, exists, update_secret, remove_secret, create_secret,
}

module _ {P : Type 0} (engine : Engine P) where
  -- A pod whose removal succeeds is not there afterwards, whether or not it was there before.
  pub remove-pod :
      (id : String) (p : P)
      → (remove engine id p).0 ≡ true
      → engine.pod id (remove engine id p).1 ≡ false
  unfolding remove exists
  remove-pod id p h = elim (Option-cases (engine.exists id p)) [
    | inl e ↦ absurd (ground (arith, e))
    | inr (there, e) ↦ ground (arith, e, engine.exists_lem id p there e, engine.removes id p)
  ]

  -- Updating a secret is not atomic. If the old one cannot be removed, nothing changes; if then the new
  -- one is created, the secret holds the new content; if it cannot be, the secret is gone. Every other
  -- secret stays as it was, and the update succeeds only if both steps do.
  pub update_secret_lem :
      (name content : String) (p : P)
      → let removal = remove_secret engine name p in
        let creation = create_secret engine name content removal.1 in
        let update = update_secret engine name content p in
        (update.0 ≡ (removal.0 && creation.0))
        × ((n : String)
            → engine.secret n update.1 ≡ (
                if removal.0 && name == n
                then if creation.0 then some content else none
                else engine.secret n p))
  unfolding update_secret remove_secret create_secret
  update_secret_lem name content p = elim (Bool-cases (engine.remove_secret name p).0) [
    | inl good ↦ (
      ground (arith, good),
      λ n. ground (
        arith,
        good,
        engine.removes_secret name p n,
        engine.creates_secret name content (engine.remove_secret name p).1 n,
      ),
    )
    | inr bad ↦ (ground (arith, bad), λ n. ground (arith, bad, engine.removes_secret name p n))
  ]
