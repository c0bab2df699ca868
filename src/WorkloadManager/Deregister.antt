-- ===== src/WorkloadManager/Deregister.antt =====
-- `Deregister` of internal/workload/manager.go: every workload and every trace of them is removed, and
-- no update does anything from then on.
use flotta_device_worker.Prelude.{
  ◌≡◌, refl, sym, ap, ◌∙◌, Bool, true, false, ◌&&◌, none, some, String, List, [], ◌∷◌, ◌++◌, map,
  if◌then◌else◌, arith,
}
use mathlib.Core.List.{append_assoc, append-nil}
use flotta_device_worker.Prelude.Action.{Result, ok, err}
use flotta_device_worker.WorkloadManager.{
  Workload, removes, Err, not_removed, Outside, Manager, remove,
}
use flotta_device_worker.WorkloadManager.Update.{update}

-- What the other removals come to: the directories of workloads and volumes, the table of the packet
-- filter, the mapping file and the services file; true if they succeed.
pub record Cleanup : Type 0 where
  pub workloads_dir : Bool
  pub table : Bool
  pub volumes_dir : Bool
  pub mapping_file : Bool
  pub services_file : Bool

pub data Failure : Type 0 where
  workloads_failed workloads_dir_failed table_failed volumes_dir_failed : Failure
  mapping_file_failed services_file_failed : Failure

unfoldable pub failed_unless : Bool → Failure → List Failure
failed_unless true f = []
failed_unless false f = f ∷ []

abbrev pub is_ok : Result Err (Unit {0}) → Bool
is_ok (ok _) = true
is_ok (err _) = false

module _ {X : Type 0} (out : Outside X) where
  -- The loop of `removeAllWorkloads`: whether all removals succeed.
  unfoldable pub remove_each : List String → Manager → Bool × Manager
  unfolding remove
  remove_each [] s = (true, s)
  remove_each (n ∷ ns) s =
      let r = remove out (not_removed n) n s in
      let rest = remove_each ns r.1 in (is_ok r.0 && rest.0, rest.1)

  unfoldable pub remove_all_workloads : Manager → Bool × Manager
  unfolding remove_each
  remove_all_workloads s = elim (out.list s.calls) [
    | none ↦ (false, s)
    | some deployed ↦ remove_each deployed s
  ]

  -- `Deregister`
  unfoldable pub deregister : Cleanup → Manager → List Failure × Manager
  unfolding remove_all_workloads
  deregister c s =
      let r = remove_all_workloads s in
      (
        failed_unless r.0 workloads_failed
            ++ failed_unless c.workloads_dir workloads_dir_failed
            ++ failed_unless c.table table_failed
            ++ failed_unless c.volumes_dir volumes_dir_failed
            ++ failed_unless c.mapping_file mapping_file_failed
            ++ failed_unless c.services_file services_file_failed,
        record r.1 {
          deregistered = true;
          manifests = if c.workloads_dir then [] else r.1.manifests;
          auth_files = if c.workloads_dir then [] else r.1.auth_files;
        },
      )

  remove_each-calls :
      (deployed : List String) (s : Manager)
      → (remove_each deployed s).1.calls ≡ s.calls ++ map removes deployed
  unfolding remove_each
  remove_each-calls [] s = sym (append-nil s.calls)
  remove_each-calls (n ∷ ns) s =
      let r = (remove out (not_removed n) n s).1 in
      let e : r.calls ≡ s.calls ++ removes n ∷ [] = unfold remove in ground arith in
      remove_each-calls ns r
      ∙ ap (λ c. c ++ map removes ns) e
      ∙ append_assoc s.calls (removes n ∷ []) (map removes ns)

  -- If the workloads can be listed, `Deregister` removes every one that is deployed, in the order of the
  -- list, whichever removals fail; and after it an update, whatever its configuration, does nothing and
  -- reports nothing.
  pub update-deregister :
      (c : Cleanup) (s : Manager) (deployed : List String) (secrets : List (String × String))
      (workloads : List (Workload X))
      → out.list s.calls ≡ some deployed
      → let s' = (deregister c s).1 in
        (s'.calls ≡ s.calls ++ map removes deployed) × (update out secrets workloads s' ≡ ([], s'))
  unfolding deregister update
  update-deregister c s deployed secrets workloads listed =
      (unfold remove_all_workloads in ground (arith, remove_each-calls deployed s), refl)
