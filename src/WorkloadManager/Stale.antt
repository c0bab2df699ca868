-- ===== src/WorkloadManager/Stale.antt =====
-- Which workloads `Update` of internal/workload/manager.go removes for good.
use flotta_device_worker.Prelude.{
  ◌≡◌, refl, sym, ap, ◌∙◌, inl, inr, true, false, not, ◌&&◌, some, String, List, [], ◌∷◌, ◌++◌, map,
  if◌then◌else◌, string_eq, ◌==◌, Bool-cases, arith, eq_iff,
}
use mathlib.Core.List.{append_assoc, append-nil}
use flotta_device_worker.WorkloadManager.{
  Workload, removes, stale_not_removed, Outside, Manager, remove,
}
use flotta_device_worker.WorkloadManager.Update.{
  contains, without, distinct_names, update_secrets, deploy_all, delete_directory, remove_stale,
  update,
}

-- The names of the list that are not configured.
unfoldable stale : List String → List String → List String
stale configured [] = []
stale configured (n ∷ ns) =
    let rest = stale configured ns in if contains n configured then rest else n ∷ rest

contains_same : (n m : String) (ns : List String) → n == m ≡ true → contains n ns ≡ contains m ns
contains_same n m ns e = ap (λ k. contains k ns) ((eq_iff n m).0 e)

contains-stale :
    (configured deployed : List String) (n : String)
    → contains n (stale configured deployed) ≡ (contains n deployed && not (contains n configured))
unfolding stale
contains-stale configured [] n = refl
contains-stale configured (m ∷ ms) n = elim (Bool-cases (m == n)) [
  | inl same ↦ ground (arith, contains-stale configured ms n, contains_same m n configured same)
  | inr other ↦ ground (arith, contains-stale configured ms n)
]

pub contains-without :
    (m n : String) (ns : List String) → contains n (without m ns) ≡ (contains n ns && not (m == n))
unfolding without
contains-without m n [] = refl
contains-without m n (k ∷ ks) =
    ground (arith, contains-without m n ks, eq_iff k m, eq_iff k n, eq_iff m n)

pub contains-distinct_names :
    (n : String) (ns : List String) → contains n (distinct_names ns) ≡ contains n ns
unfolding distinct_names
contains-distinct_names n [] = refl
contains-distinct_names n (m ∷ ms) =
    ground (arith, contains-without m n (distinct_names ms), contains-distinct_names n ms)

module _ {X : Type 0} (out : Outside X) where
  delete_directory-calls :
      (name : String) (s : Manager) → (delete_directory out name s).1.calls ≡ s.calls
  unfolding delete_directory
  delete_directory-calls name s = ground arith

  remove-calls :
      (name : String) (s : Manager)
      → (remove out (stale_not_removed name) name s).1.calls ≡ s.calls ++ removes name ∷ []
  unfolding remove
  remove-calls name s = ground arith

  remove_stale-calls :
      (configured deployed : List String) (s : Manager)
      → (remove_stale out configured deployed s).1.calls
        ≡ s.calls ++ map removes (stale configured deployed)
  unfolding remove_stale stale
  remove_stale-calls configured [] s = sym (append-nil s.calls)
  remove_stale-calls configured (n ∷ ns) s = elim (Bool-cases (contains n configured)) [
    | inl kept ↦ rw kept (remove_stale-calls configured ns s)
    | inr gone ↦
        let d = (delete_directory out n s).1 in
        let r = (remove out (stale_not_removed n) n d).1 in
        rw gone (
          remove_stale-calls configured ns r
          ∙ ap (λ c. c ++ map removes (stale configured ns))
              (remove-calls n d ∙ ap (λ c. c ++ removes n ∷ []) (delete_directory-calls n s))
          ∙ append_assoc s.calls (removes n ∷ []) _)
  ]

  -- The end of an update: when the secrets and the configured workloads are dealt with, exactly the
  -- workloads that are deployed then and are not configured are removed, whatever failed before, and
  -- no other call follows.
  pub update-removes :
      (secrets : List (String × String)) (workloads : List (Workload X)) (s : Manager)
      (deployed : List String)
      → s.deregistered ≡ false
      → out.list (deploy_all out workloads (update_secrets out secrets s).1).1.calls ≡ some deployed
      → let b = (deploy_all out workloads (update_secrets out secrets s).1).1 in
        (names : List String) × ((update out secrets workloads s).1.calls
          ≡ b.calls ++ map removes names)
        × ((n : String)
            → contains n names
              ≡ (contains n deployed && not (contains n (map (λ w. w.name) workloads))))
  unfolding update
  update-removes secrets workloads s deployed on listed =
      let b = (deploy_all out workloads (update_secrets out secrets s).1).1 in
      let configured : List String = map (λ w. w.name) workloads in
      (
        stale configured (distinct_names deployed),
        ground (arith, remove_stale-calls configured (distinct_names deployed) b),
        λ n.
            contains-stale configured (distinct_names deployed) n
            ∙ ap (λ c. c && not (contains n configured)) (contains-distinct_names n deployed),
      )
