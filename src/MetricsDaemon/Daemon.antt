-- ===== src/MetricsDaemon/Daemon.antt =====
-- The daemon of internal/metrics/daemon.go: its targets by name, and what adding and deleting does to
-- them.
use flotta_device_worker.Prelude.{
  ℕ, suc, ◌<◌, ◌≡◌, ◌≢◌, refl, ap, inl, inr, none, some, String, [], if◌then◌else◌, Map, lookup,
  insert, delete, string_eq, lookup-insert, lookup-delete, beq_refl, Option-cases, arith, eq_iff,
  ◌==◌,
}
use flotta_device_worker.MetricsDaemon.Targets.{Target, at, new_target_metric, starting, stop}

-- The daemon: the targets by name, as places in the heap `objects`, of which `next` is free.
pub record Daemon : Type 0 where
  pub targets : Map String ℕ
  pub objects : ℕ → Target
  pub next : ℕ

-- `NewMetricsDaemon`
abbrev pub new_metrics_daemon : Daemon
new_metrics_daemon = record { targets = []; objects = λ o. new_target_metric; next = 0 }

-- `startTarget`, by a goroutine that is new to the target.
abbrev pub start_target : ℕ → Target → Target
start_target g t = record t { goroutines = at t.goroutines g starting }

-- `DeleteTarget`
unfoldable pub delete_target : String → Daemon → Daemon
delete_target name d = elim (lookup name d.targets) [
  | none ↦ d
  | some o ↦ record d {
    targets = delete name d.targets;
    objects = at d.objects o (stop (d.objects o));
  }
]

-- `AddTarget`
unfoldable pub add_target : String → Daemon → Daemon
unfolding delete_target
add_target name d =
    let d' = delete_target name d in
    record d' {
      targets = insert name d'.next d'.targets;
      objects = at d'.objects d'.next (start_target 0 new_target_metric);
      next = suc d'.next;
    }

-- Each name has a target of its own, that was made.
pub record IsOwned (d : Daemon) : Type 0 where
  pub made : (n : String) (o : ℕ) → lookup n d.targets ≡ some o → o < d.next
  pub own :
      (m n : String) (o : ℕ) → lookup m d.targets ≡ some o → lookup n d.targets ≡ some o → m ≡ n

delete_target-none :
    (name : String) (d : Daemon) → lookup name d.targets ≡ none → delete_target name d ≡ d
unfolding delete_target
delete_target-none name d e = ground (arith, e)

delete_target-some :
    (name : String) (d : Daemon) (o : ℕ)
    → lookup name d.targets ≡ some o
    → delete_target name d
      ≡ record d { targets = delete name d.targets; objects = at d.objects o (stop (d.objects o)) }
unfolding delete_target
delete_target-some name d o e = ground (arith, e)

-- Deleting a target, by cases.
pub delete_target_lem :
    (name : String) (d : Daemon)
    → IsOwned d
    → let d' = delete_target name d in
      IsOwned d'
      × (d'.next ≡ d.next)
      × ((n : String) → lookup n d'.targets ≡ (if name == n then none else lookup n d.targets))
      × ((o : ℕ) → lookup name d.targets ≡ some o → d'.objects o ≡ stop (d.objects o))
      × ((o : ℕ) → lookup name d.targets ≢ some o → d'.objects o ≡ d.objects o)
delete_target_lem name d h = elim (Option-cases (lookup name d.targets)) [
  | inl e ↦ rw (delete_target-none name d e) (
    h,
    refl,
    (λ n. ground (arith, eq_iff name n, e)),
    (λ o q. absurd (ground (arith, e, q))),
    λ o q. refl,
  )
  | inr (o, e) ↦ rw (delete_target-some name d o e) (
    record {
      made = λ n k. simp lookup-delete (λ q. ground (arith, h.made n k));
      own = λ m n k. simp lookup-delete (λ p. λ q. ground (arith, h.own m n k));
    },
    refl,
    (λ n. lookup-delete name n d.targets),
    (λ k q. ground (arith, e, q)),
    λ k q. ground (arith, e, q),
  )
]

-- Adding a target under a name gives the name a new target with one goroutine about to start, stops the
-- target that had the name, and leaves the other names with their targets, and those as they were; each
-- name still has a target of its own.
pub add_target_lem :
    (name : String) (d : Daemon)
    → IsOwned d
    → let d' = add_target name d in
      IsOwned d'
      × (lookup name d'.targets ≡ some d.next)
      × (d'.objects d.next ≡ start_target 0 new_target_metric)
      × ((n : String) → n ≢ name → lookup n d'.targets ≡ lookup n d.targets)
      × ((o : ℕ) → lookup name d.targets ≡ some o → d'.objects o ≡ stop (d.objects o))
      × ((o : ℕ) → o < d.next → lookup name d.targets ≢ some o → d'.objects o ≡ d.objects o)
unfolding add_target
add_target_lem name d h =
    let (own', same, names, stopped, kept) = delete_target_lem name d h in
    let d1 = delete_target name d in
    (
      record {
        made = λ n o. simp lookup-insert (λ q. ground (arith, own'.made n o));
        own = λ m n o. simp lookup-insert (λ p. λ q.
            ground
              (arith, eq_iff name m, eq_iff name n, own'.own m n o, own'.made m o, own'.made n o));
      },
      simp (lookup-insert, beq_refl) (ap some same),
      ground (arith, same),
      (λ n ne. ground (arith, lookup-insert name n d1.next d1.targets, names n, eq_iff name n)),
      (λ o e. ground (arith, stopped o e, h.made name o e, same)),
      λ o l ne. ground (arith, kept o ne, same),
    )
