-- ===== src/AnsibleManager/PendingRuns.antt =====
-- What `ExecutePendingPlaybooks` of internal/ansible/ansible_manager.go runs, forgets and reports.
use flotta_device_worker.Prelude.{
  ◌≡◌, refl, inl, inr, Option, none, some, String, List, [], ◌∷◌, ◌++◌, if◌then◌else◌, Bool-cases,
  Option-cases,
}
use mathlib.Core.List.{append_assoc, append-nil}
use flotta_device_worker.AnsibleMapping.{Repository, remove}
use flotta_device_worker.AnsibleManager.{Manager, EventInfo, warn, add_to_event_queue}
use flotta_device_worker.AnsibleManager.Pending.{
  SyncErr, not_read, not_parsed, run_failed, Outside, exec_playbook_sync, Progress, left_for,
  collected, run_loop, settle, execute_pending_playbooks,
}

module _ (out : Outside) where
  -- Why there are no results of a playbook, if there are none.
  unfoldable pub without_results : String → Option SyncErr
  without_results file = elim (out.content file) [
    | none ↦ some (not_read file)
    | some text ↦ if out.prints file then none else some (not_parsed file)
  ]

  abbrev pub first : Option SyncErr → Option SyncErr → Option SyncErr
  first none rest = rest
  first (some e) rest = some e

  -- The first playbook without results.
  unfoldable pub obstacle : List String → Option SyncErr
  unfolding without_results
  obstacle [] = none
  obstacle (file ∷ rest) = first (without_results file) (obstacle rest)

  -- The playbooks whose run fails.
  unfoldable pub failures : List String → List SyncErr
  failures [] = []
  failures (file ∷ rest) =
      let others = failures rest in if out.succeeds file then others else run_failed file ∷ others

  abbrev pub forget_one : Option String → Repository → Repository
  forget_one none m = m
  forget_one (some text) m = (remove out.persists (out.path_of text) m).1

  abbrev pub unless_blocked : Option SyncErr → Repository → Repository → Repository
  unless_blocked none m before = m
  unless_blocked (some e) m before = before

  -- The mapping without the playbooks before the first that has no results.
  unfoldable pub forgotten : List String → Repository → Repository
  unfolding without_results
  forgotten [] m = m
  forgotten (file ∷ rest) m =
      let others = forgotten rest (forget_one (out.content file) m) in
      unless_blocked (without_results file) others m

  abbrev pub ran_one : Option String → String → List String
  ran_one none file = []
  ran_one (some text) file = file ∷ []

  abbrev pub unless_stopped : Option SyncErr → List String → List String
  unless_stopped none others = others
  unless_stopped (some e) others = []

  -- The playbooks that are run: those that can be read, up to the first that has no results.
  unfoldable pub played : List String → List String
  unfolding without_results
  played [] = []
  played (file ∷ rest) =
      let others = played rest in
      ran_one (out.content file) file ++ unless_stopped (without_results file) others

  -- What is expected of the loop, from these alone.
  abbrev expected : Option SyncErr → List SyncErr → Progress out
  expected none errors = collected errors
  expected (some e) errors = left_for e

  run_loop_lem :
      (files : List String) (errors : List SyncErr) (m : Repository)
      → run_loop out files errors m
        ≡ (expected (obstacle files) (errors ++ failures files), played files, forgotten files m)
  unfolding run_loop exec_playbook_sync obstacle without_results failures forgotten played
  run_loop_lem [] errors m = rw append-nil refl
  run_loop_lem (file ∷ rest) errors m = elim (Option-cases (out.content file)) [
    | inl e ↦ rw (e, exec_playbook_sync, without_results) refl
    | inr (text, e) ↦ elim (Bool-cases (out.prints file)) [
      | inl prints ↦ elim (Bool-cases (out.succeeds file)) [
        | inl well ↦
            rw (e, prints, well, exec_playbook_sync, without_results, run_loop_lem rest, append-nil)
              refl
        | inr badly ↦
            rw
              (
                e,
                prints,
                badly,
                exec_playbook_sync,
                without_results,
                run_loop_lem rest,
                append_assoc,
              )
              refl
      ]
      | inr nothing ↦ rw (e, nothing, exec_playbook_sync, without_results) refl
    ]
  ]

  -- What is returned, and what waits in the queue of events then: the error of a playbook without
  -- results stands alone, and without one there is an event for the errors of the runs, if there are any.
  abbrev pub returned : Option SyncErr → List SyncErr → List SyncErr
  returned (some e) failed = e ∷ []
  returned none failed = failed

  abbrev pub queued : Option SyncErr → List SyncErr → List EventInfo → List EventInfo
  queued (some e) failed queue = queue
  queued none [] queue = queue
  queued none (e ∷ failed) queue =
      queue ++ record { message = out.text (e ∷ failed); reason = "Failed"; type = warn } ∷ []

  settle_lem :
      (blocked : Option SyncErr) (failed : List SyncErr) (a : Manager)
      → settle out (expected blocked failed) a ≡ (
        returned blocked failed,
        record a { events_queue = queued blocked failed a.events_queue },
      )
  unfolding settle
  settle_lem (some e) failed a = refl
  settle_lem none [] a = refl
  settle_lem none (e ∷ failed) a = unfold add_to_event_queue in refl

  -- In whatever order the pending playbooks are taken: those before the first that cannot be read or
  -- prints no results are run, and that one too if it can be read; those before it are removed from the
  -- mapping; with such a one its error is returned alone and no event is queued; with none the errors of
  -- all failed runs are returned, and one event with their text is queued exactly if there is one.
  pub execute_pending_playbooks_lem :
      (order : List String) (a : Manager)
      → execute_pending_playbooks out order a ≡ (
        returned (obstacle order) (failures order),
        played order,
        record a {
          repository = forgotten order a.repository;
          events_queue = queued (obstacle order) (failures order) a.events_queue;
        },
      )
  unfolding execute_pending_playbooks
  execute_pending_playbooks_lem order a =
      rw
        (
          run_loop_lem order [] a.repository,
          settle_lem (obstacle order) (failures order)
              (record a { repository = forgotten order a.repository }),
        )
        refl
