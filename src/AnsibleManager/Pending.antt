-- ===== src/AnsibleManager/Pending.antt =====
-- `ExecutePendingPlaybooks` of internal/ansible/ansible_manager.go: the playbooks that the mapping still
-- has are run when the program starts.
use flotta_device_worker.Prelude.{
  ℕ, Bool, true, false, Option, none, some, String, List, [], ◌∷◌, ◌++◌, map, Map, if◌then◌else◌,
  leb,
}
use flotta_device_worker.AnsibleMapping.{Repository, Persist, remove}
use flotta_device_worker.AnsibleManager.{warn, Manager, add_to_event_queue}

-- The sort of `GetAll`, by the times.
unfoldable pub insert_by_time : ℕ × String → Map ℕ String → Map ℕ String
insert_by_time b [] = b ∷ []
insert_by_time b (c ∷ rest) =
    let later = c ∷ insert_by_time b rest in if leb b.0 c.0 then b ∷ c ∷ rest else later

unfoldable pub sort_by_time : Map ℕ String → Map ℕ String
unfolding insert_by_time
sort_by_time [] = []
sort_by_time (b ∷ rest) = insert_by_time b (sort_by_time rest)

-- `GetAll`: the path at place i is that of the i-th time.
unfoldable pub get_all : Repository → List String
unfolding sort_by_time
get_all m = map (λ b. b.1) (sort_by_time m.mod_time_to_path)

pub data SyncErr : Type 0 where
  not_read not_parsed run_failed : String → SyncErr

-- The code outside: what is in the file of a playbook, whether its run succeeds and prints results that
-- can be parsed, the path that the mapping has for a content, the file of the mapping, and the text of
-- the errors.
pub record Outside : Type 0 where
  pub content : String → Option String
  pub succeeds : String → Bool
  pub prints : String → Bool
  pub path_of : String → String
  pub persists : Persist
  pub text : List SyncErr → String

module _ (out : Outside) where
  -- `execPlaybookSync`, for the file of the playbook: whether there are results, the error, the
  -- playbooks that were run, and the mapping.
  unfoldable pub exec_playbook_sync :
      String → Repository → Bool × Option SyncErr × List String × Repository
  exec_playbook_sync file m = elim (out.content file) [
    | none ↦ (false, some (not_read file), [], m)
    | some text ↦
        if out.prints file
        then (
          true,
          (if out.succeeds file then none else some (run_failed file)),
          file ∷ [],
          (remove out.persists (out.path_of text) m).1,
        )
        else (false, some (not_parsed file), file ∷ [], m)
  ]

  abbrev pub errors_of : Option SyncErr → List SyncErr
  errors_of none = []
  errors_of (some e) = e ∷ []

  -- What the loop has come to: it was left for an error, or it goes on with the errors so far.
  pub data Progress : Type 0 where
    left_for : SyncErr → Progress
    collected : List SyncErr → Progress

  -- What follows the playbook in the loop.
  abbrev pub after :
      Bool
      → Option SyncErr
      → Progress × List String × Repository
      → Repository
      → Progress × List String × Repository
  after false (some e) rest m = (left_for e, [], m)
  after _ _ rest m = rest

  -- The loop, over the paths in the order in which `range` takes them, with the playbooks that it runs.
  unfoldable pub run_loop :
      List String → List SyncErr → Repository → Progress × List String × Repository
  unfolding exec_playbook_sync
  run_loop [] errors m = (collected errors, [], m)
  run_loop (file ∷ rest) errors m =
      let (has_results, failed, ran, m') = exec_playbook_sync file m in
      let (progress, others, m'') =
        after has_results failed (run_loop rest (errors ++ errors_of failed) m') m' in
      (progress, ran ++ others, m'')

  -- The end of `ExecutePendingPlaybooks`: the event is queued only if the loop came to its end.
  unfoldable pub settle : Progress → Manager → List SyncErr × Manager
  unfolding add_to_event_queue
  settle (left_for e) a = (e ∷ [], a)
  settle (collected []) a = ([], a)
  settle (collected (e ∷ errors)) a = (
    e ∷ errors,
    add_to_event_queue (record { message = out.text (e ∷ errors); reason = "Failed"; type = warn })
        a,
  )

  unfoldable pub execute_pending_playbooks :
      List String → Manager → List SyncErr × List String × Manager
  unfolding run_loop settle
  execute_pending_playbooks order a =
      let (progress, ran, m) = run_loop order [] a.repository in
      let (errors, a') = settle progress (record a { repository = m }) in (errors, ran, a')
