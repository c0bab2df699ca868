-- ===== src/PlaybookEvents/Paired.antt =====
-- How the events of internal/ansible/dispatcher/dispatcher_events.go refer to one another.
use flotta_device_worker.Prelude.{
  ℕ, ◌+◌, ◌≡◌, refl, ◌⊎◌, inl, inr, Option, some, String, List, [], ◌∷◌, ◌++◌, map, Map, Bool-cases,
  ◌==◌, nat_eq,
}
use flotta_device_worker.PlaybookEvents.{
  Host, TaskItem, PlayTask, Play, Stats, Results, Event, Outside,
}
use flotta_device_worker.PlaybookEvents.Events.{
  playbook_on_start, playbook_on_task_start, runner_on, runner_on_ok, runner_on_failed,
  runner_on_skipped, playbook_on_stats, count_occurence,
}
use flotta_device_worker.PlaybookEvents.Transform.{
  Progress, read_task_id, outcome, host_events, hosts_loop, task_events, tasks_loop, announce,
  play_start, opened, play_events, plays_loop, or_no_play, event_transformer,
}

-- An event of the playbook or of a play.
abbrev pub IsHeading : Event → Type 0
IsHeading e =
    (e.event ≡ "playbook_on_start")
    ⊎ (e.event ≡ "playbook_on_play_start")
    ⊎ (e.event ≡ "playbook_on_stats")

abbrev pub IsOutcome : Event → Type 0
IsOutcome e =
    (e.event ≡ "v2_runner_on_ok")
    ⊎ (e.event ≡ "v2_runner_on_failed")
    ⊎ (e.event ≡ "v2_runner_on_skipped")

-- The outcome of a task reports the task, under the id and below the event of its start.
pub record Reports (start ended : Event) : Type 0 where
  pub starts : start.event ≡ "playbook_on_task_start"
  pub ends : IsOutcome ended
  pub same_uuid : ended.uuid ≡ start.uuid
  pub parent : ended.event_data.playbook_uuid ≡ some start.uuid

-- Each start of a task is followed by its outcome, and there is no outcome but those.
pub data IsPaired : List Event → Type 0 where
  empty : IsPaired []
  heading : {e : Event} {l : List Event} → IsHeading e → IsPaired l → IsPaired (e ∷ l)
  reported :
      {start ended : Event} {l : List Event}
      → Reports start ended
      → IsPaired l
      → IsPaired (start ∷ ended ∷ l)

append-IsPaired : {l m : List Event} → IsPaired l → IsPaired m → IsPaired (l ++ m)
append-IsPaired empty k = k
append-IsPaired (heading e h) k = heading e (append-IsPaired h k)
append-IsPaired (reported r h) k = reported r (append-IsPaired h k)

one-IsPaired : {e : Event} → IsHeading e → IsPaired (e ∷ [])
one-IsPaired h = heading h empty

read-IsPaired : {l : List Event} (id : String) → IsPaired l → IsPaired (map (read_task_id id) l)
unfolding read_task_id
read-IsPaired id empty = empty
read-IsPaired id (heading e h) = heading e (read-IsPaired id h)
read-IsPaired id (reported r h) =
    reported
      (record { starts = r.starts; ends = r.ends; same_uuid = r.same_uuid; parent = r.parent })
      (read-IsPaired id h)

module _ (out : Outside) (device playbook : String) where
  outcome-Reports :
      (start : Event) (c : ℕ) (host : Option String) (task : TaskItem) (item : Host)
      → start.event ≡ "playbook_on_task_start"
      → start.uuid ≡ task.id
      → Reports start (outcome out device playbook start.uuid c host task item)
  unfolding outcome runner_on_ok runner_on_failed runner_on_skipped runner_on
  outcome-Reports start c host task item e f = elim (Bool-cases item.failed) [
    | inl failed ↦
        rw failed (record { starts = e; ends = inr (inl refl); same_uuid = cc; parent = refl })
    | inr fine ↦ rw fine (elim (Bool-cases item.skipped) [
      | inl skipped ↦
          rw skipped (record { starts = e; ends = inr (inr refl); same_uuid = cc; parent = refl })
      | inr done ↦ rw done (record { starts = e; ends = inl refl; same_uuid = cc; parent = refl })
    ])
  ]

  host_events-IsPaired :
      (start : Event) (uuids : Map String ℕ) (item : Host) (task : TaskItem) (p : Progress)
      → IsPaired p.msg_list
      → IsPaired (host_events out device playbook start uuids item task p).1.msg_list
  unfolding host_events playbook_on_task_start
  host_events-IsPaired start uuids item task p h = append-IsPaired h (
      reported (outcome-Reports _ (p.msg_counter + 2) start.event_data.host _ item refl refl) empty)

  hosts_loop-IsPaired :
      (start : Event) (uuids : Map String ℕ) (hosts : Map String Host) (task : TaskItem)
      (p : Progress)
      → IsPaired p.msg_list
      → IsPaired (hosts_loop out device playbook start uuids hosts task p).1.msg_list
  unfolding hosts_loop
  hosts_loop-IsPaired start uuids [] task p h = h
  hosts_loop-IsPaired start uuids ((_, item) ∷ rest) task p h =
      hosts_loop-IsPaired start uuids rest _ _ (host_events-IsPaired start uuids item task p h)

  tasks_loop-IsPaired :
      (start : Event) (uuids : Map String ℕ) (tasks : List PlayTask) (p : Progress)
      → IsPaired p.msg_list
      → IsPaired (tasks_loop out device playbook start uuids tasks p).msg_list
  unfolding tasks_loop task_events
  tasks_loop-IsPaired start uuids [] p h = h
  tasks_loop-IsPaired start uuids (t ∷ rest) p h =
      tasks_loop-IsPaired start uuids rest (task_events out device playbook start uuids t p) (
        append-IsPaired h (
          read-IsPaired _
            (hosts_loop-IsPaired start uuids t.hosts t.task (record p { msg_list = [] }) empty)))

  announce-IsPaired :
      (play : Play) (p : Progress)
      → IsPaired p.msg_list
      → IsPaired (announce out device playbook play p).msg_list
  unfolding announce playbook_on_start
  announce-IsPaired play p h = elim (Bool-cases (p.msg_counter == 1)) [
    | inl e ↦ rw e (append-IsPaired h (one-IsPaired (inl refl)))
    | inr e ↦ rw e h
  ]

  opened-IsPaired :
      (play : Play) (p : Progress)
      → IsPaired p.msg_list
      → IsPaired (opened out device playbook play p).msg_list
  unfolding opened play_start
  opened-IsPaired play p h = append-IsPaired h (one-IsPaired (inr (inl refl)))

  play_events-IsPaired :
      (stats : Map String Stats) (play : Play) (p : Progress)
      → IsPaired p.msg_list
      → IsPaired (play_events out device playbook stats play p).msg_list
  unfolding play_events playbook_on_stats
  play_events-IsPaired stats play p h =
      let a = announce out device playbook play p in
      append-IsPaired
        (tasks_loop-IsPaired (play_start out device playbook play a) (count_occurence play.tasks)
          play.tasks (opened out device playbook play a)
          (opened-IsPaired play a (announce-IsPaired play p h)))
        (one-IsPaired (inr (inr refl)))

  plays_loop-IsPaired :
      (stats : Map String Stats) (plays : List Play) (p : Progress)
      → IsPaired p.msg_list
      → IsPaired (plays_loop out device playbook stats plays p).msg_list
  unfolding plays_loop
  plays_loop-IsPaired stats [] p h = h
  plays_loop-IsPaired stats (play ∷ rest) p h =
      plays_loop-IsPaired stats rest _ (play_events-IsPaired stats play p h)

  -- In the events of a run, each start of a task is followed at once by the outcome of the task at that
  -- host, which has the same id and names the start as what it belongs to; all other events are those
  -- of the playbook or of a play.
  pub event_transformer-IsPaired :
      (results : Results) → IsPaired (event_transformer out device playbook results)
  unfolding event_transformer
  event_transformer-IsPaired results =
      plays_loop-IsPaired results.stats (or_no_play results.plays) _ empty
