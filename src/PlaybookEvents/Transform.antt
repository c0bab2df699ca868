-- ===== src/PlaybookEvents/Transform.antt =====
-- `eventTransformer` of internal/ansible/dispatcher/dispatcher_events.go: from the results of a run to
-- its events.
use flotta_device_worker.Prelude.{
  ℕ, ◌+◌, Option, none, some, String, List, [], ◌∷◌, ◌++◌, map, Map, if◌then◌else◌, ◌==◌, nat_eq,
}
use flotta_device_worker.PlaybookEvents.{
  Host, TaskItem, PlayTask, Play, Stats, Results, Pointer, to_copy, to_task_id, Event, Outside,
}
use flotta_device_worker.PlaybookEvents.Events.{
  count_occurence, playbook_on_start, playbook_on_play_start, count_task, name_task,
  playbook_on_task_start, runner_on_ok, runner_on_failed, runner_on_skipped, playbook_on_stats,
}

-- The variables of the loops: `msgList`, `msgCounter`, `duplicateTaskCount`.
pub record Progress : Type 0 where
  pub msg_list : List Event
  pub msg_counter : ℕ
  pub duplicate_task_count : Map String ℕ

-- What a pointer to the id of a task reads when that is `id`.
abbrev pub read : String → Pointer → Pointer
read id (to_copy s) = to_copy s
read id to_task_id = to_copy id

abbrev pub read_field : String → Option Pointer → Option Pointer
read_field id none = none
read_field id (some p) = some (read id p)

unfoldable pub read_task_id : String → Event → Event
read_task_id id e = record e {
  event_data = record e.event_data {
    task_uuid = read_field id e.event_data.task_uuid;
    uuid = read_field id e.event_data.uuid;
  };
}

abbrev pub or_no_play : Option (List Play) → List Play
or_no_play none = []
or_no_play (some plays) = plays

module _ (out : Outside) (device playbook : String) where
  -- The outcome of a task at a host.
  unfoldable pub outcome : String → ℕ → Option String → TaskItem → Host → Event
  outcome parent msg_counter host task item =
      if item.failed
      then runner_on_failed device playbook parent msg_counter host task item
      else if item.skipped
      then runner_on_skipped device playbook parent msg_counter host task item
      else runner_on_ok device playbook parent msg_counter host task item

  -- The two events of a host; the task keeps the id that it got.
  unfoldable pub host_events :
      Event → Map String ℕ → Host → TaskItem → Progress → TaskItem × Progress
  unfolding playbook_on_task_start outcome
  host_events play_start task_uuids item task p =
      let task' = record task { id = name_task out task.id task_uuids p.duplicate_task_count } in
      let host = play_start.event_data.host in
      let on_start =
        playbook_on_task_start device playbook play_start.uuid (p.msg_counter + 1) host task'
          item in
      let ended = outcome on_start.uuid (p.msg_counter + 2) host task' item in
      (
        task',
        record {
          msg_list = p.msg_list ++ (on_start ∷ ended ∷ []);
          msg_counter = p.msg_counter + 2;
          duplicate_task_count = count_task task.id task_uuids p.duplicate_task_count;
        },
      )

  unfoldable pub hosts_loop :
      Event → Map String ℕ → Map String Host → TaskItem → Progress → TaskItem × Progress
  unfolding host_events
  hosts_loop play_start task_uuids [] task p = (task, p)
  hosts_loop play_start task_uuids ((_, item) ∷ rest) task p =
      let next = host_events play_start task_uuids item task p in
      hosts_loop play_start task_uuids rest next.0 next.1

  -- The pointers of the events read the id that the task has after its last host.
  unfoldable pub task_events : Event → Map String ℕ → PlayTask → Progress → Progress
  unfolding hosts_loop read_task_id
  task_events play_start task_uuids t p =
      let done = hosts_loop play_start task_uuids t.hosts t.task (record p { msg_list = [] }) in
      record done.1 { msg_list = p.msg_list ++ map (read_task_id done.0.id) done.1.msg_list }

  unfoldable pub tasks_loop : Event → Map String ℕ → List PlayTask → Progress → Progress
  unfolding task_events
  tasks_loop play_start task_uuids [] p = p
  tasks_loop play_start task_uuids (t ∷ rest) p =
      tasks_loop play_start task_uuids rest (task_events play_start task_uuids t p)

  -- The event of the whole playbook, which is added if the counter is 1.
  unfoldable pub announce : Play → Progress → Progress
  announce play p =
      if p.msg_counter == 1
      then record p {
        msg_list = p.msg_list ++ playbook_on_start out device playbook p.msg_counter play ∷ [];
      }
      else p

  unfoldable pub play_start : Play → Progress → Event
  unfolding playbook_on_play_start
  play_start play p = playbook_on_play_start device playbook (p.msg_counter + 1) play

  unfoldable pub opened : Play → Progress → Progress
  unfolding play_start
  opened play p = record p {
    msg_list = p.msg_list ++ play_start play p ∷ [];
    msg_counter = p.msg_counter + 1;
  }

  unfoldable pub play_events : Map String Stats → Play → Progress → Progress
  unfolding announce tasks_loop opened
  play_events stats play p =
      let announced = announce play p in
      let start = play_start play announced in
      let done = tasks_loop start (count_occurence play.tasks) play.tasks (opened play announced) in
      let counter = done.msg_counter + 1 in
      record done {
        msg_list = done.msg_list ++ playbook_on_stats device playbook counter play.stop stats ∷ [];
        msg_counter = counter;
      }

  unfoldable pub plays_loop : Map String Stats → List Play → Progress → Progress
  unfolding play_events
  plays_loop stats [] p = p
  plays_loop stats (play ∷ rest) p = plays_loop stats rest (play_events stats play p)

  unfoldable pub event_transformer : Results → List Event
  unfolding plays_loop
  event_transformer events =
      (plays_loop events.stats (or_no_play events.plays)
        (record { msg_list = []; msg_counter = 0; duplicate_task_count = [] })).msg_list
