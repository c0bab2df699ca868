-- ===== src/PlaybookEvents/Names.antt =====
-- Which events internal/ansible/dispatcher/dispatcher_events.go makes of the results of a run.
use flotta_device_worker.Prelude.{
  ℕ, ◌≡◌, ◌≢◌, refl, ◌∙◌, sym, ap, Option, String, List, [], ◌∷◌, ◌++◌, map, Map, arith,
  if◌then◌else◌,
}
use mathlib.Core.List.{map-append, append_assoc, append-nil}
use flotta_device_worker.PlaybookEvents.{
  Host, TaskItem, PlayTask, Play, Stats, Results, Event, Outside,
}
use flotta_device_worker.PlaybookEvents.Events.{
  playbook_on_play_start, playbook_on_task_start, runner_on, runner_on_ok, runner_on_failed,
  runner_on_skipped, playbook_on_stats,
}
use flotta_device_worker.PlaybookEvents.Transform.{
  Progress, read_task_id, outcome, host_events, hosts_loop, task_events, tasks_loop, play_start,
  opened, play_events, plays_loop, or_no_play, event_transformer,
}
use flotta_device_worker.PlaybookEvents.Counters.{announce_not, play_events-counter}

abbrev pub names : List Event → List String
names = map (λ e. e.event)

-- The names that one expects, from the results alone.
abbrev pub outcome_name : Host → String
outcome_name item =
    if item.failed
    then "v2_runner_on_failed"
    else if item.skipped
    then "v2_runner_on_skipped"
    else "v2_runner_on_ok"

unfoldable pub host_names : Map String Host → List String
host_names [] = []
host_names ((_, item) ∷ rest) = "playbook_on_task_start" ∷ outcome_name item ∷ host_names rest

unfoldable pub task_names : List PlayTask → List String
unfolding host_names
task_names [] = []
task_names (t ∷ rest) = host_names t.hosts ++ task_names rest

unfoldable pub play_names : List Play → List String
unfolding task_names
play_names [] = []
play_names (play ∷ rest) =
    "playbook_on_play_start" ∷ task_names play.tasks ++ ("playbook_on_stats" ∷ play_names rest)

names-append : (l m : List Event) → names (l ++ m) ≡ names l ++ names m
names-append l m = map-append (λ e. e.event) l m

names-read : (id : String) (l : List Event) → names (map (read_task_id id) l) ≡ names l
unfolding read_task_id
names-read id [] = refl
names-read id (e ∷ l) = ap (λ x. e.event ∷ x) (names-read id l)

module _ (out : Outside) (device playbook : String) where
  outcome-event :
      (parent : String) (c : ℕ) (host : Option String) (task : TaskItem) (item : Host)
      → (outcome out device playbook parent c host task item).event ≡ outcome_name item
  unfolding outcome runner_on_ok runner_on_failed runner_on_skipped runner_on
  outcome-event parent c host task item = ground arith

  hosts_loop-names :
      (start : Event) (uuids : Map String ℕ) (hosts : Map String Host) (task : TaskItem)
      (p : Progress)
      → names (hosts_loop out device playbook start uuids hosts task p).1.msg_list
        ≡ names p.msg_list ++ host_names hosts
  unfolding hosts_loop host_events playbook_on_task_start host_names
  hosts_loop-names start uuids [] task p = sym (append-nil _)
  hosts_loop-names start uuids ((_, item) ∷ rest) task p =
      let next = host_events out device playbook start uuids item task p in
      hosts_loop-names start uuids rest next.0 next.1
      ∙ simp (names-append, outcome-event, append_assoc)

  tasks_loop-names :
      (start : Event) (uuids : Map String ℕ) (tasks : List PlayTask) (p : Progress)
      → names (tasks_loop out device playbook start uuids tasks p).msg_list
        ≡ names p.msg_list ++ task_names tasks
  unfolding tasks_loop task_events task_names
  tasks_loop-names start uuids [] p = sym (append-nil _)
  tasks_loop-names start uuids (t ∷ rest) p =
      tasks_loop-names start uuids rest (task_events out device playbook start uuids t p)
      ∙ simp (names-append, names-read, hosts_loop-names, append_assoc)

  play_events-names :
      (stats : Map String Stats) (play : Play) (p : Progress)
      → p.msg_counter ≢ 1
      → names (play_events out device playbook stats play p).msg_list
        ≡ names p.msg_list
          ++ ("playbook_on_play_start" ∷ task_names play.tasks ++ "playbook_on_stats" ∷ [])
  unfolding play_events opened play_start playbook_on_play_start playbook_on_stats
  play_events-names stats play p ne =
      rw (announce_not out device playbook play p ne)
        (simp (names-append, tasks_loop-names, append_assoc))

  plays_loop-names :
      (stats : Map String Stats) (plays : List Play) (p : Progress)
      → p.msg_counter ≢ 1
      → names (plays_loop out device playbook stats plays p).msg_list
        ≡ names p.msg_list ++ play_names plays
  unfolding plays_loop play_names
  plays_loop-names stats [] p ne = sym (append-nil _)
  plays_loop-names stats (play ∷ rest) p ne =
      plays_loop-names stats rest _ (play_events-counter out device playbook stats play p ne)
      ∙ rw (play_events-names stats play p ne) (simp append_assoc)

  -- The events of a run are, by their names and in their order: for each play its start, then for each
  -- host of each task the start of the task and its outcome, and then the statistics. There is never
  -- an event for the start of the playbook.
  pub event_transformer-names :
      (results : Results)
      → names (event_transformer out device playbook results)
        ≡ play_names (or_no_play results.plays)
  unfolding event_transformer
  event_transformer-names results =
      plays_loop-names results.stats (or_no_play results.plays) _ (λ e. omega (arith, e))
