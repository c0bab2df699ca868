-- ===== src/PlaybookEvents/Events.antt =====
-- One function per event that internal/ansible/dispatcher/dispatcher_events.go makes.
use flotta_device_worker.Prelude.{
  ℕ, ◌+◌, Option, none, some, String, List, [], ◌∷◌, map, Map, lookup, insert, if◌then◌else◌, ltb,
  string_eq,
}
use flotta_device_worker.Prelude.Int.{pos, negsuc}
use flotta_device_worker.PlaybookEvents.{
  Host, TaskItem, PlayTask, Play, Stats, to_copy, to_task_id, EventData, empty_data, Event, Outside,
}
use Prim.Native.String.{◌++◌ as concat}

abbrev pub or_zero : Option ℕ → ℕ
or_zero none = 0
or_zero (some n) = n

-- `strings.Join` with a comma.
unfoldable pub join : List String → String
join [] = ""
join (a ∷ []) = a
join (a ∷ b ∷ rest) = concat a (concat "," (join (b ∷ rest)))

-- `getHostsString`: each task overwrites what the one before gave.
unfoldable pub hosts_string_from : String → List PlayTask → String
hosts_string_from hosts [] = hosts
hosts_string_from hosts (t ∷ rest) = hosts_string_from (join (map (λ h. h.0) t.hosts)) rest

unfoldable pub get_hosts_string : List PlayTask → String
unfolding hosts_string_from
get_hosts_string = hosts_string_from ""

-- `countOccurence`
unfoldable pub count_from : Map String ℕ → List PlayTask → Map String ℕ
count_from dict [] = dict
count_from dict (t ∷ rest) =
    count_from (insert t.task.id (or_zero (lookup t.task.id dict) + 1) dict) rest

unfoldable pub count_occurence : List PlayTask → Map String ℕ
unfolding count_from
count_occurence = count_from []

-- `PlaybookOnStart`
unfoldable pub playbook_on_start : Outside → String → String → ℕ → Play → Event
playbook_on_start out device playbook msg_counter play = record {
  event = "playbook_on_start";
  uuid = out.new_uuid;
  counter = pos msg_counter;
  created = some play.start;
  runner_ident = some device;
  stdout = none;
  stderr = none;
  event_data = record empty_data {
    playbook_uuid = some out.new_uuid;
    playbook = some playbook;
    host = some (get_hosts_string play.tasks);
    uuid = some (to_copy play.id);
  };
}

-- `PlaybookOnPlayStart`
unfoldable pub playbook_on_play_start : String → String → ℕ → Play → Event
playbook_on_play_start device playbook msg_counter play = record {
  event = "playbook_on_play_start";
  uuid = play.id;
  counter = pos msg_counter;
  created = some play.start;
  runner_ident = some device;
  stdout = none;
  stderr = none;
  event_data = record empty_data {
    playbook_uuid = some play.id;
    playbook = some playbook;
    host = some (get_hosts_string play.tasks);
    uuid = some (to_copy play.id);
  };
}

-- The id of a task in `PlaybookOnTaskStart`: it gets a number if the play has it more than once.
unfoldable pub count_task : String → Map String ℕ → Map String ℕ → Map String ℕ
count_task id task_uuids duplicate_task_count =
    if ltb 1 (or_zero (lookup id task_uuids))
    then insert id (or_zero (lookup id duplicate_task_count) + 1) duplicate_task_count
    else duplicate_task_count

unfoldable pub name_task : Outside → String → Map String ℕ → Map String ℕ → String
unfolding count_task
name_task out id task_uuids duplicate_task_count =
    if ltb 1 (or_zero (lookup id task_uuids))
    then (let count = or_zero (lookup id (count_task id task_uuids duplicate_task_count)) in
        concat id (concat "_" (out.decimal count)))
    else id

-- `PlaybookOnTaskStart`, for the id that the task has by now.
unfoldable pub playbook_on_task_start :
    String → String → String → ℕ → Option String → TaskItem → Host → Event
playbook_on_task_start runner playbook playbook_uuid msg_counter host task item = record {
  event = "playbook_on_task_start";
  uuid = task.id;
  counter = pos msg_counter;
  created = some task.start;
  runner_ident = some runner;
  stdout = some item.stdout;
  stderr = none;
  event_data = record empty_data {
    playbook = some playbook;
    playbook_uuid = some playbook_uuid;
    host = host;
    task_uuid = some (to_copy task.id);
    task = some task.name;
    task_action = some item.action;
    uuid = some (to_copy task.id);
  };
}

-- What `RunnerOnOk`, `RunnerOnFailed` and `RunnerOnSkipped` share. Their data points at the id.
unfoldable pub runner_on :
    String → Option String → String → String → String → ℕ → Option String → TaskItem → Host → Event
runner_on event stderr runner playbook playbook_uuid msg_counter host task item = record {
  event = event;
  uuid = task.id;
  counter = pos msg_counter;
  created = some task.start;
  runner_ident = some runner;
  stdout = some item.stdout;
  stderr = stderr;
  event_data = record empty_data {
    playbook = some playbook;
    playbook_uuid = some playbook_uuid;
    host = host;
    task_uuid = some to_task_id;
    task = some task.name;
    task_action = some item.action;
    res_changed = some item.changed;
    uuid = some to_task_id;
  };
}

module _ (runner playbook playbook_uuid : String) (msg_counter : ℕ) (host : Option String)
    (task : TaskItem) (item : Host) where
  unfoldable pub runner_on_ok : Event
  unfolding runner_on
  runner_on_ok =
      runner_on "v2_runner_on_ok" none runner playbook playbook_uuid msg_counter host task item

  unfoldable pub runner_on_failed : Event
  unfolding runner_on
  runner_on_failed =
      runner_on "v2_runner_on_failed" (some item.stderr) runner playbook playbook_uuid msg_counter
        host task item

  unfoldable pub runner_on_skipped : Event
  unfolding runner_on
  runner_on_skipped =
      runner_on "v2_runner_on_skipped" (some item.stderr) runner playbook playbook_uuid msg_counter
        host task item

-- The loop over the statistics in `playbookOnStats`.
unfoldable pub add_stats : Map String Stats → EventData → EventData
add_stats [] d = d
add_stats ((host, s) ∷ rest) d = add_stats rest (record d {
  changed = insert host s.changed d.changed;
  ok = insert host s.ok d.ok;
  failures = insert host s.failures d.failures;
})

unfoldable pub playbook_on_stats : String → String → ℕ → String → Map String Stats → Event
playbook_on_stats runner playbook msg_counter created stats = record {
  event = "playbook_on_stats";
  uuid = "";
  counter = pos msg_counter;
  created = some created;
  runner_ident = some runner;
  stdout = none;
  stderr = none;
  event_data = add_stats stats (record empty_data { playbook_uuid = some playbook });
}

-- `ExecutorOnStart`
unfoldable pub executor_on_start : Outside → String → String → Event
executor_on_start out correlation_id stdout = record {
  event = "executor_on_start";
  uuid = out.new_uuid;
  counter = negsuc 0;
  created = none;
  runner_ident = none;
  stdout = some stdout;
  stderr = none;
  event_data = record empty_data { crc_dispatcher_correlation_id = some correlation_id };
}

-- `ExecutorOnFailed`
unfoldable pub executor_on_failed : Outside → String → String → String → String → Event
executor_on_failed out correlation_id stdout error_code error_details = record {
  event = "executor_on_failed";
  uuid = out.new_uuid;
  counter = negsuc 0;
  created = none;
  runner_ident = none;
  stdout = some stdout;
  stderr = none;
  event_data = record empty_data {
    crc_dispatcher_correlation_id = some correlation_id;
    crc_dispatcher_error_code = some error_code;
    crc_dispatcher_error_details = some error_details;
  };
}
