-- ===== src/AnsibleManager/Tests.antt =====
-- The theorems on internal/ansible/ansible_manager.go at concrete inputs.
use flotta_device_worker.Prelude.{
  ◌<◌, ◌+◌, ◌≡◌, ◌≢◌, refl, inl, true, false, none, some, [], ◌∷◌, lookup, insert, string_eq,
}
use flotta_device_worker.Prelude.Action.{ok}
use flotta_device_worker.Heartbeat.{new_timer}
use flotta_device_worker.AnsibleMapping.{
  absent, empty_repository, not_marshalled, is_written, persist, add, remove, update_status, exists,
  get_status,
}
use flotta_device_worker.PlaybookEvents.{Results}
use flotta_device_worker.PlaybookEvents.Message.{Dispatcher}
use flotta_device_worker.AnsibleManager.{warn, Manager}
use flotta_device_worker.AnsibleManager.Handle.{
  text, Request, Outside, State, Launch, handle_playbook, send_events, is_executed,
}
use flotta_device_worker.AnsibleManager.Execute.{
  returns, marks, reports, hands, timed_out, System, launched, check, mark, report, forget,
  hand_over, complete, is_taken, Step, checked, read, marked, ran, reported, parsed, handed,
  removed, completed, times_out, Steps, here, later,
}
use flotta_device_worker.AnsibleManager.Sound.{IsSound, Steps-IsSound}
use flotta_device_worker.AnsibleManager.Progress.{CanStep, IsOwn, steps_left, Steps-CanStep}
use flotta_device_worker.AnsibleManager.Once.{RanToEnd, handle_playbook_once}
use flotta_device_worker.AnsibleManager.Pending
use flotta_device_worker.AnsibleManager.Pending.{run_failed, execute_pending_playbooks}
use flotta_device_worker.AnsibleManager.PendingRuns.{
  forgotten, obstacle, failures, without_results, played, execute_pending_playbooks_lem,
}

abbrev outside : Outside
outside = record {
  events = record { new_uuid = "fresh"; decimal = λ n. "n" };
  writes = true;
  mod_time = some 5;
  stores = true;
  persists = is_written;
  path_of = λ s. s;
  marshal = λ e. none;
  takes = λ m. true;
  contains = λ s part. false;
  print = λ s. "";
}

abbrev request : Request
request = record {
  message_id = "m";
  metadata = ("crc_dispatcher_correlation_id", text "c") ∷ ("return_url", text "u") ∷ [];
  pe_name = "reboot";
  playbook = "- hosts: all";
}

abbrev launch : Launch
launch = record {
  pe_name = "reboot";
  playbook = "- hosts: all";
  file = "/tmp/ansible_playbook_m.yml";
  correlation_id = "c";
  return_url = "u";
  response_to = "m";
}

-- A manager that has handled nothing.
abbrev idle : State
idle = record {
  dispatcher = record { device_id = "d"; msg_list = [] };
  repository = empty_repository absent;
}

abbrev deployed : State
deployed = record idle {
  repository = record (empty_repository absent) { name_status = ("reboot", "Deploying") ∷ [] };
}

deployed_status : lookup "reboot" deployed.repository.name_status ≡ some "Deploying"
unfolding lookup
deployed_status = refl

Steps-IsSound_example : IsSound "reboot" (record (launched deployed) { handler = timed_out })
Steps-IsSound_example =
    Steps-IsSound outside launch {s = deployed} deployed_status (later here (times_out refl))

Steps-CanStep_example :
    CanStep outside launch (launched deployed)
    × ((u : System) (st : Step outside launch (launched deployed) u)
        → IsOwn st
        → steps_left u.executor < 12)
Steps-CanStep_example = Steps-CanStep outside launch {s = deployed} deployed_status here refl

abbrev no_plays : Results
no_plays = record { plays = none; stats = [] }

-- The states of a run that succeeds.
abbrev at_start : System
at_start = launched (handle_playbook outside request idle).1

abbrev at_run : System
at_run = mark "reboot" (record (check "reboot" at_start) { executor = marks })

abbrev at_report : System
at_report =
    report "reboot" true
      (record at_run { executor = reports true; playbook_runs = at_run.playbook_runs + 1 })

abbrev at_end : System
at_end = complete outside launch none returns (
    forget outside launch not_marshalled true (
      hand_over outside launch (some no_plays) true
        (record at_report { executor = hands (some no_plays) true })))

request_launches : (handle_playbook outside request idle).0 ≡ ok launch
unfolding handle_playbook is_executed exists get_status lookup insert add persist
request_launches = refl

at_end-Steps : Steps outside launch at_start at_end
unfolding check mark report hand_over forget complete send_events handle_playbook is_executed
    is_taken exists get_status lookup insert add persist update_status remove
at_end-Steps =
    later
      (later
        (later
          (later
            (later
              (later (later (later (later here (checked refl)) (read refl)) (marked refl))
                (ran true refl))
              (reported true refl))
            (parsed true no_plays refl))
          (handed (some no_plays) true refl refl))
        (removed not_marshalled true refl))
      (completed none returns refl refl)

at_end-RanToEnd : RanToEnd outside at_end.handler
unfolding complete
at_end-RanToEnd = inl refl

handle_playbook_once_example :
    (at_end.playbook_runs ≡ 1)
    × ((r' : Request) (d : Dispatcher) (l' : Launch)
        → r'.pe_name ≡ "reboot"
        → (handle_playbook outside r' (record { dispatcher = d; repository = at_end.repository })).0
          ≢ ok l')
handle_playbook_once_example =
    handle_playbook_once outside request idle launch request_launches at_end at_end-Steps
      at_end-RanToEnd

-- The run of "a" fails, and "b" prints nothing.
abbrev pending : Pending.Outside
pending = record {
  content = λ file. some file;
  succeeds = λ file. false;
  prints = λ file. elim (lookup file (("b", false) ∷ [])) [ none ↦ true | some p ↦ p ];
  path_of = λ s. s;
  persists = not_marshalled;
  text = λ errors. "failed";
}

abbrev manager : Manager
manager = record {
  dispatcher = record { device_id = "d"; msg_list = [] };
  repository = empty_repository absent;
  events_queue = [];
  timer = new_timer;
}

execute_pending_playbooks_lem_example : execute_pending_playbooks pending ("a" ∷ []) manager ≡ (
  run_failed "a" ∷ [],
  "a" ∷ [],
  record manager {
    repository = forgotten pending ("a" ∷ []) manager.repository;
    events_queue = record { message = "failed"; reason = "Failed"; type = warn } ∷ [];
  },
)
unfolding obstacle without_results failures played lookup
execute_pending_playbooks_lem_example = execute_pending_playbooks_lem pending ("a" ∷ []) manager
