-- ===== src/AnsibleManager/Execute.antt =====
-- The goroutine that `HandlePlaybook` of internal/ansible/ansible_manager.go starts, `execPlaybook`, and
-- the loop in which `HandlePlaybook` waits for it, as steps of the two. The channels have no buffer, so
-- a value is handed over in one step of both.
use flotta_device_worker.Prelude.{
  ℕ, ◌+◌, ◌≡◌, Bool, true, false, not, ◌&&◌, Option, none, some, String, List, [], ◌∷◌, ◌++◌,
  lookup, string_eq, ◌==◌, if◌then◌else◌,
}
use flotta_device_worker.AnsibleMapping
use flotta_device_worker.AnsibleMapping.{
  Repository, Persist, exists, get_status, update_status, remove,
}
use flotta_device_worker.PlaybookEvents.{Event, Results}
use flotta_device_worker.PlaybookEvents.Events.{executor_on_failed}
use flotta_device_worker.PlaybookEvents.Message.{Dispatcher, add_runner_job_event, Data}
use flotta_device_worker.AnsibleManager.{parse_failure}
use flotta_device_worker.AnsibleManager.Handle.{
  Outside, Launch, State, send_events, completed_with_error, successfully_completed,
}

-- What is sent on `executionCompleted` other than nil.
pub data Failure : Type 0 where
  already_running not_read not_updated not_parsed run_failed : Failure

-- What the goroutine does after a value on `executionCompleted` was taken.
pub data After : Type 0 where
  returns runs_on : After
  parses_on : Bool → After

-- Where `execPlaybook` stands. A Boolean says whether the run of the playbook succeeded.
pub data Pc : Type 0 where
  checks reads marks runs ended : Pc
  reports parses removes : Bool → Pc
  hands : Option Results → Bool → Pc
  sends : Option Failure → After → Pc

-- Where `HandlePlaybook` stands.
pub data Handler : Type 0 where
  waiting timed_out : Handler
  returned : Option Failure → Handler

-- The two, what they share, the runs of the playbook, and the messages that went out.
pub record System : Type 0 where
  pub repository : Repository
  pub dispatcher : Dispatcher
  pub executor : Pc
  pub handler : Handler
  pub playbook_runs : ℕ
  pub sent : List Data

-- `go execPlaybook`
abbrev pub launched : State → System
launched s = record {
  repository = s.repository;
  dispatcher = s.dispatcher;
  executor = checks;
  handler = waiting;
  playbook_runs = 0;
  sent = [];
}

unfoldable pub follow : After → Pc
follow returns = ended
follow runs_on = runs
follow (parses_on done) = parses done

-- The goroutine goes on, unless the status could not be stored: that it has to tell first.
abbrev pub unless : Option AnsibleMapping.Err → After → Pc → Pc
unless none after next = next
unless (some _) after next = sends (some not_updated) after

abbrev pub status_of : Bool → String
status_of true = successfully_completed
status_of false = completed_with_error

abbrev pub failure_of : Bool → Option Failure
failure_of true = none
failure_of false = some run_failed

-- Somebody else runs this playbook.
unfoldable pub is_taken : String → Repository → Bool
is_taken name m = exists name m && not (get_status name m == "Deploying")

-- The steps that check whether to run, store the status, and forget the playbook.
unfoldable pub check : String → System → System
unfolding is_taken
check name s = record s {
  executor = if is_taken name s.repository then sends (some already_running) returns else reads;
}

unfoldable pub mark : String → System → System
mark name s =
    let (failed, m) = update_status name "Running" s.repository in
    record s { repository = m; executor = unless failed runs_on runs }

unfoldable pub report : String → Bool → System → System
report name done s =
    let (failed, m) = update_status name (status_of done) s.repository in
    record s { repository = m; executor = unless failed (parses_on done) (parses done) }

module _ (out : Outside) (launch : Launch) where
  -- The path is that of the content of the file, so of the playbook.
  unfoldable pub forget : Persist → Bool → System → System
  forget p done s = record s {
    repository = (remove p (out.path_of launch.playbook) s.repository).1;
    executor = sends (failure_of done) returns;
  }

  -- The results are taken in the loop.
  unfoldable pub hand_over : Option Results → Bool → System → System
  hand_over results done s =
      let (messages, d) = send_events out results launch s.dispatcher in
      record s { dispatcher = d; executor = removes done; sent = s.sent ++ messages }

  -- The last event of a list.
  abbrev pub last_of : List Event → Option Event
  last_of [] = none
  last_of (e ∷ []) = some e
  last_of (_ ∷ e ∷ rest) = last_of (e ∷ rest)

  -- The event for a run that completed with an error. The list is never empty here.
  abbrev pub add_failure : Option Event → Dispatcher → Dispatcher
  add_failure none d = d
  add_failure (some e) d =
      let (code, details) = parse_failure out.contains out.print e in
      add_runner_job_event
        (executor_on_failed out.events launch.correlation_id "" code (out.print details)) d

  unfoldable pub tell : Option Failure → Dispatcher → Dispatcher
  unfolding parse_failure
  tell none d = d
  tell (some _) d = add_failure (last_of d.msg_list) d

  -- The end of the execution is taken in the loop.
  unfoldable pub complete : Option Failure → After → System → System
  unfolding follow tell
  complete failure after s = record s {
    executor = follow after;
    handler = returned failure;
    dispatcher = tell failure s.dispatcher;
  }

  -- One step. What others do to the repository meanwhile leaves the status of this name alone: the
  -- playbooks of a message run one after the other.
  pub data Step : System → System → Type 0 where
    checked : {s : System} → s.executor ≡ checks → Step s (check launch.pe_name s)
    read : {s : System} → s.executor ≡ reads → Step s (record s { executor = marks })
    unreadable :
        {s : System}
        → s.executor ≡ reads
        → Step s (record s { executor = sends (some not_read) returns })
    marked : {s : System} → s.executor ≡ marks → Step s (mark launch.pe_name s)
    ran :
        {s : System} (done : Bool)
        → s.executor ≡ runs
        → Step s (record s { executor = reports done; playbook_runs = s.playbook_runs + 1 })
    reported :
        {s : System} (done : Bool)
        → s.executor ≡ reports done
        → Step s (report launch.pe_name done s)
    parsed :
        {s : System} (done : Bool) (results : Results)
        → s.executor ≡ parses done
        → Step s (record s { executor = hands (some results) done })
    unparsable :
        {s : System} (done : Bool)
        → s.executor ≡ parses done
        → Step s (record s { executor = sends (some not_parsed) returns })
    handed :
        {s : System} (results : Option Results) (done : Bool)
        → s.executor ≡ hands results done
        → s.handler ≡ waiting
        → Step s (hand_over results done s)
    removed :
        {s : System} (p : Persist) (done : Bool)
        → s.executor ≡ removes done
        → Step s (forget p done s)
    completed :
        {s : System} (failure : Option Failure) (after : After)
        → s.executor ≡ sends failure after
        → s.handler ≡ waiting
        → Step s (complete failure after s)
    times_out : {s : System} → s.handler ≡ waiting → Step s (record s { handler = timed_out })
    elsewhere :
        {s : System} (m : Repository)
        → lookup launch.pe_name m.name_status ≡ lookup launch.pe_name s.repository.name_status
        → Step s (record s { repository = m })

  pub data Steps : System → System → Type 0 where
    here : {s : System} → Steps s s
    later : {s t u : System} → Steps s t → Step t u → Steps s u
