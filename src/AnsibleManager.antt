-- ===== src/AnsibleManager.antt =====
-- internal/ansible/ansible_manager.go: the manager that takes playbooks from the operator and runs them.
pub mod Handle
pub mod Execute
pub mod Sound
pub mod Progress
pub mod Once
pub mod Pending
pub mod PendingRuns
pub mod Send
mod Tests
use flotta_device_worker.Prelude.{
  ℕ, ◌*◌, Bool, true, false, Option, none, some, String, List, [], ◌∷◌, ◌++◌, map, Map, lookup,
  string_eq, if◌then◌else◌,
}
use flotta_device_worker.Prelude.Int.{ℤ, pos, negsuc}
use flotta_device_worker.AnsibleMapping.{Repository}
use flotta_device_worker.PlaybookEvents.{Event}
use flotta_device_worker.PlaybookEvents.Message.{Dispatcher}
use flotta_device_worker.Heartbeat
use flotta_device_worker.Heartbeat.{Timer}

-- models.EventInfo
pub data EventType : Type 0 where
  info warn : EventType

pub record EventInfo : Type 0 where
  pub message : String
  pub reason : String
  pub type : EventType

-- `Manager`, less what it only passes on. Its ticker is made, kept and stopped as that of the heartbeat.
pub record Manager : Type 0 where
  pub dispatcher : Dispatcher
  pub repository : Repository
  pub events_queue : List EventInfo
  pub timer : Timer

-- `getInterval`, for the period of the configuration of the manager, if there is one.
unfoldable pub get_interval : Option ℤ → ℤ
unfolding Heartbeat.get_interval
get_interval = Heartbeat.get_interval

unfoldable pub stop_ticker : Timer → Timer
unfolding Heartbeat.stop_ticker
stop_ticker = Heartbeat.stop_ticker

unfoldable pub init_ticker : ℤ → Timer → Timer
unfolding Heartbeat.init_ticker
init_ticker = Heartbeat.init_ticker

unfoldable pub start : Option ℤ → Manager → Manager
unfolding Heartbeat.start
start period a = record a { timer = Heartbeat.start period a.timer }

unfoldable pub update : Option ℤ → Manager → Manager
unfolding Heartbeat.update
update period a = record a { timer = Heartbeat.update period a.timer }

unfoldable pub deregister : Manager → Manager
unfolding stop_ticker
deregister a = record a { timer = stop_ticker a.timer }

-- `getTimeout`, in seconds; `atoi` is strconv.Atoi.
unfoldable pub get_timeout : (String → Option ℤ) → Map String String → ℤ
get_timeout atoi metadata = elim (lookup "ansible-playbook-timeout" metadata) [
  | none ↦ pos 300
  | some text ↦ elim (atoi text) [ none ↦ pos 300 | some seconds ↦ seconds ]
]

-- `List`
unfoldable pub list : Manager → List (String × String)
list a = a.repository.name_status

unfoldable pub add_to_event_queue : EventInfo → Manager → Manager
add_to_event_queue event a = record a { events_queue = a.events_queue ++ event ∷ [] }

unfoldable pub pop_events : Manager → List EventInfo × Manager
pop_events a = (a.events_queue, record a { events_queue = [] })

-- `parseFailure`; `contains` is strings.Contains, `print` is the verb %v.
unfoldable pub parse_failure :
    (String → String → Bool) → (Option String → String) → Event → String × Option String
parse_failure contains print event = (
  if contains (print event.stdout)
        "The command was not found or was not executable: ansible-playbook"
      then "ANSIBLE_NOT_INSTALLED"
      else "UNDEFINED_ERROR",
  event.stdout,
)
