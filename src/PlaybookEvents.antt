-- ===== src/PlaybookEvents.antt =====
-- internal/ansible/dispatcher/dispatcher_events.go: the events that report a run of a playbook.
pub mod Events
pub mod Transform
pub mod Message
pub mod Counters
pub mod Names
pub mod Paired
pub mod Lines
mod Tests
use flotta_device_worker.Prelude.{ℕ, Bool, false, Option, none, String, List, [], Map}
use flotta_device_worker.Prelude.Int.{ℤ}

-- The results that ansible prints, as the types of go-ansible name them, as far as they are read.
-- The pointers in it are not nil.
pub record Host : Type 0 where
  pub action : String
  pub changed : Bool
  pub stdout : String
  pub stderr : String
  pub failed : Bool
  pub skipped : Bool

pub record TaskItem : Type 0 where
  pub name : String
  pub id : String
  pub start : String

pub record PlayTask : Type 0 where
  pub task : TaskItem
  pub hosts : Map String Host

pub record Play : Type 0 where
  pub id : String
  pub start : String
  pub stop : String
  pub tasks : List PlayTask

pub record Stats : Type 0 where
  pub changed : ℤ
  pub ok : ℤ
  pub failures : ℤ

pub record Results : Type 0 where
  pub plays : Option (List Play)
  pub stats : Map String Stats

-- A pointer to a text that no one changes, or to the id of the task item, which the next host of the
-- task may change.
pub data Pointer : Type 0 where
  to_copy : String → Pointer
  to_task_id : Pointer

-- `AnsibleRunnerJobEventYamlEventData`, as far as it is written. A field that is `none` or empty is
-- left out of the JSON.
pub record EventData : Type 0 where
  pub playbook : Option String
  pub playbook_uuid : Option String
  pub host : Option String
  pub task_uuid : Option Pointer
  pub task : Option String
  pub task_action : Option String
  pub res_changed : Option Bool
  pub uuid : Option Pointer
  pub changed : Map String ℤ
  pub ok : Map String ℤ
  pub failures : Map String ℤ
  pub crc_dispatcher_correlation_id : Option String
  pub crc_dispatcher_error_code : Option String
  pub crc_dispatcher_error_details : Option String

abbrev pub empty_data : EventData
empty_data = record {
  playbook = none;
  playbook_uuid = none;
  host = none;
  task_uuid = none;
  task = none;
  task_action = none;
  res_changed = none;
  uuid = none;
  changed = [];
  ok = [];
  failures = [];
  crc_dispatcher_correlation_id = none;
  crc_dispatcher_error_code = none;
  crc_dispatcher_error_details = none;
}

-- `AnsibleRunnerJobEventYaml`, less the lines, which are always 0.
pub record Event : Type 0 where
  pub event : String
  pub uuid : String
  pub counter : ℤ
  pub created : Option String
  pub runner_ident : Option String
  pub stdout : Option String
  pub stderr : Option String
  pub event_data : EventData

-- The code outside: `uuid.New`, for the events that have one of their own, and `strconv.Itoa`.
pub record Outside : Type 0 where
  pub new_uuid : String
  pub decimal : ℕ → String
