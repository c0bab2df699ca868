-- ===== src/PlaybookEvents/Message.antt =====
-- `AnsibleDispatcher` of internal/ansible/dispatcher/dispatcher_events.go, and the message that it makes
-- of the events.
use flotta_device_worker.Prelude.{ℕ, Option, none, some, String, List, [], ◌∷◌, ◌++◌}
use flotta_device_worker.PlaybookEvents.{Results, Event, Outside}
use flotta_device_worker.PlaybookEvents.Transform.{event_transformer}

-- `AnsibleDispatcher`
pub record Dispatcher : Type 0 where
  pub device_id : String
  pub msg_list : List Event

unfoldable pub new_ansible_dispatcher : String → Dispatcher
new_ansible_dispatcher device_id = record { device_id = device_id; msg_list = [] }

-- `AddRunnerJobEvent`
unfoldable pub add_runner_job_event : Event → Dispatcher → Dispatcher
add_runner_job_event event d = record d { msg_list = d.msg_list ++ event ∷ [] }

-- `AddEvent`
unfoldable pub add_event : Outside → String → Results → Dispatcher → Dispatcher
add_event out playbook results d = record d {
  msg_list = d.msg_list ++ event_transformer out d.device_id playbook results;
}

-- `pb.Data`; its metadata is empty.
pub record Data : Type 0 where
  pub message_id : String
  pub directive : String
  pub response_to : String
  pub content : List ℕ

-- One line, a line feed, and what is left.
abbrev pub joined : Option (List ℕ) → Option (List ℕ) → Option (List ℕ)
joined none rest = none
joined (some b) none = none
joined (some b) (some rest) = some (b ++ b'\n' ∷ rest)

-- The bytes of the JSON of an event, or none if json.Marshal fails.
module _ (marshal : Event → Option (List ℕ)) where
  -- `CreateMessage`: one event to a line, with no line feed after the last.
  unfoldable pub create_message : List Event → Option (List ℕ)
  create_message [] = some []
  create_message (e ∷ []) = marshal e
  create_message (e ∷ next ∷ rest) = joined (marshal e) (create_message (next ∷ rest))

  -- `ComposeDispatcherMessage`
  unfoldable pub compose_dispatcher_message : Outside → List Event → String → String → Option Data
  unfolding create_message
  compose_dispatcher_message out events return_url response_to = elim (create_message events) [
    | none ↦ none
    | some content ↦ some (record {
      message_id = out.new_uuid;
      directive = return_url;
      response_to = response_to;
      content = content;
    })
  ]
