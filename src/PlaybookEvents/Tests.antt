-- ===== src/PlaybookEvents/Tests.antt =====
-- The theorems on internal/ansible/dispatcher/dispatcher_events.go at concrete inputs.
use flotta_device_worker.Prelude.{ℕ, ◌≡◌, true, false, Option, some, List, [], ◌∷◌, arith}
use flotta_device_worker.Prelude.Int.{pos}
use flotta_device_worker.PlaybookEvents.{Host, PlayTask, Results, Event, Outside}
use flotta_device_worker.PlaybookEvents.Events.{executor_on_start}
use flotta_device_worker.PlaybookEvents.Transform.{event_transformer}
use flotta_device_worker.PlaybookEvents.Names.{names, play_names, event_transformer-names}
use flotta_device_worker.PlaybookEvents.Paired.{IsPaired, event_transformer-IsPaired}
use flotta_device_worker.PlaybookEvents.Message.{create_message}
use flotta_device_worker.PlaybookEvents.Lines.{Outcome, create_message-lines}

abbrev outside : Outside
outside = record { new_uuid = "fresh"; decimal = λ n. "n" }

abbrev fine : Host
fine = record {
  action = "command";
  changed = true;
  stdout = "ok";
  stderr = "";
  failed = false;
  skipped = false;
}

abbrev broken : Host
broken = record fine { failed = true }

-- Two tasks under one id, as the free strategy reports them.
abbrev first_task : PlayTask
first_task = record {
  task = record { name = "ping"; id = "t"; start = "1" };
  hosts = ("a", fine) ∷ ("b", broken) ∷ [];
}

abbrev second_task : PlayTask
second_task = record {
  task = record { name = "ping"; id = "t"; start = "2" };
  hosts = ("c", fine) ∷ [];
}

abbrev one_play : Results
one_play = record {
  plays =
      some
        (record { id = "p"; start = "0"; stop = "3"; tasks = first_task ∷ second_task ∷ [] } ∷ []);
  stats = ("a", record { changed = pos 1; ok = pos 1; failures = pos 0 }) ∷ [];
}

abbrev reported_events : List Event
reported_events = event_transformer outside "device" "book.yml" one_play

event_transformer-names_example :
    names reported_events
    ≡ "playbook_on_play_start" ∷ "playbook_on_task_start" ∷ "v2_runner_on_ok"
      ∷ "playbook_on_task_start" ∷ "v2_runner_on_failed" ∷ "playbook_on_task_start"
      ∷ "v2_runner_on_ok" ∷ "playbook_on_stats" ∷ []
unfolding play_names
event_transformer-names_example = event_transformer-names outside "device" "book.yml" one_play

event_transformer-IsPaired_example : IsPaired reported_events
event_transformer-IsPaired_example = event_transformer-IsPaired outside "device" "book.yml" one_play

-- The bytes of "{}" for every event.
abbrev braces : Event → Option (List ℕ)
braces e = some (123 ∷ 125 ∷ [])

abbrev started : Event
started = executor_on_start outside "id" ""

create_message-lines_example :
    Outcome braces (started ∷ started ∷ []) (create_message braces (started ∷ started ∷ []))
create_message-lines_example =
    create_message-lines braces (λ e b made. ground (arith, made)) started (started ∷ [])
