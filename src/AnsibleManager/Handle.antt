-- ===== src/AnsibleManager/Handle.antt =====
-- `HandlePlaybook` of internal/ansible/ansible_manager.go up to the start of the goroutine that runs the
-- playbook, and `sendEvents`.
use flotta_device_worker.Prelude.{
  ℕ, Bool, true, false, ◌&&◌, ◌||◌, Option, none, some, String, List, [], ◌∷◌, Map, lookup,
  string_eq, ◌==◌, if◌then◌else◌,
}
use Prim.Native.String.{◌++◌ as concat}
use flotta_device_worker.Prelude.Action.{Result, ok, err, Action, ◌>>=◌, pure, raise}
use flotta_device_worker.AnsibleMapping
use flotta_device_worker.AnsibleMapping.{Repository, Persist, add, exists, get_status}
use flotta_device_worker.PlaybookEvents
use flotta_device_worker.PlaybookEvents.{Event, Results}
use flotta_device_worker.PlaybookEvents.Events.{executor_on_start}
use flotta_device_worker.PlaybookEvents.Message.{
  Dispatcher, add_runner_job_event, add_event, Data, compose_dispatcher_message,
}

-- A value of the metadata.
pub data Value : Type 0 where
  text : String → Value
  other_value : Value

-- What a message of the operator asks for.
pub record Request : Type 0 where
  pub message_id : String
  pub metadata : Map String Value
  pub pe_name : String
  pub playbook : String

-- The code outside: what the events need, the file of the playbook (whether it is written, and its time
-- of modification, if it is there), the file of the mapping, the path that the mapping has for a
-- content, the JSON of an event, whether the dispatcher takes a message, strings.Contains and %v.
pub record Outside : Type 0 where
  pub events : PlaybookEvents.Outside
  pub writes : Bool
  pub mod_time : Option ℕ
  pub stores : Bool
  pub persists : Persist
  pub path_of : String → String
  pub marshal : Event → Option (List ℕ)
  pub takes : Data → Bool
  pub contains : String → String → Bool
  pub print : Option String → String

pub data Refusal : Type 0 where
  empty_message not_created no_stat not_added : Refusal
  missing_attribute not_a_text already_executed : String → Refusal

-- What the manager changes.
pub record State : Type 0 where
  pub dispatcher : Dispatcher
  pub repository : Repository

-- What the goroutine is started with.
pub record Launch : Type 0 where
  pub pe_name : String
  pub playbook : String
  pub file : String
  pub correlation_id : String
  pub return_url : String
  pub response_to : String

abbrev pub crc_dispatcher_attribute : String
crc_dispatcher_attribute = "crc_dispatcher_correlation_id"

abbrev pub return_url_attribute : String
return_url_attribute = "return_url"

-- A field of the metadata that has to be there and to be a text.
abbrev pub text_of : String → Option Value → Result Refusal String
text_of attribute none = err (missing_attribute attribute)
text_of attribute (some other_value) = err (not_a_text attribute)
text_of attribute (some (text s)) = ok s

unfoldable pub required : String → Map String Value → Action State Refusal String
required attribute metadata s = (text_of attribute (lookup attribute metadata), s)

abbrev pub guard : Bool → Refusal → Action State Refusal (Unit {0})
guard true refusal = pure tt
guard false refusal = raise refusal

-- path.Join(dataDir, ...)
abbrev pub playbook_yaml_file : String → String
playbook_yaml_file message_id = concat "/tmp/ansible_playbook_" (concat message_id ".yml")

abbrev pub completed_with_error : String
completed_with_error = "CompletedWithError"

abbrev pub successfully_completed : String
successfully_completed = "SuccessfullyCompleted"

-- The playbook was run to its end already.
unfoldable pub is_executed : String → Repository → Bool
is_executed name m =
    exists name m
    && (get_status name m == completed_with_error || get_status name m == successfully_completed)

module _ (out : Outside) where
  -- The first event of the run.
  unfoldable pub announce : String → Action State Refusal (Unit {0})
  announce correlation_id s = (
    ok tt,
    record s {
      dispatcher =
          add_runner_job_event (executor_on_start out.events correlation_id "") s.dispatcher;
    },
  )

  -- os.Stat of the file.
  unfoldable pub stat : Action State Refusal ℕ
  stat s = elim out.mod_time [ none ↦ (err no_stat, s) | some time ↦ (ok time, s) ]

  unfoldable pub not_executed : String → Action State Refusal (Unit {0})
  unfolding is_executed
  not_executed name s =
      if is_executed name s.repository
      then (err (already_executed (get_status name s.repository)), s)
      else (ok tt, s)

  abbrev pub not_failed : Option AnsibleMapping.Err → Result Refusal (Unit {0})
  not_failed none = ok tt
  not_failed (some _) = err not_added

  -- The path of the file, and not the playbook, is what `Add` is given as the content.
  unfoldable pub add_to_repository : String → String → ℕ → Action State Refusal (Unit {0})
  add_to_repository name file time s =
      let added =
        add out.stores out.persists name (out.path_of file) time "Deploying" s.repository in
      (not_failed added.0, record s { repository = added.1 })

  -- `HandlePlaybook` from os.Stat to `go execPlaybook`.
  unfoldable pub prepare : Request → String → String → Action State Refusal Launch
  unfolding stat not_executed add_to_repository
  prepare r correlation_id return_url = do
    time ← stat
    _ ← not_executed r.pe_name
    _ ← add_to_repository r.pe_name (playbook_yaml_file r.message_id) time
    pure (record {
      pe_name = r.pe_name;
      playbook = r.playbook;
      file = playbook_yaml_file r.message_id;
      correlation_id = correlation_id;
      return_url = return_url;
      response_to = r.message_id;
    })

  -- `HandlePlaybook` up to `go execPlaybook`.
  unfoldable pub handle_playbook : Request → Action State Refusal Launch
  unfolding required announce prepare
  handle_playbook r = do
    _ ← guard (if r.playbook == "" then false else true) empty_message
    correlation_id ← required crc_dispatcher_attribute r.metadata
    return_url ← required return_url_attribute r.metadata
    _ ← guard out.writes not_created
    _ ← announce correlation_id
    prepare r correlation_id return_url

  abbrev pub sent_if : Bool → Data → List Data
  sent_if true message = message ∷ []
  sent_if false message = []

  abbrev pub sent_of : Option Data → List Data
  sent_of none = []
  sent_of (some message) = sent_if (out.takes message) message

  -- `sendEvents`: the messages that go out, and the dispatcher. The message has all events so far.
  unfoldable pub send_events : Option Results → Launch → Dispatcher → List Data × Dispatcher
  send_events none launch d = ([], d)
  send_events (some results) launch d = elim results.plays [
    | none ↦ ([], d)
    | some _ ↦
        let d' = add_event out.events launch.file results d in
        (
          sent_of (
              compose_dispatcher_message out.marshal out.events d'.msg_list launch.return_url
                launch.response_to),
          d',
        )
  ]
