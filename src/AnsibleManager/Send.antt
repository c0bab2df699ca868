-- ===== src/AnsibleManager/Send.antt =====
-- `send` of internal/ansible/ansible_manager.go: the answer of the dispatcher holds playbooks, and each is
-- handled in turn.
use flotta_device_worker.Prelude.{
  Bool, false, Option, none, some, String, List, [], ◌∷◌, ◌++◌, Map, if◌then◌else◌, leb,
}
use flotta_device_worker.Prelude.Int.{ℤ, pos, negsuc}
use flotta_device_worker.AnsibleManager.{get_timeout}
use flotta_device_worker.AnsibleManager.Handle.{Value, text, other_value, Request}

-- models.PlaybookExecution
pub record PlaybookExecution : Type 0 where
  pub name : String
  pub ansible_playbook_string : String

-- `YGGDResponse`, and models.MessageResponse; its metadata is `none` if it is no map.
pub record YggdResponse : Type 0 where
  pub metadata : Map String String
  pub body : String
  pub status_code : ℤ

pub record MessageResponse : Type 0 where
  pub message_id : String
  pub metadata : Option (Map String Value)
  pub content : Value

-- The code outside: json.Unmarshal at the three types, and strconv.Atoi.
pub record Json : Type 0 where
  pub response : String → Option YggdResponse
  pub message : String → Option MessageResponse
  pub executions : String → Option (List PlaybookExecution)
  pub atoi : String → Option ℤ

-- What the dispatcher answers to `Send`.
pub data Reply : Type 0 where
  fails is_empty : Reply
  answers : String → Reply

pub data Outcome (E : Type 0) : Type 0 where
  not_sent no_response not_a_response not_a_message no_playbooks panics : Outcome E
  refused : ℤ → Outcome E
  handled : List E → Outcome E

abbrev pub is_refused : ℤ → Bool
is_refused (pos n) = leb 300 n
is_refused (negsuc n) = false

-- `HandlePlaybook` is a parameter here: it takes a request and the seconds of its time-out.
module _ {S E : Type 0} (handle_playbook : Request → ℤ → S → Option E × S) (json : Json) where
  abbrev pub errors_of : Option E → List E
  errors_of none = []
  errors_of (some e) = e ∷ []

  -- The request that is made of an execution.
  abbrev pub request : String → Map String Value → PlaybookExecution → Request
  request message_id metadata p = record {
    message_id = message_id;
    metadata = metadata;
    pe_name = p.name;
    playbook = p.ansible_playbook_string;
  }

  -- The loop over the playbooks.
  unfoldable pub handle_each :
      String → Map String Value → ℤ → List PlaybookExecution → S → List E × S
  handle_each message_id metadata timeout [] s = ([], s)
  handle_each message_id metadata timeout (p ∷ rest) s =
      let (failed, s') = handle_playbook (request message_id metadata p) timeout s in
      let (errors, s'') = handle_each message_id metadata timeout rest s' in
      (errors_of failed ++ errors, s'')

  -- The metadata is asserted to be a map when the first playbook is handled.
  unfoldable pub handle_all : MessageResponse → ℤ → List PlaybookExecution → S → Outcome E × S
  unfolding handle_each
  handle_all message timeout [] s = (handled [], s)
  handle_all message timeout (p ∷ rest) s = elim message.metadata [
    | none ↦ (panics, s)
    | some metadata ↦
        let (errors, s') = handle_each message.message_id metadata timeout (p ∷ rest) s in
        (handled errors, s')
  ]

  -- The content is asserted to be a text.
  unfoldable pub read_content : YggdResponse → MessageResponse → S → Outcome E × S
  unfolding handle_all get_timeout
  read_content response message s = elim message.content [
    | other_value ↦ (panics, s)
    | text content ↦ elim (json.executions content) [
      | none ↦ (no_playbooks, s)
      | some executions ↦ handle_all message (get_timeout json.atoi response.metadata) executions s
    ]
  ]

  unfoldable pub read_response : YggdResponse → S → Outcome E × S
  unfolding read_content
  read_response response s =
      if is_refused response.status_code
      then (refused response.status_code, s)
      else elim (json.message response.body) [
        | none ↦ (not_a_message, s)
        | some message ↦ read_content response message s
      ]

  unfoldable pub send : Reply → S → Outcome E × S
  unfolding read_response
  send fails s = (not_sent, s)
  send is_empty s = (no_response, s)
  send (answers response) s = elim (json.response response) [
    | none ↦ (not_a_response, s)
    | some parsed ↦ read_response parsed s
  ]
