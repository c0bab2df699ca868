-- ===== src/Heartbeat/Beat.antt =====
-- `RetrieveInfo`, `buildHardwareInfo`, `send` and `pushInformation` of
-- internal/heartbeat/heartbeat.go: what a heartbeat carries, and what its answer changes.
use flotta_device_worker.Prelude.{
  ℕ, Bool, true, false, Option, none, some, String, List, [], ◌∷◌, ◌++◌, if◌then◌else◌, string_eq,
  ◌==◌, nat_beq,
}
use flotta_device_worker.Hardware.{Interface, HardwareInfo, get_mutable_hardware_info_delta}

abbrev pub scope_delta : String
scope_delta = "delta"

-- A workload or a playbook execution, as it is listed, and as it is reported with the time of its last
-- synchronisation, of a type `T`.
pub record Info : Type 0 where
  pub name : String
  pub status : String

pub record Status (T : Type 0) : Type 0 where
  pub name : String
  pub status : String
  pub last_data_upload : Option T

-- The two loops over the listed workloads and playbook executions.
unfoldable pub statuses : {T : Type 0} → (String → Option T) → List Info → List (Status T)
statuses last_sync [] = []
statuses last_sync (i ∷ is) =
    record { name = i.name; status = i.status; last_data_upload = last_sync i.name }
    ∷ statuses last_sync is

-- The answer of the dispatcher to one message.
pub data Reply : Type 0 where
  failed nil_response empty_response unparsable_response : Reply
  answered : ℕ → Reply

-- The message: events of a type `E`.
pub record Beat (X M E T : Type 0) : Type 0 where
  pub workloads : List (Status T)
  pub playbook_executions : List (Status T)
  pub hardware : Option (HardwareInfo X M)
  pub events : List E

-- What the rest of the program and the outside give during one push: the configuration, the lists of
-- workloads (empty if listing fails) and playbook executions, the hardware (`CreateHardwareMutable-
-- Information`, `GetHardwareInformation`), json.Marshal, and the dispatcher, whose answer may depend on
-- the messages before.
pub record Outside (X M E T : Type 0) : Type 0 where
  pub include : Bool
  pub scope : String
  pub workloads : List Info
  pub playbooks : List Info
  pub last_sync : String → Option T
  pub mutable_info : Option (HardwareInfo X M)
  pub full_info : Option (HardwareInfo X M)
  pub same_interfaces : List Interface → List Interface → Bool
  pub marshals : Bool
  pub replies : List (Beat X M E T) → Reply

-- The fields of `HeartbeatData` and `Heartbeat` that a push reads or changes, the events that wait in
-- the two managers, and the messages handed to the dispatcher. `reg` says whether `s.reg` is set.
pub record Pusher (X M E T : Type 0) : Type 0 where
  pub previous_mutable_hardware_info : Option (HardwareInfo X M)
  pub first_heartbeat : Bool
  pub reg : Bool
  pub workload_events : List E
  pub ansible_events : List E
  pub outbox : List (Beat X M E T)

-- `NewHeartbeatService`, which is given a registration and stores none.
unfoldable pub new_heartbeat_service : {X M E T : Type 0} → List E → List E → Pusher X M E T
new_heartbeat_service workload_events ansible_events = record {
  previous_mutable_hardware_info = none;
  first_heartbeat = true;
  reg = false;
  workload_events = workload_events;
  ansible_events = ansible_events;
  outbox = [];
}

pub data Result : Type 0 where
  ok : Result
  marshal_error send_error : Result
  -- a nil dereference
  panics : Result

module _ {X M E T : Type 0} (out : Outside X M E T) where
  -- `getMutableHardwareInfoDelta`
  unfoldable pub get_delta : Option (HardwareInfo X M) → HardwareInfo X M → HardwareInfo X M
  get_delta previous current =
      if out.scope == scope_delta
      then elim previous [
        | none ↦ current
        | some p ↦ get_mutable_hardware_info_delta out.same_interfaces p current
      ]
      else current

  -- `buildHardwareInfo`: what is sent, and the new previous information.
  unfoldable pub build_hardware_info :
      Option (HardwareInfo X M) → Option (HardwareInfo X M) × Option (HardwareInfo X M)
  unfolding get_delta
  build_hardware_info previous = elim out.mutable_info [
    | none ↦ (none, previous)
    | some current ↦ elim previous [
      | none ↦ (out.full_info, some current)
      | some p ↦ (some (get_delta (some p) current), some current)
    ]
  ]

  -- `RetrieveInfo`: the events leave their queues.
  unfoldable pub retrieve_info : Pusher X M E T → Beat X M E T × Pusher X M E T
  unfolding statuses
  retrieve_info s =
      let previous = s.previous_mutable_hardware_info in
      let built : Option (HardwareInfo X M) × Option (HardwareInfo X M) =
        if out.include then build_hardware_info previous else (none, previous) in
      (
        record {
          workloads = statuses out.last_sync out.workloads;
          playbook_executions = statuses out.last_sync out.playbooks;
          hardware = built.0;
          events = s.workload_events ++ s.ansible_events;
        },
        record s {
          previous_mutable_hardware_info = built.1;
          workload_events = [];
          ansible_events = [];
        },
      )

  -- `send`: any answer but 401 is taken for success.
  unfoldable pub send : Beat X M E T → Pusher X M E T → Result × Pusher X M E T
  send beat s =
      let s' = record s { outbox = s.outbox ++ beat ∷ [] } in
      elim (out.replies s.outbox) [
        | failed ↦ (send_error, s')
        | nil_response ↦ (panics, s')
        | empty_response ↦ (send_error, s')
        | unparsable_response ↦ (send_error, s')
        | answered code ↦
            if nat_beq code 401
            then if s.reg
              then (let s'' = record s' { outbox = s'.outbox ++ beat ∷ [] } in
                  elim (out.replies s'.outbox) [ failed ↦ (send_error, s'') | _ ↦ (ok, s'') ])
              else (panics, s')
            else (ok, s')
      ]

  -- The end of `pushInformation`, after `send`.
  unfoldable pub settle : Result × Pusher X M E T → Result × Pusher X M E T
  settle (ok, s) = (ok, record s { first_heartbeat = false })
  settle (send_error, s) = (
    send_error,
    if s.first_heartbeat then record s { previous_mutable_hardware_info = none } else s,
  )
  settle (r, s) = (r, s)

  unfoldable pub push_information : Pusher X M E T → Result × Pusher X M E T
  unfolding retrieve_info settle
  push_information s =
      let (beat, s') = retrieve_info s in
      if out.marshals then settle (send beat s') else (marshal_error, s')
