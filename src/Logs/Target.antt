-- ===== src/Logs/Target.antt =====
-- `WorkloadsLogsTarget` of internal/logs/workload.go: the transports of log lines, each with a buffer and
-- a goroutine that sends what is in it, and the writers that copy the lines of a workload to a buffer.
use flotta_device_worker.Prelude.{
  ℕ, suc, Bool, true, false, Option, none, some, String, List, [], ◌∷◌, ◌++◌, map, if◌then◌else◌,
  Map, lookup, insert, delete, string_eq, ◌==◌,
}

-- A log target of the configuration, by its kind.
pub data Kind : Type 0 where
  syslog : Kind
  other_kind : String → Kind

-- A writer: the transport that it is for, and the buffer, by its number, that it writes to.
pub record Writer : Type 0 where
  pub target_name : String
  pub log : ℕ

pub data Call : Type 0 where
  starts stops : String → Call

-- models.Workload, of which the name and the log target ("" if there is none) are read.
pub record Workload : Type 0 where
  pub name : String
  pub log_collection : String

-- The fields of `WorkloadsLogsTarget`. A transport is the number of its buffer; `senders` are the buffers
-- whose goroutine was started and is not cancelled, and `next` numbers the next buffer.
pub record Target : Type 0 where
  pub transports : Map String ℕ
  pub wwriter : Map String Writer
  pub workloads_config : Map String String
  pub senders : List ℕ
  pub next : ℕ
  pub calls : List Call

-- `NewWorkloadsLogsTarget`
abbrev pub new_workloads_logs_target : Target
new_workloads_logs_target = record {
  transports = [];
  wwriter = [];
  workloads_config = [];
  senders = [];
  next = 0;
  calls = [];
}

-- `GetCurrentTransports`
unfoldable pub get_current_transports : Map String ℕ → List String
get_current_transports = map (λ b. b.0)

-- The writers that are not for a transport, and the others' names.
unfoldable pub keep_writers : String → Map String Writer → Map String Writer
keep_writers name [] = []
keep_writers name ((key, w) ∷ rest) =
    let others = keep_writers name rest in
    if w.target_name == name then others else (key, w) ∷ others

unfoldable pub stop_writers : String → Map String Writer → List Call
stop_writers name [] = []
stop_writers name ((key, w) ∷ rest) =
    let others = stop_writers name rest in
    if w.target_name == name then stops key ∷ others else others

-- `deleteTargetTransport`
unfoldable pub delete_target_transport : String → Target → Target
unfolding keep_writers stop_writers
delete_target_transport name t = record t {
  transports = delete name t.transports;
  wwriter = keep_writers name t.wwriter;
  calls = t.calls ++ stop_writers name t.wwriter;
}

-- `deleteWorkload`
unfoldable pub delete_workload : String → Target → Target
delete_workload name t = elim (lookup name t.wwriter) [
  | none ↦ t
  | some w ↦ record t { wwriter = delete name t.wwriter; calls = t.calls ++ stops name ∷ [] }
]

-- The transports that were made, the buffers with a goroutine, and the next buffer.
pub record Made : Type 0 where
  pub transports : Map String ℕ
  pub senders : List ℕ
  pub next : ℕ

abbrev pub is_known : Option ℕ → Bool
is_known none = false
is_known (some k) = true

-- The original transports that are not among the new ones.
unfoldable pub leftovers : Map String ℕ → List String → List String
leftovers transports [] = []
leftovers transports (key ∷ keys) =
    let rest = leftovers transports keys in
    if is_known (lookup key transports) then rest else key ∷ rest

unfoldable pub delete_each : List String → Target → Target
unfolding delete_target_transport
delete_each [] t = t
delete_each (key ∷ keys) t = delete_each keys (delete_target_transport key t)

-- The loop over the workloads of the configuration.
unfoldable pub collect : List Workload → Map String String → Map String String
collect [] found = found
collect (w ∷ ws) found =
    collect ws (if w.log_collection == "" then found else insert w.name w.log_collection found)

-- `connects` says whether `NewSyslogServer` succeeds for the transport of a name.
module _ (connects : String → Bool) where
  abbrev pub make : String → Made → Made
  make key m = record {
    transports = insert key m.next m.transports;
    senders = m.senders ++ m.next ∷ [];
    next = suc m.next;
  }

  -- The loop over the log targets of the configuration, which makes each anew.
  unfoldable pub make_transports : Map String Kind → Made → Made
  make_transports [] m = m
  make_transports ((key, syslog) ∷ rest) m =
      make_transports rest (if connects key then make key m else m)
  make_transports ((key, other_kind k) ∷ rest) m = make_transports rest m

  -- `Update`
  unfoldable pub update : Map String Kind → List Workload → Target → Target
  unfolding make_transports get_current_transports leftovers delete_each collect
  update log_collection workloads t =
      let made =
        make_transports log_collection
          (record { transports = []; senders = t.senders; next = t.next }) in
      let t' = delete_each (leftovers made.transports (get_current_transports t.transports)) t in
      record t' {
        transports = made.transports;
        senders = made.senders;
        next = made.next;
        workloads_config = collect workloads [];
      }

-- `WorkloadRemoved`
unfoldable pub workload_removed : String → Target → Target
unfolding delete_workload
workload_removed = delete_workload

-- The part of `WorkloadStarted` for a workload with a transport that is there.
unfoldable pub start_writer : String → String → ℕ → Target → Target
start_writer name target log t = record t {
  wwriter = insert name (record { target_name = target; log = log }) t.wwriter;
  calls = t.calls ++ starts name ∷ [];
}

abbrev pub try_writer : String → String → Option ℕ → Target → Target
try_writer name target none t = t
try_writer name target (some log) t = start_writer name target log t

abbrev pub try_transport : String → Option String → Target → Target
try_transport name none t = t
try_transport name (some target) t = try_writer name target (lookup target t.transports) t

-- `WorkloadStarted`
unfoldable pub workload_started : String → Target → Target
unfolding delete_workload
workload_started name t =
    let t' = delete_workload name t in try_transport name (lookup name t'.workloads_config) t'

unfoldable pub start_each : List String → Target → Target
unfolding workload_started
start_each [] t = t
start_each (name ∷ names) t = start_each names (workload_started name t)

-- `Init`, with what `ListWorkloads` answers.
unfoldable pub init :
    (String → Bool)
    → Option (List String)
    → Map String Kind
    → List Workload
    → Target
    → Bool × Target
unfolding update start_each
init connects none log_collection workloads t = (false, update connects log_collection workloads t)
init connects (some names) log_collection workloads t =
    (true, start_each names (update connects log_collection workloads t))
