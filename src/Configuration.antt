-- ===== src/Configuration.antt =====
-- internal/configuration/configuration.go: the configuration in force, its observers and its file.
pub mod Unordered
mod Tests
pub mod Update
use flotta_device_worker.Prelude.{
  ℕ, Bool, true, false, not, ◌&&◌, ◌||◌, Option, none, some, String, List, [], ◌∷◌, ◌++◌,
  if◌then◌else◌,
}
use flotta_device_worker.Configuration.Unordered.{Item, is_equal_unordered}

-- The operator's models: the types of a configuration, a workload and a secret, with reflect.DeepEqual
-- on each.
pub record Models : Type 1 where
  pub Conf : Type 0
  pub workload : Item
  pub secret : Item
  pub conf_equal : Conf → Conf → Bool

-- models.DeviceConfigurationMessage
pub record Message (models : Models) : Type 0 where
  pub configuration : Option models.Conf
  pub workloads : List models.workload.Carrier
  pub secrets : List models.secret.Carrier
  pub device_id : String
  pub version : String

-- What os.ReadFile and json.Unmarshal make of the configuration file.
pub data FileState (models : Models) : Type 0 where
  unreadable : FileState models
  unparsable : FileState models
  holds : Message models → FileState models

-- An observer is known by its place in the program, `O`.
pub record Manager (models : Models) (O : Type 0) : Type 0 where
  pub device_configuration : Message models
  pub observers : List O
  pub initial_config : Bool
  pub file : FileState models

pub data Err (O : Type 0) : Type 0 where
  marshal_new marshal_old indent_failed write_failed remove_failed : Err O
  update_failed : O → Err O

-- The answers of the code outside this file during one call: json.Marshal of the new and of the old
-- message, json.Indent, os.WriteFile (`some` is what a failed write leaves), and each observer's
-- `Init` and `Update` (true if it fails).
pub record Outside (models : Models) (O : Type 0) : Type 0 where
  pub marshals : Message models → Bool
  pub indents : Bool
  pub write_fails : Option (FileState models)
  pub init_fails : O → Message models → Bool
  pub observer_fails : O → Message models → Bool

abbrev pub conf_equal : (models : Models) → Option models.Conf → Option models.Conf → Bool
conf_equal models none none = true
conf_equal models (some a) (some b) = models.conf_equal a b
conf_equal models _ _ = false

-- configurationEqual && workloadsEqual && secretsEqual
unfoldable pub is_same : {models : Models} → Message models → Message models → Bool
is_same {models} message current =
    conf_equal models message.configuration current.configuration
    && (is_equal_unordered models.workload message.workloads current.workloads
        && is_equal_unordered models.secret message.secrets current.secrets)

-- Calls of observers' methods are listed with the message that they carry.
module _ {models : Models} {O : Type 0} where
  -- `NewConfigurationManager`, with the default configuration message.
  unfoldable pub new_configuration_manager : Message models → FileState models → Manager models O
  new_configuration_manager default unreadable = record {
    device_configuration = default;
    observers = [];
    initial_config = true;
    file = unreadable;
  }
  new_configuration_manager default unparsable = record {
    device_configuration = default;
    observers = [];
    initial_config = false;
    file = unparsable;
  }
  new_configuration_manager default (holds message) = record {
    device_configuration = message;
    observers = [];
    initial_config = false;
    file = holds message;
  }

  -- `RegisterObserver`: an `Init` with the current configuration, whose error is only logged.
  unfoldable pub register_observer :
      O → Manager models O → Manager models O × List (O × Message models)
  register_observer o m =
      (record m { observers = m.observers ++ o ∷ [] }, (o, m.device_configuration) ∷ [])

  -- The loop over the observers: the calls, and the errors of those that fail.
  unfoldable pub notify :
      Outside models O → Message models → List O → List (O × Message models) × List (Err O)
  notify out message [] = ([], [])
  notify out message (o ∷ os) =
      let rest = notify out message os in
      (
        (o, message) ∷ rest.0,
        if out.observer_fails o message then update_failed o ∷ rest.1 else rest.1,
      )

  -- The end of `Update`: the file, and the new configuration if the file is written. A failed write
  -- drops the errors that were gathered.
  unfoldable pub store :
      Outside models O
      → Message models
      → List (Err O)
      → Manager models O
      → List (Err O) × Manager models O
  store out message errors m =
      if out.indents
      then elim out.write_fails [
        | some left ↦ (write_failed ∷ [], record m { file = left })
        | none ↦ (
          errors,
          record m { device_configuration = message; initial_config = false; file = holds message },
        )
      ]
      else (errors ++ indent_failed ∷ [], m)

  unfoldable pub update :
      Outside models O
      → Message models
      → Manager models O
      → (List (Err O) × Manager models O) × List (O × Message models)
  unfolding notify store
  update out message m =
      if is_same message m.device_configuration && not m.initial_config
      then (([], m), [])
      else if out.marshals message
      then if out.marshals m.device_configuration
        then (let (calls, errors) = notify out message m.observers in
            (store out message errors m, calls))
        else ((marshal_old ∷ [], m), [])
      else ((marshal_new ∷ [], m), [])

  -- `Deregister`: `removed` is none if os.Remove succeeds, else what is there still.
  unfoldable pub deregister :
      Option (FileState models) → Manager models O → Option (Err O) × Manager models O
  deregister none m = (none, record m { file = unreadable })
  deregister (some left) m = (some remove_failed, record m { file = left })
