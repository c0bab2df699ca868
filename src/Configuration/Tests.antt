-- ===== src/Configuration/Tests.antt =====
-- The theorems on internal/configuration/configuration.go at concrete inputs.
use flotta_device_worker.Prelude.{
  ℕ, ◌≡◌, ◌≢◌, refl, ◌⊎◌, ◌↔◌, inl, true, false, none, some, String, [], ◌∷◌, map, nat_beq, arith,
  string_eq, eq_iff, lookup, insert,
}
use mathlib.Core.List.{Perm}
use flotta_device_worker.Configuration.{
  Models, Message, unparsable, unreadable, holds, Manager, Outside, update, is_same,
}
use flotta_device_worker.Configuration.Unordered.{
  Item, DistinctNames, is_equal_unordered, is_equal_unordered_iff,
}
use flotta_device_worker.Configuration.Update.{
  failures, update_unchanged, update_committed, update_atomic,
}

abbrev web : String
web = "web"

abbrev db : String
db = "db"

-- Items that are their names.
abbrev named : Item
named = record {
  Carrier = String;
  name = λ s. s;
  deep_equal = string_eq.equal;
  deep_equal_iff = string_eq.equal_iff;
}

abbrev models : Models
models = record { Conf = ℕ; workload = named; secret = named; conf_equal = nat_beq }

abbrev message : Message models
message = record {
  configuration = some 7;
  workloads = web ∷ db ∷ [];
  secrets = [];
  device_id = "device";
  version = "1";
}

abbrev outside : Outside models String
outside = record {
  marshals = λ m. true;
  indents = true;
  write_fails = none;
  init_fails = λ o m. false;
  observer_fails = λ o m. true;
}

abbrev full_disk : Outside models String
full_disk = record outside { write_fails = some unparsable }

-- A manager in its initial phase, with two observers; and one that has the message.
abbrev fresh : Manager models String
fresh = record {
  device_configuration = record message { version = "0"; configuration = none };
  observers = "workload" ∷ "heartbeat" ∷ [];
  initial_config = true;
  file = unreadable;
}

abbrev configured : Manager models String
configured = record fresh {
  device_configuration = message;
  initial_config = false;
  file = holds message;
}

web-ne-db : web ≢ db
web-ne-db = λ e. ground (arith, eq_iff web db)

names_distinct : DistinctNames named (web ∷ db ∷ [])
names_distinct = ((λ e. ground (arith, eq_iff db web), tt), (tt, tt))

is_equal_unordered_iff_example :
    (is_equal_unordered named (web ∷ db ∷ []) (web ∷ db ∷ []) ≡ true)
    ↔ Perm (web ∷ db ∷ []) (web ∷ db ∷ [])
is_equal_unordered_iff_example =
    is_equal_unordered_iff named (web ∷ db ∷ []) (web ∷ db ∷ []) names_distinct names_distinct

message-same : is_same message message ≡ true
unfolding is_same is_equal_unordered lookup insert
message-same = refl

update_unchanged_example : update outside message configured ≡ (([], configured), [])
update_unchanged_example = update_unchanged outside message configured refl message-same

update_committed_example : update outside message fresh ≡ (
  (
    failures outside message ("workload" ∷ "heartbeat" ∷ []),
    record fresh { device_configuration = message; initial_config = false; file = holds message },
  ),
  map (λ o. (o, message)) ("workload" ∷ "heartbeat" ∷ []),
)
update_committed_example = update_committed outside message fresh (inl refl) refl refl refl refl

update_atomic_example :
    let m' = (update full_disk message fresh).0.1 in
    ((m'.device_configuration ≡ fresh.device_configuration) × (m'.initial_config ≡ true))
    ⊎ ((m'.device_configuration ≡ message)
        × (m'.initial_config ≡ false)
        × (m'.file ≡ holds message))
update_atomic_example = update_atomic full_disk message fresh
