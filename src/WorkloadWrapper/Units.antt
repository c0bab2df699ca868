-- ===== src/WorkloadWrapper/Units.antt =====
-- `systemd` of internal/service/systemd.go: a service with the files of its units, and its requests to
-- the system over D-Bus.
use flotta_device_worker.Prelude.{
  ℕ, Bool, true, false, Option, none, some, String, List, [], ◌∷◌, ◌++◌, map, Map, lookup, insert,
  delete, string_eq, ◌==◌, if◌then◌else◌,
}
use Prim.Native.String.{◌++◌ as concat}
use flotta_device_worker.WorkloadWrapper.Services.{Service}

-- A request, with whether it goes to the user's manager, and the name of the unit.
pub data Request : Type 0 where
  reloads : Bool → Request
  starts stops enables disables : Bool → String → Request

-- What a request comes to: no connection, an error, or an answer. A job answers with its result.
pub data Reply : Type 0 where
  no_connection refused : Reply
  answered : String → Reply

-- The outcome of os.WriteFile: a failed write leaves any content behind, or no file.
pub data Written : Type 0 where
  is_written : Written
  not_written : Option String → Written

-- The system: its replies, which may depend on the requests before, and the files of units.
pub record System : Type 0 where
  pub reply : List Request → Request → Reply
  pub writes : String → Written
  pub may_remove : String → Bool

-- The folder of the units, by file name, and the requests so far.
pub record Units : Type 0 where
  pub files : Map String String
  pub requests : List Request

-- `DefaultServiceName`
unfoldable pub default_service_name : String → String
default_service_name name = concat name ".service"

abbrev default_restart_timeout : ℕ
default_restart_timeout = 15

-- `NewSystemdRootless`, which needs a connection.
unfoldable pub new_systemd_rootless : Bool → String → Map String String → Bool → Option Service
new_systemd_rootless connected name units rootless =
    if connected
    then some (record {
      name = name;
      restart_sec = default_restart_timeout;
      units = map (λ b. b.0) units;
      rootless = rootless;
      units_content = units;
    })
    else none

-- `NewSystemd`
unfoldable pub new_systemd : Bool → String → Map String String → Option Service
new_systemd connected name units = new_systemd_rootless connected name units true

abbrev is_answered : Reply → Bool
is_answered (answered _) = true
is_answered _ = false

-- A job is done only if its result says so.
abbrev is_done : Reply → Bool
is_done (answered result) = result == "done"
is_done _ = false

module _ (sys : System) where
  abbrev send : (Reply → Bool) → Request → Units → Bool × Units
  send good q u = (good (sys.reply u.requests q), record u { requests = u.requests ++ q ∷ [] })

  unfoldable pub reload : Service → Units → Bool × Units
  reload svc = send is_answered (reloads svc.rootless)

  unfoldable pub start : Service → Units → Bool × Units
  start svc = send is_done (starts svc.rootless (default_service_name svc.name))

  unfoldable pub stop : Service → Units → Bool × Units
  stop svc = send is_done (stops svc.rootless (default_service_name svc.name))

  unfoldable pub enable : Service → Units → Bool × Units
  enable svc = send is_answered (enables svc.rootless (default_service_name svc.name))

  unfoldable pub disable : Service → Units → Bool × Units
  disable svc = send is_answered (disables svc.rootless (default_service_name svc.name))

  -- The loop of `Add` over the contents of the units.
  unfoldable pub add_units : Map String String → Units → Bool × Units
  add_units [] u = (true, u)
  add_units ((unit, content) ∷ rest) u =
      let file = default_service_name unit in
      let others = add_units rest (record u { files = insert file content u.files }) in
      elim (sys.writes file) [
        | is_written ↦ others
        | not_written none ↦ (false, record u { files = delete file u.files })
        | not_written (some left) ↦ (false, record u { files = insert file left u.files })
      ]

  -- `Add`
  unfoldable pub add : Service → Units → Bool × Units
  add svc u = let r = add_units svc.units_content u in if r.0 then reload svc r.1 else r

  -- The loop of `Remove` over the names of the units. A file that is not there cannot be removed.
  unfoldable pub remove_units : List String → Units → Bool × Units
  remove_units [] u = (true, u)
  remove_units (unit ∷ rest) u =
      let file = default_service_name unit in
      let others = remove_units rest (record u { files = delete file u.files }) in
      elim (lookup file u.files) [
        | none ↦ (false, u)
        | some content ↦ if sys.may_remove file then others else (false, u)
      ]

  -- `Remove`
  unfoldable pub remove : Service → Units → Bool × Units
  remove svc u = let r = remove_units svc.units u in if r.0 then reload svc r.1 else r
