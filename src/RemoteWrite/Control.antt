-- ===== src/RemoteWrite/Control.antt =====
-- `Update`, `Init`, `applyConfig`, `removeServerCaFiles` and the `getConfig` of `writeRoutine` in
-- internal/metrics/remote_write.go: the configuration, the client and the writing goroutine. All but
-- the first step of `Init` runs under `r.lock`, so each is one step.
pub mod Invariant
use flotta_device_worker.Prelude.{
  ℕ, suc, ◌+◌, ◌-◌, Bool, true, false, not, Option, none, some, String, List, [], ◌∷◌, ◌++◌,
  if◌then◌else◌, ◌==◌, string_eq, ◌&&◌,
}
use flotta_device_worker.Prelude.Int.{ℤ, is_zero, int_beq}

-- models.MetricsReceiverConfiguration
pub record ReceiverConfig : Type 0 where
  pub url : String
  pub ca_cert : String
  pub timeout_seconds : ℤ
  pub request_num_samples : ℤ

-- reflect.DeepEqual on two receivers
unfoldable pub config_beq : ReceiverConfig → ReceiverConfig → Bool
config_beq a b =
    a.url == b.url
    && (a.ca_cert == b.ca_cert
        && (int_beq a.timeout_seconds b.timeout_seconds
            && int_beq a.request_num_samples b.request_num_samples))

-- The fields of `RemoteWrite` that these functions change. A client is known by the configuration
-- that it was made from. `ca_files` are the CA files in the data directory, `routines` the running
-- goroutines of `writeRoutine`.
pub record Control : Type 0 where
  pub config : Option ReceiverConfig
  pub client : Option ReceiverConfig
  pub is_running : Bool
  pub current_server_ca_file : String
  pub ca_files : List String
  pub routines : ℕ

pub data Err : Type 0 where
  bad_url no_timeout no_samples no_temp_file unwritable_ca_file no_client : Err

-- What the temporary file of `os.CreateTemp` comes to.
pub data TempFile : Type 0 where
  not_created : TempFile
  unwritable : String → TempFile
  written : String → TempFile

-- The answers of the code outside src/ in one call: url.Parse, the file system, NewWriteClient.
pub record Outside : Type 0 where
  pub parses : String → Bool
  pub temp_file : TempFile
  pub makes_client : Bool
  pub dir_readable : Bool
  pub removable : String → Bool

abbrev keep_file : Bool → String → List String → List String
keep_file true f fs = fs
keep_file false f fs = f ∷ fs

-- The CA files that are left after `os.Remove` of those that `gone` selects.
unfoldable pub remove_files : (String → Bool) → List String → List String
remove_files gone [] = []
remove_files gone (f ∷ fs) = keep_file (gone f) f (remove_files gone fs)

unfoldable pub remove_server_ca_files : Outside → Control → Control
remove_server_ca_files o c =
    if o.dir_readable then record c { ca_files = remove_files o.removable c.ca_files } else c

-- The CA file, if the configuration has a certificate: its name, and the files there are then.
unfoldable pub store_ca :
    Outside → ReceiverConfig → List String → (Option Err × String) × List String
store_ca o config files = if config.ca_cert == "" then ((none, ""), files) else elim o.temp_file [
  | not_created ↦ ((some no_temp_file, ""), files)
  | unwritable f ↦ ((some unwritable_ca_file, f), f ∷ files)
  | written f ↦ ((none, f), f ∷ files)
]

remove_file : Outside → String → List String → List String
unfolding remove_files
remove_file o f = remove_files (λ g. g == f && o.removable g)

-- The rest of `applyConfig`, when the CA file is stored.
unfoldable pub make_client :
    Outside → ReceiverConfig → String → List String → Control → Option Err × Control
unfolding remove_file
make_client o config ca files c =
    if o.makes_client
    then (
      none,
      record c {
        client = some config;
        current_server_ca_file = ca;
        ca_files =
            if c.current_server_ca_file == ""
            then files
            else remove_file o c.current_server_ca_file files;
      },
    )
    else (some no_client, record c { ca_files = remove_file o ca files })

unfoldable pub apply_config : Outside → ReceiverConfig → Control → Option Err × Control
unfolding store_ca make_client
apply_config o config c =
    if o.parses config.url
    then if is_zero config.timeout_seconds
      then (some no_timeout, c)
      else if is_zero config.request_num_samples
      then (some no_samples, c)
      else (let ((failed, ca), files) = store_ca o config c.ca_files in
          elim failed [
            | some e ↦ (some e, record c { ca_files = files })
            | none ↦ make_client o config ca files c
          ])
    else (some bad_url, c)

abbrev pub same_config : Option ReceiverConfig → Option ReceiverConfig → Bool
same_config none none = true
same_config (some a) (some b) = config_beq a b
same_config _ _ = false

-- newConfig == nil || newConfig.URL == ""
abbrev pub feature_disabled : Option ReceiverConfig → Bool
feature_disabled none = true
feature_disabled (some config) = config.url == ""

-- r.Config = newConfig
abbrev set_config : Option ReceiverConfig → Control → Control
set_config config c = record c { config = config }

-- `go r.writeRoutine()`, unless one runs
unfoldable pub start_routine : Control → Control
start_routine c =
    if c.is_running then c else record c { is_running = true; routines = suc c.routines }

-- The branch of a disabled feature.
unfoldable pub disable : Outside → Control → Control
unfolding remove_server_ca_files
disable o c = remove_server_ca_files o (record c { client = none; current_server_ca_file = "" })

-- The branch of an enabled feature, to the end of `Update`.
unfoldable pub enable : Outside → ReceiverConfig → Control → Option Err × Control
unfolding start_routine
enable o config c =
    let (failed, c') = apply_config o config c in
    elim failed [
      | some e ↦ (some e, c')
      | none ↦ (none, set_config (some config) (start_routine c'))
    ]

unfoldable pub update_changed : Outside → Option ReceiverConfig → Control → Option Err × Control
update_changed o none c = (none, set_config none (disable o c))
update_changed o (some config) c =
    if config.url == "" then (none, set_config (some config) (disable o c)) else enable o config c

-- `Update`, for the receiver that the message names.
unfoldable pub update : Outside → Option ReceiverConfig → Control → Option Err × Control
unfolding update_changed
update o new c = if same_config c.config new then (none, c) else update_changed o new c

unfoldable pub init : Outside → Option ReceiverConfig → Control → Option Err × Control
unfolding remove_server_ca_files
init o new c = update o new (remove_server_ca_files o c)

-- What `getConfig` tells the routine: to write with a client and its configuration, to exit, or a nil
-- dereference of `r.Config`.
pub data Turn : Type 0 where
  writes : ReceiverConfig → ReceiverConfig → Turn
  exits : Turn
  nil_dereference : Turn

unfoldable pub get_config : Control → Turn × Control
get_config c = elim c.client [
  | none ↦ (exits, record c { is_running = false; routines = c.routines - 1 })
  | some client ↦ elim c.config [
    | some config ↦ (writes client config, c)
    | none ↦ (nil_dereference, c)
  ]
]
