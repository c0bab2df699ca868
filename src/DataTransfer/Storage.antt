-- ===== src/DataTransfer/Storage.antt =====
-- internal/datatransfer/s3/sync.go: the storage that the monitor synchronises paths with.
use flotta_device_worker.Prelude.{
  ℕ, Bool, true, false, Option, none, some, String, List, [], ◌++◌, if◌then◌else◌,
}
use flotta_device_worker.Prelude.Int.{ℤ}
use Prim.Native.String.{◌++◌ as concat}

-- models.S3StorageConfiguration
pub record StorageConfig : Type 0 where
  pub aws_access_key_id : String
  pub aws_secret_access_key : String
  pub aws_ca_bundle : String
  pub bucket_host : String
  pub bucket_port : ℤ
  pub bucket_name : String
  pub bucket_region : String

-- What a session is made of; `root_cas` are the certificates that the client trusts, of a type `C`.
pub record Session (B C : Type 0) : Type 0 where
  pub region : String
  pub endpoint : String
  pub access_key : B
  pub secret_key : B
  pub root_cas : List C

pub record Statistics : Type 0 where
  pub files : ℕ
  pub bytes : ℕ
  pub deleted_files : ℕ

abbrev pub no_statistics : Statistics
no_statistics = record { files = 0; bytes = 0; deleted_files = 0 }

-- `Sync`; its manager, if it is connected, has a session and counts what it does.
pub record Sync (B C : Type 0) : Type 0 where
  pub s3_sync_manager : Option (Session B C × Statistics)
  pub bucket_name : String
  pub bucket_region : String
  pub endpoint : String
  pub access_key_bytes : B
  pub secret_key_bytes : B
  pub ca_bundle : B

-- The code outside: base64, the verb %d, the certificates of the system and those in a text, the library's
-- sessions, and what its manager does to synchronise a path, with what it has counted before and after.
pub record Outside (B C : Type 0) : Type 0 where
  pub decode : String → Option B
  pub print : ℤ → String
  pub system_certs : Option (List C)
  pub certs_of : B → List C
  pub new_session : Session B C → Bool
  pub transfer : Session B C → String → String → Statistics → Bool × Statistics

pub data Err : Type 0 where
  not_synced panics : Err

abbrev pub or_empty {ℓ} : {C : Type ℓ} → Option (List C) → List C
or_empty none = []
or_empty (some certs) = certs

module _ {B C : Type 0} where
  abbrev pub sync_of :
      Outside B C → StorageConfig → Option B → Option B → Option B → Option (Sync B C)
  sync_of out config (some access) (some secret) (some bundle) = some record {
    s3_sync_manager = none;
    bucket_name = config.bucket_name;
    bucket_region = config.bucket_region;
    endpoint =
        concat "https://" (concat config.bucket_host (concat ":" (out.print config.bucket_port)));
    access_key_bytes = access;
    secret_key_bytes = secret;
    ca_bundle = bundle;
  }
  sync_of out config _ _ _ = none

  -- `NewSync`
  unfoldable pub new_sync : Outside B C → StorageConfig → Option (Sync B C)
  new_sync out config =
      sync_of out config (out.decode config.aws_access_key_id)
        (out.decode config.aws_secret_access_key) (out.decode config.aws_ca_bundle)

  -- `createHttpClient`: what its client trusts.
  unfoldable pub create_http_client : Outside B C → B → List C
  create_http_client out bundle = or_empty out.system_certs ++ out.certs_of bundle

  unfoldable pub session_of : Outside B C → Sync B C → Session B C
  unfolding create_http_client
  session_of out s = record {
    region = s.bucket_region;
    endpoint = s.endpoint;
    access_key = s.access_key_bytes;
    secret_key = s.secret_key_bytes;
    root_cas = create_http_client out s.ca_bundle;
  }

  -- `Connect`: true unless there is an error. The manager of a new session has counted nothing.
  unfoldable pub connect_from :
      Outside B C → Option (Session B C × Statistics) → Sync B C → Bool × Sync B C
  unfolding session_of
  connect_from out (some manager) s = (true, s)
  connect_from out none s =
      let session = session_of out s in
      if out.new_session session
      then (true, record s { s3_sync_manager = some (session, no_statistics) })
      else (false, s)

  unfoldable pub connect : Outside B C → Sync B C → Bool × Sync B C
  unfolding connect_from
  connect out s = connect_from out s.s3_sync_manager s

  -- `Disconnect`
  unfoldable pub disconnect : Sync B C → Sync B C
  disconnect s = record s { s3_sync_manager = none }

  -- `GetStatistics`: with no manager the program panics.
  unfoldable pub get_statistics : Sync B C → Option Statistics
  get_statistics s = elim s.s3_sync_manager [ none ↦ none | some manager ↦ some manager.1 ]

  -- `SyncPath`: with no manager the program panics.
  abbrev pub sync_with :
      Outside B C
      → Option (Session B C × Statistics)
      → String
      → String
      → Sync B C
      → Option Err × Sync B C
  sync_with out none source target s = (some panics, s)
  sync_with out (some (session, counted)) source target s =
      let done = out.transfer session source target counted in
      (
        (if done.0 then none else some not_synced),
        record s { s3_sync_manager = some (session, done.1) },
      )

  unfoldable pub sync_path : Outside B C → String → String → Sync B C → Option Err × Sync B C
  sync_path out source target s =
      sync_with out s.s3_sync_manager source
        (concat "s3://" (concat s.bucket_name (concat "/" target))) s
