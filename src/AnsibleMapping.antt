-- ===== src/AnsibleMapping.antt =====
-- internal/ansible/mapping/mapping.go: the playbook executions, by the file of the playbook, its time of
-- modification and its name, written to a file. Every method that changes a map holds the write lock
-- throughout. A time is the nanoseconds since 1970, as `UnixNano` gives it for later times.
pub mod Tidy
mod Tests
use flotta_device_worker.Prelude.{
  ℕ, Bool, true, false, Option, none, some, String, List, [], ◌∷◌, map, length, Map, lookup, insert,
  delete, string_eq, nat_eq, if◌then◌else◌,
}

-- `mapping`, an entry of the file.
pub record Mapping : Type 0 where
  pub mod_time : ℕ
  pub file_path : String
  pub name : String
  pub status : String

-- What is at the path of the mapping file.
pub data FileState : Type 0 where
  absent : FileState
  unparsable : FileState
  holds : List Mapping → FileState

-- `mappingRepository`; `name` is the name that was added last.
pub record Repository : Type 0 where
  pub mod_time_to_path : Map ℕ String
  pub path_to_mod_time : Map String ℕ
  pub path_to_name : Map String String
  pub name_status : Map String String
  pub name : String
  pub file : FileState

pub data Err : Type 0 where
  playbook_not_written marshal_failed write_failed remove_failed unknown_name : Err

-- The outcome of json.Marshal and os.WriteFile for the mapping file.
pub data Persist : Type 0 where
  not_marshalled : Persist
  not_written : FileState → Persist
  is_written : Persist

-- A read of a map yields the zero value for a missing key.
abbrev pub or_empty : Option String → String
or_empty none = ""
or_empty (some s) = s

abbrev pub or_zero : Option ℕ → ℕ
or_zero none = 0
or_zero (some t) = t

-- The entry that `persist` makes of a binding of `modTimeToPath`.
unfoldable pub entry : Repository → ℕ × String → Mapping
entry m (time, path) =
    let name = or_empty (lookup path m.path_to_name) in
    record {
      mod_time = time;
      file_path = path;
      name = name;
      status = or_empty (lookup name m.name_status);
    }

unfoldable pub persist : Persist → Repository → Option Err × Repository
unfolding entry
persist not_marshalled m = (some marshal_failed, m)
persist (not_written left) m = (some write_failed, record m { file = left })
persist is_written m = (none, record m { file = holds (map (entry m) m.mod_time_to_path) })

-- `Add`, for the path that the content has by its hash; `stored` says whether the playbook is written
-- there.
unfoldable pub add :
    Bool → Persist → String → String → ℕ → String → Repository → Option Err × Repository
add stored p pe_name path time status m =
    if stored
    then persist p (record m {
      name = pe_name;
      mod_time_to_path = insert time path m.mod_time_to_path;
      path_to_mod_time = insert path time m.path_to_mod_time;
      path_to_name = insert path pe_name m.path_to_name;
      name_status = insert pe_name status m.name_status;
    })
    else (some playbook_not_written, m)

-- `Remove`, for the path of the content. A path that is not there has the time 0.
unfoldable pub remove : Persist → String → Repository → Option Err × Repository
remove p path m = persist p (record m {
  mod_time_to_path = delete (or_zero (lookup path m.path_to_mod_time)) m.mod_time_to_path;
  path_to_mod_time = delete path m.path_to_mod_time;
  path_to_name = delete path m.path_to_name;
})

unfoldable pub remove_mapping_file : Option FileState → Repository → Option Err × Repository
remove_mapping_file none m = (none, record m { file = absent })
remove_mapping_file (some left) m = (some remove_failed, record m { file = left })

unfoldable pub get_mod_time : String → Repository → ℕ
get_mod_time path m = or_zero (lookup path m.path_to_mod_time)

unfoldable pub get_file_path : ℕ → Repository → String
get_file_path time m = or_empty (lookup time m.mod_time_to_path)

unfoldable pub get_name : String → Repository → String
get_name path m = or_empty (lookup path m.path_to_name)

unfoldable pub get_status : String → Repository → String
get_status name m = or_empty (lookup name m.name_status)

unfoldable pub get_all_names : Repository → List String
get_all_names m = map (λ b. b.1) m.path_to_name

abbrev pub is_known : {A : Type 0} → Option A → Bool
is_known none = false
is_known (some _) = true

-- `UpdateStatus`, which does not write the file.
unfoldable pub update_status : String → String → Repository → Option Err × Repository
update_status name status m =
    if is_known (lookup name m.name_status)
    then (none, record m { name_status = insert name status m.name_status })
    else (some unknown_name, m)

unfoldable pub exists : String → Repository → Bool
exists name m = is_known (lookup name m.name_status)

unfoldable pub size : Repository → ℕ
size m = length m.path_to_mod_time

-- The loop that fills the maps from the entries of the file.
unfoldable pub fill : List Mapping → Repository → Repository
fill [] m = m
fill (e ∷ es) m = fill es (record m {
  mod_time_to_path = insert e.mod_time e.file_path m.mod_time_to_path;
  path_to_mod_time = insert e.file_path e.mod_time m.path_to_mod_time;
  path_to_name = insert e.file_path e.name m.path_to_name;
  name_status = insert e.name e.status m.name_status;
})

abbrev pub empty_repository : FileState → Repository
empty_repository file = record {
  mod_time_to_path = [];
  path_to_mod_time = [];
  path_to_name = [];
  name_status = [];
  name = "";
  file = file;
}

-- `NewMappingRepository`. A file that cannot be read counts as empty.
unfoldable pub new_mapping_repository : FileState → Option Repository
unfolding fill
new_mapping_repository absent = some (empty_repository absent)
new_mapping_repository unparsable = none
new_mapping_repository (holds es) = some (fill es (empty_repository (holds es)))
