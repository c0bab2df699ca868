-- ===== src/WorkloadMapping.antt =====
-- internal/workload/mapping/mapping.go: which pod id a workload name has, kept both ways and written
-- to a file. Every method but `GetId`, `GetName` and `Size` holds the write lock throughout.
pub mod Inverse
mod Tests
pub mod Reload
use flotta_device_worker.Prelude.{
  ℕ, Option, none, some, String, List, [], ◌∷◌, map, length, Map, lookup, insert, delete, string_eq,
}

-- `mapping`, an entry of the file.
pub record Mapping : Type 0 where
  pub id : String
  pub name : String

-- What is at the path of the mapping file.
pub data FileState : Type 0 where
  absent : FileState
  unparsable : FileState
  holds : List Mapping → FileState

pub record Repository : Type 0 where
  pub id_to_name : Map String String
  pub name_to_id : Map String String
  pub file : FileState

pub data Err : Type 0 where
  marshal_failed write_failed remove_failed parse_failed : Err

-- The outcome of json.Marshal and os.WriteFile: a failed write leaves any content behind.
pub data Persist : Type 0 where
  not_marshalled : Persist
  not_written : FileState → Persist
  is_written : Persist

-- A read of a map yields "" for a missing key.
abbrev pub or_empty : Option String → String
or_empty none = ""
or_empty (some s) = s

unfoldable pub mappings : Map String String → List Mapping
mappings = map (λ b. record { id = b.0; name = b.1 })

unfoldable pub persist : Persist → Repository → Option Err × Repository
unfolding mappings
persist not_marshalled m = (some marshal_failed, m)
persist (not_written left) m = (some write_failed, record m { file = left })
persist is_written m = (none, record m { file = holds (mappings m.id_to_name) })

unfoldable pub add : Persist → String → String → Repository → Option Err × Repository
add p name id m = persist p (record m {
  id_to_name = insert id name m.id_to_name;
  name_to_id = insert name id m.name_to_id;
})

-- A name that is not there has the id "".
unfoldable pub remove : Persist → String → Repository → Option Err × Repository
remove p name m = persist p (record m {
  id_to_name = delete (or_empty (lookup name m.name_to_id)) m.id_to_name;
  name_to_id = delete name m.name_to_id;
})

-- `removed` says whether os.RemoveAll succeeds; if not, `left` is there.
unfoldable pub remove_mapping_file : Option FileState → Repository → Option Err × Repository
remove_mapping_file none m = (none, record m { file = absent })
remove_mapping_file (some left) m = (some remove_failed, record m { file = left })

unfoldable pub get_id : String → Repository → String
get_id name m = or_empty (lookup name m.name_to_id)

unfoldable pub get_name : String → Repository → String
get_name id m = or_empty (lookup id m.id_to_name)

unfoldable pub size : Repository → ℕ
size m = length m.name_to_id

-- The loop that fills the maps from the entries of the file.
unfoldable pub fill :
    List Mapping → Map String String × Map String String → Map String String × Map String String
fill [] maps = maps
fill (e ∷ es) (ids, names) = fill es (insert e.id e.name ids, insert e.name e.id names)

-- `NewMappingRepository`. A file that cannot be read counts as empty.
unfoldable pub new_mapping_repository : FileState → Option Repository
unfolding fill
new_mapping_repository absent = some (record { id_to_name = []; name_to_id = []; file = absent })
new_mapping_repository unparsable = none
new_mapping_repository (holds es) =
    let maps = fill es ([], []) in
    some (record { id_to_name = maps.0; name_to_id = maps.1; file = holds es })
