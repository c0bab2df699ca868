-- ===== src/Mounts.antt =====
-- internal/mount/mount.go and internal/mount/info.go: the mounts that the configuration asks for.
pub mod Reconcile
mod Tests
use flotta_device_worker.Prelude.{
  ℕ, Bool, true, false, not, ◌&&◌, ◌||◌, Option, none, some, String, List, [], ◌∷◌, ◌++◌,
  if◌then◌else◌, Map, lookup, insert, string_eq, ◌==◌,
}

-- models.Mount
pub record Mount : Type 0 where
  pub device : String
  pub directory : String
  pub kind : String
  pub options : String

-- What os.Stat and unix.Lstat say of a path.
pub data Stat : Type 0 where
  not_found stat_failed block_device other_file : Stat

pub data Invalid : Type 0 where
  type_not_supported directory_not_found directory_stat_failed : Invalid
  device_not_found device_stat_failed not_block_device : Invalid

-- A call of unix.Mount, with its options, or of unix.Unmount; and whether it succeeded.
pub data Syscall : Type 0 where
  mounts : Mount → String → Bool → Syscall
  umounts : Mount → Bool → Syscall

-- The code outside src/: the `mount` command and the regular expression for its lines, strings.Contains,
-- stat, and the system calls, whose answers may depend on those before.
pub record Outside : Type 0 where
  pub mount_lines : Option (List String)
  pub parse : String → Option Mount
  pub contains : String → String → Bool
  pub stat : String → Stat
  pub mount_succeeds : List Syscall → Mount → String → Bool
  pub umount_succeeds : List Syscall → Mount → Bool

-- `GetMounts`: the mounts in order, and the map by directory, in which the later of two entries stays.
unfoldable pub collect_mounts :
    Outside → List String → Map String Mount → List Mount × Map String Mount
collect_mounts out [] by_directory = ([], by_directory)
collect_mounts out (entry ∷ entries) by_directory =
    if entry == "" then collect_mounts out entries by_directory else elim (out.parse entry) [
      | none ↦ collect_mounts out entries by_directory
      | some m ↦
          let rest = collect_mounts out entries (insert m.directory m by_directory) in
          (m ∷ rest.0, rest.1)
    ]

unfoldable pub get_mounts : Outside → Option (List Mount × Map String Mount)
unfolding collect_mounts
get_mounts out = elim out.mount_lines [
  | none ↦ none
  | some entries ↦ some (collect_mounts out entries [])
]

abbrev is_some : Option Mount → Bool
is_some none = false
is_some (some _) = true

-- `IsPathMounted`
unfoldable pub is_path_mounted : Outside → String → Bool
is_path_mounted out path = elim (get_mounts out) [
  | none ↦ false
  | some found ↦ is_some (lookup path found.1)
]

-- `isValid`, with the content of /etc/filesystems.
unfoldable pub is_valid : Outside → String → Mount → Option Invalid
is_valid out filesystems m =
    if out.contains filesystems m.kind
    then elim (out.stat m.directory) [
      | not_found ↦ some directory_not_found
      | stat_failed ↦ some directory_stat_failed
      | _ ↦ elim (out.stat m.device) [
        | not_found ↦ some device_not_found
        | stat_failed ↦ some device_stat_failed
        | block_device ↦ none
        | other_file ↦ some not_block_device
      ]
    ]
    else some type_not_supported

-- `isEqual`, with the directory of the one compared to the type of the other.
unfoldable pub is_equal : Mount → Mount → Bool
is_equal mount other =
    mount.device == other.device
    && (mount.directory == other.directory
        && (mount.kind == other.directory && mount.options == other.options))

-- The options of `mount`.
abbrev pub mount_options : Mount → String → String
mount_options m default = if m.options == "" then default else m.options

pub data Err : Type 0 where
  twice : Mount → Err
  invalid : Mount → Invalid → Err
  not_umounted : Mount → Err
  not_mounted : Mount → Err

-- The variables of the loop of `Update`, and the system calls so far, the latest first.
pub record Progress : Type 0 where
  pub already_mounted : List String
  pub errors : List Err
  pub calls : List Syscall

unfoldable pub contains_directory : String → List String → Bool
contains_directory d [] = false
contains_directory d (e ∷ es) = e == d || contains_directory d es

abbrev pub fail : Err → Progress → Progress
fail e p = record p { errors = p.errors ++ e ∷ [] }

-- Mounting, when nothing stands in the way.
unfoldable pub mount_one : Outside → String → Mount → Progress → Progress
mount_one out default m p =
    let options = mount_options m default in
    let ok = out.mount_succeeds p.calls m options in
    let p' = record p { calls = mounts m options ok ∷ p.calls } in
    if ok
    then record p' { already_mounted = m.directory ∷ p'.already_mounted }
    else fail (not_mounted m) p'

-- The case of a directory at which `c` is mounted now.
unfoldable pub replace_one : Outside → String → Mount → Mount → Progress → Progress
unfolding mount_one
replace_one out default c m p =
    if is_equal c m
    then record p { already_mounted = m.directory ∷ p.already_mounted }
    else (let ok = out.umount_succeeds p.calls c in
        let p' = record p { calls = umounts c ok ∷ p.calls } in
        if ok then mount_one out default m p' else fail (not_umounted m) p')

-- One round of the loop, for one configured mount.
unfoldable pub reconcile_one :
    Outside → String → String → Map String Mount → Mount → Progress → Progress
unfolding replace_one
reconcile_one out filesystems default current m p =
    if contains_directory m.directory p.already_mounted
    then fail (twice m) p
    else elim (is_valid out filesystems m) [
      | some why ↦ fail (invalid m why) p
      | none ↦ elim (lookup m.directory current) [
        | some c ↦ replace_one out default c m p
        | none ↦ mount_one out default m p
      ]
    ]

unfoldable pub reconcile :
    Outside → String → String → Map String Mount → List Mount → Progress → Progress
unfolding reconcile_one
reconcile out filesystems default current [] p = p
reconcile out filesystems default current (m ∷ ms) p =
    reconcile out filesystems default current ms (reconcile_one out filesystems default current m p)

-- `Update`, for the mounts of the configuration; `none` is the error of listing the current mounts.
unfoldable pub update : Outside → String → String → List Mount → Option Progress
unfolding reconcile
update out filesystems default configured = elim (get_mounts out) [
  | none ↦ none
  | some found ↦ some (
      reconcile out filesystems default found.1 configured
        (record { already_mounted = []; errors = []; calls = [] }))
]
