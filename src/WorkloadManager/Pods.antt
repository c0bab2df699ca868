-- ===== src/WorkloadManager/Pods.antt =====
-- `toPod` of internal/workload/manager.go: the pod of a workload. The pod's labels are the map of the
-- workload itself, so what is written to them stays in the configuration that the workload is of.
pub mod Labels
mod Tests
use flotta_device_worker.Prelude.{
  ◌≡◌, refl, ◌∙◌, sym, ap, Bool, true, false, ◌||◌, Option, none, some, String, List, [], ◌∷◌, ◌++◌,
  map, Map, insert, lookup, lookup-insert, lookup-insert_self, All, if◌then◌else◌, string_eq, ◌==◌,
  ◌≢◌, Bool-cases, Option-cases, inl, inr, beq_refl, arith, eq_iff,
}
use mathlib.Core.List.{append_assoc, append-nil}
use Prim.Native.String.{◌++◌ as concat}

pub record VolumeMount : Type 0 where
  pub name : String
  pub mount_path : String

-- v1.Container and v1.PodSpec, with the fields that `toPod` reads; `C` and `S` are the others.
pub record Container (C : Type 0) : Type 0 where
  pub volume_mounts : List VolumeMount
  pub env : List (String × String)
  pub rest : C

-- v1.Volume, one with a host path that is made when it is missing, or another.
pub data Volume (V : Type 0) : Type 0 where
  host_path : (name path : String) → Volume V
  other : V → Volume V

pub record PodSpec (C V S : Type 0) : Type 0 where
  pub volumes : List (Volume V)
  pub containers : List (Container C)
  pub rest : S

pub record Pod (C V S : Type 0) : Type 0 where
  pub kind : String
  pub name : String
  pub annotations : Option (Map String String)
  pub labels : Map String String
  pub spec : PodSpec C V S

-- models.Workload; a map may be nil, and so may the image registries.
pub record Workload : Type 0 where
  pub name : String
  pub specification : String
  pub annotations : Option (Map String String)
  pub labels : Option (Map String String)
  pub auth_file : Option String

-- The manager's device and directories, `strings.Contains` and the paths that are made with `path.Join`.
pub record Outside (C V S : Type 0) : Type 0 where
  pub unmarshal : String → Option (PodSpec C V S)
  pub device_id : String
  pub volume_path : String → String
  pub auth_file_path : String → String
  pub contains : String → String → Bool

abbrev pub authfile_label : String
authfile_label = "io.containers.autoupdate.authfile"

abbrev pub unit_label : String
unit_label = "PODMAN_SYSTEMD_UNIT"

abbrev pub autoupdate : String
autoupdate = "io.containers.autoupdate"

abbrev pub default_service_name : String → String
default_service_name name = concat name ".service"

-- `HostPathVolume` of internal/volumes/volumes.go
abbrev pub export_name : String → String
export_name workload = concat "export-" workload

abbrev pub some_or_empty : Option (Map String String) → Map String String
some_or_empty none = []
some_or_empty (some labels) = labels

-- The labels with that for the file of the image registries, if there is one.
unfoldable pub with_auth_file : Option String → String → Map String String → Map String String
with_auth_file none path labels = labels
with_auth_file (some auth_file) path labels =
    if auth_file == "" then labels else insert authfile_label path labels

-- The loop over the labels, which writes one of them.
unfoldable pub set_unit :
    (String → String → Bool) → String → Map String String → Map String String → Map String String
set_unit contains service [] labels = labels
set_unit contains service ((label, value) ∷ rest) labels =
    set_unit contains service rest
      (if contains label autoupdate then insert unit_label service labels else labels)

-- The workload's own map after the pod is made: a nil map stays nil.
abbrev pub written_labels :
    Option (Map String String) → Map String String → Option (Map String String)
written_labels none labels = none
written_labels (some _) labels = some labels

module _ {C V S : Type 0} where
  unfoldable pub host_path_volume : Outside C V S → String → Volume V
  host_path_volume out workload = host_path (export_name workload) (out.volume_path workload)

  -- The body of the loop over the containers.
  unfoldable pub export_container : Outside C V S → String → Container C → Container C
  export_container out workload container = record container {
    volume_mounts =
        container.volume_mounts
        ++ record { name = export_name workload; mount_path = "/export" } ∷ [];
    env = container.env ++ ("DEVICE_ID", out.device_id) ∷ [];
  }

  unfoldable pub containers_loop :
      Outside C V S → String → List (Container C) → List (Container C) → List (Container C)
  unfolding export_container
  containers_loop out workload [] containers = containers
  containers_loop out workload (container ∷ rest) containers =
      containers_loop out workload rest (containers ++ export_container out workload container ∷ [])

  unfoldable pub pod_labels : Outside C V S → Workload → Map String String
  unfolding with_auth_file set_unit
  pod_labels out w =
      let labels =
        with_auth_file w.auth_file (out.auth_file_path w.name) (some_or_empty w.labels) in
      set_unit out.contains (default_service_name w.name) labels labels

  unfoldable pub make_pod :
      Outside C V S → Workload → Option (PodSpec C V S) → Option (Pod C V S) × Workload
  unfolding host_path_volume containers_loop pod_labels
  make_pod out w none = (none, w)
  make_pod out w (some spec) = (
    some record {
      kind = "Pod";
      name = w.name;
      annotations = w.annotations;
      labels = pod_labels out w;
      spec = record {
        volumes = spec.volumes ++ host_path_volume out w.name ∷ [];
        containers = containers_loop out w.name spec.containers [];
        rest = spec.rest;
      };
    },
    record w { labels = written_labels w.labels (pod_labels out w) },
  )

  -- `toPod`: the pod, if the specification can be read, and the workload with the labels it has then.
  unfoldable pub to_pod : Outside C V S → Workload → Option (Pod C V S) × Workload
  unfolding make_pod
  to_pod out w = make_pod out w (out.unmarshal w.specification)
