-- ===== src/WorkloadManager/Pods/Tests.antt =====
-- The theorem on `toPod` of internal/workload/manager.go at a concrete input.
use flotta_device_worker.Prelude.{ℕ, insert, ◌≡◌, refl, none, some, [], ◌∷◌, string_eq, ◌==◌}
use flotta_device_worker.WorkloadManager.Pods.{
  Container, Workload, Outside, to_pod, make_pod, pod_labels, with_auth_file, set_unit,
}
use flotta_device_worker.WorkloadManager.Pods.Labels.{to_pod-to_pod}

abbrev container : Container ℕ
container = record { volume_mounts = []; env = ("A", "b") ∷ []; rest = 0 }

abbrev outside : Outside ℕ ℕ ℕ
outside = record {
  unmarshal = λ text. some (record { volumes = []; containers = container ∷ []; rest = 0 });
  device_id = "device";
  volume_path = λ name. "/volumes/web";
  auth_file_path = λ name. "/manifests/web/auth.json";
  contains = λ label part. label == "io.containers.autoupdate";
}

abbrev web : Workload
web = record {
  name = "web";
  specification = "containers: [{}]";
  annotations = none;
  labels = some (("io.containers.autoupdate", "registry") ∷ []);
  auth_file = some "auth";
}

to_pod_labels :
    (to_pod outside web).1.labels
    ≡ some (
        ("io.containers.autoupdate", "registry")
        ∷ ("io.containers.autoupdate.authfile", "/manifests/web/auth.json")
        ∷ ("PODMAN_SYSTEMD_UNIT", "web.service")
        ∷ [])
unfolding to_pod make_pod pod_labels with_auth_file set_unit insert
to_pod_labels = refl

to_pod-to_pod_example : to_pod outside (to_pod outside web).1 ≡ to_pod outside web
to_pod-to_pod_example = to_pod-to_pod outside web
