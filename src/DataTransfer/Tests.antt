-- ===== src/DataTransfer/Tests.antt =====
-- The theorems on internal/datatransfer/monitor.go at concrete inputs.
use Prim.Native.String.{◌++◌ as concat}
use flotta_device_worker.Prelude.{
  ◌&&◌, refl, true, none, some, [], ◌∷◌, lookup, insert, string_eq, length,
}
use flotta_device_worker.DataTransfer.{
  DataPath, Workload, Outside, new_monitor, contains_data_paths, index, resolve_paths, sync_path,
  sync_each, sync_given, sync_data_paths, store_last_update_time, process_sync_data_paths,
  process_each, sync_paths,
}
use flotta_device_worker.DataTransfer.Times.{IsTimed, is_one_of, has_paths, sync_paths-IsTimed}

abbrev log_path : DataPath
log_path = record { source = "log"; target = "bucket" }

abbrev web : Workload
web = record {
  name = "web";
  data_paths = some (record { egress_paths = some (log_path ∷ []); ingress_paths = none });
}

-- One storage, with the number 1, and a clock that counts the calls.
abbrev outside : Outside
outside = record {
  fs_sync = λ calls. some 1;
  connects_well = λ calls k. true;
  syncs_well = λ calls k source target. true;
  now = λ calls. length calls;
  join = λ a b. concat a (concat "/" b);
  list_workloads = some ("web" ∷ "db" ∷ []);
  exported_host_path = λ name. "/export";
  configured_workloads = web ∷ [];
  has_storage_defined = true;
}

-- The storage 1 is replaced by the storage 2 after the first call.
abbrev updated : Outside
updated = record outside { fs_sync = λ calls. elim calls [ [] ↦ some 1 | (c ∷ cs) ↦ some 2 ] }

sync_paths-IsTimed_example :
    IsTimed outside
      (is_one_of "web" ("web" ∷ "db" ∷ []) && has_paths "web" (web ∷ []))
      "web"
      new_monitor
      (sync_paths outside new_monitor).1.last_successful_sync_times
sync_paths-IsTimed_example =
    sync_paths-IsTimed outside new_monitor ("web" ∷ "db" ∷ []) "web" refl refl (
      unfold sync_paths index contains_data_paths process_each process_sync_data_paths
        sync_data_paths sync_given sync_each sync_path resolve_paths store_last_update_time lookup
        insert in
      refl)
