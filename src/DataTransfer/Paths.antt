-- ===== src/DataTransfer/Paths.antt =====
-- Which calls `syncDataPaths` of internal/datatransfer/monitor.go makes.
use flotta_device_worker.Prelude.{
  ℕ, ◌≡◌, sym, ap, ◌∙◌, true, some, String, List, [], ◌∷◌, ◌++◌, map, arith,
}
use mathlib.Core.List.{append_assoc, append-nil}
use flotta_device_worker.DataTransfer.{
  Direction, DataPath, Call, connects, disconnects, syncs, reports, Outside, Monitor, resolve_paths,
  sync_path, sync_each, sync_given, sync_data_paths,
}

module _ (out : Outside) where
  -- The synchronisations of the paths with one storage, in order.
  abbrev pub synced : ℕ → Direction → String → List DataPath → List Call
  synced k dir host_path =
      map (λ (p : DataPath). let r = resolve_paths out dir host_path p in syncs k r.0 r.1)

  sync_path_lem :
      (k : ℕ) (r : String × String) (m : Monitor)
      → out.fs_sync m.calls ≡ some k
      → (sync_path out r m).1.calls ≡ m.calls ++ syncs k r.0 r.1 ∷ []
  unfolding sync_path
  sync_path_lem k (source, target) m e = ground (arith, e)

  sync_each_lem :
      (k : ℕ) (dir : Direction) (host_path : String) (ps : List DataPath) (m : Monitor)
      → ((more : List Call) → out.fs_sync (m.calls ++ more) ≡ some k)
      → (sync_each out dir host_path ps m).1.calls ≡ m.calls ++ synced k dir host_path ps
  unfolding sync_each
  sync_each_lem k dir host_path [] m e = sym (append-nil m.calls)
  sync_each_lem k dir host_path (p ∷ ps) m e =
      let r = resolve_paths out dir host_path p in
      let m' = (sync_path out r m).1 in
      let first = sync_path_lem k r m (ap out.fs_sync (sym (append-nil m.calls)) ∙ e []) in
      sync_each_lem k dir host_path ps m' (λ more. rw first (
        ap out.fs_sync (append_assoc m.calls (syncs k r.0 r.1 ∷ []) more)
        ∙ e (syncs k r.0 r.1 ∷ more)))
      ∙ rw first (append_assoc m.calls (syncs k r.0 r.1 ∷ []) (synced k dir host_path ps))

  -- If a connection to the storage can be made, every path is synchronised in order, also after one that
  -- failed, and then the metrics are reported and the connection is closed. The connection is made to
  -- the storage `a` that is set at first, and the paths go to the storage `b` that is set after that: if
  -- the configuration is updated in between, that is one to which no connection was made.
  pub sync_data_paths_lem :
      (a b : ℕ) (dir : Direction) (host_path name : String) (ps : List DataPath) (m : Monitor)
      → out.fs_sync m.calls ≡ some a
      → out.connects_well m.calls a ≡ true
      → ((more : List Call) → out.fs_sync (m.calls ++ connects a ∷ more) ≡ some b)
      → (sync_data_paths out (some ps) host_path name dir m).1.calls
        ≡ m.calls ++ connects a ∷ synced b dir host_path ps ++ reports name dir ∷ disconnects a ∷ []
  unfolding sync_data_paths sync_given
  sync_data_paths_lem a b dir host_path name ps m set well later =
      let m' : Monitor = record m { calls = m.calls ++ connects a ∷ [] } in
      let each =
        sync_each_lem b dir host_path ps m'
          (λ more. ap out.fs_sync (append_assoc m.calls (connects a ∷ []) more) ∙ later more) in
      rw (sync_data_paths, set, well, each) (simp append_assoc)
