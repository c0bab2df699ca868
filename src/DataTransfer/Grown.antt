-- ===== src/DataTransfer/Grown.antt =====
-- What the synchronisation of internal/datatransfer/monitor.go leaves as it was.
use flotta_device_worker.Prelude.{
  ◌≡◌, ◌≢◌, refl, sym, ap, ◌∙◌, ◌⊎◌, inl, inr, Option, none, some, String, List, [], ◌∷◌, ◌++◌,
  insert, string_eq, Option-cases, Bool-cases,
}
use mathlib.Core.List.{append_assoc, append-nil}
use flotta_device_worker.DataTransfer.{
  Direction, egress, ingress, DataPath, DataConfiguration, Err, Call, Outside, Monitor, sync_path,
  sync_each, sync_given, sync_data_paths, store_last_update_time, process_sync_data_paths,
  resolve_paths, connects, disconnects, syncs, reports,
}

List-cases : {A : Type 0} (l : List A) → (l ≡ []) ⊎ ((a : A) × (rest : List A) × (l ≡ a ∷ rest))
List-cases [] = inl refl
List-cases (a ∷ rest) = inr (a, rest, refl)

module _ (out : Outside) where
  -- Calls were made after those of the first state.
  abbrev pub IsLater : Monitor → Monitor → Type 0
  IsLater m m' = (more : List Call) × (m'.calls ≡ m.calls ++ more)

  -- Calls were made, and no time has changed.
  abbrev IsGrown : Monitor → Monitor → Type 0
  IsGrown m m' = (m'.last_successful_sync_times ≡ m.last_successful_sync_times) × IsLater m m'

  stays : (m : Monitor) → IsGrown m m
  stays m = (refl, ([], sym (append-nil m.calls)))

  one_call : (m : Monitor) (c : Call) → IsGrown m (record m { calls = m.calls ++ c ∷ [] })
  one_call m c = (refl, (c ∷ [], refl))

  IsLater-trans : (a b c : Monitor) → IsLater a b → IsLater b c → IsLater a c
  IsLater-trans a b c (m, e) (n, f) = (m ++ n, f ∙ ap (λ t. t ++ n) e ∙ append_assoc a.calls m n)

  pub IsGrown-trans : (a b c : Monitor) → IsGrown a b → IsGrown b c → IsGrown a c
  IsGrown-trans a b c (s, l) (t, k) = (t ∙ s, IsLater-trans a b c l k)

  sync_path-IsGrown : (r : String × String) (m : Monitor) → IsGrown m (sync_path out r m).1
  unfolding sync_path
  sync_path-IsGrown (source, target) m = elim (Option-cases (out.fs_sync m.calls)) [
    | inl e ↦ rw (sync_path, e) (stays m)
    | inr (k, e) ↦ rw (sync_path, e) (one_call m (syncs k source target))
  ]

  sync_each-IsGrown :
      (dir : Direction) (host_path : String) (ps : List DataPath) (m : Monitor)
      → IsGrown m (sync_each out dir host_path ps m).1
  unfolding sync_each
  sync_each-IsGrown dir host_path [] m = stays m
  sync_each-IsGrown dir host_path (p ∷ ps) m =
      IsGrown-trans m _ _ (sync_path-IsGrown (resolve_paths out dir host_path p) m)
        (sync_each-IsGrown dir host_path ps _)

  sync_given-IsGrown :
      (paths : Option (List DataPath)) (host_path name : String) (dir : Direction) (m : Monitor)
      → IsGrown m (sync_given out paths host_path name dir m).1
  unfolding sync_given
  sync_given-IsGrown none host_path name dir m = stays m
  sync_given-IsGrown (some ps) host_path name dir m =
      IsGrown-trans m _ _ (sync_each-IsGrown dir host_path ps m) (one_call _ (reports name dir))

  pub sync_data_paths-IsGrown :
      (paths : Option (List DataPath)) (host_path name : String) (dir : Direction) (m : Monitor)
      → IsGrown m (sync_data_paths out paths host_path name dir m).1
  unfolding sync_data_paths
  sync_data_paths-IsGrown paths host_path name dir m = elim (Option-cases (out.fs_sync m.calls)) [
    | inl e ↦ rw (sync_data_paths, e) (stays m)
    | inr (k, e) ↦ elim (Bool-cases (out.connects_well m.calls k)) [
      | inl yes' ↦
          rw (sync_data_paths, e, yes')
            (IsGrown-trans m _ _ (one_call m (connects k)) (
              IsGrown-trans _ _ _ (sync_given-IsGrown paths host_path name dir _)
                (one_call _ (disconnects k))))
      | inr no' ↦ rw (sync_data_paths, e, no') (one_call m (connects k))
    ]
  ]

  -- What is made of the times of one workload.
  abbrev pub IsProcessed : String → Monitor → List Err × Monitor → Type 0
  IsProcessed name m r =
      (((r.0 ≡ [])
          × (r.1.last_successful_sync_times
              ≡ insert name (out.now r.1.calls) m.last_successful_sync_times))
        ⊎ ((r.0 ≢ []) × (r.1.last_successful_sync_times ≡ m.last_successful_sync_times)))
      × IsLater m r.1

  -- One workload: either both directions were synchronised, and it has the time at the end; or an error
  -- is reported, and no time has changed. The calls that were made before stay.
  pub process_sync_data_paths-IsProcessed :
      (name : String) (d : DataConfiguration) (m : Monitor)
      → IsProcessed name m (process_sync_data_paths out name d m)
  unfolding process_sync_data_paths store_last_update_time
  process_sync_data_paths-IsProcessed name d m =
      let host_path = out.exported_host_path name in
      let a = sync_data_paths out d.egress_paths host_path name egress m in
      let b = sync_data_paths out d.ingress_paths host_path name ingress a.1 in
      let ga = sync_data_paths-IsGrown d.egress_paths host_path name egress m in
      let gb =
        IsGrown-trans m a.1 b.1 ga
          (sync_data_paths-IsGrown d.ingress_paths host_path name ingress a.1) in
      elim (List-cases a.0) [
        | inl ea ↦ elim (List-cases b.0) [
          | inl eb ↦
              rw (process_sync_data_paths, ea, eb)
                (inl (refl, ap (insert name (out.now b.1.calls)) gb.0), gb.1)
          | inr (e, es, eb) ↦ rw (process_sync_data_paths, ea, eb) (inr ((λ q. cc), gb.0), gb.1)
        ]
        | inr (e, es, ea) ↦ rw (process_sync_data_paths, ea) (inr ((λ q. cc), ga.0), ga.1)
      ]
