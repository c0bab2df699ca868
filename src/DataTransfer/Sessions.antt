-- ===== src/DataTransfer/Sessions.antt =====
-- What a connection of internal/datatransfer/s3/sync.go synchronises and counts, from `Connect` to `Disconnect`.
use flotta_device_worker.Prelude.{
  ◌≡◌, ◌≢◌, refl, sym, ap, Bool, true, Option, none, some, String, List, [], ◌∷◌, All, Bool-cases,
  inl, inr, if◌then◌else◌, arith,
}
use Prim.Native.String.{◌++◌ as concat}
use flotta_device_worker.DataTransfer.Storage.{
  Session, Statistics, no_statistics, Sync, Outside, Err, not_synced, panics, session_of, connect,
  connect_from, disconnect, get_statistics, sync_path,
}

abbrev pub NoPanic : Option Err → Type 0
NoPanic e = e ≢ some panics

no_panic : (b : Bool) → NoPanic (if b then none else some not_synced)
no_panic b = ground arith

module _ {B C : Type 0} where
  -- The paths of one direction, in order, with the error of each.
  unfoldable pub sync_each :
      Outside B C → List (String × String) → Sync B C → List (Option Err) × Sync B C
  sync_each out [] s = ([], s)
  sync_each out ((source, target) ∷ paths) s =
      let first = sync_path out source target s in
      let rest = sync_each out paths first.1 in (first.0 ∷ rest.0, rest.1)

  -- What a manager counts for the paths, in the bucket.
  unfoldable pub transfer_each :
      Outside B C → String → Session B C → List (String × String) → Statistics → Statistics
  transfer_each out bucket session [] counted = counted
  transfer_each out bucket session ((source, target) ∷ paths) counted =
      transfer_each out bucket session paths
        (out.transfer session source (concat "s3://" (concat bucket (concat "/" target))) counted).1

  abbrev pub connected : Session B C → Statistics → Sync B C → Sync B C
  connected session counted s = record s { s3_sync_manager = some (session, counted) }

  sync_each_lem :
      (out : Outside B C) (paths : List (String × String)) (s : Sync B C) (session : Session B C)
      → (counted : Statistics)
      → let synced = sync_each out paths (connected session counted s) in
        All NoPanic synced.0
        × (synced.1 ≡ connected session (transfer_each out s.bucket_name session paths counted) s)
  unfolding sync_each transfer_each sync_path
  sync_each_lem out [] s session counted = (tt, refl)
  sync_each_lem out ((source, target) ∷ paths) s session counted =
      let done =
        out.transfer session source (concat "s3://" (concat s.bucket_name (concat "/" target)))
          counted in
      let rest = sync_each_lem out paths s session done.1 in ((no_panic done.0, rest.0), rest.1)

  connect_lem :
      (out : Outside B C) (s : Sync B C)
      → s.s3_sync_manager ≡ none
      → (connect out s).0 ≡ true
      → (connect out s).1 ≡ connected (session_of out s) no_statistics s
  unfolding connect connect_from
  connect_lem out s h = rw h (elim (Bool-cases (out.new_session (session_of out s))) [
    | inl e ↦ rw e (λ made. refl)
    | inr e ↦ rw e (λ made. absurd (ground (arith, made)))
  ])

  -- From a storage that is not connected, one connection, in which some paths are synchronised: if it is
  -- made, then no path makes the program panic, the statistics at its end are what the manager of a new
  -- session counts for just these paths, and after `Disconnect` the storage is as it was, so that the
  -- next connection counts from nothing again.
  pub session_lem :
      (out : Outside B C) (paths : List (String × String)) (s : Sync B C)
      → s.s3_sync_manager ≡ none
      → (connect out s).0 ≡ true
      → let synced = sync_each out paths (connect out s).1 in
        let counted = transfer_each out s.bucket_name (session_of out s) paths no_statistics in
        All NoPanic synced.0 × (get_statistics synced.1 ≡ some counted) × (disconnect synced.1 ≡ s)
  unfolding get_statistics disconnect
  session_lem out paths s h made =
      let synced = sync_each_lem out paths s (session_of out s) no_statistics in
      rw (connect_lem out s h made) (
        synced.0,
        rw (synced.1) refl,
        rw (synced.1) (ap (λ m. record s { s3_sync_manager = m }) (sym h)),
      )
