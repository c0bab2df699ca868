-- ===== src/Configuration/Update.antt =====
-- What `Update` of internal/configuration/configuration.go does on each of its ways out.
use flotta_device_worker.Prelude.{
  true, false, ◌≡◌, refl, sym, ◌⊎◌, none, some, List, [], ◌∷◌, map, if◌then◌else◌, arith,
}
use mathlib.Core.List.Perm
use mathlib.Core.Path.{subst}
use flotta_device_worker.Configuration.Unordered.{DistinctNames, is_equal_unordered_iff}
use flotta_device_worker.Configuration.{
  Models, Message, FileState, holds, Manager, Err, write_failed, update_failed, Outside, is_same,
  notify, update, conf_equal,
}

-- An observer's own failure in a call of `Update`.
unfoldable pub failures :
    {models : Models} {O : Type 0} → Outside models O → Message models → List O → List (Err O)
failures out message [] = []
failures out message (o ∷ os) =
    let rest = failures out message os in
    if out.observer_fails o message then update_failed o ∷ rest else rest

module _ {models : Models} {O : Type 0} (out : Outside models O) (message : Message models) where
  notify_lem :
      (os : List O) → notify out message os ≡ (map (λ o. (o, message)) os, failures out message os)
  unfolding notify failures
  notify_lem [] = refl
  notify_lem (o ∷ os) = rw (notify_lem os)

  -- Nothing is done for a message that brings nothing new, once a configuration was taken.
  pub update_unchanged :
      (m : Manager models O)
      → m.initial_config ≡ false
      → is_same message m.device_configuration ≡ true
      → update out message m ≡ (([], m), [])
  unfolding update
  update_unchanged m old same = ground arith

  pub update_committed :
      (m : Manager models O)
      → (m.initial_config ≡ true) ⊎ (is_same message m.device_configuration ≡ false)
      → out.marshals message ≡ true
      → out.marshals m.device_configuration ≡ true
      → out.indents ≡ true
      → out.write_fails ≡ none
      → update out message m ≡ (
        (
          failures out message m.observers,
          record m { device_configuration = message; initial_config = false; file = holds message },
        ),
        map (λ o. (o, message)) m.observers,
      )
  unfolding update
  update_committed m new a b c d = ground (arith, notify_lem m.observers)

  -- When the write of the file fails, the observers have been called all the same, the configuration in
  -- force stays the old one, and the only error returned is that of the write.
  pub update_not_written :
      (m : Manager models O) (left : FileState models)
      → (m.initial_config ≡ true) ⊎ (is_same message m.device_configuration ≡ false)
      → out.marshals message ≡ true
      → out.marshals m.device_configuration ≡ true
      → out.indents ≡ true
      → out.write_fails ≡ some left
      → update out message m
        ≡ ((write_failed ∷ [], record m { file = left }), map (λ o. (o, message)) m.observers)
  unfolding update
  update_not_written m left new a b c d = ground (arith, notify_lem m.observers)

  -- On every way out, either the configuration in force and the phase are what they were, or the
  -- message is in force and in the file and the initial phase is over.
  pub update_atomic :
      (m : Manager models O)
      → let m' = (update out message m).0.1 in
        ((m'.device_configuration ≡ m.device_configuration)
          × (m'.initial_config ≡ m.initial_config))
        ⊎ ((m'.device_configuration ≡ message)
            × (m'.initial_config ≡ false)
            × (m'.file ≡ holds message))
  unfolding update
  update_atomic m = ground arith

-- The same message sent again is recognised, if DeepEqual holds of its configuration with itself and no
-- two of its workloads, and no two of its secrets, share a name.
pub update-update :
    {models : Models} {O : Type 0} (out out' : Outside models O) (message : Message models)
    (m : Manager models O)
    → conf_equal models message.configuration message.configuration ≡ true
    → DistinctNames models.workload message.workloads
    → DistinctNames models.secret message.secrets
    → (update out message m).0.1.initial_config ≡ false
    → (update out message m).0.1.device_configuration ≡ message
    → let m' = (update out message m).0.1 in update out' message m' ≡ (([], m'), [])
update-update {models} out out' message m c dw ds initial same =
    let w =
      (is_equal_unordered_iff models.workload message.workloads message.workloads dw dw).1
        (Perm.refl _) in
    let s =
      (is_equal_unordered_iff models.secret message.secrets message.secrets ds ds).1
        (Perm.refl _) in
    let again : is_same message message ≡ true = unfold is_same in ground (arith, c, w, s) in
    update_unchanged out' message (update out message m).0.1 initial
      (subst (λ d. is_same message d ≡ true) (sym same) again)
