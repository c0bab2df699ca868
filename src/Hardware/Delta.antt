-- ===== src/Hardware/Delta.antt =====
-- `GetMutableHardwareInfoDelta` of internal/hardware/hardware.go: what its receiver can restore.
use flotta_device_worker.Prelude.{
  Bool, true, ◌≡◌, ◌≢◌, refl, inl, inr, Bool-cases, List, [], ◌∷◌, if◌then◌else◌, string_eq, ◌==◌,
  eq_iff, arith,
}
use flotta_device_worker.Hardware.{Interface, HardwareInfo, get_mutable_hardware_info_delta}

-- The receiver's side: a field that is not in the delta keeps its value.
abbrev pub patched_interfaces : List Interface → List Interface → List Interface
patched_interfaces previous [] = previous
patched_interfaces previous (i ∷ is) = i ∷ is

unfoldable pub patch : {X M : Type 0} → HardwareInfo X M → HardwareInfo X M → HardwareInfo X M
patch previous delta = record previous {
  hostname = if delta.hostname == "" then previous.hostname else delta.hostname;
  interfaces = patched_interfaces previous.interfaces delta.interfaces;
}

-- A receiver that patches what it has by the delta has the new host name and the new interfaces, if
-- the new name is not empty, there is an interface, and DeepEqual finds the interfaces equal only if
-- they are. The mounts stay the old ones.
pub patch-delta :
    {X M : Type 0} (same : List Interface → List Interface → Bool) (previous new : HardwareInfo X M)
    → (same previous.interfaces new.interfaces ≡ true → previous.interfaces ≡ new.interfaces)
    → new.hostname ≢ ""
    → new.interfaces ≢ []
    → let restored = patch previous (get_mutable_hardware_info_delta same previous new) in
      (restored.hostname ≡ new.hostname)
      × (restored.interfaces ≡ new.interfaces)
      × (restored.mounts ≡ previous.mounts)
unfolding patch get_mutable_hardware_info_delta
patch-delta same previous new same_eq named linked = (
  elim (Bool-cases (previous.hostname == new.hostname)) [
    | inl e ↦ rw e (ground (arith, eq_iff previous.hostname new.hostname, eq_iff "" ""))
    | inr e ↦ rw e (ground (arith, eq_iff new.hostname ""))
  ],
  ground (arith, same_eq),
  refl,
)
