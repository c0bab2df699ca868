-- ===== src/Hardware.antt =====
-- internal/hardware/hardware.go: what the device reports about its hardware.
pub mod Delta
use flotta_device_worker.Prelude.{
  Bool, true, false, ◌&&◌, ◌≡◌, ◌↔◌, Option, none, some, String, List, [], ◌∷◌, if◌then◌else◌,
  string_eq, ◌==◌,
}

-- models.Interface, and reflect.DeepEqual on lists of them, which decides equality.
pub record Interface : Type 0 where
  pub ipv4_addresses : List String
  pub ipv6_addresses : List String

-- models.HardwareInfo. `immutable` is the part of `GetHardwareImmutableInformation`: processor, vendor
-- and host devices, of a type `X` that this code only copies; mounts are of a type `M`.
pub record HardwareInfo (X M : Type 0) : Type 0 where
  pub immutable : Option X
  pub hostname : String
  pub interfaces : List Interface
  pub mounts : List M

-- The inventory of the assisted installer's agent and `GetMounts` (`none` if it fails). `ready` is
-- `isDependenciesSet`.
pub record Inventory (X M : Type 0) : Type 0 where
  pub ready : Bool
  pub immutable : X
  pub hostname : String
  pub interfaces : List Interface
  pub mounts : Option (List M)

pub data Err : Type 0 where
  not_initialized cannot_list_mounts : Err

module _ {X M : Type 0} where
  abbrev pub empty_info : HardwareInfo X M
  empty_info = record { immutable = none; hostname = ""; interfaces = []; mounts = [] }

abbrev is_nil : List String → Bool
is_nil [] = true
is_nil (_ ∷ _) = false

-- The loop that leaves out interfaces without an address.
unfoldable pub addressed : List Interface → List Interface
addressed [] = []
addressed (i ∷ is) =
    let rest = addressed is in
    if is_nil i.ipv4_addresses && is_nil i.ipv6_addresses then rest else i ∷ rest

module _ {X M : Type 0} (inv : Inventory X M) where
  -- `getHardwareMutableInformation`: the information as far as it got, and the error.
  unfoldable pub add_mutable : HardwareInfo X M → Option Err × HardwareInfo X M
  unfolding addressed
  add_mutable info =
      if inv.ready
      then (let info' = record info {
        hostname = inv.hostname;
        interfaces = addressed inv.interfaces;
      } in
          elim inv.mounts [
            | none ↦ (some cannot_list_mounts, info')
            | some ms ↦ (none, record info' { mounts = ms })
          ])
      else (some not_initialized, info)

  -- `CreateHardwareMutableInformation`
  unfoldable pub create_hardware_mutable_information : Option (HardwareInfo X M)
  unfolding add_mutable
  create_hardware_mutable_information =
      let (failed, info) = add_mutable empty_info in
      elim failed [ none ↦ some info | some _ ↦ none ]

  -- `GetHardwareInformation`: nil and an error, or the information with the error of the mounts.
  unfoldable pub get_hardware_information : Option Err × Option (HardwareInfo X M)
  unfolding add_mutable
  get_hardware_information =
      if inv.ready
      then (let (failed, info) =
            add_mutable (record empty_info { immutable = some inv.immutable }) in
          (failed, some info))
      else (some not_initialized, none)

-- `GetMutableHardwareInfoDelta`; `same` is reflect.DeepEqual on the interfaces.
unfoldable pub get_mutable_hardware_info_delta :
    {X M : Type 0}
    → (List Interface → List Interface → Bool)
    → HardwareInfo X M
    → HardwareInfo X M
    → HardwareInfo X M
get_mutable_hardware_info_delta same previous new = record {
  immutable = none;
  hostname = if previous.hostname == new.hostname then "" else new.hostname;
  interfaces = if same previous.interfaces new.interfaces then [] else new.interfaces;
  mounts = [];
}
