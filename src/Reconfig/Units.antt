-- ===== src/Reconfig/Units.antt =====
-- generateUnitNum of virtual_machine_reconfig.go: the unit numbers of new devices.
pub mod Lowest
use vsphere_facade.Prelude.{
  List, Option, [], if◌then◌else◌, inc_int32, int_eq, length, none, pos, some, suc, zero, ℕ, ℤ,
  ◌++◌, ◌+◌, ◌∷◌,
}
use mathlib.Core.Option
use vsphere_facade.Utils.{slice_contain}
use vsphere_facade.Reconfig.Device.{VirtualDevice}

pub data DeviceType : Type 0 where
  disk nic : DeviceType

-- The unit numbers in use; a device without one is passed over.
unfoldable pub used_numbers : List VirtualDevice → List ℤ
used_numbers [] = []
used_numbers (d ∷ devices) = elim d.unit_number [
  | none ↦ used_numbers devices
  | some nu ↦ nu ∷ used_numbers devices
]

unfoldable pub start_number : DeviceType → ℤ
start_number disk = pos 1
start_number nic = pos 7

-- Number 7 is reserved, so a disk does not take it.
unfoldable pub with_reserved : DeviceType → List ℤ → List ℤ
with_reserved disk used = used ++ pos 7 ∷ []
with_reserved nic used = used

-- The loop, with `missing` numbers to find. `none` means that the fuel ran out.
collect : ℕ → List ℤ → ℕ → ℤ → Option (List ℤ)
collect fuel used zero new_nu = some []
collect zero used (suc missing) new_nu = none
collect (suc fuel) used (suc missing) new_nu =
    let skipped = collect fuel used (suc missing) (inc_int32 new_nu) in
    let taken = Option.map (λ rest. new_nu ∷ rest) (collect fuel used missing (inc_int32 new_nu)) in
    if slice_contain used new_nu then skipped else taken

-- Each round takes a number or passes one that is used, so this many rounds are enough.
unfoldable pub unit_fuel : List VirtualDevice → ℕ → ℕ
unit_fuel devices cnt = cnt + (length devices + 1)

unfoldable pub generate_unit_num : List VirtualDevice → DeviceType → ℕ → Option (List ℤ)
unfolding collect used_numbers start_number with_reserved unit_fuel
generate_unit_num devices device_type cnt =
    collect (unit_fuel devices cnt) (with_reserved device_type (used_numbers devices)) cnt
      (start_number device_type)
