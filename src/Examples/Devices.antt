-- ===== src/Examples/Devices.antt =====
-- Runs of virtual_machine_reconfig.go on the devices of the machine.
use vsphere_facade.Prelude.{
  All, List, [], add_int64, arith, length, max_int64, mul_int64, none, ok, or_err, pos, refl, some,
  ℤ, ◌*◌, ◌>>=◌, ◌^◌, ◌∷◌, ◌≡◌, ◌≤◌,
}
use vsphere_facade.Examples.Machine.{system_disk, data_disk, devices, library, networks}
use vsphere_facade.Utils.{slice_contain}
use vsphere_facade.Version.{ApiVersion, api_version, version}
use vsphere_facade.Reconfig.Error.{no_unit_numbers}
use vsphere_facade.Reconfig.Device.{DeviceChange, VirtualDisk}
use vsphere_facade.Reconfig.Parameter.{AddDiskParameter, EditDiskParameter, AddNicParameter}
use vsphere_facade.Reconfig.Units.{DeviceType, disk, generate_unit_num}
use vsphere_facade.Reconfig.Units.Lowest.{
  LowestFree, taken_numbers, first_number, generate_unit_num-LowestFree,
}
use vsphere_facade.Reconfig.Disks.{remove_disk, edit_disk, size_in_kb, size_in_bytes, disk_edit}
use vsphere_facade.Reconfig.Disks.Removal.{Sound, Complete, remove_disk-exact}
use vsphere_facade.Reconfig.Disks.Editing.{KeepsOthers, edit_disk-KeepsOthers, size_exact}
use vsphere_facade.Reconfig.Nics.{add_nic}
use vsphere_facade.Reconfig.Nics.Networks.{add_cards_plain, add_nic-plain}

abbrev api : ApiVersion
api = api_version (pos 6) (pos 7) (pos 0)

generate_unit_num-LowestFree_example :
    (us : List ℤ) × (generate_unit_num devices.all disk 2 ≡ some us)
    × (length us ≡ 2)
    × LowestFree (taken_numbers devices.all disk) (first_number disk) us
generate_unit_num-LowestFree_example = generate_unit_num-LowestFree devices.all disk 2 (omega arith)

-- The numbers 2 and 3: 0 and 1 are in use.
generate_unit_num_run : generate_unit_num devices.all disk 2 ≡ some (pos 2 ∷ pos 3 ∷ [])
unfolding generate_unit_num slice_contain
generate_unit_num_run = refl

remove_disk-exact_example :
    (changes : List DeviceChange) × (remove_disk (pos 2000 ∷ pos 2001 ∷ []) devices.disks
      ≡ ok changes)
    × All (Sound (pos 2000 ∷ pos 2001 ∷ []) 0 devices.disks) changes
    × Complete (pos 2000 ∷ pos 2001 ∷ []) 0 devices.disks changes
remove_disk-exact_example =
    remove_disk-exact (pos 2000 ∷ pos 2001 ∷ []) devices.disks ((pos 0, refl), ((pos 1, refl), tt))
      (λ e. cc)

abbrev edit : EditDiskParameter
edit = record {
  key = pos 2001;
  size = some (pos 2);
  mode = none;
  storage_policy_id = none;
  sharing = none;
}

abbrev grown : VirtualDisk
grown = record data_disk { capacity_in_kb = pos 2097152; capacity_in_bytes = pos 2147483648 }

edit_disk_run :
    edit_disk api (edit ∷ []) devices.disks ≡ ok (system_disk ∷ grown ∷ [], disk_edit 1 edit ∷ [])
unfolding edit_disk api_version version mul_int64 add_int64
edit_disk_run = refl

edit_disk-KeepsOthers_example : KeepsOthers (edit ∷ []) devices.disks (system_disk ∷ grown ∷ [])
edit_disk-KeepsOthers_example =
    edit_disk-KeepsOthers api (edit ∷ []) devices.disks (system_disk ∷ grown ∷ [])
      (disk_edit 1 edit ∷ []) edit_disk_run

size_exact_example :
    (size_in_kb (pos 3) ≡ pos (3 * 2 ^ 20))
    × (size_in_bytes (pos 3) ≡ pos (3 * 2 ^ 30))
    × (3 * 2 ^ 30 ≤ max_int64)
size_exact_example = size_exact 3 (omega arith)

abbrev new_disk : AddDiskParameter
new_disk = record {
  size = pos 10;
  format = "thin";
  mode = some "persistent";
  storage_policy_id = none;
  sharing = none;
  unit_number = none;
}

abbrev new_card : AddNicParameter
new_card = record {
  id = "nic-1";
  network_id = "network-1";
  adapter_type = some "vmxnet3";
  address_type = none;
  mac_address = none;
  allocation = none;
  unit_number = none;
}

add_nic-plain_example : add_nic library networks api devices (new_card ∷ new_card ∷ []) ≡ (
    or_err no_unit_numbers (generate_unit_num devices.all DeviceType.nic 2) >>= λ us.
    add_cards_plain library networks api us (new_card ∷ new_card ∷ []))
add_nic-plain_example = add_nic-plain library networks api devices new_card (new_card ∷ [])
