-- ===== src/Reconfig/Disks.antt =====
-- removeDisk, editDisk, addDisk and parseReconfigureDisk of virtual_machine_reconfig.go. Each returns
-- the changes that it appends; an edit writes to the machine's disks, which the changes point to.
pub mod Removal
pub mod Editing
pub mod Adding
use mathlib.Core.Option
use vsphere_facade.Prelude.{
  List, Option, Outcome, [], deref, err, get_elem?, if◌then◌else◌, int_eq, length, mul_int64, none,
  not, ok, or_err, panic, pos, set, some, suc, wrap_err, ℕ, ℤ, ◌++◌, ◌==◌, ◌>>=◌, ◌∷◌,
}
use vsphere_facade.Utils.{slice_contain}
use vsphere_facade.Version.{ApiVersion, newer}
use vsphere_facade.DiskFormat.{Format, format_mapping}
use vsphere_facade.Reconfig.Parameter.{AddDiskParameter, EditDiskParameter, DiskParameter}
use vsphere_facade.Reconfig.Error.{
  ReconfigError, no_controller, no_unit_numbers, remove_disk_failed, edit_disk_failed,
  add_disk_failed,
}
use vsphere_facade.Reconfig.Device.{
  VirtualDevice, FlatBacking, Backing, flat_ver2, other_backing, VirtualDisk, op_add, op_remove,
  op_edit, no_file_operation, file_create, file_destroy, disk_at, new_disk, DeviceChange,
  DeviceList, DeviceLibrary,
}
use vsphere_facade.Reconfig.Units.{disk, generate_unit_num}

abbrev pub Step : Type 0 → Type 0
Step A = Outcome ReconfigError A

-- The change that takes the disk at `i` away, with its file.
abbrev pub disk_removal : ℕ → DeviceChange
disk_removal i = record {
  target = disk_at i;
  operation = op_remove;
  file_operation = file_destroy;
  profile = none;
}

-- The loop of removeDisk from the disk at `i` on; the system disk has unit number 0.
remove_disks_from : ℕ → List ℤ → List VirtualDisk → Step (List DeviceChange)
remove_disks_from i remove_keys [] = ok []
remove_disks_from i remove_keys (d ∷ disks) =
    let rest = remove_disks_from (suc i) remove_keys disks in
    deref d.device.unit_number >>= λ un.
    if un == pos 0
    then rest
    else if slice_contain remove_keys d.device.key
    then (rest >>= λ change. ok (disk_removal i ∷ change))
    else rest

unfoldable pub remove_disk : List ℤ → List VirtualDisk → Step (List DeviceChange)
unfolding remove_disks_from
remove_disk [] disks = ok []
remove_disk (key ∷ keys) disks = remove_disks_from 0 (key ∷ keys) disks

-- diskMap: the place of the last disk with the key
unfoldable pub disk_index : ℤ → List VirtualDisk → Option ℕ
disk_index key [] = none
disk_index key (d ∷ disks) = elim (disk_index key disks) [
  | some i ↦ some (suc i)
  | none ↦ if d.device.key == key then some 0 else none
]

-- The sizes in KB and in bytes of a size in GB; the arithmetic is that of int64.
unfoldable pub size_in_kb : ℤ → ℤ
size_in_kb size = mul_int64 (mul_int64 size 1024) 1024

unfoldable pub size_in_bytes : ℤ → ℤ
unfolding size_in_kb
size_in_bytes size = mul_int64 (size_in_kb size) 1024

abbrev pub or_keep {ℓ} : {A : Type ℓ} → Option A → A → A
or_keep none old = old
or_keep (some new) old = new

abbrev pub flat_of : Backing → Step FlatBacking
flat_of (flat_ver2 b) = ok b
flat_of other_backing = panic

-- The body of the loop of editDisk for a disk that is there. The type assertion panics at another
-- backing; the sharing mode is set from version 6.0.0 on.
edited_disk : ApiVersion → EditDiskParameter → VirtualDisk → Step VirtualDisk
unfolding size_in_kb size_in_bytes newer
edited_disk api ed vd = flat_of vd.backing >>= λ b.
    let sharing =
      if newer api (pos 6) (pos 0) (pos 0) then or_keep ed.sharing b.sharing else b.sharing in
    ok (record vd {
      capacity_in_kb = or_keep (Option.map size_in_kb ed.size) vd.capacity_in_kb;
      capacity_in_bytes = or_keep (Option.map size_in_bytes ed.size) vd.capacity_in_bytes;
      backing = flat_ver2 (record b { disk_mode = or_keep ed.mode b.disk_mode; sharing = sharing });
    })

abbrev pub disk_edit : ℕ → EditDiskParameter → DeviceChange
disk_edit i ed = record {
  target = disk_at i;
  operation = op_edit;
  file_operation = no_file_operation;
  profile = ed.storage_policy_id;
}

-- The loop of editDisk over the machine's disks; `keys` are the disks that diskMap was built from. A
-- key that no disk has is logged and passed over.
edit_disks_from :
    ApiVersion
    → List VirtualDisk
    → List VirtualDisk
    → List EditDiskParameter
    → Step (List VirtualDisk × List DeviceChange)
unfolding edited_disk disk_index
edit_disks_from api keys disks [] = ok (disks, [])
edit_disks_from api keys disks (ed ∷ edits) = elim (disk_index ed.key keys) [
  | none ↦ edit_disks_from api keys disks edits
  | some i ↦ deref (get_elem? disks i) >>= λ vd. edited_disk api ed vd >>= λ vd'.
      edit_disks_from api keys (set disks i vd') edits >>= λ r. ok (r.0, disk_edit i ed ∷ r.1)
]

unfoldable pub edit_disk :
    ApiVersion
    → List EditDiskParameter
    → List VirtualDisk
    → Step (List VirtualDisk × List DeviceChange)
unfolding edit_disks_from
edit_disk api edits disks = edit_disks_from api disks disks edits

-- The disk that addDisk builds, before a controller is assigned; an unknown format is a nil pointer.
built_disk : ApiVersion → AddDiskParameter → ℤ → Step VirtualDisk
unfolding size_in_kb size_in_bytes newer
built_disk api nd nu = deref (format_mapping nd.format) >>= λ f. ok (record {
  device = record { key = pos 0; unit_number = some nu };
  capacity_in_kb = size_in_kb nd.size;
  capacity_in_bytes = size_in_bytes nd.size;
  backing = flat_ver2 (record {
    disk_mode = or_keep nd.mode "";
    thin_provisioned = f.thin_provisioned;
    eagerly_scrub = f.eagerly_scrub;
    sharing = if newer api (pos 6) (pos 0) (pos 0) then or_keep nd.sharing "" else "";
    datastore = none;
  });
})

abbrev pub disk_addition : AddDiskParameter → VirtualDisk → DeviceChange
disk_addition nd vd = record {
  target = new_disk vd;
  operation = op_add;
  file_operation = file_create;
  profile = nd.storage_policy_id;
}

module _ (lib : DeviceLibrary) (api : ApiVersion) (devices : DeviceList) where
  -- The loop of addDisk. It writes the unit number back to each parameter.
  add_disks_from : List ℤ → List AddDiskParameter → Step (List AddDiskParameter × List DeviceChange)
  unfolding built_disk
  add_disks_from numbers [] = ok ([], [])
  add_disks_from [] (nd ∷ new_disks) = panic
  add_disks_from (nu ∷ numbers) (nd ∷ new_disks) = built_disk api nd nu >>= λ vd.
      add_disks_from numbers new_disks >>= λ r. ok (
        record nd { unit_number = some nu } ∷ r.0,
        disk_addition nd (lib.assign_controller devices vd) ∷ r.1,
      )

  unfoldable pub add_disk : List AddDiskParameter → Step (List AddDiskParameter × List DeviceChange)
  unfolding add_disks_from generate_unit_num
  add_disk [] = ok ([], [])
  add_disk (nd ∷ new_disks) =
      if not devices.has_disk_controller
      then err no_controller
      else or_err no_unit_numbers (generate_unit_num devices.all disk (length (nd ∷ new_disks)))
        >>= λ us. add_disks_from us (nd ∷ new_disks)

  -- parseReconfigureDisk: removals, edits and additions in this order. The result has the
  -- parameters and the machine's disks as the call leaves them, and the changes.
  unfoldable pub parse_reconfigure_disk :
      Option DiskParameter → Step (Option DiskParameter × List VirtualDisk × List DeviceChange)
  unfolding remove_disk edit_disk add_disk
  parse_reconfigure_disk none = ok (none, devices.disks, [])
  parse_reconfigure_disk (some p) = do
    removed ← wrap_err remove_disk_failed (remove_disk p.remove devices.disks)
    edited ← wrap_err edit_disk_failed (edit_disk api p.edit devices.disks)
    added ← wrap_err add_disk_failed (add_disk p.add)
    ok (some (record p { add = added.0 }), edited.0, removed ++ (edited.1 ++ added.1))
