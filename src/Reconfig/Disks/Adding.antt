-- ===== src/Reconfig/Disks/Adding.antt =====
-- What addDisk of virtual_machine_reconfig.go builds.
use vsphere_facade.Prelude.{List, [], some, ℤ, ◌∷◌, ◌≡◌}
use vsphere_facade.DiskFormat.{Format, format_mapping, get_format}
use vsphere_facade.Reconfig.Parameter.{AddDiskParameter}
use vsphere_facade.Reconfig.Device.{
  FlatBacking, flat_ver2, VirtualDisk, DeviceChange, DeviceList, DeviceLibrary,
}
use vsphere_facade.Reconfig.Disks.{disk_addition, size_in_kb, size_in_bytes}

abbrev pub HasFormat : AddDiskParameter → Type 0
HasFormat nd = (f : Format) × (format_mapping nd.format ≡ some f)

-- AssignController of govmomi sets the controller, the unit number and the key of a new disk, and
-- nothing else.
pub record AssignLaws (lib : DeviceLibrary) : Type 0 where
  pub same_backing :
      (devices : DeviceList) (vd : VirtualDisk)
      → (lib.assign_controller devices vd).backing ≡ vd.backing
  pub same_kb :
      (devices : DeviceList) (vd : VirtualDisk)
      → (lib.assign_controller devices vd).capacity_in_kb ≡ vd.capacity_in_kb
  pub same_bytes :
      (devices : DeviceList) (vd : VirtualDisk)
      → (lib.assign_controller devices vd).capacity_in_bytes ≡ vd.capacity_in_bytes

-- A disk for the parameter `nd`: its sizes are those asked for, and its flags read back as the format
-- asked for.
abbrev pub BuiltFor : AddDiskParameter → VirtualDisk → Type 0
BuiltFor nd vd =
    (b : FlatBacking) × (vd.backing ≡ flat_ver2 b)
    × (get_format b.eagerly_scrub b.thin_provisioned ≡ nd.format)
    × (vd.capacity_in_kb ≡ size_in_kb nd.size)
    × (vd.capacity_in_bytes ≡ size_in_bytes nd.size)

-- The parameters with their numbers written back.
abbrev pub numbered : List AddDiskParameter → List ℤ → List AddDiskParameter
numbered (nd ∷ nds) (nu ∷ us) = record nd { unit_number = some nu } ∷ numbered nds us
numbered _ _ = []

-- The parameters and their changes, one by one: each adds a disk for its parameter.
abbrev pub Added : List AddDiskParameter → List DeviceChange → Type 0
Added [] [] = Unit
Added (nd ∷ nds) (c ∷ changes) =
    ((vd : VirtualDisk) × BuiltFor nd vd × (c ≡ disk_addition nd vd)) × Added nds changes
Added _ _ = ⊥
