-- ===== src/Clone.antt =====
-- helper/virtualmachine/virtualmachineclone/virtual_machine_clone.go: the place and the disks of a clone,
-- as Clone passes them to the vCenter.
pub mod LastDisk
use mathlib.Core.Option
use vsphere_facade.Prelude.{
  Bool, List, Option, Outcome, String, [], bind, deref, err, false, if◌then◌else◌, int_eq, none, ok,
  or_err, panic, pos, some, true, ℤ, ◌==◌, ◌∷◌,
}
use vsphere_facade.Version.{ApiVersion, newer}
use vsphere_facade.DiskFormat.{Format, format_mapping}
use vsphere_facade.Reconfig.Device.{
  VirtualDevice, FlatBacking, Backing, flat_ver2, other_backing, VirtualDisk,
}
use vsphere_facade.Reconfig.Disks.{or_keep}
use vsphere_facade.Deployer.{LocationParameter}
use vsphere_facade.Deployer.Steps.{CloneDisk, CloneParameter}

-- VirtualMachineRelocateSpecDiskLocator; `profile` is the id of a storage policy
pub record DiskLocator : Type 0 where
  pub disk_id : ℤ
  pub datastore : String
  pub profile : Option String
  pub backing : FlatBacking

-- VirtualMachineRelocateSpec, by the fields that are written; an object is its id.
pub record RelocateSpec : Type 0 where
  pub datastore : Option String
  pub folder : Option String
  pub host : Option String
  pub pool : Option String
  pub disk : List DiskLocator

pub data CloneError : Type 0 where
  datastore_not_found folder_not_found host_not_found pool_not_found cluster_not_found :
      String → CloneError
  no_place : CloneError

-- What the finders of helper/ give for an id: the object, or nil. A cluster that is found has a pool
-- or nil.
pub record Finders : Type 0 where
  pub find_datastore : String → Option String
  pub find_folder : String → Option String
  pub find_host : String → Option String
  pub find_pool : String → Option String
  pub cluster_pool : String → Option (Option String)
  pub parent_pool : String → Option String

abbrev pub Parsed : Type 0
Parsed = Outcome CloneError RelocateSpec

unfoldable pub parse_location_datastore : Finders → LocationParameter → RelocateSpec → Parsed
parse_location_datastore f l spec = elim l.datastore_id [
  | none ↦ ok spec
  | some id ↦
      bind (or_err (datastore_not_found id) (f.find_datastore id))
        λ ref. ok (record spec { datastore = some ref })
]

-- The folder and the host are set from version 6.0.0 on.
unfoldable pub parse_location_folder :
    ApiVersion → Finders → LocationParameter → RelocateSpec → Parsed
unfolding newer
parse_location_folder api f l spec = elim l.folder_id [
  | none ↦ ok spec
  | some id ↦
      if newer api (pos 6) (pos 0) (pos 0)
      then (bind (or_err (folder_not_found id) (f.find_folder id))
          λ ref. ok (record spec { folder = some ref }))
      else ok spec
]

unfoldable pub parse_location_host :
    ApiVersion → Finders → LocationParameter → RelocateSpec → Parsed
unfolding newer
parse_location_host api f l spec = elim l.host_id [
  | none ↦ ok spec
  | some id ↦
      if newer api (pos 6) (pos 0) (pos 0)
      then (bind (or_err (host_not_found id) (f.find_host id))
          λ ref. ok (record spec { host = some ref }))
      else ok spec
]

-- A resource pool, or else that of the cluster, or else that of the host.
unfoldable pub parse_location_pool : Finders → LocationParameter → RelocateSpec → Parsed
parse_location_pool f l spec = elim l.resource_pool_id [
  | some id ↦
      bind (or_err (pool_not_found id) (f.find_pool id)) λ ref. ok (record spec { pool = some ref })
  | none ↦ elim l.cluster_id [
    | some id ↦
        bind (or_err (cluster_not_found id) (f.cluster_pool id))
          λ pool. ok (record spec { pool = pool })
    | none ↦ elim l.host_id [
      | some id ↦ ok (record spec { pool = f.parent_pool id })
      | none ↦ elim spec.pool [ none ↦ err no_place | some pool ↦ ok spec ]
    ]
  ]
]

unfoldable pub last_of : List CloneDisk → Option CloneDisk
last_of [] = none
last_of (d ∷ ds) = elim ds [ [] ↦ some d | e ∷ es ↦ last_of ds ]

unfoldable pub has_key : ℤ → List CloneDisk → Bool
has_key key [] = false
has_key key (d ∷ ds) = if d.key == key then true else has_key key ds

-- dpm: each key points to the variable of the loop, which holds the last parameter in the end, as in
-- every version of Go before 1.22.
unfoldable pub parameter_of_key : List CloneDisk → ℤ → Option CloneDisk
unfolding last_of has_key
parameter_of_key ds key = if has_key key ds then last_of ds else none

-- The backing with the format and the mode of a parameter. A format that is nil is dereferenced; one
-- that is not known changes nothing.
unfoldable pub formatted : CloneDisk → FlatBacking → Outcome CloneError FlatBacking
formatted dp b = bind (deref dp.format) λ name.
    let b' : FlatBacking = elim (format_mapping name) [
      | none ↦ b
      | some f ↦ record b { eagerly_scrub = f.eagerly_scrub; thin_provisioned = f.thin_provisioned }
    ] in
    ok (record b' { disk_mode = or_keep dp.mode b'.disk_mode })

unfoldable pub flat_backing : Backing → Outcome CloneError FlatBacking
flat_backing (flat_ver2 b) = ok b
flat_backing other_backing = panic

-- The datastore of a disk without one of its own: that of the place, or the one that it is on.
unfoldable pub default_datastore : Option String → FlatBacking → Outcome CloneError String
default_datastore place b = elim place [ some ref ↦ ok ref | none ↦ deref b.datastore ]

-- The locator of one disk of the template.
unfoldable pub disk_locator :
    Finders → Option String → List CloneDisk → VirtualDisk → Outcome CloneError DiskLocator
unfolding parameter_of_key formatted flat_backing default_datastore
disk_locator f place params vd = bind (flat_backing vd.backing) λ b.
    elim (parameter_of_key params vd.device.key) [
      | none ↦
          bind (default_datastore place b) λ ds.
            ok (record { disk_id = vd.device.key; datastore = ds; profile = none; backing = b })
      | some dp ↦ bind (formatted dp b) λ b'.
          bind
            (elim dp.datastore_id [
              | some id ↦ or_err (datastore_not_found id) (f.find_datastore id)
              | none ↦ default_datastore place b'
            ])
            λ ds. ok (record {
              disk_id = vd.device.key;
              datastore = ds;
              profile = dp.storage_policy_id;
              backing = b';
            })
    ]

unfoldable pub disk_locators :
    Finders
    → Option String
    → List CloneDisk
    → List VirtualDisk
    → Outcome CloneError (List DiskLocator)
unfolding disk_locator
disk_locators f place params [] = ok []
disk_locators f place params (vd ∷ disks) =
    bind (disk_locator f place params vd)
      λ d. bind (disk_locators f place params disks) λ ds. ok (d ∷ ds)

unfoldable pub parse_clone_disk :
    Finders → Option (List CloneDisk) → List VirtualDisk → RelocateSpec → Parsed
unfolding disk_locators
parse_clone_disk f params disks spec = elim params [
  | none ↦ ok spec
  | some ps ↦ bind (disk_locators f spec.datastore ps disks) λ ds. ok (record spec { disk = ds })
]

abbrev pub empty_spec : RelocateSpec
empty_spec = record { datastore = none; folder = none; host = none; pool = none; disk = [] }

-- The location of the specification, stage by stage, for a template with these disks.
unfoldable pub clone_location : ApiVersion → Finders → CloneParameter → List VirtualDisk → Parsed
unfolding parse_location_datastore parse_location_folder parse_location_host parse_location_pool
    parse_clone_disk
clone_location api f p disks = bind (parse_location_datastore f p.location empty_spec) λ s₁.
    bind (parse_location_folder api f p.location s₁) λ s₂.
      bind (parse_location_host api f p.location s₂)
        λ s₃. bind (parse_location_pool f p.location s₃) λ s₄. parse_clone_disk f p.disks disks s₄
