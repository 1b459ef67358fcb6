-- ===== src/Operator/Relocation.antt =====
-- ReconfigureDisk of vsphere/workerpool/virtual_machine_operator.go: new disks are added, and those that
-- ask for another datastore than they got are moved there.
pub mod Moves
use mathlib.Core.List.{Memᴰ}
use vsphere_facade.Prelude.{
  Bool, List, Option, Outcome, String, [], bind, deref, false, if◌then◌else◌, int_eq, map, none,
  not, ok, panic, pos, some, string_eq, ℤ, ◌++◌, ◌==◌, ◌||◌, ◌∷◌,
}
use vsphere_facade.Action.{Action, give, wrap, continue, ◌>>=◌, ◌>>◌}
use vsphere_facade.Hypervisor.{Hypervisor}
use vsphere_facade.Reconfig.Device.{
  VirtualDevice, VirtualDisk, FlatBacking, flat_ver2, other_backing,
}
use vsphere_facade.Reconfig.Parameter.{
  AddDiskParameter, EditDiskParameter, DiskParameter, ReconfigureParameter,
}
use vsphere_facade.Reconfig.Run.{reconfigure}
use vsphere_facade.Operator.{OperatorError, remote, reconfigure_error}

-- A new disk, and the datastore that it asks for; the empty text asks for none.
pub record AddDiskRequest : Type 0 where
  pub datastore_id : String
  pub disk : AddDiskParameter

-- ReconfigureDiskParameter
pub record DiskRequest : Type 0 where
  pub add : List AddDiskRequest
  pub edit : List EditDiskParameter
  pub remove : List ℤ

-- DiskStorageParameter of virtual_machine_relocate.go, by the fields that are set here.
pub record DiskMove : Type 0 where
  pub key : ℤ
  pub datastore_id : String

-- The parameter that is passed on: five of its fields.
unfoldable pub added_parameter : AddDiskRequest → AddDiskParameter
added_parameter a = record {
  size = a.disk.size;
  format = a.disk.format;
  mode = a.disk.mode;
  storage_policy_id = a.disk.storage_policy_id;
  sharing = a.disk.sharing;
  unit_number = none;
}

-- diskUmMap; a number that is nil is dereferenced.
unfoldable pub unit_disks : List VirtualDisk → Outcome OperatorError (List (ℤ × VirtualDisk))
unit_disks [] = ok []
unit_disks (d ∷ disks) =
    bind (deref d.device.unit_number) λ un. bind (unit_disks disks) λ rest. ok ((un, d) ∷ rest)

-- The last disk with the number.
unfoldable pub disk_at_unit : ℤ → List (ℤ × VirtualDisk) → Option VirtualDisk
disk_at_unit un [] = none
disk_at_unit un ((nu, d) ∷ units) = elim (disk_at_unit un units) [
  | some later ↦ some later
  | none ↦ if nu == un then some d else none
]

-- The datastore of the backing: the type assertion and the pointer panic.
unfoldable pub datastore_of : VirtualDisk → Outcome OperatorError String
datastore_of d = elim d.backing [ flat_ver2 b ↦ deref b.datastore | other_backing ↦ panic ]

-- The move of one new disk that asks for a datastore, if it is elsewhere.
unfoldable pub move_of :
    List (ℤ × VirtualDisk) → String → AddDiskParameter → Outcome OperatorError (List DiskMove)
unfolding disk_at_unit datastore_of
move_of units wanted nd = bind (deref nd.unit_number) λ un.
    bind (deref (disk_at_unit un units)) λ d. bind (datastore_of d) λ current. ok (
      if not (wanted == current)
      then record { key = d.device.key; datastore_id = wanted } ∷ []
      else [])

unfoldable pub moves :
    List (ℤ × VirtualDisk)
    → List AddDiskRequest
    → List AddDiskParameter
    → Outcome OperatorError (List DiskMove)
unfolding move_of
moves units [] added = ok []
moves units (a ∷ requests) [] = panic
moves units (a ∷ requests) (nd ∷ added) =
    let rest = moves units requests added in
    if a.datastore_id == ""
    then rest
    else (bind (move_of units a.datastore_id nd) λ m. bind rest λ ms. ok (m ++ ms))

-- len(mayRelocate) > 0
unfoldable pub may_relocate : List AddDiskRequest → Bool
may_relocate [] = false
may_relocate (a ∷ requests) = not (a.datastore_id == "") || may_relocate requests

-- Relocate of virtual_machine_relocate.go, for disks alone, with a timeout in minutes.
pub record RelocateApi (W : Type 0) : Type 0 where
  pub relocate : String → List DiskMove → ℤ → Action W String (Unit {0})

unfoldable pub added_disks : ReconfigureParameter → List AddDiskParameter
added_disks q = elim q.disk [ none ↦ [] | some d ↦ d.add ]

module _ {W : Type 0} (h : Hypervisor W) (api : RelocateApi W) where
  relocate_moves : String → List DiskMove → Action W OperatorError (Unit {0})
  relocate_moves id [] = give tt
  relocate_moves id (m ∷ ms) = wrap remote (api.relocate id (m ∷ ms) (pos 10))

  unfoldable pub planned_moves :
      String → DiskRequest → ReconfigureParameter → Action W OperatorError (List DiskMove)
  unfolding unit_disks moves added_disks
  planned_moves id p q w = (
    w,
    bind (unit_disks (elim (h.devices w id) [ none ↦ [] | some devices ↦ devices.disks ]))
        λ units. moves units p.add (added_disks q),
  )

  -- ReconfigureDisk
  unfoldable pub operator_reconfigure_disk :
      String → DiskRequest → Action W OperatorError (Unit {0})
  unfolding planned_moves relocate_moves may_relocate added_parameter
  operator_reconfigure_disk id p = do
    q ← wrap reconfigure_error (
        reconfigure h id (record {
          name = none;
          create_date = none;
          annotation = none;
          cpu = none;
          memory = none;
          disk =
              some (record { add = map added_parameter p.add; edit = p.edit; remove = p.remove });
          nic = none;
          flag = none;
        }))
    (if may_relocate p.add then planned_moves id p q >>= relocate_moves id else give tt)
