-- ===== src/Reconfig/Device.antt =====
-- The devices that virtual_machine_reconfig.go reads and changes: the fields of govmomi's
-- VirtualDevice, VirtualDisk and VirtualEthernetCard that it uses, and the list of changes.
use vsphere_facade.Prelude.{Bool, List, Option, String, ℕ, ℤ}

pub record VirtualDevice : Type 0 where
  pub key : ℤ
  pub unit_number : Option ℤ

-- VirtualDiskFlatVer2BackingInfo, or another backing
pub record FlatBacking : Type 0 where
  pub disk_mode : String
  pub thin_provisioned : Option Bool
  pub eagerly_scrub : Option Bool
  pub sharing : String
  pub datastore : Option String

pub data Backing : Type 0 where
  flat_ver2 : FlatBacking → Backing
  other_backing : Backing

pub record VirtualDisk : Type 0 where
  pub device : VirtualDevice
  pub capacity_in_kb : ℤ
  pub capacity_in_bytes : ℤ
  pub backing : Backing

-- The types of the type switch of editNic; `other_card` is any other.
pub data CardType : Type 0 where
  e1000 e1000e pcnet32 vmxnet vmxnet2 vmxnet3 other_card : CardType

-- VirtualEthernetCardNetworkBackingInfo, or another backing
pub data CardBacking : Type 0 where
  network_backing : (network device_name : String) → CardBacking
  other_card_backing : CardBacking

pub record SharesInfo : Type 0 where
  pub shares : ℤ
  pub level : String

pub record CardAllocation : Type 0 where
  pub limit : Option ℤ
  pub reservation : Option ℤ
  pub share : SharesInfo

pub record EthernetCard : Type 0 where
  pub device : VirtualDevice
  pub card_type : CardType
  pub backing : CardBacking
  pub address_type : String
  pub mac_address : String
  pub resource_allocation : Option CardAllocation

pub data Operation : Type 0 where
  op_add op_remove op_edit : Operation

pub data FileOperation : Type 0 where
  no_file_operation file_create file_destroy : FileOperation

-- What the pointer in a change points to: a disk or a card of the machine, by its place among those,
-- or a device that the request builds. Later changes of the machine's own disks and cards show
-- through the pointer.
pub data DeviceRef : Type 0 where
  disk_at card_at : ℕ → DeviceRef
  new_disk : VirtualDisk → DeviceRef
  new_card : EthernetCard → DeviceRef

-- VirtualDeviceConfigSpec; `profile` is the id of a storage policy
pub record DeviceChange : Type 0 where
  pub target : DeviceRef
  pub operation : Operation
  pub file_operation : FileOperation
  pub profile : Option String

-- A device list, by what govmomi's VirtualDeviceList gives for it: the common part of each device,
-- the disks and the ethernet cards that SelectByType finds, and whether FindDiskController("") finds
-- a controller. Where the code tests a selection for nil, it is empty.
pub record DeviceList : Type 0 where
  pub all : List VirtualDevice
  pub disks : List VirtualDisk
  pub cards : List EthernetCard
  pub has_disk_controller : Bool

-- What the code calls of govmomi to build a device. AssignController changes the common part of a
-- new disk; CreateEthernetCard makes a card of an adapter type over a network backing, or fails;
-- ConfigSpec makes the changes for one card, and `mac_type_manual` is the text of the constant
-- VirtualEthernetCardMacTypeManual.
pub record DeviceLibrary : Type 0 where
  pub assign_controller : DeviceList → VirtualDisk → VirtualDisk
  pub create_ethernet_card : String → CardBacking → Option EthernetCard
  pub config_spec : Operation → DeviceRef → List DeviceChange
  pub mac_type_manual : String
