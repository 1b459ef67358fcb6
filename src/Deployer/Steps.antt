-- ===== src/Deployer/Steps.antt =====
-- What Deploy of vsphere/workerpool/virtual_machine_deployer.go passes to the steps of a deployment.
use mathlib.Core.Option
use vsphere_facade.Prelude.{
  List, Option, Outcome, String, [], bind, deref, false, if◌then◌else◌, int_eq, map, none, ok, pos,
  some, string_eq, suc, ℕ, ℤ, ◌==◌, ◌∷◌,
}
use vsphere_facade.Customize.{NicSetting, CustomizeParameter}
use vsphere_facade.Reconfig.Device.{VirtualDisk, EthernetCard}
use vsphere_facade.Reconfig.Parameter.{AddNicParameter, ReconfigureParameter}
use vsphere_facade.Reconfig.Error.{ReconfigError}
use vsphere_facade.Reconfig.Disks.{or_keep}
use vsphere_facade.Deployer.{LocationParameter, NetworkInterface, SysDisk, DeployParameter}

-- SelfContainedDiskParameter of virtual_machine_clone.go
pub record CloneDisk : Type 0 where
  pub key : ℤ
  pub mode : Option String
  pub format : Option String
  pub datastore_id : Option String
  pub storage_policy_id : Option String

-- CloneParameter of virtual_machine_clone.go
pub record CloneParameter : Type 0 where
  pub id : String
  pub name : String
  pub location : LocationParameter
  pub disks : Option (List CloneDisk)

pub data DeployError : Type 0 where
  clone_failed customize_failed power_on_failed wait_failed : String → DeployError
  hardware_failed : ReconfigError → DeployError

-- GetSysDisk: the first disk with the number 0.
unfoldable pub sys_disk_of : List VirtualDisk → Outcome DeployError (Option VirtualDisk)
sys_disk_of [] = ok none
sys_disk_of (d ∷ disks) =
    let rest = sys_disk_of disks in
    bind (deref d.device.unit_number) λ un. if un == pos 0 then ok (some d) else rest

unfoldable pub clone_disk : VirtualDisk → SysDisk → CloneDisk
clone_disk vd d = record {
  key = vd.device.key;
  mode = d.mode;
  format = d.format;
  datastore_id = d.datastore_id;
  storage_policy_id = d.storage_policy_id;
}

-- The loop that names the network interfaces and asks for their cards.
unfoldable pub with_ids : (ℕ → String) → ℕ → List NetworkInterface → List NetworkInterface
with_ids uuid n [] = []
with_ids uuid n (ni ∷ nis) = record ni { id = uuid n } ∷ with_ids uuid (suc n) nis

unfoldable pub new_nic : NetworkInterface → AddNicParameter
new_nic ni = record {
  id = ni.id;
  network_id = ni.network_id;
  adapter_type = ni.adapter_type;
  address_type = none;
  mac_address = ni.mac_address;
  allocation = ni.allocation;
  unit_number = none;
}

-- The cards of the template are removed only where network interfaces are asked for.
unfoldable pub hardware : ℕ → DeployParameter → List EthernetCard → ReconfigureParameter
unfolding new_nic
hardware now p cards = record {
  name = none;
  create_date = some now;
  annotation = none;
  cpu = p.cpu;
  memory = p.memory;
  disk = none;
  nic =
      Option.map
        (λ nis. record {
          add = map new_nic nis;
          edit = [];
          remove = map (λ (c : EthernetCard). c.device.key) cards;
        })
        p.network_interfaces;
  flag = none;
}

-- unKeymap: the key of the last card with the number.
unfoldable pub key_of_unit : List EthernetCard → ℤ → Option ℤ
key_of_unit [] un = none
key_of_unit (card ∷ cards) un = elim (key_of_unit cards un) [
  | some key ↦ some key
  | none ↦ elim card.device.unit_number [
    | none ↦ none
    | some nu ↦ if nu == un then some card.device.key else none
  ]
]

-- unMap: the number of the last new card with the id; a number that is nil is dereferenced.
unfoldable pub unit_map : List AddNicParameter → Outcome DeployError (List (String × ℤ))
unit_map [] = ok []
unit_map (n ∷ nics) =
    bind (deref n.unit_number) λ un. bind (unit_map nics) λ rest. ok ((n.id, un) ∷ rest)

unfoldable pub unit_of_id : List (String × ℤ) → String → Option ℤ
unit_of_id [] id = none
unit_of_id ((key, un) ∷ units) id = elim (unit_of_id units id) [
  | some nu ↦ some nu
  | none ↦ if key == id then some un else none
]

-- A key that a map has not is 0.
unfoldable pub with_key :
    List (String × ℤ) → List EthernetCard → NetworkInterface → NetworkInterface
unfolding key_of_unit unit_of_id
with_key units cards ni =
    let un = or_keep (unit_of_id units ni.id) (pos 0) in
    record ni { key = or_keep (key_of_unit cards un) (pos 0) }

-- The keys of the new cards, written back to the network interfaces.
unfoldable pub write_back :
    List AddNicParameter
    → List EthernetCard
    → List NetworkInterface
    → Outcome DeployError (List NetworkInterface)
unfolding unit_map with_key
write_back [] cards nis = ok nis
write_back (n ∷ nics) cards nis =
    bind (unit_map (n ∷ nics)) λ units. ok (map (with_key units cards) nis)

-- An interface without an address takes one by DHCP.
nic_setting_of : NetworkInterface → NicSetting
nic_setting_of ni = record {
  key = ni.key;
  dns_server_list = ni.dns_server_list;
  dns_domain = ni.dns_domain;
  gateway = ni.gateway;
  subnet_mask = ni.subnet_mask;
  ipv4 = elim ni.ipv4 [
    | some v4 ↦ some v4
    | none ↦ elim ni.ipv6 [
      | none ↦ some (record { static = false; ip_address = none })
      | some v6 ↦ none
    ]
  ];
  ipv6 = ni.ipv6;
}

unfoldable pub customization : DeployParameter → List NetworkInterface → CustomizeParameter
unfolding nic_setting_of
customization p nis = record {
  os_setting =
      Option.map (λ os. record { linux_setting = os.linux; windows_setting = os.windows }) p.os;
  global_ip_setting = p.global_ip;
  nic_setting = map nic_setting_of nis;
}
