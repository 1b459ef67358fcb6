-- ===== src/Examples/Machine.antt =====
-- A machine with a system disk, a data disk and a card, and a vCenter that does what it is asked.
use vsphere_facade.Prelude.{
  [], false, if◌then◌else◌, negsuc, length, none, ok, pos, some, string_eq, true, ℤ, ◌==◌, ◌∷◌,
}
use vsphere_facade.Version.{api_version}
use vsphere_facade.Hypervisor.{Hypervisor, Hardware, PowerState, powered_on, powered_off}
use vsphere_facade.Reconfig.Device.{
  flat_ver2, VirtualDisk, vmxnet3, network_backing, EthernetCard, DeviceList, DeviceLibrary,
  no_file_operation,
}
use vsphere_facade.Power.States.{TaskLaws}
use vsphere_facade.Reconfig.Nics.{NetworkApi}

abbrev pub disk_of : ℤ → ℤ → VirtualDisk
disk_of key unit_number = record {
  device = record { key = key; unit_number = some unit_number };
  capacity_in_kb = pos 1048576;
  capacity_in_bytes = pos 1073741824;
  backing = flat_ver2 (record {
    disk_mode = "persistent";
    thin_provisioned = some true;
    eagerly_scrub = none;
    sharing = "sharingNone";
    datastore = some "datastore-1";
  });
}

abbrev pub system_disk : VirtualDisk
system_disk = disk_of (pos 2000) (pos 0)

abbrev pub data_disk : VirtualDisk
data_disk = disk_of (pos 2001) (pos 1)

abbrev pub card : EthernetCard
card = record {
  device = record { key = pos 4000; unit_number = some (pos 7) };
  card_type = vmxnet3;
  backing = network_backing "network-1" "VM Network";
  address_type = "assigned";
  mac_address = "00:50:56:00:00:01";
  resource_allocation = none;
}

abbrev pub devices : DeviceList
devices = record {
  all = system_disk.device ∷ data_disk.device ∷ card.device ∷ [];
  disks = system_disk ∷ data_disk ∷ [];
  cards = card ∷ [];
  has_disk_controller = true;
}

abbrev pub library : DeviceLibrary
library = record {
  assign_controller = λ list vd. record vd {
    device = record { key = negsuc 0; unit_number = some (pos (length list.disks)) };
  };
  create_ethernet_card = λ adapter backing. some (record card { backing = backing });
  config_spec = λ op target.
      record { target = target; operation = op; file_operation = no_file_operation; profile = none }
      ∷ [];
  mac_type_manual = "manual";
}

abbrev pub networks : NetworkApi
networks = record {
  find_network = λ id.
      if id == "network-1" then some (record { ref = "network-1"; name = "VM Network" }) else none;
  ethernet_backing = λ network. some (network_backing network.ref network.name);
}

abbrev pub hardware : PowerState → Hardware
hardware w = record {
  num_cpu = pos 4;
  num_cores_per_socket = pos 2;
  memory_mb = pos 4096;
  memory_hot_add_enabled = some false;
  cpu_hot_add_enabled = some true;
  cpu_hot_remove_enabled = some false;
  power_state = w;
}

-- The world is the power state of the machine.
abbrev pub vcenter : Hypervisor PowerState
vcenter = record {
  version = api_version (pos 6) (pos 7) (pos 0);
  library = library;
  networks = networks;
  shares_level_custom = "custom";
  machine_exists = λ w id. true;
  power_state = λ w id. some w;
  hardware = λ w id. some (hardware w);
  devices = λ w id. some devices;
  start_power_on = λ id w. (powered_on, ok tt);
  start_power_off = λ id w. (powered_off, ok tt);
  shutdown_guest = λ id w. (powered_off, ok tt);
  start_destroy = λ id w. (w, ok tt);
  start_rename = λ id name w. (w, ok tt);
  start_reconfigure = λ id s w. (w, ok tt);
  wait = λ id t w. (w, ok tt);
  wait_for_result = λ id t w. (w, ok none);
  wait_for_power_state = λ id s t w. (s, ok tt);
}

pub laws : TaskLaws vcenter
laws = record {
  on_after = λ id t w w' w'' started waited. cc;
  off_after = λ id t w w' w'' started waited. cc;
  seen = λ id s t w w' waited. cc;
}
