-- ===== src/Examples/Deployment.antt =====
-- Runs of virtual_machine_deployer.go: a deployment that works, and one whose wait for an address fails.
use vsphere_facade.Prelude.{
  String, [], err, false, if◌then◌else◌, none, ok, pos, refl, some, string_eq, true, ◌==◌, ◌∷◌, ◌≡◌,
}
use vsphere_facade.Examples.Machine.{vcenter, laws}
use vsphere_facade.Utils.{slice_contain}
use vsphere_facade.Hypervisor.{PowerState, powered_on, powered_off}
use vsphere_facade.Power.States.{IsIn}
use vsphere_facade.Deployer.{
  NetworkInterface, DeployParameter, TimeoutConfig, DeploymentDefault, SysDisk,
}
use vsphere_facade.Deployer.Steps.{wait_failed}
use vsphere_facade.Deployer.Machine.{DeployApi, roll_back, deploy}
use vsphere_facade.Deployer.Cloned.{Failed, deploy-Failed}
use vsphere_facade.Deployer.Started.{WaitLaws, deploy-IsIn}

abbrev pub api : DeployApi PowerState
api = record {
  clone = λ q t w. (powered_off, ok (some "vm-2"));
  guest_family = λ w id. some "linuxGuest";
  windows_guest = "windowsGuest";
  customize = λ id q w. (w, ok tt);
  wait_for_guest_ip = λ id ip t w. (w, ok tt);
  wait_for_guest_net = λ id t w. (w, ok tt);
  datastore_type = λ w id. if id == "datastore-1" then some "VMFS" else none;
  vc_id = "vc-1";
  uuid = λ n. "uuid";
}

-- The guest gets no address.
abbrev no_address : DeployApi PowerState
no_address = record api { wait_for_guest_ip = λ id ip t w. (w, err "timeout") }

waits : (id : String) → WaitLaws vcenter api id
waits id = record { ip_keeps = λ ip t w. refl; net_keeps = λ t w. refl }

abbrev pub config : TimeoutConfig
config = record { wait_for_clone = pos 30; wait_for_ip = pos 10; wait_for_net = pos 5 }

abbrev pub defaults : DeploymentDefault
defaults = record {
  adapter_type = some "vmxnet3";
  disk_mode = some "persistent";
  enable_logging = some true;
  storage_policies = λ vc t. if t == "VMFS" then "policy-1" else "";
}

abbrev pub interface : NetworkInterface
interface = record {
  id = "";
  key = pos 0;
  network_id = "network-1";
  adapter_type = none;
  mac_address = none;
  allocation = none;
  dns_server_list = none;
  dns_domain = none;
  gateway = none;
  subnet_mask = none;
  ipv4 = none;
  ipv6 = none;
}

abbrev sys_disk : SysDisk
sys_disk = record {
  datastore_id = some "datastore-1";
  format = some "thin";
  size = none;
  mode = none;
  storage_policy_id = none;
}

abbrev pub request : DeployParameter
request = record {
  name = "db-2";
  template = record { id = "vm-1"; sys_disk = some sys_disk; data_disks = [] };
  location = record {
    datacenter_id = "datacenter-1";
    folder_id = none;
    cluster_id = none;
    host_id = none;
    resource_pool_id = some "pool-1";
    datastore_id = none;
  };
  cpu = none;
  memory = none;
  network_interfaces = some (interface ∷ []);
  data_disks = [];
  os = none;
  global_ip = none;
  wait_for_ip = "";
  enable_logging = none;
  power_on = some false;
}

deployed : (deploy vcenter api config defaults 100 none request powered_off).1 ≡ ok (some "vm-2")
unfolding deploy slice_contain
deployed = refl

deploy-IsIn_example :
    IsIn vcenter powered_on "vm-2"
      (deploy vcenter api config defaults 100 none request powered_off).0
deploy-IsIn_example =
    deploy-IsIn vcenter api laws waits config defaults 100 none request "vm-2" powered_off deployed

not_deployed :
    (deploy vcenter no_address config defaults 100 none request powered_off).1
    ≡ err (wait_failed "timeout")
unfolding deploy slice_contain roll_back
not_deployed = refl

deploy-Failed_example :
    Failed vcenter no_address powered_off
      (wait_failed "timeout")
      (deploy vcenter no_address config defaults 100 none request powered_off)
deploy-Failed_example =
    deploy-Failed vcenter no_address config defaults 100 none request powered_off
      (wait_failed "timeout") not_deployed
