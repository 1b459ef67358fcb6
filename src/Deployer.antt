-- ===== src/Deployer.antt =====
-- vsphere/workerpool/virtual_machine_deployer.go: its parameters, and the defaults that it fills in.
pub mod Defaults
pub mod Steps
pub mod Machine
pub mod RollBack
pub mod Cloned
pub mod Identified
pub mod Started
use vsphere_facade.Prelude.{
  Bool, List, Option, String, if◌then◌else◌, ltb_ℤ, map, none, pos, some, string_eq, ℤ, ◌==◌,
}
use mathlib.Core.Option
use vsphere_facade.Customize.{
  LinuxSettingParameter, WindowsSettingParameter, GlobalIpSetting, NicIpv4Setting, NicIpv6Setting,
}
use vsphere_facade.Reconfig.Parameter.{CpuParameter, MemoryParameter, NetworkAllocation}
use vsphere_facade.Reconfig.Disks.{or_keep}

-- LocationParameter of virtual_machine_clone.go
pub record LocationParameter : Type 0 where
  pub datacenter_id : String
  pub folder_id : Option String
  pub cluster_id : Option String
  pub host_id : Option String
  pub resource_pool_id : Option String
  pub datastore_id : Option String

pub record NetworkInterface : Type 0 where
  pub id : String
  pub key : ℤ
  pub network_id : String
  pub adapter_type : Option String
  pub mac_address : Option String
  pub allocation : Option NetworkAllocation
  pub dns_server_list : Option (List String)
  pub dns_domain : Option String
  pub gateway : Option (List String)
  pub subnet_mask : Option ℤ
  pub ipv4 : Option NicIpv4Setting
  pub ipv6 : Option NicIpv6Setting

pub record SysDisk : Type 0 where
  pub datastore_id : Option String
  pub format : Option String
  pub size : Option ℤ
  pub mode : Option String
  pub storage_policy_id : Option String

pub record DataDisk : Type 0 where
  pub datastore_id : String
  pub format : String
  pub size : ℤ
  pub mode : Option String
  pub storage_policy_id : Option String

pub record Template : Type 0 where
  pub id : String
  pub sys_disk : Option SysDisk
  pub data_disks : List DataDisk

pub record Os : Type 0 where
  pub linux : Option LinuxSettingParameter
  pub windows : Option WindowsSettingParameter

-- `network_interfaces` is nil or a slice, which may be empty; `enable_logging` is the field of Flag.
pub record DeployParameter : Type 0 where
  pub name : String
  pub template : Template
  pub location : LocationParameter
  pub cpu : Option CpuParameter
  pub memory : Option MemoryParameter
  pub network_interfaces : Option (List NetworkInterface)
  pub data_disks : List DataDisk
  pub os : Option Os
  pub global_ip : Option GlobalIpSetting
  pub wait_for_ip : String
  pub enable_logging : Option Bool
  pub power_on : Option Bool

pub record TimeoutSetting : Type 0 where
  pub wait_for_clone : ℤ
  pub wait_for_ip : Option ℤ
  pub wait_for_net : Option ℤ

-- Timeout of the configuration, in minutes
pub record TimeoutConfig : Type 0 where
  pub wait_for_clone : ℤ
  pub wait_for_ip : ℤ
  pub wait_for_net : ℤ

-- Default.Deployment of the configuration; `storage_policies` gives the empty text for a missing key.
pub record DeploymentDefault : Type 0 where
  pub adapter_type : Option String
  pub disk_mode : Option String
  pub enable_logging : Option Bool
  pub storage_policies : (vc_id datastore_type : String) → String

-- setTimeout
unfoldable pub set_timeout : TimeoutConfig → Option TimeoutSetting → TimeoutSetting
set_timeout config t =
    let given : TimeoutSetting = elim t [
      | none ↦ record { wait_for_clone = pos 0; wait_for_ip = none; wait_for_net = none }
      | some s ↦ s
    ] in
    record {
      wait_for_clone =
          if ltb_ℤ given.wait_for_clone (pos 1)
          then config.wait_for_clone
          else given.wait_for_clone;
      wait_for_ip = some (or_keep given.wait_for_ip config.wait_for_ip);
      wait_for_net = some (or_keep given.wait_for_net config.wait_for_net);
    }

-- What setDefault reads: the configuration, the id of the vCenter and the type of a datastore, where
-- the datastore is found.
module _ (defaults : DeploymentDefault) (vc_id : String)
    (datastore_type : String → Option String) where
  -- The policy of the configuration for the type of a datastore, if there is one.
  default_policy : String → Option String
  default_policy datastore_id = elim (datastore_type datastore_id) [
    | none ↦ none
    | some t ↦
        let policy = defaults.storage_policies vc_id t in if policy == "" then none else some policy
  ]

  default_sys_disk : SysDisk → SysDisk
  unfolding default_policy
  default_sys_disk d = record d {
    storage_policy_id = elim d.storage_policy_id [
      | some policy ↦ some policy
      | none ↦ elim d.datastore_id [ none ↦ none | some id ↦ default_policy id ]
    ];
    mode = elim d.mode [ none ↦ defaults.disk_mode | some m ↦ some m ];
  }

  default_data_disk : DataDisk → DataDisk
  unfolding default_policy
  default_data_disk d = record d {
    storage_policy_id = elim d.storage_policy_id [
      | some policy ↦ some policy
      | none ↦ default_policy d.datastore_id
    ];
    mode = elim d.mode [ none ↦ defaults.disk_mode | some m ↦ some m ];
  }

  default_network_interface : NetworkInterface → NetworkInterface
  default_network_interface ni = record ni {
    adapter_type = elim ni.adapter_type [ none ↦ defaults.adapter_type | some t ↦ some t ];
  }

  -- setDefault: the disks of the template are set through their pointers. The list that is assigned to
  -- the field DataDisks is lost, since the whole parameter is assigned after it.
  unfoldable pub set_default : DeployParameter → DeployParameter
  unfolding default_sys_disk default_data_disk default_network_interface
  set_default p = record p {
    enable_logging = elim p.enable_logging [ none ↦ defaults.enable_logging | some b ↦ some b ];
    network_interfaces = Option.map (map default_network_interface) p.network_interfaces;
    template = record p.template {
      sys_disk = Option.map default_sys_disk p.template.sys_disk;
      data_disks = map default_data_disk p.template.data_disks;
    };
  }
