-- ===== src/Customize.antt =====
-- The parameters of Customize of
-- helper/virtualmachine/virtualmachinecustomize/virtual_machine_customize.go.
pub mod Spec
pub mod Address
pub mod Network
pub mod System
pub mod Run
pub mod Complete
pub mod Gateway
use vsphere_facade.Prelude.{Bool, List, Option, String, ℤ}

pub record LinuxSettingParameter : Type 0 where
  pub host_name : Option String
  pub domain : Option String
  pub time_zone : Option String
  pub hw_clock_utc : Option Bool
  pub script_text : Option String

pub record Register : Type 0 where
  pub full_name : String
  pub org_name : String

pub record JoinDomain : Type 0 where
  pub domain : String
  pub domain_admin : String
  pub domain_admin_password : String

pub record WindowsSettingParameter : Type 0 where
  pub computer_name : String
  pub password : String
  pub time_zone : ℤ
  pub auto_logon : Bool
  pub auto_logon_count : ℤ
  pub commands : List String
  pub register : Register
  pub join_work_group : Option String
  pub join_domain : Option JoinDomain
  pub product_id : String

pub record OsSettingParameter : Type 0 where
  pub linux_setting : Option LinuxSettingParameter
  pub windows_setting : Option WindowsSettingParameter

pub record GlobalIpSetting : Type 0 where
  pub gateway : Option String
  pub dns_suffix_list : Option (List String)
  pub dns_server_list : Option (List String)

pub record NicIpv4Setting : Type 0 where
  pub static : Bool
  pub ip_address : Option String

pub record Ipv6 : Type 0 where
  pub static : Bool
  pub ip_address : Option String
  pub subnet_mask : Option ℤ

pub record NicIpv6Setting : Type 0 where
  pub gateways : List String
  pub ipv6s : Option (List Ipv6)

-- A slice that may be nil is an `Option` where the code tells nil from empty.
pub record NicSetting : Type 0 where
  pub key : ℤ
  pub dns_server_list : Option (List String)
  pub dns_domain : Option String
  pub gateway : Option (List String)
  pub subnet_mask : Option ℤ
  pub ipv4 : Option NicIpv4Setting
  pub ipv6 : Option NicIpv6Setting

pub record CustomizeParameter : Type 0 where
  pub os_setting : Option OsSettingParameter
  pub global_ip_setting : Option GlobalIpSetting
  pub nic_setting : List NicSetting
