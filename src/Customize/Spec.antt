-- ===== src/Customize/Spec.antt =====
-- The specification that Customize of virtual_machine_customize.go passes to the vCenter, by the fields
-- that are written.
use vsphere_facade.Prelude.{Bool, List, Option, String, [], none, ℤ}

-- CustomizationPassword
pub record Password : Type 0 where
  pub value : String
  pub plain_text : Bool

-- CustomizationGuiUnattended
pub record GuiUnattended : Type 0 where
  pub password : Option Password
  pub time_zone : ℤ
  pub auto_logon : Bool
  pub auto_logon_count : ℤ

-- CustomizationIdentification
pub record Identification : Type 0 where
  pub join_workgroup : String
  pub join_domain : String
  pub domain_admin : String
  pub domain_admin_password : Option Password

-- CustomizationUserData; a fixed name is its text
pub record UserData : Type 0 where
  pub full_name : String
  pub org_name : String
  pub computer_name : Option String
  pub product_id : String

-- CustomizationLinuxPrep
pub record LinuxPrep : Type 0 where
  pub host_name : Option String
  pub domain : String
  pub hw_clock_utc : Option Bool
  pub time_zone : String
  pub script_text : String

-- CustomizationSysprep; `gui_run_once` is the list of its commands
pub record Sysprep : Type 0 where
  pub gui_unattended : GuiUnattended
  pub gui_run_once : Option (List String)
  pub identification : Identification
  pub user_data : UserData

pub data Identity : Type 0 where
  linux_prep : LinuxPrep → Identity
  sysprep : Sysprep → Identity

-- CustomizationGlobalIPSettings
pub record GlobalIpSettings : Type 0 where
  pub dns_suffix_list : List String
  pub dns_server_list : List String

-- CustomizationFixedIp and CustomizationDhcpIpGenerator
pub data IpGenerator : Type 0 where
  fixed_ip : String → IpGenerator
  dhcp_ip_generator : IpGenerator

-- CustomizationFixedIpV6 and CustomizationDhcpIpV6Generator
pub data IpV6Generator : Type 0 where
  fixed_ip_v6 : String → ℤ → IpV6Generator
  dhcp_ip_v6_generator : IpV6Generator

-- CustomizationIPSettingsIpV6AddressSpec
pub record IpV6AddressSpec : Type 0 where
  pub ip : List IpV6Generator
  pub gateway : List String

-- CustomizationIPSettings
pub record IpSettings : Type 0 where
  pub ip : Option IpGenerator
  pub subnet_mask : String
  pub gateway : List String
  pub ip_v6_spec : Option IpV6AddressSpec
  pub dns_server_list : List String
  pub dns_domain : String

-- CustomizationSpec; an adapter mapping is its settings
pub record CustomizationSpec : Type 0 where
  pub identity : Option Identity
  pub global_ip_settings : GlobalIpSettings
  pub nic_setting_map : List IpSettings

abbrev pub empty_customization : CustomizationSpec
empty_customization = record {
  identity = none;
  global_ip_settings = record { dns_suffix_list = []; dns_server_list = [] };
  nic_setting_map = [];
}
