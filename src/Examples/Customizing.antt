-- ===== src/Examples/Customizing.antt =====
-- A system that is customized.
use vsphere_facade.Prelude.{
  All, String, arith, ◌↔◌, [], if◌then◌else◌, none, ok, panic, pos, refl, some, string_eq, true,
  false, ◌==◌, ◌≡◌, ◌≢◌, ◌∷◌,
}
use vsphere_facade.Hypervisor.{PowerState, powered_off}
use vsphere_facade.Examples.Machine.{vcenter}
use vsphere_facade.Examples.Deployment.{api, request}
use vsphere_facade.Deployer.{DeployParameter, Os}
use vsphere_facade.Deployer.Steps.{customization}
use vsphere_facade.Deployer.Machine.{should_customize}
use vsphere_facade.Deployer.Identified.{IdentityFor, customization_spec-IdentityFor}
use vsphere_facade.Customize.{
  CustomizeParameter, GlobalIpSetting, LinuxSettingParameter, NicSetting,
}
use vsphere_facade.Customize.Address.{Address, match_gateway, v4_cidr_mask_to_dotted}
use vsphere_facade.Customize.Spec.{CustomizationSpec, empty_customization, linux_prep}
use vsphere_facade.Customize.Network.{nic_setting}
use vsphere_facade.Customize.System.{GuestApi, OsInfo, get_os_info}
use vsphere_facade.Customize.Run.{CustomizeApi, customization_spec, customize}
use vsphere_facade.Customize.Gateway.{SamePrefix, match_gateway-SamePrefix}
use vsphere_facade.Customize.Complete.{Decides, IsComplete, nic_setting-Decides}

abbrev v4_address : Address → Address
v4_address bytes = 0 ∷ 0 ∷ 0 ∷ 0 ∷ 0 ∷ 0 ∷ 0 ∷ 0 ∷ 0 ∷ 0 ∷ 255 ∷ 255 ∷ bytes

-- ParseIP on the texts of the runs
abbrev parse_ip : String → Address
parse_ip s =
    if s == "10.1.17.5"
    then v4_address (10 ∷ 1 ∷ 17 ∷ 5 ∷ [])
    else (if s == "10.1.31.1" then v4_address (10 ∷ 1 ∷ 31 ∷ 1 ∷ []) else [])

dotted_20 : v4_cidr_mask_to_dotted {E = String} (pos 20) ≡ ok "255.255.240.0"
unfolding v4_cidr_mask_to_dotted
dotted_20 = refl

dotted_33 : v4_cidr_mask_to_dotted {E = String} (pos 33) ≡ panic
unfolding v4_cidr_mask_to_dotted
dotted_33 = refl

matched_20 : match_gateway parse_ip "10.1.17.5" (pos 20) "10.1.31.1" ≡ true
unfolding match_gateway
matched_20 = refl

matched_21 : match_gateway parse_ip "10.1.17.5" (pos 21) "10.1.31.1" ≡ false
unfolding match_gateway
matched_21 = refl

-- A card with an address that is compared to the gateway for all cards
abbrev fixed_card : NicSetting
fixed_card = record {
  key = pos 4000;
  dns_server_list = none;
  dns_domain = none;
  gateway = none;
  subnet_mask = some (pos 20);
  ipv4 = some (record { static = true; ip_address = some "10.1.17.5" });
  ipv6 = none;
}

abbrev global : GlobalIpSetting
global = record { gateway = some "10.1.31.1"; dns_suffix_list = none; dns_server_list = none }

abbrev parameter_of : NicSetting → CustomizeParameter
parameter_of n = record { os_setting = none; global_ip_setting = some global; nic_setting = n ∷ [] }

nic_setting-Decides_example :
    Decides
      (All (IsComplete parse_ip (some global)) (fixed_card ∷ []))
      (nic_setting parse_ip (parameter_of fixed_card) empty_customization)
nic_setting-Decides_example =
    nic_setting-Decides parse_ip (parameter_of fixed_card) empty_customization

-- Without a mask, the comparison panics.
no_mask :
    nic_setting parse_ip
      (parameter_of (record fixed_card { subnet_mask = none }))
      empty_customization
    ≡ panic
unfolding nic_setting
no_mask = refl

abbrev linux_settings : LinuxSettingParameter
linux_settings = record {
  host_name = some "db-2";
  domain = none;
  time_zone = none;
  hw_clock_utc = none;
  script_text = none;
}

abbrev os : Os
os = record { linux = some linux_settings; windows = none }

abbrev with_os : DeployParameter
with_os = record request { os = some os }

abbrev guest_of : String → OsInfo
guest_of family = record { guest_id = "guest-1"; guest_name = "guest"; guest_family = family }

abbrev guest_api : GuestApi PowerState
guest_api = record {
  find_props = λ w id.
      some (record { guest = some (guest_of "linuxGuest"); config_guest_id = none; host = none });
  host_parent = λ w host. none;
  get_os_families = λ w parent. [];
  linux_guest = "linuxGuest";
  windows_guest = "windowsGuest";
}

abbrev customize_api : CustomizeApi PowerState
customize_api = record {
  guest_api = guest_api;
  parse_ip = parse_ip;
  machine_exists = λ w id. true;
  start_customize = λ id spec w. (w, ok tt);
  wait = λ id w. (w, ok tt);
}

abbrev linux_spec : CustomizationSpec
linux_spec = record empty_customization {
  identity = some (
      linux_prep (record {
        host_name = some "db-2";
        domain = "";
        hw_clock_utc = none;
        time_zone = "";
        script_text = "";
      }));
}

linux_info : get_os_info guest_api powered_off "vm-2" ≡ ok (guest_of "linuxGuest")
unfolding get_os_info
linux_info = refl

asked : (should_customize vcenter api with_os "vm-2" powered_off).1 ≡ ok true
unfolding should_customize
asked = refl

specified :
    customization_spec customize_api powered_off "vm-2" (customization with_os []) ≡ ok linux_spec
unfolding customization_spec customization
specified = refl

customized :
    customize customize_api "vm-2" (customization with_os []) powered_off ≡ (powered_off, ok tt)
unfolding customize customization
customized = refl

two_families : guest_api.windows_guest ≢ guest_api.linux_guest
two_families e = cc

customization_spec-IdentityFor_example :
    IdentityFor guest_api (some linux_settings) none "linuxGuest" linux_spec.identity
customization_spec-IdentityFor_example =
    customization_spec-IdentityFor vcenter api customize_api with_os [] "vm-2" powered_off os
      (guest_of "linuxGuest") linux_spec refl linux_info refl refl two_families asked specified

match_gateway-SamePrefix_example :
    (match_gateway parse_ip "10.1.17.5" (pos 20) "10.1.31.1" ≡ true)
    ↔ SamePrefix 20 (10 ∷ 1 ∷ 17 ∷ 5 ∷ []) (10 ∷ 1 ∷ 31 ∷ 1 ∷ [])
match_gateway-SamePrefix_example =
    match_gateway-SamePrefix parse_ip "10.1.17.5" "10.1.31.1" 20 10 1 17 5 10 1 31 1 refl refl
      (omega arith, (omega arith, (omega arith, (omega arith, tt))))
      (omega arith, (omega arith, (omega arith, (omega arith, tt)))) (omega arith)
