-- ===== src/Customize/System.antt =====
-- osSetting, linuxOSSetting and windowsOSSetting of virtual_machine_customize.go, and GetOSInfo of
-- helper/virtualmachine/virtual_machine.go.
use vsphere_facade.Prelude.{
  List, Option, String, [], bind, deref, if◌then◌else◌, none, ok, some, string_eq, true, ◌==◌, ◌∷◌,
}
use vsphere_facade.Reconfig.Disks.{or_keep}
use vsphere_facade.Customize.{
  CustomizeParameter, LinuxSettingParameter, OsSettingParameter, WindowsSettingParameter,
}
use vsphere_facade.Customize.Spec.{
  CustomizationSpec, Identification, LinuxPrep, Password, Sysprep, linux_prep, sysprep,
}
use vsphere_facade.Customize.Network.{Result}

-- OSInfo, and a row of GetOSFamilies
pub record OsInfo : Type 0 where
  pub guest_id : String
  pub guest_name : String
  pub guest_family : String

-- The properties that GetOSInfo reads. A pointer may be nil.
pub record MachineProps : Type 0 where
  pub guest : Option OsInfo
  pub config_guest_id : Option String
  pub host : Option String

-- What GetOSInfo calls: FindProps, the parent of a host, and GetOSFamilies.
pub record GuestApi (W : Type 0) : Type 0 where
  pub find_props : W → String → Option MachineProps
  pub host_parent : W → String → Option String
  pub get_os_families : W → String → List OsInfo
  pub linux_guest : String
  pub windows_guest : String

unfoldable pub family_of : Option String → List OsInfo → Result OsInfo
family_of config [] = ok (record { guest_id = ""; guest_name = ""; guest_family = "" })
family_of config (f ∷ families) =
    let rest = family_of config families in
    bind (deref config) λ id. if f.guest_id == id then ok f else rest

module _ {W : Type 0} (api : GuestApi W) where
  -- Where the guest does not say what it is, the system is that of the machine's configuration.
  unfoldable pub configured_os : W → MachineProps → Result OsInfo
  unfolding family_of
  configured_os w props = bind (deref props.host) λ host.
      bind (deref (api.host_parent w host))
        λ parent. family_of props.config_guest_id (api.get_os_families w parent)

  unfoldable pub get_os_info : W → String → Result OsInfo
  unfolding configured_os
  get_os_info w id = bind (deref (api.find_props w id)) λ props.
      bind (deref props.guest)
        λ guest. if guest.guest_id == "" then configured_os w props else ok guest

abbrev pub plain : String → Password
plain value = record { value = value; plain_text = true }

-- A text, or nil where it is empty
abbrev pub unless_empty : {A : Type 0} → (String → A) → String → Option A
unless_empty f s = if s == "" then none else some (f s)

unfoldable pub linux_os_setting : LinuxSettingParameter → LinuxPrep
linux_os_setting p = record {
  host_name = p.host_name;
  domain = or_keep p.domain "";
  hw_clock_utc = p.hw_clock_utc;
  time_zone = or_keep p.time_zone "";
  script_text = or_keep p.script_text "";
}

-- A work group is joined before a domain. The account that joins is given the text of the password.
unfoldable pub identification_of : WindowsSettingParameter → Identification
identification_of p = elim p.join_work_group [
  | some group ↦ record {
    join_workgroup = group;
    join_domain = "";
    domain_admin = "";
    domain_admin_password = none;
  }
  | none ↦ elim p.join_domain [
    | none ↦ record {
      join_workgroup = "";
      join_domain = "";
      domain_admin = "";
      domain_admin_password = none;
    }
    | some d ↦ record {
      join_workgroup = "";
      join_domain = d.domain;
      domain_admin = d.domain_admin_password;
      domain_admin_password = some (plain d.domain_admin_password);
    }
  ]
]

unfoldable pub windows_os_setting : WindowsSettingParameter → Sysprep
unfolding identification_of
windows_os_setting p = record {
  gui_unattended = record {
    password = unless_empty plain p.password;
    time_zone = p.time_zone;
    auto_logon = p.auto_logon;
    auto_logon_count = p.auto_logon_count;
  };
  gui_run_once = elim p.commands [ [] ↦ none | c ∷ cs ↦ some (c ∷ cs) ];
  identification = identification_of p;
  user_data = record {
    full_name = p.register.full_name;
    org_name = p.register.org_name;
    computer_name = unless_empty (λ s. s) p.computer_name;
    product_id = p.product_id;
  };
}

module _ {W : Type 0} (api : GuestApi W) where
  -- A family of another kind, or one without settings, leaves the specification.
  unfoldable pub with_identity : String → OsSettingParameter → CustomizationSpec → CustomizationSpec
  unfolding linux_os_setting windows_os_setting
  with_identity family os spec =
      if family == api.linux_guest
      then (elim os.linux_setting [
        | none ↦ spec
        | some l ↦ record spec { identity = some (linux_prep (linux_os_setting l)) }
      ])
      else (if family == api.windows_guest
          then (elim os.windows_setting [
            | none ↦ spec
            | some s ↦ record spec { identity = some (sysprep (windows_os_setting s)) }
          ])
          else spec)

  unfoldable pub os_setting :
      W → String → CustomizeParameter → CustomizationSpec → Result CustomizationSpec
  unfolding get_os_info with_identity
  os_setting w id p spec = elim p.os_setting [
    | none ↦ ok spec
    | some os ↦ bind (get_os_info api w id) λ info. ok (with_identity info.guest_family os spec)
  ]
