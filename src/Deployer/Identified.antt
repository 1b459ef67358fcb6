-- ===== src/Deployer/Identified.antt =====
-- The identity in the specification that Customize makes of what Deploy of virtual_machine_deployer.go
-- passes to it.
use vsphere_facade.Prelude.{
  Bool-cases, ap, subst, if◌then◌else◌, sym, arith, List, Option, Option-cases, Outcome, String, [],
  false, inl, inr, none, ok, refl, some, string_eq, true, wrap_err, ◌==◌, ◌∙◌, ◌≡◌, ◌≢◌, ◌∷◌,
  >>=-eq-ok,
}
use vsphere_facade.Hypervisor.{Hypervisor}
use vsphere_facade.Deployer.{DeployParameter, NetworkInterface, Os}
use vsphere_facade.Deployer.Steps.{customization}
use vsphere_facade.Deployer.Machine.{DeployApi, is_set, should_customize}
use vsphere_facade.Customize.{
  LinuxSettingParameter, WindowsSettingParameter, CustomizeParameter, OsSettingParameter,
}
use vsphere_facade.Customize.Spec.{
  CustomizationSpec, IpSettings, Identity, empty_customization, linux_prep, sysprep,
}
use vsphere_facade.Customize.Address.{Address}
use vsphere_facade.Customize.Network.{
  adapter_mappings, global_ip_settings, nic_setting, with_mappings,
}
use vsphere_facade.Customize.System.{
  GuestApi, OsInfo, get_os_info, linux_os_setting, os_setting, windows_os_setting, with_identity,
}
use vsphere_facade.Customize.Run.{CustomizeApi, customization_spec, os_failed, nic_failed}

with_mappings-identity :
    (s : CustomizationSpec) (mappings : List IpSettings)
    → (with_mappings s mappings).identity ≡ s.identity
with_mappings-identity s [] = refl
with_mappings-identity s (b ∷ bs) = refl

ok_inj : {E A : Type 0} {a b : A} → ◌≡◌ {A = Outcome E A} (ok a) (ok b) → a ≡ b
ok_inj e = cc

nic_setting-identity :
    (parse_ip : String → Address) (p : CustomizeParameter) (s : CustomizationSpec)
    {s' : CustomizationSpec}
    → nic_setting parse_ip p s ≡ ok s'
    → s'.identity ≡ s.identity
unfolding nic_setting
nic_setting-identity parse_ip p s made =
    let (mappings, e, e') =
      >>=-eq-ok (adapter_mappings parse_ip p.global_ip_setting p.nic_setting) _ made in
    sym (ap CustomizationSpec.identity (ok_inj e')) ∙ with_mappings-identity s mappings

global_ip_settings-identity :
    (p : CustomizeParameter) (s : CustomizationSpec)
    → (global_ip_settings p s).identity ≡ s.identity
unfolding global_ip_settings
global_ip_settings-identity p s = elim (Option-cases p.global_ip_setting) [
  | inl e ↦ rw e
  | inr (g, e) ↦ rw e
]

wrap_err-eq-ok :
    {E F A : Type 0} (f : E → F) (o : Outcome E A) {a : A} → wrap_err f o ≡ ok a → o ≡ ok a
wrap_err-eq-ok f o h = ground arith

module _ {W : Type 0} (api : CustomizeApi W) where
  spec-identity :
      (w : W) (id : String) (p : CustomizeParameter) {spec : CustomizationSpec}
      → customization_spec api w id p ≡ ok spec
      → (s : CustomizationSpec) × (os_setting api.guest_api w id p empty_customization ≡ ok s)
        × (spec.identity ≡ s.identity)
  unfolding customization_spec
  spec-identity w id p made =
      let (s, e, e') =
        >>=-eq-ok (wrap_err os_failed (os_setting api.guest_api w id p empty_customization)) _
          made in
      (
        s,
        wrap_err-eq-ok os_failed (os_setting api.guest_api w id p empty_customization) e,
        nic_setting-identity api.parse_ip p (global_ip_settings p s)
              (wrap_err-eq-ok nic_failed (nic_setting api.parse_ip p (global_ip_settings p s)) e')
            ∙ global_ip_settings-identity p s,
      )

-- The identity in a specification for a guest of a family, from settings for Linux and for Windows.
pub data IdentityFor {W : Type 0} (api : GuestApi W) (linux : Option LinuxSettingParameter)
    (windows : Option WindowsSettingParameter) (family : String) : Option Identity → Type 0 where
  for_windows :
      (s : WindowsSettingParameter)
      → family ≡ api.windows_guest
      → windows ≡ some s
      → IdentityFor api linux windows family (some (sysprep (windows_os_setting s)))
  for_linux :
      (l : LinuxSettingParameter)
      → family ≡ api.linux_guest
      → linux ≡ some l
      → IdentityFor api linux windows family (some (linux_prep (linux_os_setting l)))
  for_other :
      (l : LinuxSettingParameter)
      → family ≢ api.windows_guest
      → family ≢ api.linux_guest
      → linux ≡ some l
      → IdentityFor api linux windows family none

eq_true : (s t : String) → s ≡ t → (s == t) ≡ true
eq_true s t = (string_eq.beq_iff s t).1

eq_refuted : (s t : String) → (s == t) ≡ false → s ≢ t
eq_refuted s t e q = ground (arith, eq_true s t q)

eq_false : (s t : String) → s ≢ t → (s == t) ≡ false
eq_false s t n = elim (Bool-cases (s == t)) [
  | inl e ↦ elim (n ((string_eq.beq_iff s t).0 e)) [ ]
  | inr e ↦ e
]

abbrev settings : Option LinuxSettingParameter → Option WindowsSettingParameter → OsSettingParameter
settings linux windows = record { linux_setting = linux; windows_setting = windows }

module _ {W : Type 0} (api : GuestApi W) (family : String) where
  windows-IdentityFor :
      (linux : Option LinuxSettingParameter) (windows : Option WindowsSettingParameter)
      → family ≢ api.linux_guest
      → family ≡ api.windows_guest
      → is_set windows ≡ true
      → IdentityFor api linux windows family
          (with_identity api family (settings linux windows) empty_customization).identity
  unfolding with_identity
  windows-IdentityFor linux none other this should = cc
  windows-IdentityFor linux (some s) other this should =
      rw (eq_false family api.linux_guest other, eq_true family api.windows_guest this)
        (for_windows s this refl)

  linux-IdentityFor :
      (linux : Option LinuxSettingParameter) (windows : Option WindowsSettingParameter)
      → family ≢ api.windows_guest
      → is_set linux ≡ true
      → IdentityFor api linux windows family
          (with_identity api family (settings linux windows) empty_customization).identity
  unfolding with_identity
  linux-IdentityFor none windows other should = cc
  linux-IdentityFor (some l) windows other should = elim (Bool-cases (family == api.linux_guest)) [
    | inl e ↦ rw e (for_linux l ((string_eq.beq_iff family api.linux_guest).0 e) refl)
    | inr e ↦
        rw (e, eq_false family api.windows_guest other)
          (for_other l other (eq_refuted family api.linux_guest e) refl)
  ]

  with_identity-IdentityFor :
      (linux : Option LinuxSettingParameter) (windows : Option WindowsSettingParameter)
      → api.windows_guest ≢ api.linux_guest
      → (if api.windows_guest == family then is_set windows else is_set linux) ≡ true
      → IdentityFor api linux windows family
          (with_identity api family (settings linux windows) empty_customization).identity
  with_identity-IdentityFor linux windows differ should =
      elim (Bool-cases (api.windows_guest == family)) [
        | inl e ↦
            let this = (string_eq.beq_iff api.windows_guest family).0 e in
            windows-IdentityFor linux windows (λ q. differ (this ∙ q)) (sym this) (ground arith)
        | inr e ↦
            linux-IdentityFor linux windows (λ q. eq_refuted api.windows_guest family e (sym q))
              (ground arith)
      ]

module _ {W : Type 0} (h : Hypervisor W) (deploy : DeployApi W) (api : CustomizeApi W) where
  module _ (p : DeployParameter) (nis : List NetworkInterface) (id : String) (w : W) where
    os_setting-chosen :
        (os : Os) (info : OsInfo)
        → p.os ≡ some os
        → get_os_info api.guest_api w id ≡ ok info
        → os_setting api.guest_api w id (customization p nis) empty_customization
          ≡ ok (
              with_identity api.guest_api info.guest_family
                (settings os.linux os.windows)
                empty_customization)
    unfolding os_setting customization
    os_setting-chosen os info is_os is_info = rw (is_os, is_info)

    should_customize-asked :
        (os : Os) (info : OsInfo)
        → p.os ≡ some os
        → deploy.guest_family w id ≡ some info.guest_family
        → deploy.windows_guest ≡ api.guest_api.windows_guest
        → (should_customize h deploy p id w).1
          ≡ ok (
              if api.guest_api.windows_guest == info.guest_family
              then is_set os.windows
              else is_set os.linux)
    unfolding should_customize
    should_customize-asked os info is_os family windows =
        rw (should_customize, is_os, family, windows)

    os_identity :
        (os : Os) (info : OsInfo) {s : CustomizationSpec}
        → p.os ≡ some os
        → get_os_info api.guest_api w id ≡ ok info
        → deploy.guest_family w id ≡ some info.guest_family
        → deploy.windows_guest ≡ api.guest_api.windows_guest
        → api.guest_api.windows_guest ≢ api.guest_api.linux_guest
        → (should_customize h deploy p id w).1 ≡ ok true
        → os_setting api.guest_api w id (customization p nis) empty_customization ≡ ok s
        → IdentityFor api.guest_api os.linux os.windows info.guest_family s.identity
    unfolding should_customize os_setting customization
    os_identity os info is_os is_info family windows differ should made =
        subst
          (λ (s : CustomizationSpec).
            IdentityFor api.guest_api os.linux os.windows info.guest_family s.identity)
          (ok_inj (sym (os_setting-chosen os info is_os is_info) ∙ made))
          (with_identity-IdentityFor api.guest_api info.guest_family os.linux os.windows differ
            (ok_inj (sym (should_customize-asked os info is_os family windows) ∙ should)))

    -- Where Deploy asks for the system to be customized, and Customize makes a specification of what
    -- Deploy gives it, for the family that Deploy saw: its identity has the settings for Windows of the
    -- deployment for a guest of that family, and those for Linux for a guest of that one. For a guest of
    -- any other family Deploy asks for it where there are settings for Linux, and there is no identity.
    pub customization_spec-IdentityFor :
        (os : Os) (info : OsInfo) (spec : CustomizationSpec)
        → p.os ≡ some os
        → get_os_info api.guest_api w id ≡ ok info
        → deploy.guest_family w id ≡ some info.guest_family
        → deploy.windows_guest ≡ api.guest_api.windows_guest
        → api.guest_api.windows_guest ≢ api.guest_api.linux_guest
        → (should_customize h deploy p id w).1 ≡ ok true
        → customization_spec api w id (customization p nis) ≡ ok spec
        → IdentityFor api.guest_api os.linux os.windows info.guest_family spec.identity
    customization_spec-IdentityFor os info spec is_os is_info family windows differ should made =
        let (s, found, kept) = spec-identity api w id (customization p nis) made in
        subst (IdentityFor api.guest_api os.linux os.windows info.guest_family) (sym kept)
          (os_identity os info is_os is_info family windows differ should found)
