-- ===== src/Deployer/Defaults.antt =====
-- What setDefault and setTimeout of virtual_machine_deployer.go do to a request.
use vsphere_facade.Prelude.{
  List, Option, Option-cases, String, [], ap, ap₂, arith, inl, inr, ltb_ℤ, map, none, pos, refl,
  some, string_eq, true, ◌∷◌, ◌≡◌,
}
use mathlib.Core.Option
use vsphere_facade.Deployer.{
  NetworkInterface, SysDisk, DataDisk, DeployParameter, DeploymentDefault, TimeoutSetting,
  TimeoutConfig, default_sys_disk, default_data_disk, default_network_interface, default_policy,
  set_default, set_timeout,
}

map-map {ℓ} :
    {A : Type ℓ} (f : A → A) (xs : List A) → ((a : A) → f (f a) ≡ f a) → map f (map f xs) ≡ map f xs
map-map f [] again = refl
map-map f (x ∷ xs) again = ap₂ (λ y ys. y ∷ ys) (again x) (map-map f xs again)

option_map-map {ℓ} :
    {A : Type ℓ} (f : A → A) (o : Option A)
    → ((a : A) → f (f a) ≡ f a)
    → Option.map f (Option.map f o) ≡ Option.map f o
option_map-map f none again = refl
option_map-map f (some a) again = ap some (again a)

module _ (defaults : DeploymentDefault) (vc_id : String)
    (datastore_type : String → Option String) where
  default_sys_disk-again :
      (d : SysDisk)
      → default_sys_disk defaults vc_id datastore_type
          (default_sys_disk defaults vc_id datastore_type d)
        ≡ default_sys_disk defaults vc_id datastore_type d
  unfolding default_sys_disk default_policy
  default_sys_disk-again d = ground arith

  default_data_disk-again :
      (d : DataDisk)
      → default_data_disk defaults vc_id datastore_type
          (default_data_disk defaults vc_id datastore_type d)
        ≡ default_data_disk defaults vc_id datastore_type d
  unfolding default_data_disk default_policy
  default_data_disk-again d = ground arith

  default_network_interface-again :
      (ni : NetworkInterface)
      → default_network_interface defaults vc_id datastore_type
          (default_network_interface defaults vc_id datastore_type ni)
        ≡ default_network_interface defaults vc_id datastore_type ni
  unfolding default_network_interface
  default_network_interface-again ni = ground arith

  -- Filling in the defaults a second time changes nothing: what the request or the first time has set
  -- is kept.
  pub set_default-again :
      (p : DeployParameter)
      → set_default defaults vc_id datastore_type (set_default defaults vc_id datastore_type p)
        ≡ set_default defaults vc_id datastore_type p
  unfolding set_default
  set_default-again p =
      let sys =
        option_map-map (default_sys_disk defaults vc_id datastore_type) p.template.sys_disk
          default_sys_disk-again in
      let disks =
        map-map (default_data_disk defaults vc_id datastore_type) p.template.data_disks
          default_data_disk-again in
      let cards =
        option_map-map (map (default_network_interface defaults vc_id datastore_type))
          p.network_interfaces
          (λ nis.
            map-map (default_network_interface defaults vc_id datastore_type) nis
              default_network_interface-again) in
      elim (Option-cases p.enable_logging) [
        | inl missing ↦ rw (sys, disks, cards, missing) (ground arith)
        | inr (b, given) ↦ rw (sys, disks, cards, given)
      ]

-- A second time changes no timeout, and where the configuration waits for a clone at all, the time to
-- wait is positive.
pub set_timeout-again :
    (config : TimeoutConfig) (t : Option TimeoutSetting)
    → (set_timeout config (some (set_timeout config t)) ≡ set_timeout config t)
      × (ltb_ℤ (pos 0) config.wait_for_clone ≡ true
          → ltb_ℤ (pos 0) (set_timeout config t).wait_for_clone ≡ true)
unfolding set_timeout
set_timeout-again config none = (ground arith, λ h. ground arith)
set_timeout-again config (some s) = (ground arith, λ h. ground arith)
