-- ===== src/Deployer/Machine.antt =====
-- Deploy of vsphere/workerpool/virtual_machine_deployer.go: a machine is cloned, its hardware and its
-- system are configured, it is started and waited for.
use mathlib.Core.Option
use vsphere_facade.Prelude.{
  Bool, List, Option, String, [], bind, false, if◌then◌else◌, ltb_ℤ, none, ok, panic, pos, some,
  string_eq, true, ℕ, ℤ, ◌==◌, ◌∷◌,
}
use vsphere_facade.Action.{Action, give, fail, catch, wrap, ◌>>=◌, ◌>>◌}
use vsphere_facade.Hypervisor.{Hypervisor}
use vsphere_facade.Power.{power_on, destroy}
use vsphere_facade.Customize.{CustomizeParameter}
use vsphere_facade.Reconfig.Device.{VirtualDisk, EthernetCard}
use vsphere_facade.Reconfig.Disks.{or_keep}
use vsphere_facade.Reconfig.Run.{reconfigure}
use vsphere_facade.Deployer.{
  NetworkInterface, DeployParameter, TimeoutSetting, TimeoutConfig, DeploymentDefault, set_timeout,
  set_default,
}
use vsphere_facade.Deployer.Steps.{
  CloneDisk, CloneParameter, DeployError, clone_failed, customize_failed, power_on_failed,
  wait_failed, hardware_failed, sys_disk_of, clone_disk, with_ids, hardware, write_back,
  customization,
}

-- What Deploy calls beside the operations on a machine. `clone` is Clone, which gives the id of the
-- machine or nil, `guest_family` the family of GetOSInfo, and `uuid` the texts that NewString of
-- google/uuid gives, one after the other.
pub record DeployApi (W : Type 0) : Type 0 where
  pub clone : CloneParameter → ℤ → Action W String (Option String)
  pub guest_family : W → String → Option String
  pub windows_guest : String
  pub customize : String → CustomizeParameter → Action W String (Unit {0})
  pub wait_for_guest_ip : String → String → ℤ → Action W String (Unit {0})
  pub wait_for_guest_net : String → ℤ → Action W String (Unit {0})
  pub datastore_type : W → String → Option String
  pub vc_id : String
  pub uuid : ℕ → String

abbrev pub is_set {ℓ} : {A : Type ℓ} → Option A → Bool
is_set none = false
is_set (some a) = true

module _ {W : Type 0} (h : Hypervisor W) (api : DeployApi W) where
  -- The cards of a machine; none where its devices are not known.
  unfoldable pub cards_of : W → String → List EthernetCard
  cards_of w id = elim (h.devices w id) [ none ↦ [] | some devices ↦ devices.cards ]

  unfoldable pub disks_of : W → String → List VirtualDisk
  disks_of w id = elim (h.devices w id) [ none ↦ [] | some devices ↦ devices.disks ]

  -- rollBack: the error of Destroy is logged only.
  unfoldable pub roll_back : String → Action W DeployError (Unit {0})
  unfolding destroy
  roll_back id = catch (destroy h id) (λ _. give tt)

  -- `if err != nil { d.rollBack(); return err }`
  abbrev pub or_roll_back :
      {E A : Type 0} → String → (E → DeployError) → Action W E A → Action W DeployError A
  or_roll_back id f m = catch m (λ e. roll_back id >> fail (f e))

  -- Whether the system of the machine is customized: its settings are given for its family.
  unfoldable pub should_customize : DeployParameter → String → Action W DeployError Bool
  should_customize p id w = elim p.os [
    | none ↦ (w, ok false)
    | some os ↦ elim (api.guest_family w id) [
      | none ↦ (w, panic)
      | some family ↦
          (w, ok (if api.windows_guest == family then is_set os.windows else is_set os.linux))
    ]
  ]

  unfoldable pub customize_system :
      DeployParameter → List NetworkInterface → String → Action W DeployError (Unit {0})
  unfolding should_customize customization
  customize_system p nis id = do
    should ← should_customize p id
    (if should
        then or_roll_back id customize_failed (api.customize id (customization p nis))
        else give tt)

  -- A timeout that is nil or not positive leaves the wait out, and the wait for the net with it.
  abbrev pub is_positive : Option ℤ → Bool
  is_positive none = false
  is_positive (some t) = ltb_ℤ (pos 0) t

  unfoldable pub await_guest :
      DeployParameter → TimeoutSetting → String → Action W DeployError (Unit {0})
  await_guest p t id =
      if is_positive t.wait_for_ip
      then (or_roll_back id wait_failed
            (api.wait_for_guest_ip id p.wait_for_ip (or_keep t.wait_for_ip (pos 0)))
          >> (if is_positive t.wait_for_net
              then or_roll_back id wait_failed
                  (api.wait_for_guest_net id (or_keep t.wait_for_net (pos 0)))
              else give tt))
      else give tt

  unfoldable pub configure_hardware :
      ℕ → DeployParameter → String → Action W DeployError (List NetworkInterface)
  unfolding hardware write_back cards_of reconfigure
  configure_hardware now p id w =
      (or_roll_back id hardware_failed (reconfigure h id (hardware now p (cards_of w id)))
          >>= λ q w'. (
            w',
            write_back (elim q.nic [ none ↦ [] | some n ↦ n.add ]) (cards_of w' id)
                (or_keep p.network_interfaces []),
          ))
        w

  -- The steps of Deploy once there is a new machine. An error of PowerOn is not rolled back.
  unfoldable pub set_up :
      ℕ → TimeoutSetting → DeployParameter → String → Action W DeployError (Unit {0})
  unfolding configure_hardware customize_system await_guest power_on
  set_up now t p id = do
    nis ← configure_hardware now p id
    customize_system p nis id
    wrap power_on_failed (power_on h id true (pos 10))
    await_guest p t id

  -- The disk of the template that the clone changes. A template that is not there has no disks here;
  -- in the source both are a nil dereference.
  unfoldable pub clone_disks : DeployParameter → Action W DeployError (Option (List CloneDisk))
  unfolding sys_disk_of clone_disk disks_of
  clone_disks p w = elim p.template.sys_disk [
    | none ↦ (w, ok none)
    | some d ↦ (
      w,
      bind (sys_disk_of (disks_of w p.template.id))
          λ found. elim found [ none ↦ panic | some vd ↦ ok (some (clone_disk vd d ∷ [])) ],
    )
  ]

  abbrev pub clone_parameter : DeployParameter → Option (List CloneDisk) → CloneParameter
  clone_parameter p disks = record {
    id = p.template.id;
    name = p.name;
    location = p.location;
    disks = disks;
  }

  -- Deploy with the timeouts and defaults filled in. It gives the id of the new machine; a clone that
  -- gives no machine and no error ends it without an error.
  unfoldable pub deploy_with :
      ℕ → TimeoutSetting → DeployParameter → Action W DeployError (Option String)
  unfolding set_up clone_disks with_ids
  deploy_with now t p = do
    disks ← clone_disks p
    cloned ← wrap clone_failed (api.clone (clone_parameter p disks) t.wait_for_clone)
    elim cloned [
      | none ↦ give none
      | some id ↦
          let named = record p {
            network_interfaces = Option.map (with_ids api.uuid 0) p.network_interfaces;
          } in
          set_up now t named id >> give (some id)
    ]

  unfoldable pub deploy :
      TimeoutConfig
      → DeploymentDefault
      → ℕ
      → Option TimeoutSetting
      → DeployParameter
      → Action W DeployError (Option String)
  unfolding deploy_with set_timeout set_default
  deploy config defaults now t p w =
      deploy_with now (set_timeout config t)
        (set_default defaults api.vc_id (api.datastore_type w) p) w
