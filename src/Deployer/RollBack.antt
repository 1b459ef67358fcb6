-- ===== src/Deployer/RollBack.antt =====
-- What Deploy of vsphere/workerpool/virtual_machine_deployer.go leaves behind when it fails.
use vsphere_facade.Prelude.{
  Bool, List, Outcome, String, [], ap, arith, err, false, if◌then◌else◌, inl, inr, none, ok, panic,
  pos, refl, some, true, ℕ, ◌∷◌, ◌≡◌, ◌≢◌, ◌⊎◌,
}
use vsphere_facade.Action.{Action, give, fail, handle, wrap, continue, ◌>>=◌, ◌>>◌}
use vsphere_facade.Hypervisor.{Hypervisor}
use vsphere_facade.Power.{power_on, destroy}
use vsphere_facade.Reconfig.Device.{EthernetCard}
use vsphere_facade.Reconfig.Parameter.{AddNicParameter}
use vsphere_facade.Reconfig.Disks.{or_keep}
use vsphere_facade.Reconfig.Run.{reconfigure}
use vsphere_facade.Deployer.{NetworkInterface, DeployParameter, TimeoutSetting}
use vsphere_facade.Deployer.Steps.{
  DeployError, customize_failed, power_on_failed, wait_failed, hardware_failed, unit_map,
  write_back, hardware, customization,
}
use vsphere_facade.Deployer.Machine.{
  DeployApi, is_positive, roll_back, or_roll_back, cards_of, should_customize, customize_system,
  await_guest, configure_hardware, set_up,
}

-- Neither of the maps reports an error: they work, or panic.
unit_map-no_err : (nics : List AddNicParameter) (e : DeployError) → unit_map nics ≢ err e
unfolding unit_map
unit_map-no_err [] e h = cc
unit_map-no_err (n ∷ nics) e h = ground (arith, unit_map-no_err nics e)

write_back-no_err :
    (nics : List AddNicParameter) (cards : List EthernetCard) (nis : List NetworkInterface)
    (e : DeployError)
    → write_back nics cards nis ≢ err e
unfolding write_back
write_back-no_err [] cards nis e h = cc
write_back-no_err (n ∷ nics) cards nis e h = ground (arith, unit_map-no_err (n ∷ nics) e)

module _ {W : Type 0} (h : Hypervisor W) (api : DeployApi W) (id : String) where
  -- Where the run ends in an error, it is that of PowerOn, or the last call was one to destroy the
  -- machine.
  abbrev pub RolledBack : {A : Type 0} → W × Outcome DeployError A → Type 0
  RolledBack r =
      (e : DeployError)
      → r.1 ≡ err e
      → ((message : String) × (e ≡ power_on_failed message))
        ⊎ ((w : W) × (r.0 ≡ (destroy h id w).0))

  pub RolledBack-continue :
      {A B : Type 0} (r : W × Outcome DeployError A) (f : A → Action W DeployError B)
      → RolledBack r
      → ((a : A) (w : W) → RolledBack (f a w))
      → RolledBack (continue r f)
  RolledBack-continue (w, ok a) f first rest = rest a w
  RolledBack-continue (w, err e) f first rest = λ e' p. first e' (let q : e ≡ e' = cc in ap err q)
  RolledBack-continue (w, panic) f first rest = λ e p. cc

  after_destroy :
      (A : Type 0) (d : W × Outcome String (Unit {0})) (e : DeployError)
      → (continue (handle d (λ _. give {E = DeployError} tt)) (λ _. fail {A = A} e)).0 ≡ d.0
  after_destroy A (w, ok t) e = refl
  after_destroy A (w, err m) e = refl
  after_destroy A (w, panic) e = refl

  RolledBack-handle :
      {E A : Type 0} (r : W × Outcome E A) (f : E → DeployError)
      → RolledBack (handle r (λ e. roll_back h api id >> fail {A = A} (f e)))
  unfolding roll_back
  RolledBack-handle (w, ok a) f = λ e p. cc
  RolledBack-handle (w, err e) f = λ e' p. inr (w, after_destroy _ (destroy h id w) (f e))
  RolledBack-handle (w, panic) f = λ e p. cc

  RolledBack-attempt :
      {E A : Type 0} (f : E → DeployError) (m : Action W E A) (w : W)
      → RolledBack (or_roll_back h api id f m w)
  RolledBack-attempt f m w = RolledBack-handle (m w) f

  pub RolledBack-give : {A : Type 0} (a : A) (w : W) → RolledBack (give a w)
  RolledBack-give a w e p = cc

  RolledBack-if :
      {A : Type 0} (b : Bool) (m n : Action W DeployError A) (w : W)
      → RolledBack (m w)
      → RolledBack (n w)
      → RolledBack ((if b then m else n) w)
  RolledBack-if true m n w hm hn = hm
  RolledBack-if false m n w hm hn = hn

  configure_hardware-RolledBack :
      (now : ℕ) (p : DeployParameter) (w : W) → RolledBack (configure_hardware h api now p id w)
  unfolding configure_hardware
  configure_hardware-RolledBack now p w =
      RolledBack-continue _ _
        (RolledBack-attempt hardware_failed
          (reconfigure h id (hardware now p (cards_of h api w id))) w)
        (λ q w' e failed. absurd (
          write_back-no_err (elim q.nic [ none ↦ [] | some n ↦ n.add ]) (cards_of h api w' id)
            (or_keep p.network_interfaces []) e failed))

  should_customize-no_err :
      (p : DeployParameter) (w : W) (e : DeployError) → (should_customize h api p id w).1 ≢ err e
  unfolding should_customize
  should_customize-no_err p w e failed = ground arith

  customize_system-RolledBack :
      (p : DeployParameter) (nis : List NetworkInterface) (w : W)
      → RolledBack (customize_system h api p nis id w)
  unfolding customize_system
  customize_system-RolledBack p nis w =
      let act : Action W DeployError (Unit {0}) =
        or_roll_back h api id customize_failed (api.customize id (customization p nis)) in
      RolledBack-continue (should_customize h api p id w)
        (λ should. if should then act else give tt)
        (λ e failed. absurd (should_customize-no_err p w e failed))
        (λ should w'.
          RolledBack-if should act (give tt) w'
            (RolledBack-attempt customize_failed (api.customize id (customization p nis)) w')
            (RolledBack-give tt w'))

  await_guest-RolledBack :
      (p : DeployParameter) (t : TimeoutSetting) (w : W) → RolledBack (await_guest h api p t id w)
  unfolding await_guest
  await_guest-RolledBack p t w =
      let ip : Action W String (Unit {0}) =
        api.wait_for_guest_ip id p.wait_for_ip (or_keep t.wait_for_ip (pos 0)) in
      let net : Action W String (Unit {0}) =
        api.wait_for_guest_net id (or_keep t.wait_for_net (pos 0)) in
      let then_net : Action W DeployError (Unit {0}) =
        if is_positive h api t.wait_for_net
        then or_roll_back h api id wait_failed net
        else give tt in
      RolledBack-if (is_positive h api t.wait_for_ip)
        (or_roll_back h api id wait_failed ip >> then_net) (give tt) w
        (RolledBack-continue (or_roll_back h api id wait_failed ip w) (λ _. then_net)
          (RolledBack-attempt wait_failed ip w)
          (λ u w'.
            RolledBack-if (is_positive h api t.wait_for_net) (or_roll_back h api id wait_failed net)
              (give tt) w' (RolledBack-attempt wait_failed net w') (RolledBack-give tt w')))
        (RolledBack-give tt w)

  power_on_of_handle :
      (r : W × Outcome String (Unit {0}))
      → RolledBack (handle r (λ m. fail {A = Unit {0}} (power_on_failed m)))
  power_on_of_handle (w, ok t) e p = cc
  power_on_of_handle (w, err m) e p = inl (m, let q : e ≡ power_on_failed m = cc in q)
  power_on_of_handle (w, panic) e p = cc

  pub set_up-RolledBack :
      (now : ℕ) (t : TimeoutSetting) (p : DeployParameter) (w : W)
      → RolledBack (set_up h api now t p id w)
  unfolding set_up
  set_up-RolledBack now t p w =
      let start : Action W DeployError (Unit {0}) =
        wrap power_on_failed (power_on h id true (pos 10)) in
      RolledBack-continue (configure_hardware h api now p id w)
        (λ nis. customize_system h api p nis id >>= λ _. start >>= λ _. await_guest h api p t id)
        (configure_hardware-RolledBack now p w)
        (λ nis w₁.
          RolledBack-continue (customize_system h api p nis id w₁)
            (λ _. start >>= λ _. await_guest h api p t id) (customize_system-RolledBack p nis w₁)
            (λ u w₂.
              RolledBack-continue (start w₂) (λ _. await_guest h api p t id)
                (power_on_of_handle (power_on h id true (pos 10) w₂))
                (λ v w₃. await_guest-RolledBack p t w₃)))
