-- ===== src/Deployer/Started.antt =====
-- What a deployment of vsphere/workerpool/virtual_machine_deployer.go that succeeds has done, and what
-- of its request it does not read.
use mathlib.Core.Option
use vsphere_facade.Prelude.{
  Bool, List, Option, Outcome, String, ap, err, false, if◌then◌else◌, inl, inr, int_eq, none, ok,
  panic, pos, refl, some, subst, sym, true, ℕ, ℤ, ◌∙◌, ◌≡◌, ◌≢◌,
}
use vsphere_facade.Action.{
  Action, give, fail, wrap, continue, >>=-ok, catch-ok, wrap-ok, Keeps, ◌>>=◌, ◌>>◌,
}
use vsphere_facade.Hypervisor.{Hypervisor, PowerState, powered_on}
use vsphere_facade.Power.{power_on}
use vsphere_facade.Power.States.{IsIn, TaskLaws, power-IsIn}
use vsphere_facade.Reconfig.Disks.{or_keep}
use vsphere_facade.Deployer.{
  DataDisk, DeployParameter, TimeoutSetting, TimeoutConfig, DeploymentDefault, set_timeout,
  set_default,
}
use vsphere_facade.Deployer.Steps.{
  DeployError, power_on_failed, wait_failed, clone_failed, with_ids,
}
use vsphere_facade.Deployer.Cloned.{set_up_cloned, clone_and_set_up}
use vsphere_facade.Deployer.Machine.{
  DeployApi, is_positive, roll_back, or_roll_back, configure_hardware, customize_system,
  await_guest, clone_disks, clone_parameter, set_up, deploy_with, deploy,
}

module _ {W : Type 0} (h : Hypervisor W) (api : DeployApi W) where
  -- The data disks, the flag for logging and the flag for starting of a request are not read: with any
  -- others the deployment is the same.
  pub deploy-ignores :
      (config : TimeoutConfig) (defaults : DeploymentDefault) (now : ℕ) (t : Option TimeoutSetting)
      (p : DeployParameter) (disks : List DataDisk) (logging start : Option Bool) (w : W)
      → deploy h api config defaults now t
          (record p { data_disks = disks; enable_logging = logging; power_on = start })
          w
        ≡ deploy h api config defaults now t p w
  unfolding deploy
  deploy-ignores config defaults now t p disks logging start w = refl

  -- The waits for the guest leave the power of the machine as it is.
  pub record WaitLaws (id : String) : Type 0 where
    pub ip_keeps :
        (ip : String) (t : ℤ) → Keeps (λ w. h.power_state w id) (api.wait_for_guest_ip id ip t)
    pub net_keeps : (t : ℤ) → Keeps (λ w. h.power_state w id) (api.wait_for_guest_net id t)

  some_eq :
      {a b : String}
      → (o : Outcome DeployError (Option String)) → o ≡ ok (some a)
      → o ≡ ok (some b)
      → a ≡ b
  some_eq o e e' = cc

  fail-not_ok :
      {A B : Type 0} (r : W × Outcome DeployError A) (e : DeployError) (b : B)
      → (continue r (λ _. fail e)).1 ≢ ok b
  fail-not_ok (w, ok a) e b p = cc
  fail-not_ok (w, err e') e b p = cc
  fail-not_ok (w, panic) e b p = cc

  -- What succeeds was not rolled back.
  or_roll_back-ok :
      {E A : Type 0} (id : String) (f : E → DeployError) (m : Action W E A) (w : W) {a : A}
      → (or_roll_back h api id f m w).1 ≡ ok a
      → ((m w).1 ≡ ok a) × ((or_roll_back h api id f m w).0 ≡ (m w).0)
  or_roll_back-ok id f m w {a} fine =
      elim (catch-ok m (λ e. roll_back h api id >> fail (f e)) w fine) [
        | inl same ↦ same
        | inr (w', e, failed, rest) ↦
            absurd (fail-not_ok (roll_back h api id w') (f e) a (ap (λ r. r.1) (sym rest) ∙ fine))
      ]

  module _ (id : String) (waits : WaitLaws id) where
    abbrev power : W → Option PowerState
    power w = h.power_state w id

    give_or-keeps :
        (b : Bool) (m : Action W DeployError (Unit {0})) (w : W)
        → ((m w).1 ≡ ok tt → power (m w).0 ≡ power w)
        → ((if b then m else give tt) w).1 ≡ ok tt
        → power ((if b then m else give tt) w).0 ≡ power w
    give_or-keeps true m w kept fine = kept fine
    give_or-keeps false m w kept fine = refl

    await_guest-keeps :
        (p : DeployParameter) (t : TimeoutSetting) (w : W)
        → (await_guest h api p t id w).1 ≡ ok tt
        → power (await_guest h api p t id w).0 ≡ power w
    unfolding await_guest
    await_guest-keeps p t w fine =
        let ip : Action W String (Unit {0}) =
          api.wait_for_guest_ip id p.wait_for_ip (or_keep t.wait_for_ip (pos 0)) in
        let net : Action W String (Unit {0}) =
          api.wait_for_guest_net id (or_keep t.wait_for_net (pos 0)) in
        let then_net : Action W DeployError (Unit {0}) =
          if is_positive h api t.wait_for_net
          then or_roll_back h api id wait_failed net
          else give tt in
        give_or-keeps (is_positive h api t.wait_for_ip)
          (or_roll_back h api id wait_failed ip >> then_net) w
          (λ both.
            let (w', u, waited, rest) =
              >>=-ok (or_roll_back h api id wait_failed ip) (λ _. then_net) w both in
            let (ip_fine, same) = or_roll_back-ok id wait_failed ip w (ap (λ r. r.1) waited) in
            ap (λ r. power r.0) rest
            ∙ give_or-keeps (is_positive h api t.wait_for_net)
                (or_roll_back h api id wait_failed net) w'
                (λ net_fine.
                  let (f, same') = or_roll_back-ok id wait_failed net w' net_fine in
                  ap power same' ∙ waits.net_keeps (or_keep t.wait_for_net (pos 0)) w')
                (ap (λ r. r.1) (sym rest) ∙ both)
            ∙ ap (λ r. power r.0) (sym waited)
            ∙ ap power same
            ∙ waits.ip_keeps p.wait_for_ip (or_keep t.wait_for_ip (pos 0)) w)
          fine

    -- The steps after the clone, if they succeed, leave the machine running.
    pub set_up-IsIn :
        (laws : TaskLaws h) (now : ℕ) (t : TimeoutSetting) (p : DeployParameter) (w : W)
        → (set_up h api now t p id w).1 ≡ ok tt
        → IsIn h powered_on id (set_up h api now t p id w).0
    unfolding set_up
    set_up-IsIn laws now t p w fine =
        let start : Action W DeployError (Unit {0}) =
          wrap power_on_failed (power_on h id true (pos 10)) in
        let (w₁, nis, hardware, then₁) =
          >>=-ok (configure_hardware h api now p id)
            (λ nis.
              customize_system h api p nis id >>= λ _. start >>= λ _. await_guest h api p t id)
            w fine in
        let fine₁ = ap (λ r. r.1) (sym then₁) ∙ fine in
        let (w₂, u, system, then₂) =
          >>=-ok (customize_system h api p nis id) (λ _. start >>= λ _. await_guest h api p t id) w₁
            fine₁ in
        let fine₂ = ap (λ r. r.1) (sym then₂) ∙ fine₁ in
        let (w₃, v, started, then₃) = >>=-ok start (λ _. await_guest h api p t id) w₂ fine₂ in
        let (on, same) =
          wrap-ok power_on_failed (power_on h id true (pos 10)) w₂ (ap (λ r. r.1) started) in
        ap (λ r. power r.0) (then₁ ∙ then₂ ∙ then₃)
        ∙ await_guest-keeps p t w₃ (ap (λ r. r.1) (sym then₃) ∙ fine₂)
        ∙ ap (λ r. power r.0) (sym started)
        ∙ ap power same
        ∙ (power-IsIn h laws id (pos 10) w₂ refl).0 on

  module _ (laws : TaskLaws h) (waits : (id : String) → WaitLaws id) where
    set_up_cloned-IsIn :
        (now : ℕ) (t : TimeoutSetting) (p : DeployParameter) (cloned : Option String) (id : String)
        (w : W)
        → (set_up_cloned h api now t p cloned w).1 ≡ ok (some id)
        → IsIn h powered_on id (set_up_cloned h api now t p cloned w).0
    set_up_cloned-IsIn now t p none id w fine = cc
    set_up_cloned-IsIn now t p (some id') id w fine =
        let named : DeployParameter = record p {
          network_interfaces = Option.map (with_ids api.uuid 0) p.network_interfaces;
        } in
        let (w', u, done, rest) =
          >>=-ok (set_up h api now t named id') (λ _. give (some id')) w fine in
        let same : id' ≡ id = some_eq _ (ap (λ r. r.1) rest) fine in
        let on : IsIn h powered_on id' w' =
          ap (λ r. h.power_state r.0 id') (sym done)
          ∙ set_up-IsIn id' (waits id') laws now t named w (ap (λ r. r.1) done) in
        ap (λ r. h.power_state r.0 id) rest ∙ subst (λ i. IsIn h powered_on i w') same on

    deploy_with-IsIn :
        (now : ℕ) (t : TimeoutSetting) (p : DeployParameter) (id : String) (w : W)
        → (deploy_with h api now t p w).1 ≡ ok (some id)
        → IsIn h powered_on id (deploy_with h api now t p w).0
    unfolding deploy_with
    deploy_with-IsIn now t p id w fine =
        let (w₁, disks, read, rest₁) =
          >>=-ok (clone_disks h api p) (clone_and_set_up h api now t p) w fine in
        let fine₁ = ap (λ r. r.1) (sym rest₁) ∙ fine in
        let clone : Action W DeployError (Option String) =
          wrap clone_failed (api.clone (clone_parameter h api p disks) t.wait_for_clone) in
        let (w₂, cloned, made, rest₂) = >>=-ok clone (set_up_cloned h api now t p) w₁ fine₁ in
        ap (λ r. h.power_state r.0 id) (rest₁ ∙ rest₂)
        ∙ set_up_cloned-IsIn now t p cloned id w₂ (ap (λ r. r.1) (sym rest₂) ∙ fine₁)

    -- A deployment that succeeds with a machine leaves that machine running, where the tasks of the
    -- vCenter do what they promise and the waits for the guest leave the power as it is.
    pub deploy-IsIn :
        (config : TimeoutConfig) (defaults : DeploymentDefault) (now : ℕ)
        (t : Option TimeoutSetting) (p : DeployParameter) (id : String) (w : W)
        → (deploy h api config defaults now t p w).1 ≡ ok (some id)
        → IsIn h powered_on id (deploy h api config defaults now t p w).0
    unfolding deploy
    deploy-IsIn config defaults now t p id w fine =
        deploy_with-IsIn now (set_timeout config t)
          (set_default defaults api.vc_id (api.datastore_type w) p) id w fine
