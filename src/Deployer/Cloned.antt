-- ===== src/Deployer/Cloned.antt =====
-- How Deploy of vsphere/workerpool/virtual_machine_deployer.go ends, from the clone on.
use mathlib.Core.Option
use vsphere_facade.Prelude.{
  List, Option, Outcome, String, [], ap, arith, err, inl, inr, none, ok, some, subst, sym, ℕ, ℤ,
  ◌∙◌, ◌∷◌, ◌≡◌, ◌≢◌, ◌⊎◌,
}
use vsphere_facade.Action.{Action, give, wrap, eq-ok, continue-err, wrap-err, wrap-ok, ◌>>=◌, ◌>>◌}
use vsphere_facade.Hypervisor.{Hypervisor}
use vsphere_facade.Power.{destroy}
use vsphere_facade.Reconfig.Device.{VirtualDisk}
use vsphere_facade.Deployer.{
  DeployParameter, TimeoutSetting, TimeoutConfig, DeploymentDefault, set_timeout, set_default,
}
use vsphere_facade.Deployer.Steps.{
  CloneDisk, CloneParameter, DeployError, clone_failed, power_on_failed, with_ids, sys_disk_of,
}
use vsphere_facade.Deployer.Machine.{
  DeployApi, disks_of, clone_disks, clone_parameter, set_up, deploy_with, deploy,
}
use vsphere_facade.Deployer.RollBack.{RolledBack-continue, RolledBack-give, set_up-RolledBack}

sys_disk_of-no_err : (disks : List VirtualDisk) (e : DeployError) → sys_disk_of disks ≢ err e
unfolding sys_disk_of
sys_disk_of-no_err [] e h = cc
sys_disk_of-no_err (d ∷ disks) e h = ground (arith, sys_disk_of-no_err disks e)

module _ {W : Type 0} (h : Hypervisor W) (api : DeployApi W) where
  -- A deployment that failed had no machine, or had the machine `id` and was rolled back.
  abbrev pub Failed : W → DeployError → W × Outcome DeployError (Option String) → Type 0
  Failed w e r =
      ((message : String) × (e ≡ clone_failed message))
      ⊎ ((id : String) × (q : CloneParameter) × (timeout : ℤ) × (w' : W) × (api.clone q timeout w
            ≡ (w', ok (some id)))
          × (((message : String) × (e ≡ power_on_failed message))
              ⊎ ((w'' : W) × (r.0 ≡ (destroy h id w'').0))))

  clone_disks-reads :
      (p : DeployParameter) (w : W)
      → ((clone_disks h api p w).0 ≡ w) × ((e : DeployError) → (clone_disks h api p w).1 ≢ err e)
  unfolding clone_disks
  clone_disks-reads p w = (
    ground arith,
    λ e failed. ground (arith, sys_disk_of-no_err (disks_of h api w p.template.id) e),
  )

  -- The steps from the clone on.
  abbrev pub set_up_cloned :
      ℕ → TimeoutSetting → DeployParameter → Option String → Action W DeployError (Option String)
  set_up_cloned now t p none = give none
  set_up_cloned now t p (some id) =
      set_up h api now t
        (record p { network_interfaces = Option.map (with_ids api.uuid 0) p.network_interfaces }) id
      >> give (some id)

  abbrev pub clone_and_set_up :
      ℕ
      → TimeoutSetting
      → DeployParameter
      → Option (List CloneDisk)
      → Action W DeployError (Option String)
  clone_and_set_up now t p disks =
      wrap clone_failed (api.clone (clone_parameter h api p disks) t.wait_for_clone)
      >>= set_up_cloned now t p

  set_up_cloned-Failed :
      (now : ℕ) (t : TimeoutSetting) (p : DeployParameter) (q : CloneParameter) (timeout : ℤ)
      (cloned : Option String) (w w' : W) (e : DeployError)
      → api.clone q timeout w ≡ (w', ok cloned)
      → (set_up_cloned now t p cloned w').1 ≡ err e
      → Failed w e (set_up_cloned now t p cloned w')
  set_up_cloned-Failed now t p q timeout none w w' e made failed = cc
  set_up_cloned-Failed now t p q timeout (some id) w w' e made failed =
      let named : DeployParameter = record p {
        network_interfaces = Option.map (with_ids api.uuid 0) p.network_interfaces;
      } in
      inr (
        id,
        q,
        timeout,
        w',
        made,
        RolledBack-continue h api id (set_up h api now t named id w') (λ _. give (some id))
            (set_up-RolledBack h api id now t named w') (λ u. RolledBack-give h api id (some id)) e
            failed,
      )

  clone_and_set_up-Failed :
      (now : ℕ) (t : TimeoutSetting) (p : DeployParameter) (disks : Option (List CloneDisk)) (w : W)
      (e : DeployError)
      → (clone_and_set_up now t p disks w).1 ≡ err e
      → Failed w e (clone_and_set_up now t p disks w)
  clone_and_set_up-Failed now t p disks w e failed =
      let q : CloneParameter = clone_parameter h api p disks in
      let start : Action W DeployError (Option String) =
        wrap clone_failed (api.clone q t.wait_for_clone) in
      elim (continue-err (start w) (set_up_cloned now t p) failed) [
        | inl bad ↦ inl (wrap-err clone_failed (api.clone q t.wait_for_clone w) bad)
        | inr (w', cloned, made, then) ↦
            let (fine, left) =
              wrap-ok clone_failed (api.clone q t.wait_for_clone) w (ap (λ r. r.1) made) in
            let given : api.clone q t.wait_for_clone w ≡ (w', ok cloned) =
              eq-ok (api.clone q t.wait_for_clone w) fine
              ∙ ap (λ v. (v, ok cloned)) (sym left ∙ ap (λ r. r.0) made) in
            subst (λ r. Failed w e r) (sym then)
              (set_up_cloned-Failed now t p q t.wait_for_clone cloned w w' e given
                (ap (λ r. r.1) (sym then) ∙ failed))
      ]

  deploy_with-Failed :
      (now : ℕ) (t : TimeoutSetting) (p : DeployParameter) (w : W) (e : DeployError)
      → (deploy_with h api now t p w).1 ≡ err e
      → Failed w e (deploy_with h api now t p w)
  unfolding deploy_with
  deploy_with-Failed now t p w e failed =
      let (same, fine) = clone_disks-reads p w in
      elim (continue-err (clone_disks h api p w) (clone_and_set_up now t p) failed) [
        | inl bad ↦ absurd (fine e bad)
        | inr (w', disks, read, then) ↦
            let here : w' ≡ w = ap (λ r. r.0) (sym read) ∙ same in
            let moved : deploy_with h api now t p w ≡ clone_and_set_up now t p disks w =
              then ∙ ap (λ v. clone_and_set_up now t p disks v) here in
            subst (λ r. Failed w e r) (sym moved)
              (clone_and_set_up-Failed now t p disks w e (ap (λ r. r.1) (sym moved) ∙ failed))
      ]

  -- A deployment that ends in an error had no machine yet, or had one that the clone gave it, and then
  -- the last call was one to destroy that machine, unless the error is that of starting it.
  pub deploy-Failed :
      (config : TimeoutConfig) (defaults : DeploymentDefault) (now : ℕ) (t : Option TimeoutSetting)
      (p : DeployParameter) (w : W) (e : DeployError)
      → (deploy h api config defaults now t p w).1 ≡ err e
      → Failed w e (deploy h api config defaults now t p w)
  unfolding deploy
  deploy-Failed config defaults now t p w e failed =
      deploy_with-Failed now (set_timeout config t)
        (set_default defaults api.vc_id (api.datastore_type w) p) w e failed
