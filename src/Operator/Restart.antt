-- ===== src/Operator/Restart.antt =====
-- Reconfigure of virtual_machine_operator.go stops a machine, and never starts it again.
use vsphere_facade.Prelude.{
  Bool, Option-cases, String, ap, arith, false, if◌then◌else◌, inl, inr, int_eq, not, ok, refl, sym,
  ◌&&◌, ◌∙◌, ◌≡◌,
}
use vsphere_facade.Action.{Action, give, wrap, ◌>>◌}
use vsphere_facade.Hypervisor.{Hypervisor, Hardware, powered_on, same_state}
use vsphere_facade.Operator.{
  ReconfigureRequest, ReconfigurePlan, plan, stop_first, carry_out, operator_reconfigure,
  operator_power_off, parameter_of, power_off_failed, reconfigure_error, OperatorError,
}
use vsphere_facade.Reconfig.Parameter.{ReconfigureParameter}
use vsphere_facade.Reconfig.Run.{reconfigure}

module _ {W : Type 0} (h : Hypervisor W) (f : String → Action W String (Unit {0})) where
  -- The same vCenter, with another task for starting a machine.
  abbrev pub other_start : Hypervisor W
  other_start = record h { start_power_on = f }

  reconfigure-other_start :
      (id : String) (p : ReconfigureParameter) → reconfigure other_start id p ≡ reconfigure h id p
  unfolding reconfigure
  reconfigure-other_start id p = refl

  power_off-other_start :
      (shutdown_first : Bool) (id : String)
      → operator_power_off other_start shutdown_first id ≡ operator_power_off h shutdown_first id
  unfolding operator_power_off
  power_off-other_start shutdown_first id = refl

-- Starting is left out: a stop was needed only where the machine runs.
not_restarted :
    (c : ReconfigurePlan) (hw : Hardware)
    → (stop_first c hw && not (same_state hw.power_state powered_on)) ≡ false
unfolding stop_first
not_restarted c hw = ground arith

module _ {W : Type 0} (h : Hypervisor W) (shutdown_first : Bool) where
  -- The steps that are left: a stop, if it is needed, and the change.
  abbrev pub stop_and_change :
      String → ReconfigurePlan → Hardware → Action W OperatorError (Unit {0})
  stop_and_change id c hw =
      (if stop_first c hw
        then wrap power_off_failed (operator_power_off h shutdown_first id)
        else give tt)
      >> wrap reconfigure_error (reconfigure h id (parameter_of c))
      >> give tt

  pub carry_out-stop_and_change :
      (id : String) (c : ReconfigurePlan) (hw : Hardware)
      → carry_out h shutdown_first id c hw ≡ stop_and_change id c hw
  unfolding carry_out
  carry_out-stop_and_change id c hw = rw (not_restarted c hw)

module _ {W : Type 0} (h : Hypervisor W) (f : String → Action W String (Unit {0}))
    (shutdown_first : Bool) where
  carry_out-other_start :
      (id : String) (c : ReconfigurePlan) (hw : Hardware)
      → carry_out (other_start h f) shutdown_first id c hw ≡ carry_out h shutdown_first id c hw
  carry_out-other_start id c hw =
      carry_out-stop_and_change (other_start h f) shutdown_first id c hw
      ∙ (rw (
        power_off-other_start h f shutdown_first id,
        reconfigure-other_start h f id (parameter_of c),
      ))
      ∙ sym (carry_out-stop_and_change h shutdown_first id c hw)

  -- The task that starts a machine is never called: with any other in its place every request has the
  -- same result, and leaves the same world.
  pub operator_reconfigure-never_starts :
      (id : String) (p : ReconfigureRequest) (w : W)
      → operator_reconfigure (other_start h f) shutdown_first id p w
        ≡ operator_reconfigure h shutdown_first id p w
  unfolding operator_reconfigure
  operator_reconfigure-never_starts id p w = elim (Option-cases (h.hardware w id)) [
    | inl unknown ↦ ground arith
    | inr (hw, known) ↦
        let c = plan p hw in
        rw (known, operator_reconfigure)
          (ap
            (λ (act : Action W OperatorError (Unit {0})).
              if not c.cpu_changed && not c.memory_changed then (w, ok tt) else act w)
            (carry_out-other_start id c hw))
  ]
