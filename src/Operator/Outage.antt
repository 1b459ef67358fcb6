-- ===== src/Operator/Outage.antt =====
-- The power that a machine is left without by Reconfigure of virtual_machine_operator.go.
use vsphere_facade.Prelude.{
  Bool, Bool-cases, Option, Option-cases, Outcome, Outcome-cases, String, ap, arith, false, inl,
  inr, none, ok, pos, refl, some, not, sym, true, if◌then◌else◌, ℤ, ◌&&◌, ◌||◌, ◌∙◌, ◌≡◌,
}
use vsphere_facade.Action.{
  Action, give, wrap, >>=-ok, catch-ok, wrap-ok, Keeps, Keeps-bind, Keeps-wrap, ◌>>=◌, ◌>>◌,
}
use vsphere_facade.Hypervisor.{Hypervisor, Submission, Hardware, powered_off}
use vsphere_facade.Power.{power_off, shutdown}
use vsphere_facade.Power.States.{TaskLaws, IsIn, power-IsIn}
use vsphere_facade.Reconfig.Parameter.{ReconfigureParameter}
use vsphere_facade.Reconfig.Error.{reconfigure_failed}
use vsphere_facade.Reconfig.Run.{reconfigure, prepare, wait_reconfigure_task}
use vsphere_facade.Operator.{
  OperatorError, remote, power_off_failed, reconfigure_error, operator_power_off,
  operator_reconfigure, ReconfigureRequest, ReconfigurePlan, plan, stop_first, parameter_of,
}
use vsphere_facade.Operator.Restart.{stop_and_change, carry_out-stop_and_change}

module _ {W : Type 0} (h : Hypervisor W) (id : String) where
  -- A change of the configuration leaves the power as it is.
  pub record ChangeLaws : Type 0 where
    pub start_keeps : (s : Submission) → Keeps (λ w. h.power_state w id) (h.start_reconfigure id s)
    pub wait_keeps : (t : Option ℤ) → Keeps (λ w. h.power_state w id) (h.wait id t)

  module _ (changes : ChangeLaws) where
    wait_reconfigure_task-Keeps :
        (s : Submission) → Keeps (λ w. h.power_state w id) (wait_reconfigure_task h id s)
    unfolding wait_reconfigure_task
    wait_reconfigure_task-Keeps s =
        Keeps-wrap (λ w. h.power_state w id) _ _
          (Keeps-bind (λ w. h.power_state w id) (h.start_reconfigure id s) (λ _. h.wait id none)
            (changes.start_keeps s) (λ _. changes.wait_keeps none))

    prepared-Keeps :
        (p : ReconfigureParameter) (s : Submission)
        → Keeps
            (λ w. h.power_state w id)
            (wrap reconfigure_failed (wait_reconfigure_task h id s) >>= λ _. give p)
    prepared-Keeps p s =
        Keeps-bind (λ w. h.power_state w id)
          (wrap reconfigure_failed (wait_reconfigure_task h id s)) (λ _. give p)
          (Keeps-wrap (λ w. h.power_state w id) _ _ (wait_reconfigure_task-Keeps s)) (λ _ w. refl)

    pub reconfigure-Keeps :
        (p : ReconfigureParameter) → Keeps (λ w. h.power_state w id) (reconfigure h id p)
    unfolding reconfigure
    reconfigure-Keeps p w = elim (Bool-cases (h.machine_exists w id)) [
      | inr gone ↦ ground arith
      | inl there ↦ elim (Option-cases (h.devices w id)) [
        | inl unknown ↦ ground arith
        | inr (devices, known) ↦ elim (Outcome-cases (prepare h p devices)) [
          | inl broken ↦ rw (there, known, broken, reconfigure) refl
          | inr (inl (e, wrong)) ↦ rw (there, known, wrong, reconfigure) refl
          | inr (inr (q, fine)) ↦ rw (there, known, fine, reconfigure) (prepared-Keeps q.0 q.1 w)
        ]
      ]
    ]

  wrapped_power_off-IsIn :
      (laws : TaskLaws h) (w : W)
      → (wrap remote (power_off h id true (pos 2)) w).1 ≡ ok tt
      → IsIn h powered_off id (wrap remote (power_off h id true (pos 2)) w).0
  wrapped_power_off-IsIn laws w e =
      let (fine, same) = wrap-ok remote (power_off h id true (pos 2)) w e in
      ap (λ v. h.power_state v id) same ∙ (power-IsIn h laws id (pos 2) w refl).1 fine

  operator_power_off-IsIn :
      (laws : TaskLaws h) (shutdown_first : Bool) (w : W)
      → (operator_power_off h shutdown_first id w).1 ≡ ok tt
      → IsIn h powered_off id (operator_power_off h shutdown_first id w).0
  unfolding operator_power_off
  operator_power_off-IsIn laws true w e =
      elim (catch-ok (shutdown h id true (pos 2)) (λ _. wrap remote (power_off h id true (pos 2))) w
        e) [
          | inl (fine, same) ↦
              ap (λ v. h.power_state v id) same ∙ (power-IsIn h laws id (pos 2) w refl).2 fine
          | inr (w', message, failed, way_on) ↦
              ap (λ r. h.power_state r.0 id) way_on
              ∙ wrapped_power_off-IsIn laws w' (ap (λ r. r.1) (sym way_on) ∙ e)
        ]
  operator_power_off-IsIn laws false w e = wrapped_power_off-IsIn laws w e

  module _ (laws : TaskLaws h) (changes : ChangeLaws) (shutdown_first : Bool) where
    abbrev stop : Action W OperatorError (Unit {0})
    stop = wrap power_off_failed (operator_power_off h shutdown_first id)

    abbrev change : ReconfigurePlan → Action W OperatorError ReconfigureParameter
    change c = wrap reconfigure_error (reconfigure h id (parameter_of c))

    stop-IsIn : (w : W) → (stop w).1 ≡ ok tt → IsIn h powered_off id (stop w).0
    stop-IsIn w e =
        let (fine, same) = wrap-ok power_off_failed (operator_power_off h shutdown_first id) w e in
        ap (λ v. h.power_state v id) same ∙ operator_power_off-IsIn laws shutdown_first w fine

    both-IsIn :
        (c : ReconfigurePlan) (w : W) {q : ReconfigureParameter}
        → ((stop >> change c) w).1 ≡ ok q
        → IsIn h powered_off id ((stop >> change c) w).0
    both-IsIn c w e =
        let (w', u, stopped, then_change) = >>=-ok stop (λ _. change c) w e in
        ap (λ r. h.power_state r.0 id) then_change
        ∙ Keeps-wrap (λ v. h.power_state v id) reconfigure_error (reconfigure h id (parameter_of c))
            (reconfigure-Keeps changes (parameter_of c)) w'
        ∙ ap (λ r. h.power_state r.0 id) (sym stopped)
        ∙ stop-IsIn w (ap (λ r. r.1) stopped)

    all_steps-IsIn :
        (c : ReconfigurePlan) (w : W)
        → ((stop >> change c >> give tt) w).1 ≡ ok tt
        → IsIn h powered_off id ((stop >> change c >> give tt) w).0
    all_steps-IsIn c w e =
        let (w', q, both, same) = >>=-ok (stop >> change c) (λ _. give tt) w e in
        ap (λ r. h.power_state r.0 id) same
        ∙ ap (λ r. h.power_state r.0 id) (sym both)
        ∙ both-IsIn c w (ap (λ r. r.1) both)

    stop_and_change-IsIn :
        (c : ReconfigurePlan) (hw : Hardware) (w : W)
        → stop_first c hw ≡ true
        → (stop_and_change h shutdown_first id c hw w).1 ≡ ok tt
        → IsIn h powered_off id (stop_and_change h shutdown_first id c hw w).0
    stop_and_change-IsIn c hw w needed e =
        let same : stop_and_change h shutdown_first id c hw w ≡ (stop >> change c >> give tt) w =
          rw needed in
        ap (λ r. h.power_state r.0 id) same ∙ all_steps-IsIn c w (ap (λ r. r.1) (sym same) ∙ e)

    skipped_no_change :
        (c : ReconfigurePlan) (skip next : W × Outcome OperatorError (Unit {0}))
        → (c.cpu_changed || c.memory_changed) ≡ true
        → (if not c.cpu_changed && not c.memory_changed then skip else next) ≡ next
    skipped_no_change c skip next changed = ground arith

    -- Where the tasks of the vCenter do what they promise, and those of a change leave the power as
    -- it is, a reconfiguration that plans a change and needs a stop, and is reported as a success,
    -- leaves the machine off: it was stopped for the change, and the change leaves the power as it
    -- is.
    pub operator_reconfigure-leaves_off :
        (p : ReconfigureRequest) (w : W) (hw : Hardware)
        → h.hardware w id ≡ some hw
        → ((plan p hw).cpu_changed || (plan p hw).memory_changed) ≡ true
        → stop_first (plan p hw) hw ≡ true
        → (operator_reconfigure h shutdown_first id p w).1 ≡ ok tt
        → IsIn h powered_off id (operator_reconfigure h shutdown_first id p w).0
    unfolding operator_reconfigure
    operator_reconfigure-leaves_off p w hw known changed needed e =
        let same : operator_reconfigure h shutdown_first id p w
            ≡ stop_and_change h shutdown_first id (plan p hw) hw w =
          rw (known, operator_reconfigure)
            (skipped_no_change (plan p hw) _ _ changed
              ∙ ap (λ act. act w) (carry_out-stop_and_change h shutdown_first id (plan p hw) hw)) in
        ap (λ r. h.power_state r.0 id) same
        ∙ stop_and_change-IsIn (plan p hw) hw w needed (ap (λ r. r.1) (sym same) ∙ e)
