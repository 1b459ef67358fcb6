-- ===== src/Reconfig/Run/Atomic.antt =====
-- What Reconfigure of virtual_machine_reconfig.go submits, and when.
use vsphere_facade.Prelude.{
  Bool-cases, Option-cases, Outcome, Outcome-cases, String, ap, err, inl, inr, none, ok, panic,
  refl, some, subst, sym, true, ◌∙◌, ◌≡◌, ◌≢◌, ◌⊎◌,
}
use vsphere_facade.Action.{Action, give, wrap, wrap-ok, >>=-ok, eq-ok, ◌>>=◌, ◌>>◌}
use vsphere_facade.Hypervisor.{Hypervisor, Submission}
use vsphere_facade.Reconfig.Parameter.{ReconfigureParameter}
use vsphere_facade.Reconfig.Device.{DeviceList}
use vsphere_facade.Reconfig.Error.{
  ReconfigError, task_failed, reconfigure_failed, machine_not_found, devices_not_found,
}
use vsphere_facade.Reconfig.Run.{prepare, wait_reconfigure_task, reconfigure}

module _ {W : Type 0} (h : Hypervisor W) (id : String) where
  -- The task of a submission was started and awaited, and neither failed.
  abbrev pub Applied : Submission → W → W → Type 0
  Applied s w w'' =
      (w' : W) × (h.start_reconfigure id s w ≡ (w', ok tt)) × (h.wait id none w' ≡ (w'', ok tt))

  awaited :
      (s : Submission) (w : W)
      → (wait_reconfigure_task h id s w).1 ≡ ok tt
      → Applied s w (wait_reconfigure_task h id s w).0
  unfolding wait_reconfigure_task
  awaited s w e =
      let (fine, same) = wrap-ok task_failed (h.start_reconfigure id s >> h.wait id none) w e in
      let (w', u, started, waiting) =
        >>=-ok (h.start_reconfigure id s) (λ _. h.wait id none) w fine in
      (w', started, sym waiting ∙ eq-ok _ fine ∙ ap (λ v. (v, ok tt)) (sym same))

  abbrev submit : ReconfigureParameter × Submission → Action W ReconfigError ReconfigureParameter
  submit q = wrap reconfigure_failed (wait_reconfigure_task h id q.1) >>= λ _. give q.0

  ok-eq :
      (o : Outcome ReconfigError ReconfigureParameter) {p q : ReconfigureParameter}
      → o ≡ ok p
      → o ≡ ok q
      → p ≡ q
  ok-eq o e e' = cc

  unchanged :
      (p : ReconfigureParameter) (w : W) (o : Outcome ReconfigError ReconfigureParameter)
      → ((q : ReconfigureParameter) → o ≢ ok q)
      → reconfigure h id p w ≡ (w, o)
      → ((reconfigure h id p w).0 ≡ w)
        × ((q : ReconfigureParameter) → (reconfigure h id p w).1 ≢ ok q)
  unchanged p w o failed same = (ap (λ r. r.0) same, λ q e. failed q (ap (λ r. r.1) (sym same) ∙ e))

  submit-ok :
      (q : ReconfigureParameter × Submission) (w : W) {p : ReconfigureParameter}
      → (submit q w).1 ≡ ok p
      → (q.0 ≡ p) × Applied q.1 w (submit q w).0
  submit-ok q w e =
      let (w', u, task, same) =
        >>=-ok (wrap reconfigure_failed (wait_reconfigure_task h id q.1)) (λ _. give q.0) w e in
      let (fine, left) =
        wrap-ok reconfigure_failed (wait_reconfigure_task h id q.1) w (ap (λ r. r.1) task) in
      (
        ok-eq (submit q w).1 (ap (λ r. r.1) same) e,
        subst (λ v. Applied q.1 w v) (sym left ∙ ap (λ r. r.0) task ∙ ap (λ r. r.0) (sym same))
            (awaited q.1 w fine),
      )

  -- Reconfigure leaves the world as it is, and reports a failure, unless the machine is there, its
  -- devices are known and the whole change was worked out. A success is that of the task for this
  -- change, started once and awaited, and gives the parameters with their unit numbers.
  pub reconfigure-atomic :
      (p : ReconfigureParameter) (w : W)
      → ((reconfigure h id p w).0 ≡ w)
          × ((q : ReconfigureParameter) → (reconfigure h id p w).1 ≢ ok q)
        ⊎ ((devices : DeviceList) × (q : ReconfigureParameter) × (s : Submission)
            × (h.machine_exists w id ≡ true)
            × (h.devices w id ≡ some devices)
            × (prepare h p devices ≡ ok (q, s))
            × ((r : ReconfigureParameter)
                → (reconfigure h id p w).1 ≡ ok r
                → (q ≡ r) × Applied s w (reconfigure h id p w).0))
  unfolding reconfigure
  reconfigure-atomic p w = elim (Bool-cases (h.machine_exists w id)) [
    | inr gone ↦
        inl (unchanged p w (err machine_not_found) (λ q e. cc) (rw (gone, reconfigure) refl))
    | inl there ↦ elim (Option-cases (h.devices w id)) [
      | inl unknown ↦ inl (
          unchanged p w (err devices_not_found) (λ q e. cc) (rw (there, unknown, reconfigure) refl))
      | inr (devices, known) ↦ elim (Outcome-cases (prepare h p devices)) [
        | inl broken ↦
            inl (unchanged p w panic (λ q e. cc) (rw (there, known, broken, reconfigure) refl))
        | inr (inl (e, wrong)) ↦
            inl (unchanged p w (err e) (λ q e. cc) (rw (there, known, wrong, reconfigure) refl))
        | inr (inr (q, fine)) ↦
            let same : reconfigure h id p w ≡ submit q w =
              rw (there, known, fine, reconfigure) refl in
            inr
              (devices, q.0, q.1, there, known, fine, λ r e. rw same (submit-ok q w (rw same at e)))
      ]
    ]
  ]
