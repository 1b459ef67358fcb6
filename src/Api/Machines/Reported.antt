-- ===== src/Api/Machines/Reported.antt =====
-- What a task for several machines calls back with.
use mathlib.Core.List.{append-nil, append_assoc}
use vsphere_facade.Prelude.{
  Bool-cases, List, Option, Outcome, Outcome-cases, String, [], ap, err, false, inl, inr, none, ok,
  panic, refl, some, true, ◌++◌, ◌∙◌, ◌∷◌, ◌≡◌,
}
use vsphere_facade.Cache.{Text}
use vsphere_facade.Action.{Action, continue, give}
use vsphere_facade.Hypervisor.{Hypervisor}
use vsphere_facade.Server.{Server}
use vsphere_facade.Operator.{OperatorError}
use vsphere_facade.Callback.{Delivery, OperationCallBackRes}
use vsphere_facade.Api.{Program}
use vsphere_facade.Api.Machines.Verdicts.{
  Verdict, done, missing, failed, Verdicts, done_ids, missing_ids, failures, results_of, Ran,
  ran_none, ran_missing, ran_done, ran_failed, RunOver, all_ran, panicked,
}
use vsphere_facade.Api.Machines.{
  OperationReq, attempt, with_result, operate_one, operate_all, no_results, operation_call_back,
  operation_task,
}

-- Results that were gathered before, with those of the machines after.
abbrev extended : OperationCallBackRes → Verdicts → OperationCallBackRes
extended res rs = record {
  success = res.success ++ done_ids rs;
  not_found = res.not_found ++ missing_ids rs;
  failed = res.failed ++ failures rs;
}

module _ {W E : Type 0} (h : Hypervisor W) (describe : E → String)
    (op : String → Action W E (Unit {0})) where
  -- One more machine in front of a run.
  abbrev in_front : String → Verdict → W × Outcome ⊥ Verdicts → W × Outcome ⊥ Verdicts
  in_front id v (w, ok rs) = (w, ok ((id, v) ∷ rs))
  in_front id v (w, err e) = (w, err e)
  in_front id v (w, panic) = (w, panic)

  RunOver-front :
      (id : String) (v : Verdict) (ids : List String) (w w₁ : W) (x : W × Outcome ⊥ Verdicts)
      → ((rs : Verdicts) (w' : W)
          → Ran h describe op w₁ rs w'
          → Ran h describe op w ((id, v) ∷ rs) w')
      → RunOver h describe op ids w₁ x
      → RunOver h describe op (id ∷ ids) w (in_front id v x)
  RunOver-front id v ids w w₁ x step (all_ran {rs} {w'} run same) =
      all_ran (step rs w' run) (ap (λ l. id ∷ l) same)
  RunOver-front id v ids w w₁ x step (panicked {rs} {w₁ = w'} rest run split there broke) =
      panicked rest (step rs w' run) (ap (λ l. id ∷ l) split) there broke

  abbrev gathered :
      OperationCallBackRes → W × Outcome ⊥ Verdicts → W × Outcome ⊥ OperationCallBackRes
  gathered res (w, ok rs) = (w, ok (extended res rs))
  gathered res (w, err e) = (w, err e)
  gathered res (w, panic) = (w, panic)

  -- What a machine adds to the results that were gathered before it.
  abbrev with_verdict : String → Verdict → OperationCallBackRes → OperationCallBackRes
  with_verdict id done res = record res { success = res.success ++ (id ∷ []) }
  with_verdict id missing res = record res { not_found = res.not_found ++ (id ∷ []) }
  with_verdict id (failed e) res = record res {
    failed = res.failed ++ (record { id = id; error = e } ∷ []);
  }

  gathered-front :
      (id : String) (v : Verdict) (res : OperationCallBackRes) (x : W × Outcome ⊥ Verdicts)
      → gathered (with_verdict id v res) x ≡ gathered res (in_front id v x)
  gathered-front id done res (w, ok rs) = simp append_assoc
  gathered-front id missing res (w, ok rs) = simp append_assoc
  gathered-front id (failed e) res (w, ok rs) = simp append_assoc
  gathered-front id v res (w, err e) = refl
  gathered-front id v res (w, panic) = refl

  -- The outcome of an operation as a text, if it is an error.
  abbrev tried : W × Outcome E (Unit {0}) → W × Outcome ⊥ (Option String)
  tried (w, ok unit) = (w, ok none)
  tried (w, err e) = (w, ok (some (describe e)))
  tried (w, panic) = (w, panic)

  attempt-tried : (r : W × Outcome E (Unit {0})) → attempt describe (λ w. r) r.0 ≡ tried r
  attempt-tried (w, ok unit) = refl
  attempt-tried (w, err e) = refl
  attempt-tried (w, panic) = refl

  operate_one-there :
      (id : String) (res : OperationCallBackRes) (w : W) (r : W × Outcome E (Unit {0}))
      → h.machine_exists w id ≡ true
      → op id w ≡ r
      → operate_one h describe op id res w
        ≡ continue (tried r) (λ error. give (with_result id error res))
  unfolding operate_one
  operate_one-there id res w r there e =
      rw (operate_one, there)
        (ap (λ o. continue o (λ error. give (with_result id error res)))
          (attempt-tried (op id w) ∙ ap tried e))

  operate_one-missing :
      (id : String) (res : OperationCallBackRes) (w : W)
      → h.machine_exists w id ≡ false
      → operate_one h describe op id res w ≡ (w, ok (with_verdict id missing res))
  unfolding operate_one
  operate_one-missing id res w gone = rw (operate_one, gone)

  operate_one-done :
      (id : String) (res : OperationCallBackRes) (w w₁ : W)
      → h.machine_exists w id ≡ true
      → op id w ≡ (w₁, ok tt)
      → operate_one h describe op id res w ≡ (w₁, ok (with_verdict id done res))
  unfolding with_result
  operate_one-done id res w w₁ there fine = operate_one-there id res w (w₁, ok tt) there fine

  operate_one-failed :
      (id : String) (res : OperationCallBackRes) (w w₁ : W) (e : E)
      → h.machine_exists w id ≡ true
      → op id w ≡ (w₁, err e)
      → operate_one h describe op id res w ≡ (w₁, ok (with_verdict id (failed (describe e)) res))
  unfolding with_result
  operate_one-failed id res w w₁ e there broke = operate_one-there id res w (w₁, err e) there broke

  operate_one-panic :
      (id : String) (res : OperationCallBackRes) (w w₁ : W)
      → h.machine_exists w id ≡ true
      → op id w ≡ (w₁, panic)
      → operate_one h describe op id res w ≡ (w₁, panic)
  operate_one-panic id res w w₁ there broke = operate_one-there id res w (w₁, panic) there broke

  abbrev RunsOver : List String → OperationCallBackRes → W → Type 0
  RunsOver ids res w =
      (x : W × Outcome ⊥ Verdicts) × RunOver h describe op ids w x
      × (operate_all h describe op ids res w ≡ gathered res x)

  -- The loop goes on after a machine.
  RunsOver-front :
      (id : String) (v : Verdict) (ids : List String) (res : OperationCallBackRes) (w w₁ : W)
      → ((rs : Verdicts) (w' : W)
          → Ran h describe op w₁ rs w'
          → Ran h describe op w ((id, v) ∷ rs) w')
      → operate_one h describe op id res w ≡ (w₁, ok (with_verdict id v res))
      → RunsOver ids (with_verdict id v res) w₁
      → RunsOver (id ∷ ids) res w
  unfolding operate_all
  RunsOver-front id v ids res w w₁ step one (x, run, rest) = (
    in_front id v x,
    RunOver-front id v ids w w₁ x step run,
    ap (λ r. continue r (operate_all h describe op ids)) one ∙ rest ∙ gathered-front id v res x,
  )

  operate_all-RunsOver :
      (ids : List String) (res : OperationCallBackRes) (w : W) → RunsOver ids res w
  unfolding operate_all
  operate_all-RunsOver [] res w = ((w, ok []), all_ran ran_none refl, simp append-nil)
  operate_all-RunsOver (id ∷ ids) res w = elim (Bool-cases (h.machine_exists w id)) [
    | inr gone ↦
        RunsOver-front id missing ids res w w (λ rs w' run. ran_missing gone run)
          (operate_one-missing id res w gone) (operate_all-RunsOver ids _ w)
    | inl there ↦ elim (Outcome-cases (op id w).1) [
      | inl broke ↦
          let w₁ = (op id w).0 in
          let whole : op id w ≡ (w₁, panic) = ap (λ o. (w₁, o)) broke in
          (
            (w₁, panic),
            panicked ids ran_none refl there whole,
            ap (λ r. continue r (operate_all h describe op ids))
                (operate_one-panic id res w w₁ there whole),
          )
      | inr (inl (e, broke)) ↦
          let w₁ = (op id w).0 in
          let whole : op id w ≡ (w₁, err e) = ap (λ o. (w₁, o)) broke in
          RunsOver-front id (failed (describe e)) ids res w w₁
            (λ rs w' run. ran_failed there whole run) (operate_one-failed id res w w₁ e there whole)
            (operate_all-RunsOver ids _ w₁)
      | inr (inr (unit, fine)) ↦
          let w₁ = (op id w).0 in
          let whole : op id w ≡ (w₁, ok tt) = ap (λ o. (w₁, o)) fine in
          RunsOver-front id done ids res w w₁ (λ rs w' run. ran_done there whole run)
            (operate_one-done id res w w₁ there whole) (operate_all-RunsOver ids _ w₁)
    ]
  ]

module _ {W D I : Type 0} (program : Program W D) (h : Hypervisor W)
    (op : String → Action W OperatorError (Unit {0})) (id : Text) (p : OperationReq) where
  call_back : OperationCallBackRes → Action (Server W D (Delivery I)) ⊥ (Unit {0})
  call_back = operation_call_back program p.callback id

  continue-gathered :
      (u : Server W D (Delivery I)) (x : W × Outcome ⊥ Verdicts)
      → (let r = gathered h program.operator_text op no_results x in
          continue (record u { vcenter = r.0 }, r.1) call_back)
        ≡ continue (record u { vcenter = x.0 }, x.1) (λ rs. call_back (results_of rs))
  continue-gathered u (w, ok rs) = refl
  continue-gathered u (w, err e) = refl
  continue-gathered u (w, panic) = refl

  -- A task for several machines carries out its operation on the machines of the request, one after the
  -- other, and then calls back with the machines that it succeeded on, those that are not there, and
  -- those that it failed on with the texts of the errors, each in the order of the request. Only if
  -- the operation panics on a machine, the task panics there, and sends nothing.
  pub operation_task-reports :
      (u : Server W D (Delivery I))
      → (x : W × Outcome ⊥ Verdicts) × RunOver h program.operator_text op p.ids u.vcenter x
        × (operation_task program h op id p u
            ≡ continue
                (record u { vcenter = x.0 }, x.1)
                (λ rs. operation_call_back program p.callback id (results_of rs)))
  unfolding operation_task call_back
  operation_task-reports u =
      let (x, run, all) =
        operate_all-RunsOver h program.operator_text op p.ids no_results u.vcenter in
      (
        x,
        run,
        ap (λ r. continue (record u { vcenter = r.0 }, r.1) call_back) all ∙ continue-gathered u x,
      )
