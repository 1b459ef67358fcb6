-- ===== src/Api/Machines/Verdicts.antt =====
-- What becomes of the machines of one request, as a description of the task for several machines.
use vsphere_facade.Prelude.{List, Outcome, String, [], err, false, ok, panic, true, ◌++◌, ◌∷◌, ◌≡◌}
use vsphere_facade.Action.{Action}
use vsphere_facade.Hypervisor.{Hypervisor}
use vsphere_facade.Callback.{OperationCallBackRes, OperationFailed}

-- What becomes of one machine of a request.
pub data Verdict : Type 0 where
  done missing : Verdict
  failed : String → Verdict

abbrev pub Verdicts : Type 0
Verdicts = List (String × Verdict)

abbrev pub names : Verdicts → List String
names [] = []
names ((id, v) ∷ rs) = id ∷ names rs

abbrev pub done_ids : Verdicts → List String
done_ids [] = []
done_ids ((id, done) ∷ rs) = id ∷ done_ids rs
done_ids ((id, missing) ∷ rs) = done_ids rs
done_ids ((id, failed e) ∷ rs) = done_ids rs

abbrev pub missing_ids : Verdicts → List String
missing_ids [] = []
missing_ids ((id, done) ∷ rs) = missing_ids rs
missing_ids ((id, missing) ∷ rs) = id ∷ missing_ids rs
missing_ids ((id, failed e) ∷ rs) = missing_ids rs

abbrev pub failures : Verdicts → List OperationFailed
failures [] = []
failures ((id, done) ∷ rs) = failures rs
failures ((id, missing) ∷ rs) = failures rs
failures ((id, failed e) ∷ rs) = record { id = id; error = e } ∷ failures rs

-- The results of a task, by what became of each machine.
abbrev pub results_of : Verdicts → OperationCallBackRes
results_of rs = record { success = done_ids rs; not_found = missing_ids rs; failed = failures rs }

module _ {W E : Type 0} (h : Hypervisor W) (describe : E → String)
    (op : String → Action W E (Unit {0})) where
  -- The operation is carried out on one machine after the other, on what the one before left.
  pub data Ran : W → Verdicts → W → Type 0 where
    ran_none : {w : W} → Ran w [] w
    ran_missing :
        {w w' : W} {id : String} {rs : Verdicts}
        → h.machine_exists w id ≡ false
        → Ran w rs w'
        → Ran w ((id, missing) ∷ rs) w'
    ran_done :
        {w w₁ w' : W} {id : String} {rs : Verdicts}
        → h.machine_exists w id ≡ true
        → op id w ≡ (w₁, ok tt)
        → Ran w₁ rs w'
        → Ran w ((id, done) ∷ rs) w'
    ran_failed :
        {w w₁ w' : W} {id : String} {e : E} {rs : Verdicts}
        → h.machine_exists w id ≡ true
        → op id w ≡ (w₁, err e)
        → Ran w₁ rs w'
        → Ran w ((id, failed (describe e)) ∷ rs) w'

  -- A run over all machines, or over those before one where the operation panics.
  pub data RunOver (ids : List String) (w : W) : W × Outcome ⊥ Verdicts → Type 0 where
    all_ran : {rs : Verdicts} {w' : W} → Ran w rs w' → names rs ≡ ids → RunOver ids w (w', ok rs)
    panicked :
        {rs : Verdicts} {w₁ w₂ : W} {id : String} (rest : List String)
        → Ran w rs w₁
        → ids ≡ names rs ++ (id ∷ rest)
        → h.machine_exists w₁ id ≡ true
        → op id w₁ ≡ (w₂, panic)
        → RunOver ids w (w₂, panic)
