-- ===== src/Operator/Plan.antt =====
-- What Reconfigure of virtual_machine_operator.go decides before it acts.
use vsphere_facade.Prelude.{
  Bool, String, arith, false, int_beq_iff, int_eq, ltb_ℤ, ok, pos, some, true, ◌||◌, ◌≡◌, ◌⊎◌,
}
use vsphere_facade.Hypervisor.{Hypervisor, Hardware}
use vsphere_facade.Operator.{ReconfigureRequest, ReconfigurePlan, plan, operator_reconfigure}

-- Some number of CPUs or of cores is given.
abbrev pub AsksCpu : ReconfigureRequest → Type 0
AsksCpu p = (ltb_ℤ (pos 0) p.num_cpu ≡ true) ⊎ (ltb_ℤ (pos 0) p.num_cores_per_socket ≡ true)

-- Why a running machine is stopped: what is asked for, what the machine has, and the setting that
-- forbids the change while it runs.
pub data NeedsStop (p : ReconfigureRequest) (hw : Hardware) : Type 0 where
  more_memory :
      ltb_ℤ (pos 0) p.memory_mb ≡ true
      → ltb_ℤ hw.memory_mb p.memory_mb ≡ true
      → hw.memory_hot_add_enabled ≡ some false
      → NeedsStop p hw
  less_memory :
      ltb_ℤ (pos 0) p.memory_mb ≡ true → ltb_ℤ p.memory_mb hw.memory_mb ≡ true → NeedsStop p hw
  more_cpu :
      AsksCpu p
      → ltb_ℤ hw.num_cpu p.num_cpu ≡ true
      → hw.cpu_hot_add_enabled ≡ some false
      → NeedsStop p hw
  less_cpu :
      AsksCpu p
      → ltb_ℤ p.num_cpu hw.num_cpu ≡ true
      → hw.cpu_hot_remove_enabled ≡ some false
      → NeedsStop p hw

-- The reasons as the code has them, of what `plan` worked out.
PlanNeedsStop : ReconfigurePlan → Hardware → Type 0
PlanNeedsStop c hw =
    ((c.add_memory ≡ true) × (hw.memory_hot_add_enabled ≡ some false))
    ⊎ (c.remove_memory ≡ true)
    ⊎ ((c.add_cpu ≡ true) × (hw.cpu_hot_add_enabled ≡ some false))
    ⊎ ((c.remove_cpu ≡ true) × (hw.cpu_hot_remove_enabled ≡ some false))

module _ (p : ReconfigureRequest) (hw : Hardware) where
  abbrev asks_cpu : Bool
  asks_cpu = ltb_ℤ (pos 0) p.num_cpu || ltb_ℤ (pos 0) p.num_cores_per_socket

module _ {W : Type 0} (h : Hypervisor W) (shutdown_first : Bool) where
  -- A request for a machine whose hardware is known, that names the cores per socket that it has,
  -- and no other memory, changes nothing and reports success, whatever number of CPUs it asks for.
  pub operator_reconfigure-ignores_num_cpu :
      (id : String) (p : ReconfigureRequest) (hw : Hardware) (w : W)
      → h.hardware w id ≡ some hw
      → p.num_cores_per_socket ≡ hw.num_cores_per_socket
      → p.memory_mb ≡ hw.memory_mb
      → operator_reconfigure h shutdown_first id p w ≡ (w, ok tt)
  unfolding operator_reconfigure plan
  operator_reconfigure-ignores_num_cpu id p hw w known cores memory = ground (
    arith,
    int_beq_iff p.num_cores_per_socket hw.num_cores_per_socket,
    int_beq_iff p.memory_mb hw.memory_mb,
  )
