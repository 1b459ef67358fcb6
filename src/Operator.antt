-- ===== src/Operator.antt =====
-- vsphere/workerpool/virtual_machine_operator.go: the operations on one machine, named by its id.
pub mod Plan
pub mod Restart
pub mod Outage
pub mod Cards
pub mod Relocation
use vsphere_facade.Prelude.{
  Bool, Option, String, false, if◌then◌else◌, int_eq, ltb_ℤ, none, not, ok, panic, pos, some,
  string_eq, true, ℤ, ◌&&◌, ◌==◌, ◌||◌,
}
use vsphere_facade.Action.{Action, give, fail, lift, catch, wrap, continue, ◌>>=◌, ◌>>◌}
use vsphere_facade.Hypervisor.{Hypervisor, Hardware, powered_on, powered_off, same_state}
use vsphere_facade.Power.{power_on, power_off, shutdown, destroy, rename}
use vsphere_facade.Reconfig.Parameter.{CpuParameter, MemoryParameter, ReconfigureParameter}
use vsphere_facade.Reconfig.Error.{ReconfigError}
use vsphere_facade.Reconfig.Run.{reconfigure}

pub data OperatorError : Type 0 where
  remote : String → OperatorError
  power_off_failed : OperatorError → OperatorError
  reconfigure_error : ReconfigError → OperatorError

module _ {W : Type 0} (h : Hypervisor W) where
  unfoldable pub operator_power_on : String → Action W OperatorError (Unit {0})
  unfolding power_on
  operator_power_on id = wrap remote (power_on h id true (pos 2))

  -- With the setting ShutdownFirst the guest is shut down, and the power is cut only if that fails.
  unfoldable pub operator_power_off : Bool → String → Action W OperatorError (Unit {0})
  unfolding power_off shutdown
  operator_power_off shutdown_first id =
      if shutdown_first
      then catch (shutdown h id true (pos 2)) (λ _. wrap remote (power_off h id true (pos 2)))
      else wrap remote (power_off h id true (pos 2))

  unfoldable pub operator_shutdown : String → Action W OperatorError (Unit {0})
  unfolding shutdown
  operator_shutdown id = wrap remote (shutdown h id true (pos 2))

  -- An error of PowerOff is dropped: PowerOn is tried in any case.
  unfoldable pub operator_restart : String → Action W OperatorError (Unit {0})
  unfolding power_on power_off shutdown
  operator_restart id =
      catch (shutdown h id true (pos 2)) (λ _. catch (power_off h id true (pos 2)) (λ _. give tt))
      >> wrap remote (power_on h id true (pos 2))

  unfoldable pub operator_destroy : String → Action W OperatorError (Unit {0})
  unfolding destroy
  operator_destroy id = wrap remote (destroy h id)

  -- Rename, where `name` is the name that the machine was read with.
  unfoldable pub operator_rename : String → String → String → Action W OperatorError (Unit {0})
  unfolding rename
  operator_rename id name new_name =
      if name == new_name then give tt else wrap remote (rename h id new_name (pos 10))

-- The parameter of the operator's Reconfigure.
pub record ReconfigureRequest : Type 0 where
  pub num_cpu : ℤ
  pub num_cores_per_socket : ℤ
  pub memory_mb : ℤ

-- What Reconfigure works out before it acts.
pub record ReconfigurePlan : Type 0 where
  pub cpu : Option CpuParameter
  pub memory : Option MemoryParameter
  pub cpu_changed : Bool
  pub memory_changed : Bool
  pub add_cpu : Bool
  pub remove_cpu : Bool
  pub add_memory : Bool
  pub remove_memory : Bool

-- `cpu_changed` is set where the cores per socket change, and only there.
unfoldable pub plan : ReconfigureRequest → Hardware → ReconfigurePlan
plan p hw =
    let asked = ltb_ℤ (pos 0) p.num_cpu || ltb_ℤ (pos 0) p.num_cores_per_socket in
    let cores_differ = not (p.num_cores_per_socket == hw.num_cores_per_socket) in
    let cpu_changed = asked && cores_differ in
    let memory_changed = ltb_ℤ (pos 0) p.memory_mb && not (p.memory_mb == hw.memory_mb) in
    record {
      cpu =
          if cpu_changed
          then some (record {
            num_cpu = if p.num_cpu == hw.num_cpu then none else some p.num_cpu;
            num_cores_per_socket = some p.num_cores_per_socket;
            cpu_hot_add_enabled = none;
            cpu_hot_remove_enabled = none;
            allocation = none;
          })
          else none;
      memory =
          if memory_changed
          then some (record {
            memory_mb = some p.memory_mb;
            memory_hot_add_enabled = none;
            allocation = none;
          })
          else none;
      cpu_changed = cpu_changed;
      memory_changed = memory_changed;
      add_cpu = asked && ltb_ℤ hw.num_cpu p.num_cpu;
      remove_cpu = asked && ltb_ℤ p.num_cpu hw.num_cpu;
      add_memory = memory_changed && ltb_ℤ hw.memory_mb p.memory_mb;
      remove_memory = memory_changed && ltb_ℤ p.memory_mb hw.memory_mb;
    }

-- `flag != nil && !*flag`
abbrev pub is_disabled : Option Bool → Bool
is_disabled none = false
is_disabled (some enabled) = not enabled

-- Whether a running machine has to be stopped before the change.
unfoldable pub stop_first : ReconfigurePlan → Hardware → Bool
stop_first c hw =
    if not (same_state hw.power_state powered_on)
    then false
    else if c.add_memory && is_disabled hw.memory_hot_add_enabled
    then true
    else if c.remove_memory
    then true
    else if c.add_cpu && is_disabled hw.cpu_hot_add_enabled
    then true
    else if c.remove_cpu && is_disabled hw.cpu_hot_remove_enabled
    then true
    else false

abbrev pub parameter_of : ReconfigurePlan → ReconfigureParameter
parameter_of c = record {
  name = none;
  create_date = none;
  annotation = none;
  cpu = c.cpu;
  memory = c.memory;
  disk = none;
  nic = none;
  flag = none;
}

module _ {W : Type 0} (h : Hypervisor W) (shutdown_first : Bool) where
  -- The steps of Reconfigure once the plan is made. The error of the last PowerOn is logged only.
  unfoldable pub carry_out : String → ReconfigurePlan → Hardware → Action W OperatorError (Unit {0})
  unfolding operator_power_off operator_power_on reconfigure stop_first
  carry_out id c hw =
      let is_on = same_state hw.power_state powered_on in
      (if stop_first c hw
        then wrap power_off_failed (operator_power_off h shutdown_first id)
        else give tt)
      >> wrap reconfigure_error (reconfigure h id (parameter_of c))
      >> (if stop_first c hw && not is_on
          then catch (operator_power_on h id) (λ _. give tt)
          else give tt)

  -- Reconfigure: the properties may be nil, and are dereferenced.
  unfoldable pub operator_reconfigure :
      String → ReconfigureRequest → Action W OperatorError (Unit {0})
  unfolding carry_out plan
  operator_reconfigure id p w = elim (h.hardware w id) [
    | none ↦ (w, panic)
    | some hw ↦
        let c = plan p hw in
        if not c.cpu_changed && not c.memory_changed then (w, ok tt) else carry_out id c hw w
  ]

  -- Descript
  unfoldable pub operator_descript : String → String → Action W OperatorError (Unit {0})
  unfolding reconfigure
  operator_descript id annotation =
      wrap reconfigure_error (
        reconfigure h id (record {
          name = none;
          create_date = none;
          annotation = some annotation;
          cpu = none;
          memory = none;
          disk = none;
          nic = none;
          flag = none;
        }))
      >> give tt
