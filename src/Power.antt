-- ===== src/Power.antt =====
-- The power and life of a machine: GetPowerState, PowerOn, PowerOff, Shutdown, Destroy and Rename of
-- helper/virtualmachine/virtual_machine.go, and WaitForTask of helper/vsphere/vsphere.go.
pub mod States
use vsphere_facade.Prelude.{
  Bool, Option, String, deref, if◌then◌else◌, ltb_ℤ, none, not, ok, pos, some, true, ℤ,
}
use vsphere_facade.Action.{Action, give, fail, continue, lift, ◌>>=◌, ◌>>◌}
use vsphere_facade.Hypervisor.{Hypervisor, PowerState, powered_on, powered_off, same_state}

module _ {W : Type 0} (h : Hypervisor W) where
  -- The property may be nil, and is dereferenced.
  unfoldable pub get_power_state : String → Action W String PowerState
  get_power_state id w = (w, deref (h.power_state w id))

  -- With `ignore_failed_state`, nothing is done to a machine that is in the state already.
  unless_in_state :
      Bool → PowerState → String → Action W String (Unit {0}) → Action W String (Unit {0})
  unfolding get_power_state
  unless_in_state ignore_failed_state target id act =
      if ignore_failed_state
      then (do state ← get_power_state id; if same_state state target then give tt else act)
      else act

  -- A fault in the task's info is an error.
  fault_as_error : Option String → Action W String (Unit {0})
  fault_as_error none = give tt
  fault_as_error (some message) = fail message

  -- The wait of PowerOn and PowerOff, for a positive timeout in minutes.
  wait_for_task_info : String → ℤ → Action W String (Unit {0})
  unfolding fault_as_error
  wait_for_task_info id timeout =
      if ltb_ℤ (pos 0) timeout
      then (do fault ← h.wait_for_result id timeout; fault_as_error fault)
      else give tt

  unfoldable pub power_on : String → Bool → ℤ → Action W String (Unit {0})
  unfolding unless_in_state wait_for_task_info
  power_on id ignore_failed_state timeout =
      unless_in_state ignore_failed_state powered_on id
        (h.start_power_on id >> wait_for_task_info id timeout)

  unfoldable pub power_off : String → Bool → ℤ → Action W String (Unit {0})
  unfolding unless_in_state wait_for_task_info
  power_off id ignore_failed_state timeout =
      unless_in_state ignore_failed_state powered_off id
        (h.start_power_off id >> wait_for_task_info id timeout)

  unfoldable pub shutdown : String → Bool → ℤ → Action W String (Unit {0})
  unfolding unless_in_state
  shutdown id ignore_failed_state timeout = unless_in_state ignore_failed_state powered_off id (
      h.shutdown_guest id
      >> (if ltb_ℤ (pos 0) timeout then h.wait_for_power_state id powered_off timeout else give tt))

  -- WaitForTask
  unfoldable pub wait_for_task : String → ℤ → Action W String (Unit {0})
  wait_for_task id timeout = if ltb_ℤ (pos 0) timeout then h.wait id (some timeout) else give tt

  -- The machine that is not off is powered off.
  stop_running : String → PowerState → Action W String (Unit {0})
  unfolding power_off
  stop_running id state =
      if not (same_state state powered_off) then power_off id true (pos 10) else give tt

  destroy_existing : String → Action W String (Unit {0})
  unfolding get_power_state stop_running wait_for_task
  destroy_existing id = do
    state ← get_power_state id
    stop_running id state
    h.start_destroy id
    wait_for_task id (pos 2)

  -- Destroy: a machine that is not there counts as destroyed.
  unfoldable pub destroy : String → Action W String (Unit {0})
  unfolding destroy_existing
  destroy id w = if not (h.machine_exists w id) then (w, ok tt) else destroy_existing id w

  unfoldable pub rename : String → String → ℤ → Action W String (Unit {0})
  unfolding wait_for_task
  rename id new_name timeout =
      h.start_rename id new_name
      >> (if ltb_ℤ (pos 0) timeout then wait_for_task id timeout else give tt)
