-- ===== src/Hypervisor.antt =====
-- What the program calls of a vCenter through govmomi, over an abstract state of the world: the
-- properties that it reads, and the tasks that it starts and waits for.
use vsphere_facade.Prelude.{Bool, List, Option, String, false, true, ℤ}
use vsphere_facade.Action.{Action}
use vsphere_facade.Version.{ApiVersion}
use vsphere_facade.Reconfig.Device.{VirtualDisk, EthernetCard, DeviceList, DeviceLibrary}
use vsphere_facade.Reconfig.Nics.{NetworkApi}
use vsphere_facade.Reconfig.Spec.{ConfigSpec}

-- VirtualMachinePowerState
pub data PowerState : Type 0 where
  powered_on powered_off suspended : PowerState

abbrev pub same_state : PowerState → PowerState → Bool
same_state powered_on powered_on = true
same_state powered_off powered_off = true
same_state suspended suspended = true
same_state _ _ = false

-- The properties that the operator's Reconfigure reads.
pub record Hardware : Type 0 where
  pub num_cpu : ℤ
  pub num_cores_per_socket : ℤ
  pub memory_mb : ℤ
  pub memory_hot_add_enabled : Option Bool
  pub cpu_hot_add_enabled : Option Bool
  pub cpu_hot_remove_enabled : Option Bool
  pub power_state : PowerState

-- A specification, with the disks and the cards that its changes point to.
pub record Submission : Type 0 where
  pub spec : ConfigSpec
  pub disks : List VirtualDisk
  pub cards : List EthernetCard

-- A machine is named by its id. An error is its text. `none` is a nil pointer: an object that is not
-- there, or a property that could not be read. A task is started, and then waited for.
pub record Hypervisor (W : Type 0) : Type 0 where
  pub version : ApiVersion
  pub library : DeviceLibrary
  pub networks : NetworkApi
  pub shares_level_custom : String
  pub machine_exists : W → String → Bool
  pub power_state : W → String → Option PowerState
  pub hardware : W → String → Option Hardware
  pub devices : W → String → Option DeviceList
  pub start_power_on : String → Action W String (Unit {0})
  pub start_power_off : String → Action W String (Unit {0})
  pub shutdown_guest : String → Action W String (Unit {0})
  pub start_destroy : String → Action W String (Unit {0})
  pub start_rename : String → String → Action W String (Unit {0})
  pub start_reconfigure : String → Submission → Action W String (Unit {0})
  -- task.Wait, with a limit in minutes, or none
  pub wait : String → Option ℤ → Action W String (Unit {0})
  -- task.WaitForResult: the fault of the task's info, if it has one
  pub wait_for_result : String → ℤ → Action W String (Option String)
  pub wait_for_power_state : String → PowerState → ℤ → Action W String (Unit {0})
