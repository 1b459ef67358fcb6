-- ===== src/Reconfig/Run.antt =====
-- Reconfigure and waitReconfigureTask of virtual_machine_reconfig.go.
pub mod Atomic
use vsphere_facade.Prelude.{
  List, Option, Outcome, String, bind, err, if◌then◌else◌, none, not, ok, panic, some, wrap_err,
  ◌++◌,
}
use vsphere_facade.Action.{Action, give, fail, lift, wrap, continue, ◌>>=◌, ◌>>◌}
use vsphere_facade.Hypervisor.{Hypervisor, Submission}
use vsphere_facade.Reconfig.Parameter.{DiskParameter, NicParameter, ReconfigureParameter}
use vsphere_facade.Reconfig.Device.{VirtualDisk, EthernetCard, DeviceChange, DeviceList}
use vsphere_facade.Reconfig.Error.{
  ReconfigError, machine_not_found, devices_not_found, task_failed, reconfigure_failed,
}
use vsphere_facade.Reconfig.Spec.{ConfigSpec, parse_settings}
use vsphere_facade.Reconfig.Disks.{parse_reconfigure_disk}
use vsphere_facade.Reconfig.Nics.{parse_reconfigure_nic}

module _ {W : Type 0} (h : Hypervisor W) where
  -- The specification with the changes of the devices, and what they point to.
  submission :
      ReconfigureParameter
      → Option DiskParameter × List VirtualDisk × List DeviceChange
      → Option NicParameter × List EthernetCard × List DeviceChange
      → ReconfigureParameter × Submission
  unfolding parse_settings
  submission p disk nic = (
    record p { disk = disk.0; nic = nic.0 },
    record {
      spec = record (parse_settings h.shares_level_custom h.version p) {
        device_change = disk.2 ++ nic.2;
      };
      disks = disk.1;
      cards = nic.1;
    },
  )

  -- The submission for a machine with these devices, and the parameters with the unit numbers that
  -- were written back.
  unfoldable pub prepare :
      ReconfigureParameter → DeviceList → Outcome ReconfigError (ReconfigureParameter × Submission)
  unfolding submission parse_reconfigure_disk parse_reconfigure_nic
  prepare p devices =
      bind (wrap_err reconfigure_failed (parse_reconfigure_disk h.library h.version devices p.disk))
        λ disk.
          bind
            (wrap_err reconfigure_failed
              (parse_reconfigure_nic h.library h.networks h.version devices p.nic))
            λ nic. ok (submission p disk nic)

  -- waitReconfigureTask
  unfoldable pub wait_reconfigure_task : String → Submission → Action W ReconfigError (Unit {0})
  wait_reconfigure_task id s = wrap task_failed (h.start_reconfigure id s >> h.wait id none)

  -- Reconfigure: the parameters come back with the unit numbers of the new devices.
  unfoldable pub reconfigure :
      String → ReconfigureParameter → Action W ReconfigError ReconfigureParameter
  unfolding prepare wait_reconfigure_task
  reconfigure id p w =
      if not (h.machine_exists w id) then (w, err machine_not_found) else elim (h.devices w id) [
        | none ↦ (w, err devices_not_found)
        | some devices ↦ elim (prepare p devices) [
          | panic ↦ (w, panic)
          | err e ↦ (w, err e)
          | ok (p', s) ↦
              continue (wrap reconfigure_failed (wait_reconfigure_task id s) w) (λ _. give p')
        ]
      ]
