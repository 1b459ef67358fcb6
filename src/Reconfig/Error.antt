-- ===== src/Reconfig/Error.antt =====
-- The errors of virtual_machine_reconfig.go, one constructor for each message.
use vsphere_facade.Prelude.{String, ℤ}

pub data ReconfigError : Type 0 where
  no_controller : ReconfigError
  -- The search for unit numbers does not end: the loop of generateUnitNum runs on.
  no_unit_numbers : ReconfigError
  remove_disk_failed edit_disk_failed add_disk_failed : ReconfigError → ReconfigError
  card_not_found : ℤ → ReconfigError
  target_network_not_found : ℤ → String → ReconfigError
  network_not_found : String → ReconfigError
  backing_failed adapter_type_not_set card_not_created : ReconfigError
  remove_nic_failed edit_nic_failed add_nic_failed : ReconfigError → ReconfigError
  machine_not_found devices_not_found : ReconfigError
  task_failed : String → ReconfigError
  reconfigure_failed : ReconfigError → ReconfigError
