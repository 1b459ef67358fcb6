-- ===== src/Examples/Operators.antt =====
-- Runs of virtual_machine_operator.go, virtual_machine.go and Reconfigure on the machine.
use vsphere_facade.Prelude.{[], none, ok, panic, pos, refl, some, true, ℤ, ◌||◌, ◌∷◌, ◌≡◌, ◌≢◌, ◌⊎◌}
use vsphere_facade.Action.{◌>>◌}
use vsphere_facade.Examples.Machine.{
  system_disk, data_disk, laws, card, library, networks, hardware, vcenter,
}
use vsphere_facade.Hypervisor.{Submission, PowerState, powered_on, powered_off}
use vsphere_facade.Power.{power_on, power_off, shutdown, destroy, wait_for_task}
use vsphere_facade.Power.States.{IsIn, power-IsIn, destroy-stops_first}
use vsphere_facade.Reconfig.Device.{DeviceList}
use vsphere_facade.Reconfig.Parameter.{AllocationParameter, ReconfigureParameter}
use vsphere_facade.Reconfig.Spec.{parse_settings, resource_allocation}
use vsphere_facade.Reconfig.Spec.Allocation.{parse_settings-allocation}
use vsphere_facade.Reconfig.Run.{prepare, reconfigure}
use vsphere_facade.Reconfig.Run.Atomic.{Applied, reconfigure-atomic}
use vsphere_facade.Operator.{ReconfigureRequest, plan, stop_first, operator_reconfigure}
use vsphere_facade.Reconfig.Device.{EthernetCard}
use vsphere_facade.Reconfig.Nics.{Network, built_card}
use vsphere_facade.Reconfig.Parameter.{AddNicParameter, AddDiskParameter}
use vsphere_facade.Operator.Cards.{operator_nic}
use vsphere_facade.Operator.Relocation.{AddDiskRequest, moves}
use vsphere_facade.Operator.Relocation.Moves.{Placed, moves-Placed}
use vsphere_facade.Operator.Restart.{other_start, operator_reconfigure-never_starts}
use vsphere_facade.Operator.Outage.{ChangeLaws, operator_reconfigure-leaves_off}

changes : ChangeLaws vcenter "vm-1"
changes = record { start_keeps = λ s w. refl; wait_keeps = λ t w. refl }

power-IsIn_example :
    ((power_on vcenter "vm-1" true (pos 2) powered_off).1 ≡ ok tt
      → IsIn vcenter powered_on "vm-1" (power_on vcenter "vm-1" true (pos 2) powered_off).0)
    × ((power_off vcenter "vm-1" true (pos 2) powered_off).1 ≡ ok tt
        → IsIn vcenter powered_off "vm-1" (power_off vcenter "vm-1" true (pos 2) powered_off).0)
    × ((shutdown vcenter "vm-1" true (pos 2) powered_off).1 ≡ ok tt
        → IsIn vcenter powered_off "vm-1" (shutdown vcenter "vm-1" true (pos 2) powered_off).0)
power-IsIn_example = power-IsIn vcenter laws "vm-1" (pos 2) powered_off refl

destroyed : (destroy vcenter "vm-1" powered_on).1 ≡ ok tt
unfolding destroy power_off wait_for_task
destroyed = refl

destroy-stops_first_example :
    (w' : PowerState) × IsIn vcenter powered_off "vm-1" w'
    × (destroy vcenter "vm-1" powered_on
        ≡ (vcenter.start_destroy "vm-1" >> wait_for_task vcenter "vm-1" (pos 2)) w')
destroy-stops_first_example = destroy-stops_first vcenter laws "vm-1" powered_on refl destroyed

-- More memory for a machine whose memory cannot grow while it runs.
abbrev more_memory : ReconfigureRequest
more_memory = record { num_cpu = pos 4; num_cores_per_socket = pos 2; memory_mb = pos 8192 }

operator_reconfigure-never_starts_example :
    operator_reconfigure
      (other_start vcenter (λ id w. (w, panic)))
      true
      "vm-1"
      more_memory
      powered_on
    ≡ operator_reconfigure vcenter true "vm-1" more_memory powered_on
operator_reconfigure-never_starts_example =
    operator_reconfigure-never_starts vcenter (λ id w. (w, panic)) true "vm-1" more_memory
      powered_on

more_memory_planned :
    ((plan more_memory (hardware powered_on)).cpu_changed
      || (plan more_memory (hardware powered_on)).memory_changed)
    ≡ true
unfolding plan
more_memory_planned = refl

more_memory_stops : stop_first (plan more_memory (hardware powered_on)) (hardware powered_on) ≡ true
unfolding plan stop_first
more_memory_stops = refl

more_memory_done : (operator_reconfigure vcenter true "vm-1" more_memory powered_on).1 ≡ ok tt
unfolding operator_reconfigure
more_memory_done = refl

operator_reconfigure-leaves_off_example :
    IsIn vcenter powered_off "vm-1"
      (operator_reconfigure vcenter true "vm-1" more_memory powered_on).0
operator_reconfigure-leaves_off_example =
    operator_reconfigure-leaves_off vcenter "vm-1" laws changes true more_memory powered_on
      (hardware powered_on) refl more_memory_planned more_memory_stops more_memory_done

abbrev limited : ℤ → AllocationParameter
limited limit = record {
  expandable_reservation = none;
  limit = some limit;
  overhead_limit = none;
  reservation = none;
  shares = none;
  level = none;
}

-- Both allocations are asked for.
abbrev both : ReconfigureParameter
both = record {
  name = some "db-1";
  create_date = none;
  annotation = none;
  cpu = some (record {
    num_cpu = some (pos 2);
    num_cores_per_socket = none;
    cpu_hot_add_enabled = none;
    cpu_hot_remove_enabled = none;
    allocation = some (limited (pos 1000));
  });
  memory = some (record {
    memory_mb = some (pos 2048);
    memory_hot_add_enabled = none;
    allocation = some (limited (pos 512));
  });
  disk = none;
  nic = none;
  flag = none;
}

parse_settings-allocation_example :
    ((parse_settings "custom" vcenter.version both).cpu_allocation
      ≡ some (resource_allocation "custom" (limited (pos 512))))
    × ((parse_settings "custom" vcenter.version both).memory_allocation ≡ none)
parse_settings-allocation_example = parse_settings-allocation "custom" vcenter.version both

reconfigure-atomic_example :
    ((reconfigure vcenter "vm-1" both powered_on).0 ≡ powered_on)
      × ((q : ReconfigureParameter) → (reconfigure vcenter "vm-1" both powered_on).1 ≢ ok q)
    ⊎ ((devices' : DeviceList) × (q : ReconfigureParameter) × (s : Submission) × (true ≡ true)
        × (vcenter.devices powered_on "vm-1" ≡ some devices')
        × (prepare vcenter both devices' ≡ ok (q, s))
        × ((r : ReconfigureParameter)
            → (reconfigure vcenter "vm-1" both powered_on).1 ≡ ok r
            → (q ≡ r)
              × Applied vcenter "vm-1" s powered_on (reconfigure vcenter "vm-1" both powered_on).0))
reconfigure-atomic_example = reconfigure-atomic vcenter "vm-1" both powered_on

abbrev new_nic_request : AddNicParameter
new_nic_request = record {
  id = "";
  network_id = "network-1";
  adapter_type = some "vmxnet3";
  address_type = none;
  mac_address = some "00:50:56:00:00:02";
  allocation = none;
  unit_number = none;
}

abbrev network : Network
network = record { ref = "network-1"; name = "VM Network" }

abbrev addressed : EthernetCard
addressed = record card {
  device = record card.device { unit_number = some (pos 8) };
  address_type = "manual";
  mac_address = "00:50:56:00:00:02";
}

addressed_built :
    built_card library networks vcenter.version
      (operator_nic "manual" new_nic_request)
      network
      (pos 8)
    ≡ ok addressed
unfolding built_card operator_nic
addressed_built = refl

abbrev numbered_disk : AddDiskParameter
numbered_disk = record {
  size = pos 1;
  format = "thin";
  mode = none;
  storage_policy_id = none;
  sharing = none;
  unit_number = some (pos 1);
}

abbrev to_datastore_2 : AddDiskRequest
to_datastore_2 = record { datastore_id = "datastore-2"; disk = numbered_disk }

one_move :
    moves
      ((pos 0, system_disk) ∷ (pos 1, data_disk) ∷ [])
      (to_datastore_2 ∷ [])
      (numbered_disk ∷ [])
    ≡ ok (record { key = pos 2001; datastore_id = "datastore-2" } ∷ [])
unfolding moves
one_move = refl

moves-Placed_example :
    Placed
      ((pos 0, system_disk) ∷ (pos 1, data_disk) ∷ [])
      (record { key = pos 2001; datastore_id = "datastore-2" } ∷ [])
      "datastore-2"
      numbered_disk
moves-Placed_example =
    moves-Placed ((pos 0, system_disk) ∷ (pos 1, data_disk) ∷ []) (to_datastore_2 ∷ [])
      (numbered_disk ∷ []) (record { key = pos 2001; datastore_id = "datastore-2" } ∷ []) one_move 0
      to_datastore_2 numbered_disk refl refl (λ e. cc)
