-- ===== src/Reconfig/Spec/Allocation.antt =====
-- Where the allocations of a request end up, in the specification of virtual_machine_reconfig.go.
use vsphere_facade.Prelude.{Option, String, [], arith, if◌then◌else◌, none, pos, some, ◌≡◌}
use vsphere_facade.Version.{ApiVersion, newer}
use vsphere_facade.Reconfig.Parameter.{AllocationParameter, ReconfigureParameter}
use vsphere_facade.Reconfig.Disks.{or_keep}
use vsphere_facade.Reconfig.Spec.{ResourceAllocation, resource_allocation, parse_settings}

abbrev allocation_of_memory : ReconfigureParameter → Option AllocationParameter
allocation_of_memory p = elim p.memory [ none ↦ none | some m ↦ m.allocation ]

abbrev allocation_of_cpu : ReconfigureParameter → Option AllocationParameter
allocation_of_cpu p = elim p.cpu [ none ↦ none | some c ↦ c.allocation ]

-- The first of the two that is set, as an allocation.
abbrev pub written_allocation :
    String → Option AllocationParameter → Option AllocationParameter → Option ResourceAllocation
written_allocation custom (some m) cpu = some (resource_allocation custom m)
written_allocation custom none (some c) = some (resource_allocation custom c)
written_allocation custom none none = none

-- The allocation for the CPU is the one asked for the memory, if there is one, and else the one asked
-- for the CPU. The allocation for the memory is never set.
pub parse_settings-allocation :
    (custom : String) (api : ApiVersion) (p : ReconfigureParameter)
    → ((parse_settings custom api p).cpu_allocation
        ≡ written_allocation custom (allocation_of_memory p) (allocation_of_cpu p))
      × ((parse_settings custom api p).memory_allocation ≡ none)
unfolding parse_settings
parse_settings-allocation custom api p = ground arith

-- The creation date is set from version 6.7.0 on; every other setting of the request is copied, and
-- what the request leaves out stays at its zero value.
pub parse_settings-copies :
    (custom : String) (api : ApiVersion) (p : ReconfigureParameter)
    → let spec = parse_settings custom api p in
      (spec.create_date ≡ (if newer api (pos 6) (pos 7) (pos 0) then p.create_date else none))
      × (spec.name ≡ or_keep p.name "")
      × (spec.annotation ≡ or_keep p.annotation "")
      × (spec.num_cpus ≡ (elim p.cpu [ none ↦ pos 0 | some c ↦ or_keep c.num_cpu (pos 0) ]))
      × (spec.memory_mb ≡ (elim p.memory [ none ↦ pos 0 | some m ↦ or_keep m.memory_mb (pos 0) ]))
      × (spec.device_change ≡ [])
unfolding parse_settings
parse_settings-copies custom api p = ground arith
