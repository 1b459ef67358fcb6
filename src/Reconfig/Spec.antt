-- ===== src/Reconfig/Spec.antt =====
-- The specification that Reconfigure of virtual_machine_reconfig.go fills in: parseReconfigureInfo,
-- parseReconfigureCpu, parseReconfigureMemory and parseFlag.
pub mod Allocation
use vsphere_facade.Prelude.{
  Bool, List, Option, String, [], if◌then◌else◌, none, pos, some, string_eq, ℕ, ℤ, ◌==◌,
}
use vsphere_facade.Version.{ApiVersion, newer}
use vsphere_facade.Reconfig.Parameter.{
  AllocationParameter, CpuParameter, MemoryParameter, FlagParameter, ReconfigureParameter,
}
use vsphere_facade.Reconfig.Device.{SharesInfo, DeviceChange}
use vsphere_facade.Reconfig.Disks.{or_keep}

-- ResourceAllocationInfo
pub record ResourceAllocation : Type 0 where
  pub expandable_reservation : Option Bool
  pub limit : Option ℤ
  pub overhead_limit : Option ℤ
  pub reservation : Option ℤ
  pub shares : Option SharesInfo

-- VirtualMachineConfigSpec, by the fields that the package writes and `memory_allocation`; `flags` is
-- VirtualMachineFlagInfo by its field EnableLogging.
pub record ConfigSpec : Type 0 where
  pub create_date : Option ℕ
  pub name : String
  pub annotation : String
  pub num_cpus : ℤ
  pub num_cores_per_socket : ℤ
  pub cpu_hot_add_enabled : Option Bool
  pub cpu_hot_remove_enabled : Option Bool
  pub memory_mb : ℤ
  pub memory_hot_add_enabled : Option Bool
  pub cpu_allocation : Option ResourceAllocation
  pub memory_allocation : Option ResourceAllocation
  pub flags : Option (Option Bool)
  pub device_change : List DeviceChange

-- The zero value
abbrev pub empty_spec : ConfigSpec
empty_spec = record {
  create_date = none;
  name = "";
  annotation = "";
  num_cpus = pos 0;
  num_cores_per_socket = pos 0;
  cpu_hot_add_enabled = none;
  cpu_hot_remove_enabled = none;
  memory_mb = pos 0;
  memory_hot_add_enabled = none;
  cpu_allocation = none;
  memory_allocation = none;
  flags = none;
  device_change = [];
}

-- A pointer that is copied where it is not nil.
abbrev pub or_else {ℓ} : {A : Type ℓ} → Option A → Option A → Option A
or_else none old = old
or_else (some a) old = some a

unfoldable pub parse_reconfigure_info : ApiVersion → ReconfigureParameter → ConfigSpec → ConfigSpec
unfolding newer
parse_reconfigure_info api p spec = record spec {
  create_date =
      if newer api (pos 6) (pos 7) (pos 0)
      then or_else p.create_date spec.create_date
      else spec.create_date;
  name = or_keep p.name spec.name;
  annotation = or_keep p.annotation spec.annotation;
}

-- The shares count only at the level `custom`, the text of govmomi's SharesLevelCustom.
unfoldable pub shares_info : String → Option String → Option ℤ → Option SharesInfo
shares_info custom none shares = none
shares_info custom (some level) shares =
    some
      (record { shares = if level == custom then or_keep shares (pos 0) else pos 0; level = level })

-- The block that the CPU and the memory share.
unfoldable pub resource_allocation : String → AllocationParameter → ResourceAllocation
unfolding shares_info
resource_allocation custom a = record {
  expandable_reservation = a.expandable_reservation;
  limit = a.limit;
  overhead_limit = a.overhead_limit;
  reservation = a.reservation;
  shares = shares_info custom a.level a.shares;
}

parse_cpu_fields : String → CpuParameter → ConfigSpec → ConfigSpec
unfolding resource_allocation
parse_cpu_fields custom cpu spec = record spec {
  num_cpus = or_keep cpu.num_cpu spec.num_cpus;
  num_cores_per_socket = or_keep cpu.num_cores_per_socket spec.num_cores_per_socket;
  cpu_hot_add_enabled = or_else cpu.cpu_hot_add_enabled spec.cpu_hot_add_enabled;
  cpu_hot_remove_enabled = or_else cpu.cpu_hot_remove_enabled spec.cpu_hot_remove_enabled;
  cpu_allocation = elim cpu.allocation [
    | none ↦ spec.cpu_allocation
    | some a ↦ some (resource_allocation custom a)
  ];
}

unfoldable pub parse_reconfigure_cpu : String → ReconfigureParameter → ConfigSpec → ConfigSpec
unfolding parse_cpu_fields
parse_reconfigure_cpu custom p spec = elim p.cpu [
  | none ↦ spec
  | some cpu ↦ parse_cpu_fields custom cpu spec
]

-- The memory's allocation goes to the field CpuAllocation, as in the source.
parse_memory_fields : String → MemoryParameter → ConfigSpec → ConfigSpec
unfolding resource_allocation
parse_memory_fields custom mem spec = record spec {
  memory_mb = or_keep mem.memory_mb spec.memory_mb;
  memory_hot_add_enabled = or_else mem.memory_hot_add_enabled spec.memory_hot_add_enabled;
  cpu_allocation = elim mem.allocation [
    | none ↦ spec.cpu_allocation
    | some a ↦ some (resource_allocation custom a)
  ];
}

unfoldable pub parse_reconfigure_memory : String → ReconfigureParameter → ConfigSpec → ConfigSpec
unfolding parse_memory_fields
parse_reconfigure_memory custom p spec = elim p.memory [
  | none ↦ spec
  | some mem ↦ parse_memory_fields custom mem spec
]

unfoldable pub parse_flag : ReconfigureParameter → ConfigSpec → ConfigSpec
parse_flag p spec = elim p.flag [
  | none ↦ spec
  | some flag ↦ elim flag.enable_logging [
    | none ↦ spec
    | some b ↦ record spec { flags = some (some b) }
  ]
]

-- The four stages in the order of Reconfigure; none of them fails.
unfoldable pub parse_settings : String → ApiVersion → ReconfigureParameter → ConfigSpec
unfolding parse_reconfigure_info parse_reconfigure_cpu parse_reconfigure_memory parse_flag
parse_settings custom api p =
    let info = parse_reconfigure_info api p empty_spec in
    let cpu = parse_reconfigure_cpu custom p info in
    let memory = parse_reconfigure_memory custom p cpu in parse_flag p memory
