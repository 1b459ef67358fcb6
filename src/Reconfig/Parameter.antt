-- ===== src/Reconfig/Parameter.antt =====
-- The parameters of virtual_machine_reconfig.go. A pointer that may be nil is an `Option`.
use vsphere_facade.Prelude.{Bool, List, Option, String, ℕ, ℤ}

pub record AllocationParameter : Type 0 where
  pub expandable_reservation : Option Bool
  pub limit : Option ℤ
  pub overhead_limit : Option ℤ
  pub reservation : Option ℤ
  pub shares : Option ℤ
  pub level : Option String

pub record CpuParameter : Type 0 where
  pub num_cpu : Option ℤ
  pub num_cores_per_socket : Option ℤ
  pub cpu_hot_add_enabled : Option Bool
  pub cpu_hot_remove_enabled : Option Bool
  pub allocation : Option AllocationParameter

pub record MemoryParameter : Type 0 where
  pub memory_mb : Option ℤ
  pub memory_hot_add_enabled : Option Bool
  pub allocation : Option AllocationParameter

pub record FlagParameter : Type 0 where
  pub enable_logging : Option Bool

pub record AddDiskParameter : Type 0 where
  pub size : ℤ
  pub format : String
  pub mode : Option String
  pub storage_policy_id : Option String
  pub sharing : Option String
  pub unit_number : Option ℤ

pub record EditDiskParameter : Type 0 where
  pub key : ℤ
  pub size : Option ℤ
  pub mode : Option String
  pub storage_policy_id : Option String
  pub sharing : Option String

pub record DiskParameter : Type 0 where
  pub add : List AddDiskParameter
  pub edit : List EditDiskParameter
  pub remove : List ℤ

pub record NetworkAllocation : Type 0 where
  pub limit : Option ℤ
  pub reservation : Option ℤ
  pub shares : Option ℤ
  pub level : Option String

pub record AddNicParameter : Type 0 where
  pub id : String
  pub network_id : String
  pub adapter_type : Option String
  pub address_type : Option String
  pub mac_address : Option String
  pub allocation : Option NetworkAllocation
  pub unit_number : Option ℤ

pub record EditNicParameter : Type 0 where
  pub key : ℤ
  pub network_id : Option String
  pub mac_address : Option String

pub record NicParameter : Type 0 where
  pub add : List AddNicParameter
  pub edit : List EditNicParameter
  pub remove : List ℤ

-- CreateDate is a time in seconds.
pub record ReconfigureParameter : Type 0 where
  pub name : Option String
  pub create_date : Option ℕ
  pub annotation : Option String
  pub cpu : Option CpuParameter
  pub memory : Option MemoryParameter
  pub disk : Option DiskParameter
  pub nic : Option NicParameter
  pub flag : Option FlagParameter
