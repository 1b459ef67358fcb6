-- ===== src/Pools.antt =====
-- vsphere/workerpool/worker_pool.go: the pools of workers, one for each vCenter and type of task, in the
-- cache that all goroutines share.
pub mod Callers
pub mod Sizes
pub mod Keys
pub mod Race
pub mod Cleaned
use vsphere_facade.Prelude.{
  Bool, Option, Outcome, String, err, none, ok, panic, some, ℕ, ℤ, ◌+◌, ◌++◌, ◌≡◌,
}
use vsphere_facade.Cache.{Store, Text, separator}
use vsphere_facade.Requests.{
  WorkerType, worker_type_operation, worker_type_deployment, worker_type_text,
}

-- A pool of panjf2000/ants; `address` tells two pools of one size apart.
pub record Pool : Type 0 where
  pub address : ℕ
  pub size : ℤ

-- RoutineCount of the configuration
pub record RoutineCount : Type 0 where
  pub operation : ℤ
  pub deployment : ℤ

-- poolKey
unfoldable pub pool_key : Text → WorkerType → Text
pool_key vcid t = vcid ++ (separator ++ worker_type_text t)

-- The size of the pools of one type, which the switch of newPool takes from the configuration.
abbrev pub size_of : RoutineCount → WorkerType → ℤ
size_of count worker_type_operation = count.operation
size_of count worker_type_deployment = count.deployment

-- The shared cache, and the number of pools that were made.
pub record Shared (S : Type 0) : Type 0 where
  pub cache : S
  pub made : ℕ

module _ {S : Type 0} (store : Store S Pool) (count : RoutineCount)
    (new_pool_error : ℤ → Option String) where
  -- newPool after its second look at the cache: the pool is made and put into the cache.
  unfoldable pub make_pool : Text → WorkerType → Shared S → Shared S × Outcome String Pool
  unfolding pool_key
  make_pool vcid t s = elim (new_pool_error (size_of count t)) [
    | some e ↦ (s, panic)
    | none ↦
        let pool : Pool = record { address = s.made; size = size_of count t } in
        (record { cache = store.set s.cache (pool_key vcid t) pool; made = s.made + 1 }, ok pool)
  ]

  -- newPool
  unfoldable pub new_pool : Text → WorkerType → Shared S → Shared S × Outcome String Pool
  unfolding make_pool
  new_pool vcid t s = elim (store.get s.cache (pool_key vcid t)) [
    | some p ↦ (s, ok p)
    | none ↦ make_pool vcid t s
  ]

  -- Get, where no other goroutine comes between
  unfoldable pub get_pool : Text → WorkerType → Shared S → Shared S × Outcome String Pool
  unfolding new_pool
  get_pool vcid t s = elim (store.get s.cache (pool_key vcid t)) [
    | some p ↦ (s, ok p)
    | none ↦ new_pool vcid t s
  ]
