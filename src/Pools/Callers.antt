-- ===== src/Pools/Callers.antt =====
-- Get and newPool of worker_pool.go, run by many goroutines at once: the mutex of newPool is a variable of
-- the call, so that it holds nobody back.
use vsphere_facade.Prelude.{Option, String, none, some, ℕ, ℤ, ◌+◌, ◌≡◌, if◌then◌else◌, nat_beq}
use vsphere_facade.Cache.{Store, Text}
use vsphere_facade.Requests.{WorkerType}
use vsphere_facade.Pools.{Pool, RoutineCount, Shared, pool_key, size_of}

-- Where a goroutine stands in its call of Get, with the variables that are live there.
pub data Pc : Type 0 where
  begin : Pc  -- before the look of Get
  missed : Pc  -- before the look of newPool
  missed_again : Pc  -- before ants.NewPool
  holding : Pool → Pc  -- before cache.INST.Set
  returned : Pool → Pc
  panicked : Pc

-- What one goroutine asks for.
pub record Call : Type 0 where
  pub vcid : Text
  pub worker_type : WorkerType

module _ {S : Type 0} (store : Store S Pool) (count : RoutineCount)
    (new_pool_error : ℤ → Option String) where
  -- One step of one goroutine.
  pub data Move (c : Call) (s : Shared S) : Pc → Shared S → Pc → Type 0 where
    found :
        {p : Pool}
        → store.get s.cache (pool_key c.vcid c.worker_type) ≡ some p
        → Move c s begin s (returned p)
    not_found : store.get s.cache (pool_key c.vcid c.worker_type) ≡ none → Move c s begin s missed
    found_late :
        {p : Pool}
        → store.get s.cache (pool_key c.vcid c.worker_type) ≡ some p
        → Move c s missed s (returned p)
    still_not_found :
        store.get s.cache (pool_key c.vcid c.worker_type) ≡ none → Move c s missed s missed_again
    make :
        new_pool_error (size_of count c.worker_type) ≡ none
        → Move c s missed_again
            (record s { made = s.made + 1 })
            (holding (record { address = s.made; size = size_of count c.worker_type }))
    fail_to_make :
        {e : String}
        → new_pool_error (size_of count c.worker_type) ≡ some e
        → Move c s missed_again s panicked
    publish :
        {p : Pool}
        → Move c s
            (holding p)
            (record s { cache = store.set s.cache (pool_key c.vcid c.worker_type) p })
            (returned p)

  abbrev pub at : (ℕ → Pc) → ℕ → Pc → ℕ → Pc
  at pcs i p k = if nat_beq i k then p else pcs k

  pub record Pools : Type 0 where
    pub shared : Shared S
    pub pcs : ℕ → Pc

  -- The calls of all goroutines, each under its number.
  pub data Step (calls : ℕ → Call) (s : Pools) : Pools → Type 0 where
    pick :
        (i : ℕ) {m : Shared S} {p : Pc}
        → Move (calls i) s.shared (s.pcs i) m p
        → Step calls s (record { shared = m; pcs = at s.pcs i p })

  pub data Reach (calls : ℕ → Call) (s : Pools) : Pools → Type 0 where
    here : Reach calls s s
    later : {t u : Pools} → Reach calls s t → Step calls t u → Reach calls s u
