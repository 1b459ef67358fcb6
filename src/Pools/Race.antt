-- ===== src/Pools/Race.antt =====
-- What several calls of Get of worker_pool.go come to: one after the other, at once, and with the cache
-- cleaned between them.
use vsphere_facade.Prelude.{
  Option, String, arith, list_eq, nat_eq, none, ok, refl, some, ℕ, ℤ, ◌≡◌, ◌≢◌,
}
use vsphere_facade.Cache.{Store, Text}
use vsphere_facade.Requests.{WorkerType}
use vsphere_facade.Pools.{Pool, RoutineCount, Shared, get_pool, pool_key, size_of}
use vsphere_facade.Pools.Callers.{
  begin, returned, Call, not_found, still_not_found, make, publish, Pools, pick, Reach, here, later,
}

module _ {S : Type 0} (store : Store S Pool) (count : RoutineCount)
    (new_pool_error : ℤ → Option String) where
  abbrev key : Call → Text
  key c = pool_key c.vcid c.worker_type

  -- Calls that come one after the other share a pool: a second Get gives what the first one gave, and
  -- changes nothing.
  pub get_pool-again :
      (vcid : Text) (t : WorkerType) (s : Shared S) {p : Pool}
      → (get_pool store count new_pool_error vcid t s).1 ≡ ok p
      → get_pool store count new_pool_error vcid t (get_pool store count new_pool_error vcid t s).0
        ≡ ((get_pool store count new_pool_error vcid t s).0, ok p)
  unfolding get_pool
  get_pool-again vcid t s fine = ground (
    arith,
    store.get-set_self s.cache (pool_key vcid t)
        (record { address = s.made; size = size_of count t }),
  )

  abbrev start : S → ℕ → Pools store count new_pool_error
  start c n = record { shared = record { cache = c; made = n }; pcs = λ i. begin }

  -- Two goroutines that ask for one pool at once, where there is none yet, may get two pools: both are
  -- returned, and only the second stays in the cache.
  pub two_pools :
      (call : Call) (c : S) (n : ℕ)
      → store.get c (key call) ≡ none
      → new_pool_error (size_of count call.worker_type) ≡ none
      → (t : Pools store count new_pool_error) × Reach store count new_pool_error
          (λ i. call)
          (start c n)
          t
        × (p : Pool) × (q : Pool) × (t.pcs 0 ≡ returned p)
        × (t.pcs 1 ≡ returned q)
        × (p.address ≢ q.address)
        × (store.get t.shared.cache (key call) ≡ some q)
  two_pools call c n empty fine = (
    _,
    later
        (later
          (later
            (later
              (later
                (later
                  (later (later here (pick 0 (not_found empty))) (pick 0 (still_not_found empty)))
                  (pick 1 (not_found empty)))
                (pick 1 (still_not_found empty)))
              (pick 0 (make fine)))
            (pick 1 (make fine)))
          (pick 0 publish))
        (pick 1 publish),
    _,
    _,
    refl,
    refl,
    omega arith,
    store.get-set_self _ (key call) _,
  )
