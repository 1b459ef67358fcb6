-- ===== src/Pools/Cleaned.antt =====
-- CleanAll of vsphere/cache/vc_cache.go drops the pools of worker_pool.go, which share its cache.
use vsphere_facade.Prelude.{
  Bool, List, Option, Outcome, String, ap, arith, none, ok, some, refl, ℤ, ◌+◌, ◌++◌, ◌≡◌, ◌≢◌, ◌∙◌,
}
use vsphere_facade.Cache.{Store, Text, separator, clean_all}
use vsphere_facade.Cache.Cleaning.{has_prefix-append, clean_all-is_cleaned}
use vsphere_facade.Requests.{WorkerType, worker_type_text}
use vsphere_facade.Pools.Keys.{pool_key-no_ticker}
use vsphere_facade.Pools.Sizes.{HasSize, size_of-HasSize}
use vsphere_facade.Pools.{
  Pool, RoutineCount, Shared, get_pool, make_pool, new_pool, pool_key, size_of,
}

module _ {S : Type 0} (store : Store S Pool) (count : RoutineCount)
    (new_pool_error : ℤ → Option String) (enable : Bool) (prefixes : List Text) where
  -- After CleanAll no pool of the vCenter is found.
  cleaned :
      (vcid : Text) (t : WorkerType) (c : S)
      → store.get (clean_all store enable prefixes vcid c) (pool_key vcid t) ≡ none
  unfolding pool_key
  cleaned vcid t c =
      clean_all-is_cleaned store enable prefixes vcid c (pool_key vcid t)
      ∙ rw
          (
            has_prefix-append store enable prefixes vcid vcid (separator ++ worker_type_text t),
            pool_key-no_ticker vcid t,
          )
          refl

  get_pool-there :
      (vcid : Text) (t : WorkerType) (s : Shared S) (p : Pool)
      → store.get s.cache (pool_key vcid t) ≡ some p
      → get_pool store count new_pool_error vcid t s ≡ (s, ok p)
  unfolding get_pool
  get_pool-there vcid t s p there = rw (get_pool, there)

  -- The pool that is made next, and what making it leaves.
  abbrev next_pool : WorkerType → Shared S → Pool
  next_pool t s = record { address = s.made; size = size_of count t }

  abbrev with_next : Text → WorkerType → Shared S → Shared S
  with_next vcid t s = record {
    cache = store.set s.cache (pool_key vcid t) (next_pool t s);
    made = s.made + 1;
  }

  get_pool-made :
      (vcid : Text) (t : WorkerType) (s : Shared S)
      → store.get s.cache (pool_key vcid t) ≡ none
      → new_pool_error (size_of count t) ≡ none
      → get_pool store count new_pool_error vcid t s ≡ (with_next vcid t s, ok (next_pool t s))
  unfolding get_pool
  get_pool-made vcid t s empty fine = rw (get_pool, empty, new_pool, empty, make_pool, fine)

  module _ (vcid : Text) (t : WorkerType) (s : Shared S) where
    -- What a call of Get comes to, and one after the cache of the vCenter was cleaned.
    abbrev pub first_get : Shared S × Outcome String Pool
    first_get = get_pool store count new_pool_error vcid t s

    abbrev pub get_cleaned : Shared S × Outcome String Pool
    get_cleaned =
        get_pool store count new_pool_error vcid t
          (record first_get.0 { cache = clean_all store enable prefixes vcid first_get.0.cache })

    abbrev pub get_again : Shared S × Outcome String Pool
    get_again = get_pool store count new_pool_error vcid t first_get.0

    -- A pool that Get makes is given again by a second call, but not where CleanAll of its vCenter comes
    -- between: then a second pool is made beside it. Both have the full number of workers of the type.
    -- The cache has no pool before the first call, and ants makes pools of the size.
    pub get_pool-clean_all :
        store.get s.cache (pool_key vcid t) ≡ none
        → new_pool_error (size_of count t) ≡ none
        → (p : Pool) × (q : Pool) × (first_get.1 ≡ ok p)
          × (get_again.1 ≡ ok p)
          × (get_cleaned.1 ≡ ok q)
          × (q.address ≢ p.address)
          × HasSize store count new_pool_error t p
          × HasSize store count new_pool_error t q
    get_pool-clean_all empty fine =
        let made = get_pool-made vcid t s empty fine in
        let s₁ : Shared S = with_next vcid t s in
        let wiped : Shared S = record s₁ {
          cache = clean_all store enable prefixes vcid s₁.cache;
        } in
        (
          next_pool t s,
          next_pool t s₁,
          ap (λ r. r.1) made,
          rw made (
              ap (λ r. r.1)
                (get_pool-there vcid t s₁ (next_pool t s)
                  (store.get-set_self s.cache (pool_key vcid t) (next_pool t s)))),
          rw made (ap (λ r. r.1) (get_pool-made vcid t wiped (cleaned vcid t s₁.cache) fine)),
          omega arith,
          size_of-HasSize store count new_pool_error t s.made,
          size_of-HasSize store count new_pool_error t (s.made + 1),
        )
