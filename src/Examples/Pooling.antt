-- ===== src/Examples/Pooling.antt =====
-- Runs of worker_pool.go over a cache that is a list.
use vsphere_facade.Prelude.{
  List, Option, String, [], none, ok, pos, refl, some, true, ℤ, ◌∷◌, ◌≡◌, ◌≢◌,
}
use vsphere_facade.Cache.{Text}
use vsphere_facade.Requests.{worker_type_operation}
use vsphere_facade.Pools.{Pool, RoutineCount, Shared, get_pool, pool_key}
use vsphere_facade.Pools.Callers.{
  begin, returned, Call, Pools, Reach, here, later, pick, not_found, still_not_found, make, publish,
}
use vsphere_facade.Pools.Sizes.{HasSize, returned-size}
use vsphere_facade.Pools.Race.{two_pools}
use vsphere_facade.Pools.Cleaned.{first_get, get_again, get_cleaned, get_pool-clean_all}
use vsphere_facade.Examples.Stores.{store, list_get, same_text}

abbrev count : RoutineCount
count = record { operation = pos 2; deployment = pos 3 }

abbrev no_error : ℤ → Option String
no_error size = none

-- "vc"
abbrev call : Call
call = record { vcid = 118 ∷ 99 ∷ []; worker_type = worker_type_operation }

abbrev Cached : Type 0
Cached = List (Text × Pool)

abbrev start : Pools {S = Cached} store count no_error
start = record { shared = record { cache = []; made = 0 }; pcs = λ i. begin }

abbrev pool : Pool
pool = record { address = 0; size = pos 2 }

empty : (k : Text) → list_get {V = Pool} [] k ≡ none
unfolding list_get
empty k = refl

-- One goroutine runs to the end of its call.
ended :
    (t : Pools {S = Cached} store count no_error) × Reach store count no_error (λ i. call) start t
    × (t.pcs 0 ≡ returned pool)
ended = (
  _,
  later
      (later
        (later (later here (pick 0 (not_found (empty (pool_key call.vcid call.worker_type)))))
          (pick 0 (still_not_found (empty (pool_key call.vcid call.worker_type)))))
        (pick 0 (make refl)))
      (pick 0 publish),
  refl,
)

returned-size_example : HasSize store count no_error worker_type_operation pool
returned-size_example =
    returned-size store count no_error (λ i. call) [] 0 empty ended.1 0 pool ended.2

two_pools_example :
    (t : Pools {S = Cached} store count no_error) × Reach store count no_error (λ i. call) start t
    × (p : Pool) × (q : Pool) × (t.pcs 0 ≡ returned p)
    × (t.pcs 1 ≡ returned q)
    × (p.address ≢ q.address)
    × (store.get t.shared.cache (pool_key call.vcid call.worker_type) ≡ some q)
two_pools_example =
    two_pools store count no_error call [] 0 (empty (pool_key call.vcid call.worker_type)) refl

abbrev nothing_made : Shared Cached
nothing_made = record { cache = []; made = 0 }

first_pool :
    (get_pool store count no_error call.vcid worker_type_operation nothing_made).1 ≡ ok pool
unfolding get_pool list_get same_text
first_pool = refl

get_pool-clean_all_example :
    (p : Pool) × (q : Pool) × ((first_get store count no_error true [] call.vcid
        worker_type_operation nothing_made).1
      ≡ ok p)
    × ((get_again store count no_error true [] call.vcid worker_type_operation nothing_made).1
        ≡ ok p)
    × ((get_cleaned store count no_error true [] call.vcid worker_type_operation nothing_made).1
        ≡ ok q)
    × (q.address ≢ p.address)
    × HasSize store count no_error worker_type_operation p
    × HasSize store count no_error worker_type_operation q
get_pool-clean_all_example =
    get_pool-clean_all store count no_error true [] call.vcid worker_type_operation nothing_made
      (empty (pool_key call.vcid worker_type_operation)) refl
