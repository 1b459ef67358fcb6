-- ===== src/Cache/Reads.antt =====
-- What Get of vsphere/cache/vc_cache.go finds after Set.
use mathlib.Core.List.{append_cancel_left}
use vsphere_facade.Prelude.{
  Bool, List, Option, arith, if◌then◌else◌, none, not, some, ◌&&◌, ◌++◌, ◌≡◌, ◌≢◌,
}
use vsphere_facade.Cache.{Text, Store, separator, cache_key, is_ignored, cache_get, cache_set}

-- The keys of one vCenter are apart.
pub cache_key-injective : (vcid a b : Text) → cache_key vcid a ≡ cache_key vcid b → a ≡ b
unfolding cache_key
cache_key-injective vcid a b h =
    append_cancel_left separator a b (append_cancel_left vcid (separator ++ a) (separator ++ b) h)

-- The value that is there, or a new one.
abbrev pub first_of : {V : Type 0} → Option V → V → Option V
first_of none new = some new
first_of (some old) new = some old

module _ {S V : Type 0} (store : Store S V) (enable : Bool) (prefixes : List Text)
    (vcid : Text) where
  cache_get-set_self :
      (s : S) (k : Text) (v : V)
      → cache_get store enable prefixes vcid (cache_set store enable prefixes vcid s k v) k ≡ (
          if enable && not (is_ignored prefixes (cache_key vcid k))
          then first_of (cache_get store enable prefixes vcid s k) v
          else cache_get store enable prefixes vcid s k)
  unfolding cache_get cache_set
  cache_get-set_self s k v = ground (arith, store.get-set_self s (cache_key vcid k) v)

  cache_get-set_other :
      (s : S) (k k' : Text) (v : V)
      → k ≢ k'
      → cache_get store enable prefixes vcid (cache_set store enable prefixes vcid s k v) k'
        ≡ cache_get store enable prefixes vcid s k'
  unfolding cache_get cache_set
  cache_get-set_other s k k' v ne = ground (
    arith,
    store.get-set_other s (cache_key vcid k) (cache_key vcid k') v
        (λ e. ne (cache_key-injective vcid k k' e)),
  )

  -- After Set the key has the value that it had, or the new one if it had none, where the cache is on
  -- and the key is not ignored; else it has what it had. No other key of the vCenter changes.
  pub cache_get-cache_set :
      (s : S) (k : Text) (v : V)
      → (cache_get store enable prefixes vcid (cache_set store enable prefixes vcid s k v) k ≡ (
          if enable && not (is_ignored prefixes (cache_key vcid k))
          then first_of (cache_get store enable prefixes vcid s k) v
          else cache_get store enable prefixes vcid s k))
        × ((k' : Text)
            → k ≢ k'
            → cache_get store enable prefixes vcid (cache_set store enable prefixes vcid s k v) k'
              ≡ cache_get store enable prefixes vcid s k')
  cache_get-cache_set s k v = (cache_get-set_self s k v, λ k' ne. cache_get-set_other s k k' v ne)
