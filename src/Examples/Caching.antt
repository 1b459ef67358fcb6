-- ===== src/Examples/Caching.antt =====
-- Runs of vsphere/cache/vc_cache.go over a store that is a list of keys and values.
use vsphere_facade.Prelude.{List, [], if◌then◌else◌, none, not, true, ℕ, ◌&&◌, ◌∷◌, ◌≡◌, ◌≢◌}
use vsphere_facade.Examples.Stores.{store, list_get}
use vsphere_facade.Cache.{
  has_prefix, Text, cache_key, has_suffix, refresh_ticker, is_ignored, cache_get, cache_set,
  clean_all,
}
use vsphere_facade.Cache.Reads.{first_of, cache_get-cache_set}
use vsphere_facade.Cache.Cleaning.{clean_all-is_cleaned}

-- "vc" and "vc2", with one entry each under "h".
abbrev vc : Text
vc = 118 ∷ 99 ∷ []

abbrev hosts : Text
hosts = 104 ∷ []

abbrev entries : List (Text × ℕ)
entries = (118 ∷ 99 ∷ 58 ∷ 58 ∷ 104 ∷ [], 1) ∷ (118 ∷ 99 ∷ 50 ∷ 58 ∷ 58 ∷ 104 ∷ [], 2) ∷ []

cache_get-cache_set_example :
    (cache_get store true [] vc (cache_set store true [] vc entries hosts 5) hosts ≡ (
      if true && not (is_ignored [] (cache_key vc hosts))
      then first_of (cache_get store true [] vc entries hosts) 5
      else cache_get store true [] vc entries hosts))
    × ((k' : Text)
        → hosts ≢ k'
        → cache_get store true [] vc (cache_set store true [] vc entries hosts 5) k'
          ≡ cache_get store true [] vc entries k')
cache_get-cache_set_example = cache_get-cache_set store true [] vc entries hosts 5

clean_all-is_cleaned_example :
    list_get (clean_all store true [] vc entries) (118 ∷ 99 ∷ 58 ∷ 58 ∷ 104 ∷ []) ≡ (
      if has_prefix (118 ∷ 99 ∷ 58 ∷ 58 ∷ 104 ∷ []) vc
        && not (has_suffix (118 ∷ 99 ∷ 58 ∷ 58 ∷ 104 ∷ []) refresh_ticker)
      then none
      else list_get entries (118 ∷ 99 ∷ 58 ∷ 58 ∷ 104 ∷ []))
clean_all-is_cleaned_example =
    clean_all-is_cleaned store true [] vc entries (118 ∷ 99 ∷ 58 ∷ 58 ∷ 104 ∷ [])
