-- ===== src/Cache.antt =====
-- vsphere/cache/vc_cache.go: the part of the shared cache that belongs to one vCenter. A text is the
-- list of its bytes.
pub mod Reads
pub mod Cleaning
use mathlib.Core.List.{Memᴰ}
use vsphere_facade.Prelude.{
  Bool, List, Option, [], drop, false, if◌then◌else◌, leb, length, nat_beq, nat_eq, none, not, some,
  true, ℕ, ◌&&◌, ◌++◌, ◌-◌, ◌==◌, ◌∷◌, ◌≡◌, ◌≢◌,
}

abbrev pub Text : Type 0
Text = List ℕ

-- The store behind app/cache, a cache of patrickmn/go-cache whose entries do not expire: what is set
-- is found until it is set again or deleted, and the items hold every key that is found.
pub record Store (S V : Type 0) : Type 0 where
  pub get : S → Text → Option V
  pub set : S → Text → V → S
  pub delete : S → Text → S
  pub items : S → List Text
  pub get-set_self : (s : S) (k : Text) (v : V) → get (set s k v) k ≡ some v
  pub get-set_other : (s : S) (k k' : Text) (v : V) → k ≢ k' → get (set s k v) k' ≡ get s k'
  pub get-delete_self : (s : S) (k : Text) → get (delete s k) k ≡ none
  pub get-delete_other : (s : S) (k k' : Text) → k ≢ k' → get (delete s k) k' ≡ get s k'
  pub items_hold : (s : S) (k : Text) (v : V) → get s k ≡ some v → Memᴰ k (items s)

-- An entry of Ignore in the configuration: a vCenter and the items that are not cached; none means all.
pub record IgnoreSetting : Type 0 where
  pub vcid : Text
  pub ignored_items : List Text

-- "::"
abbrev pub separator : Text
separator = 58 ∷ 58 ∷ []

-- "RefreshTicker"
abbrev pub refresh_ticker : Text
refresh_ticker = 82 ∷ 101 ∷ 102 ∷ 114 ∷ 101 ∷ 115 ∷ 104 ∷ 84 ∷ 105 ∷ 99 ∷ 107 ∷ 101 ∷ 114 ∷ []

unfoldable pub cache_key : Text → Text → Text
cache_key vcid t = vcid ++ (separator ++ t)

-- strings.HasPrefix
unfoldable pub has_prefix : Text → Text → Bool
has_prefix s [] = true
has_prefix [] (b ∷ prefix) = false
has_prefix (a ∷ s) (b ∷ prefix) = a == b && has_prefix s prefix

-- strings.HasSuffix
unfoldable pub has_suffix : Text → Text → Bool
unfolding has_prefix
has_suffix s suffix =
    leb (length suffix) (length s) && has_prefix (drop (length s - length suffix) s) suffix

item_prefixes : Text → List Text → List Text
unfolding cache_key
item_prefixes vcid [] = []
item_prefixes vcid (item ∷ rest) = cache_key vcid item ∷ item_prefixes vcid rest

-- Setup: ignorePrefixes
unfoldable pub ignore_prefixes : List IgnoreSetting → List Text
unfolding item_prefixes
ignore_prefixes [] = []
ignore_prefixes (i ∷ settings) =
    if nat_beq (length i.ignored_items) 0
    then i.vcid ∷ ignore_prefixes settings
    else item_prefixes i.vcid i.ignored_items ++ ignore_prefixes settings

unfoldable pub is_ignored : List Text → Text → Bool
unfolding has_prefix
is_ignored [] k = false
is_ignored (prefix ∷ prefixes) k = if has_prefix k prefix then true else is_ignored prefixes k

module _ {S V : Type 0} (store : Store S V) (enable : Bool) (prefixes : List Text)
    (vcid : Text) where
  -- Get
  unfoldable pub cache_get : S → Text → Option V
  unfolding cache_key
  cache_get s k = if enable then store.get s (cache_key vcid k) else none

  -- Set: what is there is kept.
  unfoldable pub cache_set : S → Text → V → S
  unfolding cache_key is_ignored
  cache_set s k v =
      if enable
      then (if not (is_ignored prefixes (cache_key vcid k))
          then elim (store.get s (cache_key vcid k)) [
            | some old ↦ s
            | none ↦ store.set s (cache_key vcid k) v
          ]
          else s)
      else s

  -- The keys that CleanAll deletes.
  unfoldable pub is_cleaned : Text → Bool
  unfolding has_prefix has_suffix
  is_cleaned k = has_prefix k vcid && not (has_suffix k refresh_ticker)

  unfoldable pub delete_cleaned : List Text → S → S
  delete_cleaned [] s = s
  delete_cleaned (k ∷ ks) s =
      let deleted = delete_cleaned ks (store.delete s k) in
      let kept = delete_cleaned ks s in if is_cleaned k then deleted else kept

  -- CleanAll goes through the items that are there when it begins.
  unfoldable pub clean_all : S → S
  unfolding delete_cleaned
  clean_all s = delete_cleaned (store.items s) s

  -- Clean
  unfoldable pub clean : List Text → S → S
  unfolding cache_key
  clean [] s = s
  clean (k ∷ ks) s = clean ks (store.delete s (cache_key vcid k))
