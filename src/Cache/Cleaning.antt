-- ===== src/Cache/Cleaning.antt =====
-- What CleanAll and Clean of vsphere/cache/vc_cache.go take away.
use mathlib.Core.List.{Memᴰ, append_assoc}
use mathlib.Core.List.Memᴰ
use vsphere_facade.Prelude.{
  Bool, Bool-cases, List, Option, Option-cases, [], ap, ap₂, arith, false, if◌then◌else◌, inl, inr,
  nat_beq, nat_beq_iff, nat_eq, none, not, refl, subst, sym, true, ◌&&◌, ◌++◌, ◌∙◌, ◌∷◌, ◌≡◌, ◌≢◌,
  ◌⊎◌,
}
use vsphere_facade.Cache.{
  Text, Store, separator, cache_key, has_prefix, has_suffix, refresh_ticker, is_cleaned,
  delete_cleaned, clean_all, clean,
}
use vsphere_facade.Cache.Reads.{cache_key-injective}

-- Two texts are the same or apart.
text-cases : (a b : Text) → (a ≡ b) ⊎ (a ≢ b)
text-cases [] [] = inl refl
text-cases [] (y ∷ b) = inr (λ e. cc)
text-cases (x ∷ a) [] = inr (λ e. cc)
text-cases (x ∷ a) (y ∷ b) = elim (Bool-cases (nat_beq x y)) [
  | inr other ↦ inr (λ e. let q : x ≡ y = cc in cc ((nat_beq_iff x y).1 q))
  | inl same ↦ elim (text-cases a b) [
    | inl e ↦ inl (ap₂ (λ z zs. z ∷ zs) ((nat_beq_iff x y).0 same) e)
    | inr ne ↦ inr (λ e. ne (let q : a ≡ b = cc in q))
  ]
]

module _ {S V : Type 0} (store : Store S V) (enable : Bool) (prefixes : List Text)
    (vcid : Text) where
  abbrev found_after : List Text → S → Text → Option V
  found_after ks s k = store.get (delete_cleaned store enable prefixes vcid ks s) k

  abbrev cleaned_key : Text → Bool
  cleaned_key k = is_cleaned store enable prefixes vcid k

  get-delete_none :
      (s : S) (k k' : Text) → store.get s k' ≡ none → store.get (store.delete s k) k' ≡ none
  get-delete_none s k k' h = elim (text-cases k k') [
    | inl same ↦ subst (λ i. store.get (store.delete s k) i ≡ none) same (store.get-delete_self s k)
    | inr ne ↦ store.get-delete_other s k k' ne ∙ h
  ]

  delete_cleaned-cons :
      (k : Text) (ks : List Text) (s : S)
      → delete_cleaned store enable prefixes vcid (k ∷ ks) s
        ≡ delete_cleaned store enable prefixes vcid ks
            (if cleaned_key k then store.delete s k else s)
  unfolding delete_cleaned
  delete_cleaned-cons k ks s = elim (Bool-cases (is_cleaned store enable prefixes vcid k)) [
    | inl listed ↦ rw listed
    | inr other ↦ rw other
  ]

  abbrev step : Text → S → S
  step k s = if cleaned_key k then store.delete s k else s

  get-step-none : (s : S) (k k' : Text) → store.get s k' ≡ none → store.get (step k s) k' ≡ none
  get-step-none s k k' h = elim (Bool-cases (cleaned_key k)) [
    | inl listed ↦ rw listed (get-delete_none s k k' h)
    | inr other ↦ rw other h
  ]

  get-step_kept :
      (s : S) (k k' : Text) → cleaned_key k' ≡ false → store.get (step k s) k' ≡ store.get s k'
  get-step_kept s k k' kept = elim (Bool-cases (cleaned_key k)) [
    | inl listed ↦
        rw listed
          (store.get-delete_other s k k' (λ e. cc (sym listed ∙ ap (λ i. cleaned_key i) e ∙ kept)))
    | inr other ↦ rw other
  ]

  get-step_self : (s : S) (k : Text) → cleaned_key k ≡ true → store.get (step k s) k ≡ none
  get-step_self s k listed = rw listed (store.get-delete_self s k)

  self_cleaned :
      (s : S) (k k' : Text) → k ≡ k' → cleaned_key k ≡ true → store.get (step k' s) k ≡ none
  self_cleaned s k k' e listed =
      subst (λ i. store.get (step i s) k ≡ none) e (get-step_self s k listed)

  found_after-none :
      (ks : List Text) (s : S) (k : Text) → store.get s k ≡ none → found_after ks s k ≡ none
  found_after-none [] s k h = unfold delete_cleaned in h
  found_after-none (k' ∷ ks) s k h =
      ap (λ s'. store.get s' k) (delete_cleaned-cons k' ks s)
      ∙ found_after-none ks (step k' s) k (get-step-none s k' k h)

  found_after-kept :
      (ks : List Text) (s : S) (k : Text)
      → cleaned_key k ≡ false
      → found_after ks s k ≡ store.get s k
  found_after-kept [] s k kept = unfold delete_cleaned in refl
  found_after-kept (k' ∷ ks) s k kept =
      ap (λ s'. store.get s' k) (delete_cleaned-cons k' ks s)
      ∙ found_after-kept ks (step k' s) k kept
      ∙ get-step_kept s k' k kept

  found_after-cleaned :
      (ks : List Text) (s : S) (k : Text)
      → Memᴰ k ks
      → cleaned_key k ≡ true
      → found_after ks s k ≡ none
  found_after-cleaned [] s k m listed = elim m [ ]
  found_after-cleaned (k' ∷ ks) s k (Memᴰ.head e) listed =
      ap (λ s'. store.get s' k) (delete_cleaned-cons k' ks s)
      ∙ found_after-none ks (step k' s) k (self_cleaned s k k' e listed)
  found_after-cleaned (k' ∷ ks) s k (Memᴰ.tail m) listed =
      ap (λ s'. store.get s' k) (delete_cleaned-cons k' ks s)
      ∙ found_after-cleaned ks (step k' s) k m listed

  clean_all-cleaned :
      (s : S) (k : Text)
      → is_cleaned store enable prefixes vcid k ≡ true
      → store.get (clean_all store enable prefixes vcid s) k ≡ none
  unfolding clean_all
  clean_all-cleaned s k listed = elim (Option-cases (store.get s k)) [
    | inl missing ↦ found_after-none (store.items s) s k missing
    | inr (v, found) ↦ found_after-cleaned (store.items s) s k (store.items_hold s k v found) listed
  ]

  clean_all-kept :
      (s : S) (k : Text)
      → is_cleaned store enable prefixes vcid k ≡ false
      → store.get (clean_all store enable prefixes vcid s) k ≡ store.get s k
  unfolding clean_all
  clean_all-kept s k kept = found_after-kept (store.items s) s k kept

  -- CleanAll takes away every key that starts with the id of the vCenter and does not end in
  -- RefreshTicker, and no other.
  pub clean_all-is_cleaned :
      (s : S) (k : Text)
      → store.get (clean_all store enable prefixes vcid s) k
        ≡ (if has_prefix k vcid && not (has_suffix k refresh_ticker) then none else store.get s k)
  unfolding is_cleaned
  clean_all-is_cleaned s k =
      elim (Bool-cases (has_prefix k vcid && not (has_suffix k refresh_ticker))) [
        | inl listed ↦ rw listed (clean_all-cleaned s k listed)
        | inr kept ↦ rw kept (clean_all-kept s k kept)
      ]

  -- The starts of texts.
  pub has_prefix-append : (a b : Text) → has_prefix (a ++ b) a ≡ true
  unfolding has_prefix
  has_prefix-append [] b = refl
  has_prefix-append (x ∷ a) b = ground (arith, nat_beq_iff x x, has_prefix-append a b)

  is_cleaned-append :
      (rest : Text)
      → has_suffix (vcid ++ rest) refresh_ticker ≡ false
      → is_cleaned store enable prefixes vcid (vcid ++ rest) ≡ true
  unfolding is_cleaned
  is_cleaned-append rest h = rw (has_prefix-append vcid rest, h)

  -- A vCenter whose id starts with that of another loses its keys with it, those of RefreshTicker
  -- apart.
  pub clean_all-longer_vcid :
      (s : S) (more t : Text)
      → has_suffix (cache_key (vcid ++ more) t) refresh_ticker ≡ false
      → store.get (clean_all store enable prefixes vcid s) (cache_key (vcid ++ more) t) ≡ none
  unfolding cache_key
  clean_all-longer_vcid s more t other =
      let key : cache_key (vcid ++ more) t ≡ vcid ++ (more ++ (separator ++ t)) =
        append_assoc vcid more (separator ++ t) in
      clean_all-cleaned s (cache_key (vcid ++ more) t) (
        subst (λ i. is_cleaned store enable prefixes vcid i ≡ true) (sym key)
          (is_cleaned-append (more ++ (separator ++ t))
            (ap (λ i. has_suffix i refresh_ticker) (sym key) ∙ other)))

  clean-none :
      (ks : List Text) (s : S) (k : Text)
      → store.get s k ≡ none
      → store.get (clean store enable prefixes vcid ks s) k ≡ none
  unfolding clean
  clean-none [] s k h = h
  clean-none (k' ∷ ks) s k h =
      clean-none ks (store.delete s (cache_key vcid k')) k
        (get-delete_none s (cache_key vcid k') k h)

  -- Clean takes away the keys that it is given, and no other of the vCenter.
  pub clean-exact :
      (ks : List Text) (s : S) (k : Text)
      → (Memᴰ k ks → store.get (clean store enable prefixes vcid ks s) (cache_key vcid k) ≡ none)
        × (¬ Memᴰ k ks
            → store.get (clean store enable prefixes vcid ks s) (cache_key vcid k)
              ≡ store.get s (cache_key vcid k))
  unfolding clean
  clean-exact [] s k = (λ m. elim m [ ], λ kept. refl)
  clean-exact (k' ∷ ks) s k =
      let s' : S = store.delete s (cache_key vcid k') in
      let gone : k ≡ k' → store.get s' (cache_key vcid k) ≡ none = λ e.
        subst (λ i. store.get s' (cache_key vcid i) ≡ none) (sym e)
          (store.get-delete_self s (cache_key vcid k')) in
      (
        λ m. elim (Memᴰ.cases_cons m) [
          | inl e ↦ clean-none ks s' (cache_key vcid k) (gone e)
          | inr m' ↦ (clean-exact ks s' k).0 m'
        ],
        λ other.
            (clean-exact ks s' k).1 (λ m. other (Memᴰ.tail m))
            ∙ store.get-delete_other s (cache_key vcid k') (cache_key vcid k)
                (λ e. other (Memᴰ.head (sym (cache_key-injective vcid k' k e)))),
      )
