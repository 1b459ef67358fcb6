-- ===== src/Pools/Keys.antt =====
-- The keys of worker_pool.go in the shared cache.
use vsphere_facade.Prelude.{
  Bool-cases, [], ap, arith, drop, false, inl, inr, length, length-drop, nat_eq, refl, sym, take,
  take-append-drop, true, ℕ, ◌++◌, ◌-◌, ◌∙◌, ◌∷◌, ◌≡◌, ◌≤◌,
}
use vsphere_facade.Cache.{Text, separator, has_prefix, has_suffix, refresh_ticker}
use vsphere_facade.Requests.{
  WorkerType, worker_type_operation, worker_type_deployment, worker_type_text,
}
use vsphere_facade.Pools.{pool_key}

-- The last byte of a text, or the given one for the empty text.
last_byte : ℕ → Text → ℕ
last_byte n [] = n
last_byte n (x ∷ xs) = last_byte x xs

last_byte-append : (n : ℕ) (xs ys : Text) → last_byte n (xs ++ ys) ≡ last_byte (last_byte n xs) ys
unfolding last_byte
last_byte-append n [] ys = refl
last_byte-append n (x ∷ xs) ys = last_byte-append x xs ys

type_byte : WorkerType → ℕ
type_byte worker_type_operation = 110
type_byte worker_type_deployment = 116

last_byte-pool_key : (vcid : Text) (t : WorkerType) → last_byte 0 (pool_key vcid t) ≡ type_byte t
unfolding pool_key last_byte type_byte
last_byte-pool_key vcid worker_type_operation =
    last_byte-append 0 vcid (separator ++ worker_type_text worker_type_operation)
last_byte-pool_key vcid worker_type_deployment =
    last_byte-append 0 vcid (separator ++ worker_type_text worker_type_deployment)

type_byte-injective : (t u : WorkerType) → type_byte t ≡ type_byte u → t ≡ u
unfolding type_byte
type_byte-injective worker_type_operation worker_type_operation e = refl
type_byte-injective worker_type_operation worker_type_deployment e = absurd (omega arith)
type_byte-injective worker_type_deployment worker_type_operation e = absurd (omega arith)
type_byte-injective worker_type_deployment worker_type_deployment e = refl

-- Pools of different types never share a key, whatever the ids of the vCenters are.
pub pool_key-type :
    (vcid vcid' : Text) (t u : WorkerType) → pool_key vcid t ≡ pool_key vcid' u → t ≡ u
pool_key-type vcid vcid' t u e =
    type_byte-injective t u
      (sym (last_byte-pool_key vcid t) ∙ ap (last_byte 0) e ∙ last_byte-pool_key vcid' u)

has_prefix-whole : (x p : Text) → length x ≡ length p → has_prefix x p ≡ true → x ≡ p
unfolding has_prefix
has_prefix-whole [] [] e h = refl
has_prefix-whole (a ∷ x) [] e h = absurd (omega (arith, e))
has_prefix-whole [] (c ∷ p) e h = cc
has_prefix-whole (a ∷ x) (c ∷ p) e h = ground (arith, has_prefix-whole x p)

-- A text with a suffix ends with it.
has_suffix-drop :
    (s suffix : Text) → has_suffix s suffix ≡ true → drop (length s - length suffix) s ≡ suffix
unfolding has_suffix
has_suffix-drop s suffix h =
    let fits : length suffix ≤ length s = ground arith in
    let whole : length (drop (length s - length suffix) s) ≡ length suffix =
      omega (arith, length-drop (length s - length suffix) s) in
    has_prefix-whole (drop (length s - length suffix) s) suffix whole (ground arith)

no_r : (t : WorkerType) → type_byte t ≡ 114 → ⊥
unfolding type_byte
no_r worker_type_operation e = omega arith
no_r worker_type_deployment e = omega arith

-- No key of a pool is that of the ticker, which CleanAll spares.
pub pool_key-no_ticker :
    (vcid : Text) (t : WorkerType) → has_suffix (pool_key vcid t) refresh_ticker ≡ false
unfolding last_byte type_byte
pool_key-no_ticker vcid t = elim (Bool-cases (has_suffix (pool_key vcid t) refresh_ticker)) [
  | inr other ↦ other
  | inl ends ↦
      let k = pool_key vcid t in
      let n : ℕ = length k - length refresh_ticker in
      let split : k ≡ take n k ++ refresh_ticker =
        sym (take-append-drop n k)
        ∙ ap (λ x. take n k ++ x) (has_suffix-drop k refresh_ticker ends) in
      let last : type_byte t ≡ 114 =
        sym (last_byte-pool_key vcid t)
        ∙ ap (last_byte 0) split
        ∙ last_byte-append 0 (take n k) refresh_ticker in
      absurd (no_r t last)
]
