-- ===== src/Pools/Sizes.antt =====
-- Every pool that a goroutine gets has the number of workers of its type, in any interleaving.
use vsphere_facade.Prelude.{
  Bool-cases, Option, String, inl, inr, list_eq, nat_beq, nat_beq_iff, nat_eq, none, refl, some,
  subst, sym, ℕ, ℤ, ◌==◌, ◌∙◌, ◌≡◌, ◌≢◌,
}
use vsphere_facade.Cache.{Store, Text}
use vsphere_facade.Requests.{WorkerType, worker_type_operation, worker_type_deployment}
use vsphere_facade.Pools.Keys.{pool_key-type}
use vsphere_facade.Pools.{Pool, RoutineCount, Shared, pool_key, size_of}
use vsphere_facade.Pools.Callers.{
  Pc, begin, holding, returned, Call, Move, found, not_found, found_late, still_not_found, make,
  fail_to_make, publish, Pools, Step, pick, Reach, here, later,
}

module _ {S : Type 0} (store : Store S Pool) (count : RoutineCount)
    (new_pool_error : ℤ → Option String) where
  -- The number of workers that RoutineCount has for the type.
  abbrev pub HasSize : WorkerType → Pool → Type 0
  HasSize worker_type_operation p = p.size ≡ count.operation
  HasSize worker_type_deployment p = p.size ≡ count.deployment

  pub size_of-HasSize :
      (t : WorkerType) (n : ℕ) → HasSize t (record { address = n; size = size_of count t })
  size_of-HasSize worker_type_operation n = refl
  size_of-HasSize worker_type_deployment n = refl

  -- The pools in the cache have the sizes of their types.
  abbrev pub CacheSized : S → Type 0
  CacheSized c =
      (vcid : Text) (t : WorkerType) (p : Pool)
      → store.get c (pool_key vcid t) ≡ some p
      → HasSize t p

  abbrev pub PcSized : WorkerType → Pc → Type 0
  PcSized t (holding p) = HasSize t p
  PcSized t (returned p) = HasSize t p
  PcSized t _ = Unit

  set-CacheSized :
      (c : S) (vcid : Text) (t : WorkerType) (p : Pool)
      → CacheSized c
      → HasSize t p
      → CacheSized (store.set c (pool_key vcid t) p)
  set-CacheSized c vcid t p sized has vcid' t' p' read =
      let k = pool_key vcid t in
      let k' = pool_key vcid' t' in
      elim (Bool-cases (k == k')) [
        | inl same ↦
            let e : k ≡ k' = (list_eq.beq_iff k k').0 same in
            let again : store.get (store.set c k p) k ≡ some p' =
              subst (λ x. store.get (store.set c k p) x ≡ some p') (sym e) read in
            let own : store.get (store.set c k p) k ≡ some p = store.get-set_self c k p in
            let it : p ≡ p' = cc (own, again) in
            subst (λ u. HasSize u p') (pool_key-type vcid vcid' t t' e) (subst (HasSize t) it has)
        | inr other ↦
            let apart : k ≢ k' = λ (e : k ≡ k'). cc ((list_eq.beq_iff k k').1 e, other) in
            sized vcid' t' p' (sym (store.get-set_other c k k' p apart) ∙ read)
      ]

  Move-Sized :
      (call : Call) (s m : Shared S) (p q : Pc)
      → Move store count new_pool_error call s p m q
      → CacheSized s.cache
      → PcSized call.worker_type p
      → CacheSized m.cache × PcSized call.worker_type q
  Move-Sized call s m p q (found {p = pool} read) sized here_ =
      (sized, sized call.vcid call.worker_type pool read)
  Move-Sized call s m p q (not_found read) sized here_ = (sized, tt)
  Move-Sized call s m p q (found_late {p = pool} read) sized here_ =
      (sized, sized call.vcid call.worker_type pool read)
  Move-Sized call s m p q (still_not_found read) sized here_ = (sized, tt)
  Move-Sized call s m p q (make made) sized here_ = (sized, size_of-HasSize call.worker_type s.made)
  Move-Sized call s m p q (fail_to_make failed) sized here_ = (sized, tt)
  Move-Sized call s m p q (publish {p = pool}) sized here_ =
      (set-CacheSized s.cache call.vcid call.worker_type pool sized here_, here_)

  pub record Sized (calls : ℕ → Call) (s : Pools store count new_pool_error) : Type 0 where
    pub cached : CacheSized s.shared.cache
    pub running : (i : ℕ) → PcSized (calls i).worker_type (s.pcs i)

  Step-Sized :
      (calls : ℕ → Call) {s t : Pools store count new_pool_error}
      → Step store count new_pool_error calls s t
      → Sized calls s
      → Sized calls t
  Step-Sized calls {s} (pick i {m} {p} move) h =
      let (cached, this) =
        Move-Sized (calls i) s.shared m (s.pcs i) p move h.cached (h.running i) in
      record {
        cached = cached;
        running = λ k. elim (Bool-cases (nat_beq i k)) [
          | inl same ↦
              rw same (subst (λ x. PcSized (calls x).worker_type p) ((nat_beq_iff i k).0 same) this)
          | inr other ↦ rw other (h.running k)
        ];
      }

  Reach-Sized :
      (calls : ℕ → Call) {s t : Pools store count new_pool_error}
      → Reach store count new_pool_error calls s t
      → Sized calls s
      → Sized calls t
  Reach-Sized calls here h = h
  Reach-Sized calls (later r st) h = Step-Sized calls st (Reach-Sized calls r h)

  -- Whatever order the goroutines run in, from an empty cache: a pool that a call of Get returns has as
  -- many workers as the configuration has for operations, if the call is for operations, and as many as
  -- it has for deployments, if it is for deployments.
  pub returned-size :
      (calls : ℕ → Call) (c : S) (n : ℕ) {t : Pools store count new_pool_error}
      → ((k : Text) → store.get c k ≡ none)
      → Reach store count new_pool_error calls
          (record { shared = record { cache = c; made = n }; pcs = λ i. begin })
          t
      → (i : ℕ) (p : Pool) → t.pcs i ≡ returned p
      → HasSize (calls i).worker_type p
  returned-size calls c n {t} empty reached i p at_end =
      let start : Sized calls
          (record { shared = record { cache = c; made = n }; pcs = λ k. begin }) =
        record {
          cached = λ vcid u q read. cc (empty (pool_key vcid u), read);
          running = λ k. tt;
        } in
      subst (PcSized (calls i).worker_type) at_end ((Reach-Sized calls reached start).running i)
