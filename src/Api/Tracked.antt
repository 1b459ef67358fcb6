-- ===== src/Api/Tracked.antt =====
-- How a handler of api/v1/virtual_machine_v1.go keeps the set of the requests that are under way.
pub mod Handlers
use vsphere_facade.Prelude.{
  Bool-cases, List, [], ◌∷◌, Option, Option-cases, Outcome, String, ap, arith, err, false, fun_ext,
  inl, inr, list_eq, nat_eq, none, ok, panic, refl, some, subst, sym, true, ◌==◌, ◌∙◌, ◌≡◌, ◌≢◌,
}
use vsphere_facade.Cache.{Text}
use vsphere_facade.Action.{Action, Keeps, continue, ◌>>=◌}
use vsphere_facade.Server.{Server, deferring}
use vsphere_facade.Requests.{Badger, WorkerType, cancel, done}
use vsphere_facade.Requests.Tracking.{
  BadgerLaws, Ids, with_id, without_id, received, received-done, received-cancel, received-same,
}
use vsphere_facade.Api.{
  Gateway, Handler, Job, Reply, add_task, answer, response, request_id, checked, Bound, malformed,
  bound, ReqParamError,
}

pub without-with_id :
    (id : Text) (ids : Ids) → ids id ≡ false → without_id id (with_id id ids) ≡ ids
without-with_id id ids fresh = fun_ext λ k. elim (Bool-cases (id == k)) [
  | inl same ↦
      let e : id ≡ k = (list_eq.beq_iff id k).0 same in
      rw same (sym (subst (λ x. ids x ≡ false) e fresh))
  | inr other ↦ ground arith
]

module _ {D : Type 0} (b : Badger D) where
  -- The outcome of a handler in the state `t`, where `ids` were under way before. A task that it left is
  -- answered with 202 and its id, the id is new and is now under way, and the task takes it away when it
  -- ends, however it ends. With no task, or after a panic, nothing new is under way.
  abbrev pub Tracked :
      {W S I : Type 0} → Ids → Server W D S → Outcome ⊥ (Reply I × Option (Job W D S)) → Type 0
  Tracked {W} {S} ids t (ok (reply, some job)) =
      (received b t ≡ with_id job.id ids)
      × (ids job.id ≡ false)
      × ((u : Server W D S) → received b (job.run u).0 ≡ without_id job.id (received b u))
      × (reply.status ≡ 202)
      × (reply.payload ≡ request_id job.id)
  Tracked ids t (ok (reply, none)) = (received b t ≡ ids) × (reply.status ≢ 202)
  Tracked ids t (err e) = ⊥
  Tracked ids t panic = received b t ≡ ids

  abbrev pub TrackedResult :
      {W S I : Type 0} → Ids → Server W D S × Outcome ⊥ (Reply I × Option (Job W D S)) → Type 0
  TrackedResult ids r = Tracked ids r.0 r.1

  module _ {W S I A : Type 0} where
    Tracked-continue :
        (ids : Ids) (r : Server W D S × Outcome ⊥ A) (f : A → Handler W D S I)
        → received b r.0 ≡ ids
        → ((a : A) (t : Server W D S) → received b t ≡ ids → TrackedResult ids (f a t))
        → TrackedResult ids (continue r f)
    Tracked-continue ids (t, ok a) f kept rest = rest a t kept
    Tracked-continue ids (t, err e) f kept rest = elim e [ ]
    Tracked-continue ids (t, panic) f kept rest = kept

    -- A step that leaves the task store alone, before a handler that is tracked from there.
    pub Tracked-bind :
        (ids : Ids) (m : Action (Server W D S) ⊥ A) (f : A → Handler W D S I) (s : Server W D S)
        → (m s).0.db ≡ s.db
        → received b s ≡ ids
        → ((a : A) (t : Server W D S) → received b t ≡ ids → TrackedResult ids (f a t))
        → TrackedResult ids ((m >>= f) s)
    Tracked-bind ids m f s kept now rest =
        Tracked-continue ids (m s) f (received-same b (m s).0 s kept ∙ now) rest

  module _ {W S I R : Type 0} where
    Tracked-bound :
        (ids : Ids) (code : String → String) (valid : R → List ReqParamError) (p : R)
        (handle : R → Handler W D S I) (s : Server W D S) (errors : List ReqParamError)
        → valid p ≡ errors
        → received b s ≡ ids
        → ((q : R) → TrackedResult ids (handle q s))
        → TrackedResult ids (checked code valid (bound p) handle s)
    unfolding checked
    Tracked-bound ids code valid p handle s [] found now rest = rw (found, checked) (rest p)
    Tracked-bound ids code valid p handle s (e ∷ errors) found now rest =
        rw (found, checked) (now, omega arith)

    pub Tracked-checked :
        (ids : Ids) (code : String → String) (valid : R → List ReqParamError) (body : Bound R)
        (handle : R → Handler W D S I) (s : Server W D S)
        → received b s ≡ ids
        → ((p : R) → TrackedResult ids (handle p s))
        → TrackedResult ids (checked code valid body handle s)
    unfolding checked
    Tracked-checked ids code valid (malformed e p) handle s now rest = (now, omega arith)
    Tracked-checked ids code valid (bound p) handle s now rest =
        Tracked-bound ids code valid p handle s (valid p) refl now rest

  module _ {W S : Type 0} (I : Type 0) (laws : BadgerLaws b) where
    -- A request that was received, and whose task leaves the task store alone.
    pub Tracked-add_task :
        (gateway : Gateway W) (vc_id : Text) (worker_type : WorkerType) (id : Text)
        (task : Action (Server W D S) ⊥ (Unit {0})) (ids : Ids) (t : Server W D S)
        → Keeps (λ u. u.db) task
        → ids id ≡ false
        → received b t ≡ with_id id ids
        → TrackedResult {I = I} ids (add_task gateway b vc_id worker_type id task t)
    unfolding add_task
    Tracked-add_task gateway vc_id worker_type id task ids t keeps fresh now =
        elim (Option-cases (gateway.submit_error t.vcenter)) [
          | inl taken ↦
              rw (taken, add_task)
                (
                  now,
                  fresh,
                  λ u.
                      received-done b laws id (task u).0
                      ∙ ap (without_id id) (received-same b (task u).0 u (keeps u)),
                  refl,
                  refl,
                )
          | inr (e, failed) ↦
              rw (failed, add_task)
                (
                  received-cancel b laws id t
                      ∙ ap (without_id id) now
                      ∙ without-with_id id ids fresh,
                  omega arith,
                )
        ]
