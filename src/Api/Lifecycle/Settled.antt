-- ===== src/Api/Lifecycle/Settled.antt =====
-- In every state that the program comes to, the task store holds exactly the tasks that have not ended.
use mathlib.Core.List.{Permᴰ}
use vsphere_facade.Prelude.{
  All, List, Option, Outcome, [], ap, err, fun_ext, none, ok, panic, some, sym, refl, subst, ◌++◌,
  ◌∙◌, ◌∷◌, ◌≡◌, list_eq, nat_eq,
}
use vsphere_facade.Server.{Server}
use vsphere_facade.Requests.{Badger}
use vsphere_facade.Requests.Tracking.{
  BadgerLaws, Ids, no_ids, with_id, without_id, received, received-same,
}
use vsphere_facade.Callback.{Delivery}
use vsphere_facade.Startup.{RequestJson}
use vsphere_facade.Startup.Recovery.{interrupt_task_callback-clears}
use vsphere_facade.Api.{Job, Program, Reply}
use vsphere_facade.Api.Deployment.{DeploySetting}
use vsphere_facade.Api.Routes.{route}
use vsphere_facade.Api.Routes.All.{route-Tracked}
use vsphere_facade.Api.Tracked.Handlers.{Connects}
use vsphere_facade.Api.Tracked.{Tracked, without-with_id}
use vsphere_facade.Api.Lifecycle.{
  System, Step, Reach, left_by, serve, finish, drift, restart, here, later,
}
use vsphere_facade.Api.Lifecycle.Pending.{
  ids_of, Distinct, Distinct-middle, ids_of-perm, Distinct-perm, All-perm,
}

module _ {W D I : Type 0} where
  -- Tasks that run to their ends, one after the other.
  abbrev pub run_all :
      List (Job W D (Delivery I)) → Server W D (Delivery I) → Server W D (Delivery I)
  run_all [] s = s
  run_all (job ∷ jobs) s = run_all jobs (job.run s).0

module _ {W D I : Type 0} (b : Badger D) where
  -- The task takes its request away when it ends.
  abbrev pub Ends : Job W D (Delivery I) → Type 0
  Ends job =
      (u : Server W D (Delivery I)) → received b (job.run u).0 ≡ without_id job.id (received b u)

  pub record Settled (s : System W D (Delivery I)) : Type 0 where
    pub matching : received b s.server ≡ ids_of s.pending
    pub distinct : Distinct s.pending
    pub ending : All Ends s.pending

  All-middle :
      (before after : List (Job W D (Delivery I))) (job : Job W D (Delivery I))
      → All Ends (before ++ (job ∷ after))
      → Ends job × All Ends (before ++ after)
  All-middle [] after job h = (h.0, h.1)
  All-middle (x ∷ before) after job h =
      let (this, others) = All-middle before after job h.1 in (this, (h.0, others))

  serve-Settled :
      (r : Outcome ⊥ (Reply I × Option (Job W D (Delivery I)))) (t : Server W D (Delivery I))
      (s : System W D (Delivery I))
      → Tracked b (received b s.server) t r
      → Settled s
      → Settled (record { server = t; pending = left_by r ++ s.pending })
  serve-Settled (ok (reply, some job)) t s tracked h = record {
    matching = tracked.0 ∙ ap (with_id job.id) h.matching;
    distinct = (sym (ap (λ (ids : Ids). ids job.id) h.matching) ∙ tracked.1, h.distinct);
    ending = (tracked.2, h.ending);
  }
  serve-Settled (ok (reply, none)) t s tracked h = record {
    matching = tracked.0 ∙ h.matching;
    distinct = h.distinct;
    ending = h.ending;
  }
  serve-Settled (err e) t s tracked h = elim e [ ]
  serve-Settled panic t s tracked h = record {
    matching = tracked ∙ h.matching;
    distinct = h.distinct;
    ending = h.ending;
  }

  finish-Settled :
      (before after : List (Job W D (Delivery I))) (job : Job W D (Delivery I))
      (s : System W D (Delivery I))
      → s.pending ≡ before ++ (job ∷ after)
      → Settled s
      → Settled (record { server = (job.run s.server).0; pending = before ++ after })
  finish-Settled before after job s split h =
      let (fresh, taken, apart) =
        Distinct-middle before after job (subst Distinct split h.distinct) in
      let (ends, others) = All-middle before after job (subst (All Ends) split h.ending) in
      record {
        matching =
            ends s.server
            ∙ ap (without_id job.id) (h.matching ∙ ap ids_of split ∙ taken)
            ∙ without-with_id job.id (ids_of (before ++ after)) fresh;
        distinct = apart;
        ending = others;
      }

  run_all-empty :
      (jobs : List (Job W D (Delivery I))) (s : Server W D (Delivery I))
      → received b s ≡ ids_of jobs
      → Distinct jobs
      → All Ends jobs
      → received b (run_all jobs s) ≡ no_ids
  run_all-empty [] s matching distinct ends = matching
  run_all-empty (job ∷ jobs) s matching distinct ends =
      run_all-empty jobs (job.run s).0
        (ends.0 s
          ∙ ap (without_id job.id) matching
          ∙ without-with_id job.id (ids_of jobs) distinct.0)
        distinct.1 ends.1

module _ {W D I V : Type 0} (program : Program W D) (setting : DeploySetting W I)
    (j : RequestJson V) (laws : BadgerLaws program.badger)
    (connects : Connects program.gateway) where
  Step-Settled :
      {s t : System W D (Delivery I)}
      → Step program setting j s t
      → Settled program.badger s
      → Settled program.badger t
  Step-Settled {s} (serve r fresh) h =
      serve-Settled program.badger (route program setting r s.server).1
        (route program setting r s.server).0 s
        (route-Tracked program setting laws r s.server connects fresh) h
  Step-Settled {s} (finish before after job split) h =
      finish-Settled program.badger before after job s split h
  Step-Settled {s} (drift w) h = record {
    matching =
        received-same program.badger (record s.server { vcenter = w }) s.server refl ∙ h.matching;
    distinct = h.distinct;
    ending = h.ending;
  }
  Step-Settled {s} (restart d configured reachable) h =
      let (fine, kept, told, cleared) =
        interrupt_task_callback-clears program.badger program.http d j laws s.server reachable in
      record { matching = rw configured (fun_ext cleared); distinct = tt; ending = tt }

  -- In every state that the program comes to from one that is settled, the task store holds the ids of
  -- exactly the tasks that were accepted and have not ended, no two of which have one id: whatever
  -- requests come in, in whatever order the tasks end, and after restarts whose reports have addresses.
  -- It is so if vsphere.Get gives connections and the database works.
  pub Reach-Settled :
      {s t : System W D (Delivery I)}
      → Reach program setting j s t
      → Settled program.badger s
      → Settled program.badger t
  Reach-Settled here h = h
  Reach-Settled (later r st) h = Step-Settled st (Reach-Settled r h)

  -- From a start with nothing under way, whatever requests came in, in whatever order tasks ended, and
  -- after restarts whose reports have addresses: once the tasks that have not ended are run to their
  -- ends, in any order, no request is under way. It is so if vsphere.Get gives connections and the
  -- database works.
  pub run_all-drains :
      (u : Server W D (Delivery I)) {s : System W D (Delivery I)}
      → received program.badger u ≡ no_ids
      → Reach program setting j (record { server = u; pending = [] }) s
      → (order : List (Job W D (Delivery I))) → Permᴰ s.pending order
      → received program.badger (run_all order s.server) ≡ no_ids
  run_all-drains u {s} nothing reached order perm =
      let h : Settled program.badger s =
        Reach-Settled reached (record { matching = nothing; distinct = tt; ending = tt }) in
      run_all-empty program.badger order s.server (h.matching ∙ ids_of-perm perm)
        (Distinct-perm perm h.distinct) (All-perm (Ends program.badger) perm h.ending)
