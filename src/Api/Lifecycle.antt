-- ===== src/Api/Lifecycle.antt =====
-- The requests over the life of the program: handlers, tasks that end in any order, and restarts, as
-- steps on the server and the tasks that wait or run.
pub mod Pending
pub mod Settled
use vsphere_facade.Prelude.{
  All, Bool, List, Option, Outcome, [], err, false, none, ok, panic, some, ◌++◌, ◌∷◌, ◌≡◌,
}
use vsphere_facade.Cache.{Text}
use vsphere_facade.Server.{Server}
use vsphere_facade.Requests.{Badger, get_received_req}
use vsphere_facade.Requests.Tracking.{Ids, received}
use vsphere_facade.Callback.{CallbackReq, Delivery, HttpLibrary}
use vsphere_facade.Startup.{RequestJson, interrupt_task_callback}
use vsphere_facade.Startup.Recovery.{IsReachable}
use vsphere_facade.Api.{Handler, Job, Program, Reply}
use vsphere_facade.Api.Deployment.{DeploySetting}
use vsphere_facade.Api.Routes.{IsNew, Request, route}

-- The tasks that were accepted and have not ended, the latest first.
pub record System (W D S : Type 0) : Type 0 where
  pub server : Server W D S
  pub pending : List (Job W D S)

-- The task that a handler left.
abbrev pub left_by :
    {W D S I : Type 0} → Outcome ⊥ (Reply I × Option (Job W D S)) → List (Job W D S)
left_by (ok (reply, some job)) = job ∷ []
left_by _ = []

module _ {W D I V : Type 0} (program : Program W D) (setting : DeploySetting W I)
    (j : RequestJson V) where
  pub data Step (s : System W D (Delivery I)) : System W D (Delivery I) → Type 0 where
    -- A request comes in.
    serve :
        (r : Request)
        → IsNew (received program.badger s.server) r
        → Step s (record {
          server = (route program setting r s.server).0;
          pending = left_by (route program setting r s.server).1 ++ s.pending;
        })
    -- A task runs to its end.
    finish :
        (before after : List (Job W D (Delivery I))) (job : Job W D (Delivery I))
        → s.pending ≡ before ++ (job ∷ after)
        → Step s (record { server = (job.run s.server).0; pending = before ++ after })
    -- The vCenter changes by itself.
    drift : (w : W) → Step s (record s { server = record s.server { vcenter = w } })
    -- The program stops, its tasks are gone, and it starts again.
    restart :
        (d : CallbackReq)
        → program.default_callback ≡ some d
        → All (IsReachable d j program.http) (get_received_req program.badger s.server)
        → Step s (record {
          server =
              (interrupt_task_callback program.badger program.http program.default_callback j
                s.server).0;
          pending = [];
        })

  pub data Reach (s : System W D (Delivery I)) : System W D (Delivery I) → Type 0 where
    here : Reach s s
    later : {t u : System W D (Delivery I)} → Reach s t → Step t u → Reach s u
