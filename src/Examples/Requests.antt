-- ===== src/Examples/Requests.antt =====
-- Runs of the API on one machine: a request that is served, one that is lost, and what a start of the
-- program makes of them.
use vsphere_facade.Prelude.{
  String, All, [], ◌∷◌, ◌++◌, ◌≡◌, ◌↔◌, false, inl, none, ok, panic, refl, some,
}
use vsphere_facade.Utils.{nil_next}
use vsphere_facade.Cache.{Text}
use vsphere_facade.Hypervisor.{powered_off}
use vsphere_facade.Requests.{get_received_req}
use vsphere_facade.Requests.Tracking.{received}
use vsphere_facade.Callback.{CallbackData, no_data, callback}
use vsphere_facade.Callback.Delivery.{NoAddress, callback-panics}
use vsphere_facade.Startup.{callback_of, interrupt_task_callback}
use vsphere_facade.Startup.Recovery.{
  IsReachable, reports, interrupt_task_callback-clears, interrupt_task_callback-panics,
}
use vsphere_facade.Examples.Stores.{database, database_laws}
use vsphere_facade.Examples.Program.{host, asks, silent, library, json, idle, interrupted_state}

abbrev no_answer : CallbackData String
no_answer = no_data

reachable : All (IsReachable asks json library) (get_received_req database interrupted_state)
unfolding get_received_req callback_of nil_next
reachable = ((host, refl, refl), tt)

left_over : get_received_req database interrupted_state ≡ (49 ∷ [], 123 ∷ 125 ∷ []) ∷ []
unfolding get_received_req
left_over = refl

readable : callback_of json (123 ∷ 125 ∷ []) ≡ some silent
unfolding callback_of
readable = refl

interrupt_task_callback-panics_example :
    interrupt_task_callback database library none json interrupted_state
    ≡ (interrupted_state, panic)
interrupt_task_callback-panics_example =
    interrupt_task_callback-panics database library json none interrupted_state (49 ∷ [])
      (123 ∷ 125 ∷ []) [] silent left_over readable (inl refl)

callback-panics_example :
    ((callback library none asks [] no_answer none idle).1 ≡ panic) ↔ NoAddress none asks
callback-panics_example = callback-panics library none asks [] no_answer none idle

interrupt_task_callback-clears_example :
    ((interrupt_task_callback database library (some asks) json interrupted_state).1 ≡ ok tt)
    × ((interrupt_task_callback database library (some asks) json interrupted_state).0.vcenter
        ≡ powered_off)
    × ((interrupt_task_callback database library (some asks) json interrupted_state).0.sent
        ≡ [] ++ reports asks json String (get_received_req database interrupted_state))
    × ((id : Text)
        → received database
            (interrupt_task_callback database library (some asks) json interrupted_state).0
            id
          ≡ false)
interrupt_task_callback-clears_example =
    interrupt_task_callback-clears database library asks json database_laws interrupted_state
      reachable
