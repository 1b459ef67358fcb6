-- ===== src/Examples/Served.antt =====
-- Runs of the handlers: a request that is served, and one that is lost.
use mathlib.Core.List.Permᴰ
use vsphere_facade.Prelude.{
  ◌==◌, string_eq, List, Outcome, String, [], ◌∷◌, ◌++◌, ◌≡◌, false, ok, panic, pos, refl, some,
}
use vsphere_facade.Utils.{slice_contain}
use vsphere_facade.Cache.{Text}
use vsphere_facade.Hypervisor.{Hypervisor, PowerState, powered_off}
use vsphere_facade.Requests.{WorkerType, worker_type_operation, generate_req_id}
use vsphere_facade.Requests.Tracking.{received, no_ids, with_id}
use vsphere_facade.Callback.{Delivery}
use vsphere_facade.Operator.{ReconfigureRequest, operator_power_on}
use vsphere_facade.Api.Security.{TokenTool}
use vsphere_facade.Api.Security.Guard.{Guarded, verify_token-guards}
use vsphere_facade.Api.Machines.{
  OperationReq, virtual_machine_power_on, handle_operation, operation_call_back, operation_task,
}
use vsphere_facade.Action.{continue}
use vsphere_facade.Api.Machines.Verdicts.{RunOver, Verdicts, results_of}
use vsphere_facade.Api.Machines.Reported.{operation_task-reports}
use vsphere_facade.Api.Single.{MachineReq}
use vsphere_facade.Api.Deployment.{DeploySetting}
use vsphere_facade.Api.Tracked.{TrackedResult}
use vsphere_facade.Api.Routes.{route, power_on, reconfigure}
use vsphere_facade.Api.Routes.All.{route-Tracked}
use vsphere_facade.Api.Tracked.Handlers.{Connects, handle_operation-lost}
use vsphere_facade.Api.Lifecycle.{System, Reach, left_by, serve, here, later}
use vsphere_facade.Api.Lifecycle.Settled.{Settled, Reach-Settled, run_all, run_all-drains}
use vsphere_facade.Examples.Machine.{vcenter}
use vsphere_facade.Examples.Stores.{database, database_laws}
use vsphere_facade.Examples.Deployment.{config, defaults}
use vsphere_facade.Examples.Program.{
  silent, json, program, unconnected, idle, auth, incoming, both_machines,
}

-- Only one of the two machines of the request is there.
abbrev one_there : Hypervisor PowerState
one_there = record vcenter { machine_exists = λ w id. id == "vm-1" }

abbrev two_asked : OperationReq
two_asked = record { ids = "vm-1" ∷ "vm-2" ∷ []; callback = silent }

operation_task-reports_example :
    (x : PowerState × Outcome ⊥ Verdicts) × RunOver one_there program.operator_text
      (operator_power_on one_there)
      two_asked.ids
      powered_off
      x
    × (operation_task {I = String} program one_there
          (operator_power_on one_there)
          (49 ∷ [])
          two_asked
          idle
        ≡ continue
            (record idle { vcenter = x.0 }, x.1)
            (λ rs. operation_call_back program two_asked.callback (49 ∷ []) (results_of rs)))
operation_task-reports_example =
    operation_task-reports program one_there (operator_power_on one_there) (49 ∷ []) two_asked idle

idle_fresh : (t : WorkerType) → received database idle (generate_req_id t (49 ∷ [])) ≡ false
unfolding received slice_contain
idle_fresh t = refl

connects : Connects program.gateway
connects a w = λ h. cc

abbrev more_memory : MachineReq ReconfigureRequest
more_memory = record {
  id = "vm-1";
  parameter = record { num_cpu = pos 4; num_cores_per_socket = pos 2; memory_mb = pos 8192 };
  callback = silent;
}

handle_operation-lost_example :
    ((handle_operation {I = String} unconnected operator_power_on (incoming both_machines) idle).1
      ≡ panic)
    × (received database
          (handle_operation {I = String} unconnected operator_power_on
            (incoming both_machines)
            idle).0
        ≡ with_id (generate_req_id worker_type_operation (49 ∷ [])) (received database idle))
handle_operation-lost_example =
    handle_operation-lost unconnected database_laws operator_power_on (incoming both_machines) idle
      auth both_machines refl refl refl refl

abbrev setting : DeploySetting PowerState String
setting = record {
  timeout_config = config;
  deployment_default = defaults;
  now = 0;
  get_virtual_machine = λ c id w. (w, ok (some id));
}

abbrev Whole : Type 0
Whole = System PowerState (List (Text × Text)) (Delivery String)

abbrev at_rest : Whole
at_rest = record { server = idle; pending = [] }

at_rest-Settled : Settled database at_rest
unfolding received slice_contain
at_rest-Settled = record { matching = refl; distinct = tt; ending = tt }

nothing : received database idle ≡ no_ids
unfolding received slice_contain
nothing = refl

route-Tracked_example :
    TrackedResult database
      (received database idle)
      (route program setting (reconfigure (incoming more_memory)) idle)
route-Tracked_example =
    route-Tracked program setting database_laws (reconfigure (incoming more_memory)) idle connects
      (idle_fresh worker_type_operation)

-- One request was served, and its task has not ended.
abbrev one_served : Whole
one_served = record {
  server = (route program setting (power_on (incoming both_machines)) idle).0;
  pending = left_by (route program setting (power_on (incoming both_machines)) idle).1 ++ [];
}

served : Reach program setting json at_rest one_served
served = later here (serve (power_on (incoming both_machines)) (idle_fresh worker_type_operation))

Reach-Settled_example : Settled database one_served
Reach-Settled_example =
    Reach-Settled program setting json database_laws connects served at_rest-Settled

run_all-drains_example : received database (run_all one_served.pending one_served.server) ≡ no_ids
run_all-drains_example =
    run_all-drains program setting json database_laws connects idle nothing served
      one_served.pending (Permᴰ.refl one_served.pending)

abbrev tool : TokenTool
tool = record { generate = λ a. some (7 ∷ []); parse = λ t. ok auth }

verify_token-guards_example :
    Guarded tool
      (λ a. virtual_machine_power_on {I = String} program (incoming both_machines))
      idle
      (7 ∷ [])
verify_token-guards_example =
    verify_token-guards tool (λ a. virtual_machine_power_on program (incoming both_machines)) idle
      (7 ∷ [])
