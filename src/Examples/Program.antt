-- ===== src/Examples/Program.antt =====
-- A program that serves one machine, and what comes in.
use vsphere_facade.Prelude.{List, String, [], ◌∷◌, none, ok, panic, some, true}
use vsphere_facade.Cache.{Text}
use vsphere_facade.Hypervisor.{PowerState, powered_off}
use vsphere_facade.Server.{Server}
use vsphere_facade.Security.Tokens.{Auth}
use vsphere_facade.Callback.{CallbackReq, Delivery, Http, HttpLibrary}
use vsphere_facade.Startup.{RequestJson}
use vsphere_facade.Operator.Relocation.{RelocateApi}
use vsphere_facade.Api.{bound, Connection, Incoming, Program}
use vsphere_facade.Api.Machines.{OperationReq}
use vsphere_facade.Examples.Machine.{vcenter}
use vsphere_facade.Examples.Stores.{database}
use vsphere_facade.Examples.Deployment.{api}

-- The host that is called back.
abbrev pub host : Http
host = record { url = "http://localhost:8829/api/v1/test_call_back"; headers = [] }

abbrev pub asks : CallbackReq
asks = record { http_post = some host; request_id = [] }

abbrev pub silent : CallbackReq
silent = record { http_post = none; request_id = [] }

abbrev pub library : HttpLibrary
library = record { new_request_error = λ url. none; do_error = λ cb. none }

-- The JSON of a request is of no matter here: it can be read, and asks for no callback.
abbrev pub json : RequestJson (Unit {0})
json = record {
  unmarshal_map = λ p. some (λ field. tt);
  marshal = λ v. some [];
  unmarshal_callback = λ p. some silent;
}

abbrev pub relocates : RelocateApi PowerState
relocates = record { relocate = λ id moves t w. (w, ok tt) }

abbrev pub connection : Connection PowerState
connection = record {
  id = 118 ∷ 99 ∷ [];
  hypervisor = vcenter;
  machine_name = λ w id. "db-1";
  deploy_api = api;
  relocate_api = relocates;
}

-- A program whose vCenter is there, and one whose vCenter is not.
abbrev pub program : Program PowerState (List (Text × Text))
program = record {
  gateway = record { connect = λ auth w. (w, ok connection); submit_error = λ w. none };
  badger = database;
  http = library;
  default_callback = some asks;
  shutdown_first = true;
  operator_text = λ e. "operation failed";
  deploy_text = λ e. "deployment failed";
}

abbrev pub unconnected : Program PowerState (List (Text × Text))
unconnected = record program {
  gateway = record { connect = λ auth w. (w, panic); submit_error = λ w. none };
}

abbrev pub State : Type 0
State = Server PowerState (List (Text × Text)) (Delivery String)

abbrev pub idle : State
idle = record { vcenter = powered_off; db = []; sent = [] }

-- One request was under way when the program stopped.
abbrev pub interrupted_state : State
interrupted_state = record idle { db = (49 ∷ [], 123 ∷ 125 ∷ []) ∷ [] }

abbrev pub auth : Auth
auth = record { address = 1 ∷ []; username = 2 ∷ []; password = 3 ∷ [] }

abbrev pub incoming : {R : Type 0} → R → Incoming R
incoming p = record {
  auth = some auth;
  body = bound p;
  uuid = 49 ∷ [];
  valid = λ q. [];
  to_json = λ q. 123 ∷ 125 ∷ [];
}

abbrev pub both_machines : OperationReq
both_machines = record { ids = "vm-1" ∷ "vm-1" ∷ []; callback = silent }
