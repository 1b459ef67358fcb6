-- ===== src/Api.antt =====
-- What the handlers of api/v1 share: the codes, texts and responses of api/e, and the tasks that they
-- leave to the worker pools.
pub mod Security
pub mod Machines
pub mod Single
pub mod Deployment
pub mod Tracked
pub mod Routes
pub mod Lifecycle
use Prim.Native.String.{◌++◌ as append_text}
use vsphere_facade.Prelude.{
  Bool, List, Option, String, [], ◌∷◌, ◌==◌, if◌then◌else◌, none, some, ok, panic, nat_eq,
  string_eq, ℕ,
}
use vsphere_facade.Codes.{bad_request, system_error, accepted, get_message}
use vsphere_facade.Cache.{Text}
use vsphere_facade.Action.{Action, give}
use vsphere_facade.Hypervisor.{Hypervisor}
use vsphere_facade.Security.Aes.{Bytes}
use vsphere_facade.Security.Tokens.{Auth}
use vsphere_facade.Server.{Server, deferring}
use vsphere_facade.Requests.{Badger, WorkerType, cancel, done}
use vsphere_facade.Callback.{CallbackReq, HttpLibrary}
use vsphere_facade.Operator.{OperatorError}
use vsphere_facade.Operator.Relocation.{RelocateApi}
use vsphere_facade.Deployer.Steps.{DeployError}
use vsphere_facade.Deployer.Machine.{DeployApi}

-- What the handlers answer with beside a code and a text.
pub data Payload (I : Type 0) : Type 0 where
  nothing empty_array : Payload I
  request_id : Text → Payload I
  verify_errors : List String → Payload I
  token : Bytes → Payload I
  instances : List I → Payload I

-- The status of HTTP and the Response
pub record Reply (I : Type 0) : Type 0 where
  pub status : ℕ
  pub code : String
  pub message : String
  pub payload : Payload I

pub record ReqParamError : Type 0 where
  pub key : String
  pub message : String

join_from : String → List ReqParamError → String
join_from err_msg [] = err_msg
join_from err_msg (e ∷ errors) = join_from (append_text err_msg (append_text ";" e.message)) errors

-- The loop of ResponseErrors
unfoldable pub joined : List ReqParamError → String
unfolding join_from
joined [] = ""
joined (e ∷ errors) = join_from e.message errors

module _ {I : Type 0} where
  -- ResponseOk and ResponseError, which do the same
  unfoldable pub response : ℕ → String → Payload I → Reply I
  unfolding get_message
  response status code payload = record {
    status = status;
    code = code;
    message = get_message code;
    payload = payload;
  }

  -- ResponseErrors
  unfoldable pub response_errors : ℕ → List ReqParamError → Payload I → Reply I
  unfolding joined
  response_errors status errors payload = record {
    status = status;
    code = bad_request;
    message = joined errors;
    payload = payload;
  }

-- What gin's ShouldBind does: it fills a request in, as far as it gets where it gives an error.
pub data Bound (R : Type 0) : Type 0 where
  malformed : String → R → Bound R
  bound : R → Bound R

-- A connection that vsphere.Get gives: the id of the vCenter, and what can be called of it.
pub record Connection (W : Type 0) : Type 0 where
  pub id : Text
  pub hypervisor : Hypervisor W
  pub machine_name : W → String → String
  pub deploy_api : DeployApi W
  pub relocate_api : RelocateApi W

-- vsphere.Get, which panics where it gets no connection; and the error of Submit of panjf2000/ants at
-- the pool that receives the tasks.
pub record Gateway (W : Type 0) : Type 0 where
  pub connect : Auth → Action W ⊥ (Connection W)
  pub submit_error : W → Option String

-- What the program is set up with: `shutdown_first` and `default_callback` are of the configuration.
pub record Program (W D : Type 0) : Type 0 where
  pub gateway : Gateway W
  pub badger : Badger D
  pub http : HttpLibrary
  pub default_callback : Option CallbackReq
  pub shutdown_first : Bool
  -- Error() of the errors
  pub operator_text : OperatorError → String
  pub deploy_text : DeployError → String

-- What reaches a handler: the value that Verify set, the body, the text that NewString of google/uuid
-- gives, the checks of beego/validation, and the JSON of the request.
pub record Incoming (R : Type 0) : Type 0 where
  pub auth : Option Auth
  pub body : Bound R
  pub uuid : Text
  pub valid : R → List ReqParamError
  pub to_json : R → Text

-- A task that waits for a worker.
pub record Job (W D S : Type 0) : Type 0 where
  pub vc_id : Text
  pub worker_type : WorkerType
  pub id : Text
  pub run : Action (Server W D S) ⊥ (Unit {0})

-- The answer of a handler, with the task that it leaves.
abbrev pub Handler : (W D S I : Type 0) → Type 0
Handler W D S I = Action (Server W D S) ⊥ (Reply I × Option (Job W D S))

-- GetCurrentAuth: the value that Verify set is asserted to be there.
unfoldable pub get_current_auth : {W D S : Type 0} → Option Auth → Action (Server W D S) ⊥ Auth
get_current_auth none s = (s, panic)
get_current_auth (some auth) s = (s, ok auth)

module _ {W D S I : Type 0} where
  abbrev pub answer : Reply I → Handler W D S I
  answer r = give (r, none)

  -- ShouldBind and ValidReqParam, as far as the handlers agree: `code` makes a code of the error.
  unfoldable pub checked :
      {R : Type 0}
      → (code : String → String) (valid : R → List ReqParamError) → Bound R
      → (R → Handler W D S I)
      → Handler W D S I
  unfolding response response_errors
  checked code valid (malformed e p) handle = answer (response 400 (code e) nothing)
  checked code valid (bound p) handle = elim (valid p) [
    | [] ↦ handle p
    | e ∷ errors ↦ answer (response_errors 400 (e ∷ errors) nothing)
  ]

  -- AddTask, with what the handlers do after it; the task has `defer taskreceiver.Done(…)`.
  unfoldable pub add_task :
      Gateway W
      → Badger D
      → Text
      → WorkerType
      → Text
      → Action (Server W D S) ⊥ (Unit {0})
      → Handler W D S I
  unfolding response cancel done
  add_task gateway b vc_id worker_type id task s = elim (gateway.submit_error s.vcenter) [
    | some e ↦ (cancel b id s, ok (response 500 system_error nothing, none))
    | none ↦ (
      s,
      ok (
        response 202 accepted (request_id id),
        some (record {
          vc_id = vc_id;
          worker_type = worker_type;
          id = id;
          run = deferring (done b id) task;
        }),
      ),
    )
  ]
