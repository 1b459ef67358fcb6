-- ===== src/Callback.antt =====
-- vsphere/callback/callback.go, and the types of vsphere/protocol/callback.go and api/e that it uses.
pub mod Delivery
use vsphere_facade.Prelude.{Bool, List, Option, String, [], err, none, ok, panic, some, ◌++◌, ◌∷◌}
use vsphere_facade.Utils.{nil_next}
use vsphere_facade.Codes.{success, failed}
use vsphere_facade.Cache.{Text}
use vsphere_facade.Action.{Action, give, catch}
use vsphere_facade.Server.{Server}

-- protocol.Http
pub record Http : Type 0 where
  pub url : String
  pub headers : List (String × String)

-- protocol.CallbackReq; `none` is a nil pointer
pub record CallbackReq : Type 0 where
  pub http_post : Option Http
  pub request_id : Text

-- OperationFailed of api/v1/virtual_machine_v1.go
pub record OperationFailed : Type 0 where
  pub id : String
  pub error : String

-- OperationCallBackRes
pub record OperationCallBackRes : Type 0 where
  pub success : List String
  pub not_found : List String
  pub failed : List OperationFailed

-- DeploymentCallBackRes, where `I` is the type of an instance
pub record DeploymentCallBackRes (I : Type 0) : Type 0 where
  pub is_success : Bool
  pub message : Option String
  pub instance_info : Option I

-- What the program passes as the interface value `data`.
pub data CallbackData (I : Type 0) : Type 0 where
  no_data empty_object empty_array : CallbackData I
  operation_res : OperationCallBackRes → CallbackData I
  deployment_res : DeploymentCallBackRes I → CallbackData I

-- protocol.CallbackRes
pub record CallbackRes (I : Type 0) : Type 0 where
  pub request_id : Text
  pub code : String
  pub message : String
  pub payload : CallbackData I

-- A request that was made of another host, and the value that its body is the JSON of.
abbrev pub Delivery : Type 0 → Type 0
Delivery I = Http × CallbackRes I

-- net/http: the error of NewRequest for an address, and the error of Do.
pub record HttpLibrary : Type 0 where
  pub new_request_error : String → Option String
  pub do_error : Http → Option String

-- `default_callback` is Default.Callback of the configuration, a pointer that may be nil.
module _ {W D I : Type 0} (http : HttpLibrary) (default_callback : Option CallbackReq) where
  -- sendByHttp from the assertion on: client.Do is reached where the request can be made.
  unfoldable pub post : Http → CallbackRes I → Action (Server W D (Delivery I)) String (Unit {0})
  post cb res s = elim (http.new_request_error cb.url) [
    | some e ↦ (s, err e)
    | none ↦ (
      record s { sent = s.sent ++ ((cb, res) ∷ []) },
      elim (http.do_error cb) [ some e ↦ err e | none ↦ ok tt ],
    )
  ]

  -- sendByHttp: Default.Callback is dereferenced in any case, and NilNext gives a nil interface where
  -- neither address is there, which the assertion on its type does not allow.
  unfoldable pub send_by_http :
      CallbackReq → CallbackRes I → Action (Server W D (Delivery I)) String (Unit {0})
  unfolding post
  send_by_http req res s = elim default_callback [
    | none ↦ (s, panic)
    | some default ↦ elim (nil_next req.http_post (default.http_post ∷ [])) [
      | none ↦ (s, panic)
      | some cb ↦ post cb res s
    ]
  ]

  -- callback, whose error of the sending is dropped
  unfoldable pub callback :
      CallbackReq
      → Text
      → CallbackData I
      → Option String
      → Action (Server W D (Delivery I)) ⊥ (Unit {0})
  unfolding send_by_http
  callback req request_id payload error =
      let res : CallbackRes I = record {
        request_id = request_id;
        code = elim error [ none ↦ success | some e ↦ failed ];
        message = elim error [ none ↦ "" | some e ↦ e ];
        payload = payload;
      } in
      catch (send_by_http req res) (λ _. give tt)

  -- CallbackObj
  unfoldable pub callback_obj :
      CallbackReq → Text → CallbackData I → Action (Server W D (Delivery I)) ⊥ (Unit {0})
  unfolding callback
  callback_obj req request_id payload =
      callback req request_id (elim payload [ no_data ↦ empty_object | other ↦ other ]) none

  -- CallbackArr
  unfoldable pub callback_arr :
      CallbackReq → Text → CallbackData I → Action (Server W D (Delivery I)) ⊥ (Unit {0})
  unfolding callback
  callback_arr req request_id payload =
      callback req request_id (elim payload [ no_data ↦ empty_array | other ↦ other ]) none

  -- CallbackErr
  unfoldable pub callback_err :
      CallbackReq → Text → CallbackData I → String → Action (Server W D (Delivery I)) ⊥ (Unit {0})
  unfolding callback
  callback_err req request_id payload e = callback req request_id payload (some e)
