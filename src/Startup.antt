-- ===== src/Startup.antt =====
-- startup/startup.go: what was under way when the program was interrupted is reported and cancelled.
pub mod Recovery
use vsphere_facade.Prelude.{List, Option, String, [], none, ok, some, ◌∷◌}
use vsphere_facade.Cache.{Text}
use vsphere_facade.Action.{Action, give, ◌>>=◌, ◌>>◌}
use vsphere_facade.Server.{Server}
use vsphere_facade.Requests.{Badger, cancel, get_received_req}
use vsphere_facade.Callback.{CallbackReq, Delivery, HttpLibrary, no_data, callback_err}

-- encoding/json on interface values of a type `V`, which has a nil: Unmarshal into a map of them,
-- Marshal of one, and Unmarshal into a CallbackReq. `none` is an error; a key that the map does not
-- have gives the nil value.
pub record RequestJson (V : Type 0) : Type 0 where
  pub unmarshal_map : Text → Option (String → V)
  pub marshal : V → Option Text
  pub unmarshal_callback : Text → Option CallbackReq

-- "系统中断，任务失去控制"
abbrev pub interrupted : String
interrupted = "系统中断，任务失去控制"

-- The callback that the JSON of a request asks for, under the key "callback".
unfoldable pub callback_of : {V : Type 0} → RequestJson V → Text → Option CallbackReq
callback_of j p = elim (j.unmarshal_map p) [
  | none ↦ none
  | some fields ↦ elim (j.marshal (fields "callback")) [
    | none ↦ none
    | some b ↦ j.unmarshal_callback b
  ]
]

module _ {W D S : Type 0} (b : Badger D) where
  unfoldable pub cancel_request : Text → Action (Server W D S) ⊥ (Unit {0})
  unfolding cancel
  cancel_request id s = (cancel b id s, ok tt)

module _ {W D I V : Type 0} (b : Badger D) (http : HttpLibrary)
    (default_callback : Option CallbackReq) (j : RequestJson V) where
  -- The loop of interruptTaskCallback: a request that cannot be read ends it.
  unfoldable pub report_all : List (Text × Text) → Action (Server W D (Delivery I)) ⊥ (Unit {0})
  unfolding callback_of cancel_request
  report_all [] = give tt
  report_all ((request_id, p) ∷ req) =
      let rest = report_all req in
      elim (callback_of j p) [
        | none ↦ give tt
        | some callback_req ↦
            callback_err http default_callback callback_req request_id no_data interrupted
            >> cancel_request b request_id
            >> rest
      ]

  -- interruptTaskCallback, for an order of the map that is the order of the entries
  unfoldable pub interrupt_task_callback : Action (Server W D (Delivery I)) ⊥ (Unit {0})
  unfolding report_all get_received_req
  interrupt_task_callback s = report_all (get_received_req b s) s
