-- ===== src/Api/Machines.antt =====
-- The handlers of api/v1/virtual_machine_v1.go for the operations on machines that exist.
pub mod Verdicts
pub mod Reported
use vsphere_facade.Prelude.{
  Bool, List, Option, String, [], ◌∷◌, ◌++◌, if◌then◌else◌, not, none, some, ok, err, panic, ℕ,
  nat_eq,
}
use vsphere_facade.Cache.{Text}
use vsphere_facade.Action.{Action, give, ◌>>=◌, ◌>>◌}
use vsphere_facade.Hypervisor.{Hypervisor}
use vsphere_facade.Security.Tokens.{Auth}
use vsphere_facade.Server.{Server, change, on_vcenter}
use vsphere_facade.Requests.{Badger, WorkerType, worker_type_operation, generate_req_id, receive}
use vsphere_facade.Callback.{
  CallbackReq, Delivery, HttpLibrary, OperationFailed, OperationCallBackRes, operation_res,
  callback_arr,
}
use vsphere_facade.Operator.{
  OperatorError, ReconfigureRequest, operator_power_on, operator_power_off, operator_shutdown,
  operator_destroy, operator_rename, operator_reconfigure, operator_descript,
}
use vsphere_facade.Operator.Cards.{NicRequest, operator_reconfigure_nic}
use vsphere_facade.Operator.Relocation.{DiskRequest, operator_reconfigure_disk}
use vsphere_facade.Codes.{bad_request, success, vm_not_found}
use vsphere_facade.Api.{
  Handler, Incoming, Program, add_task, answer, checked, get_current_auth, nothing, response,
}

-- OperationReq
pub record OperationReq : Type 0 where
  pub ids : List String
  pub callback : CallbackReq

abbrev pub no_results : OperationCallBackRes
no_results = record { success = []; not_found = []; failed = [] }

-- The result of one machine, where `error` is the text of the error, if there is one.
unfoldable pub with_result : String → Option String → OperationCallBackRes → OperationCallBackRes
with_result id none res = record res { success = res.success ++ (id ∷ []) }
with_result id (some e) res = record res {
  failed = res.failed ++ (record { id = id; error = e } ∷ []);
}

-- An operation, whose error is kept as a text. What was done before it stays done.
abbrev pub attempt :
    {W E : Type 0} → (E → String) → Action W E (Unit {0}) → Action W ⊥ (Option String)
attempt describe m w =
    let (w', r) = m w in
    (w', elim r [ ok done ↦ ok none | err e ↦ ok (some (describe e)) | panic ↦ panic ])

module _ {W E : Type 0} (h : Hypervisor W) (describe : E → String)
    (op : String → Action W E (Unit {0})) where
  -- One round of the loop over the machines; GetVirtualMachineOperator gives nil for one that is not there.
  unfoldable pub operate_one : String → OperationCallBackRes → Action W ⊥ OperationCallBackRes
  unfolding with_result
  operate_one id res w =
      if h.machine_exists w id
      then (attempt describe (op id) >>= λ error. give (with_result id error res)) w
      else (w, ok (record res { not_found = res.not_found ++ (id ∷ []) }))

  unfoldable pub operate_all : List String → OperationCallBackRes → Action W ⊥ OperationCallBackRes
  unfolding operate_one
  operate_all [] res = give res
  operate_all (id ∷ ids) res = operate_one id res >>= operate_all ids

module _ {W D I : Type 0} (program : Program W D) where
  -- operationCallBack
  unfoldable pub operation_call_back :
      CallbackReq → Text → OperationCallBackRes → Action (Server W D (Delivery I)) ⊥ (Unit {0})
  unfolding callback_arr
  operation_call_back c id res =
      callback_arr program.http program.default_callback c id (operation_res res)

  -- The task of a handler for several machines.
  unfoldable pub operation_task :
      Hypervisor W
      → (String → Action W OperatorError (Unit {0}))
      → Text
      → OperationReq
      → Action (Server W D (Delivery I)) ⊥ (Unit {0})
  unfolding operate_all operation_call_back
  operation_task h op id p =
      on_vcenter (operate_all h program.operator_text op p.ids no_results)
      >>= operation_call_back p.callback id

  -- A handler for several machines: the request is received before there is a connection.
  unfoldable pub handle_operation :
      (Hypervisor W → String → Action W OperatorError (Unit {0}))
      → Incoming OperationReq
      → Handler W D (Delivery I) I
  unfolding operation_task get_current_auth checked receive add_task
  handle_operation op inc = do
    auth ← get_current_auth inc.auth
    checked (λ _. bad_request) inc.valid inc.body
        λ p.
          let id = generate_req_id worker_type_operation inc.uuid in
          do
            change (receive program.badger id (inc.to_json p))
            c ← on_vcenter (program.gateway.connect auth)
            add_task program.gateway program.badger c.id worker_type_operation id
                (operation_task c.hypervisor (op c.hypervisor) id p)

  -- DeleteVirtualMachine
  unfoldable pub delete_virtual_machine : Incoming OperationReq → Handler W D (Delivery I) I
  unfolding handle_operation operator_destroy
  delete_virtual_machine = handle_operation operator_destroy

  -- VirtualMachinePowerOn
  unfoldable pub virtual_machine_power_on : Incoming OperationReq → Handler W D (Delivery I) I
  unfolding handle_operation operator_power_on
  virtual_machine_power_on = handle_operation operator_power_on

  -- VirtualMachinePowerOff
  unfoldable pub virtual_machine_power_off : Incoming OperationReq → Handler W D (Delivery I) I
  unfolding handle_operation operator_power_off
  virtual_machine_power_off = handle_operation (λ h. operator_power_off h program.shutdown_first)

  -- VirtualMachineShutdown
  unfoldable pub virtual_machine_shutdown : Incoming OperationReq → Handler W D (Delivery I) I
  unfolding handle_operation operator_shutdown
  virtual_machine_shutdown = handle_operation operator_shutdown
