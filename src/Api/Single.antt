-- ===== src/Api/Single.antt =====
-- The handlers of api/v1/virtual_machine_v1.go for one machine.
use vsphere_facade.Prelude.{List, String, [], ◌∷◌, if◌then◌else◌, not, none, some}
use vsphere_facade.Cache.{Text}
use vsphere_facade.Action.{Action, ◌>>=◌, ◌>>◌}
use vsphere_facade.Security.Tokens.{Auth}
use vsphere_facade.Server.{Server, change, on_vcenter}
use vsphere_facade.Requests.{worker_type_operation, generate_req_id, receive}
use vsphere_facade.Callback.{CallbackReq, Delivery}
use vsphere_facade.Operator.{
  OperatorError, ReconfigureRequest, operator_rename, operator_reconfigure, operator_descript,
}
use vsphere_facade.Operator.Cards.{NicRequest, operator_reconfigure_nic}
use vsphere_facade.Operator.Relocation.{DiskRequest, operator_reconfigure_disk}
use vsphere_facade.Codes.{bad_request, success, vm_not_found}
use vsphere_facade.Api.{
  Bound, ReqParamError, Connection, Handler, Incoming, Program, add_task, answer, checked,
  get_current_auth, nothing, response, response_errors, malformed, bound,
}
use vsphere_facade.Api.Machines.{attempt, no_results, with_result, operation_call_back}

-- A request about one machine: ReconfigureReq, DiskReconfigureReq and NicReconfigureReq.
pub record MachineReq (P : Type 0) : Type 0 where
  pub id : String
  pub parameter : P
  pub callback : CallbackReq

-- RenameReq
pub record RenameReq : Type 0 where
  pub id : String
  pub new_name : String

-- DescriptionReq
pub record DescriptionReq : Type 0 where
  pub id : String
  pub description : String

-- The request as far as the binding filled it in.
abbrev pub filled : {R : Type 0} → Bound R → R
filled (malformed e p) = p
filled (bound p) = p

module _ {W D I : Type 0} (program : Program W D) where
  -- The task of a handler for one machine.
  unfoldable pub machine_task :
      Action W OperatorError (Unit {0})
      → Text
      → String
      → CallbackReq
      → Action (Server W D (Delivery I)) ⊥ (Unit {0})
  unfolding with_result operation_call_back
  machine_task m request_id id callback = on_vcenter (attempt program.operator_text m) >>= λ error.
      operation_call_back program callback request_id (with_result id error no_results)

  module _ {P : Type 0} (op : Connection W → String → P → Action W OperatorError (Unit {0}))
      (inc : Incoming (MachineReq P)) where
    -- What a handler for one machine does once there is a connection: the request is received where
    -- the machine is there.
    unfoldable pub handle_connected : MachineReq P → Connection W → Handler W D (Delivery I) I
    unfolding machine_task receive add_task response
    handle_connected p c s =
        if not (c.hypervisor.machine_exists s.vcenter p.id)
        then answer (response 400 vm_not_found nothing) s
        else (let id = generate_req_id worker_type_operation inc.uuid in
            (change (receive program.badger id (inc.to_json p))
                >> add_task program.gateway program.badger c.id worker_type_operation id
                    (machine_task (op c p.id p.parameter) id p.id p.callback))
              s)

    unfoldable pub handle_machine : Handler W D (Delivery I) I
    unfolding handle_connected get_current_auth checked
    handle_machine = do
      auth ← get_current_auth inc.auth
      checked (λ _. bad_request) inc.valid inc.body
          λ p. do c ← on_vcenter (program.gateway.connect auth); handle_connected p c

  -- ModifyVirtualMachineConfigure. The closure shares the variable `err` with the handler; here the
  -- handler reads it before the task runs.
  unfoldable pub modify_virtual_machine_configure :
      Incoming (MachineReq ReconfigureRequest) → Handler W D (Delivery I) I
  unfolding handle_machine operator_reconfigure
  modify_virtual_machine_configure =
      handle_machine λ c id p. operator_reconfigure c.hypervisor program.shutdown_first id p

  -- ReconfigureVirtualMachineNic
  unfoldable pub reconfigure_virtual_machine_nic :
      Incoming (MachineReq NicRequest) → Handler W D (Delivery I) I
  unfolding handle_machine operator_reconfigure_nic
  reconfigure_virtual_machine_nic =
      handle_machine λ c id p. operator_reconfigure_nic c.hypervisor id p

  -- ReconfigureVirtualMachineDisk
  unfoldable pub reconfigure_virtual_machine_disk :
      Incoming (MachineReq DiskRequest) → Handler W D (Delivery I) I
  unfolding handle_machine operator_reconfigure_disk
  reconfigure_virtual_machine_disk =
      handle_machine λ c id p. operator_reconfigure_disk c.hypervisor c.relocate_api id p

  -- The end of the handlers that change a machine before they answer: `m` is the change.
  unfoldable pub change_machine :
      Connection W → String → Action W OperatorError (Unit {0}) → Handler W D (Delivery I) I
  unfolding response
  change_machine c id m s =
      if not (c.hypervisor.machine_exists s.vcenter id)
      then answer (response 400 vm_not_found nothing) s
      else (on_vcenter (attempt program.operator_text m) >>= λ error.
            answer (elim error [
              | some e ↦ response 400 e nothing
              | none ↦ response 200 success nothing
            ]))
          s

  -- VirtualMachineRename
  unfoldable pub virtual_machine_rename : Incoming RenameReq → Handler W D (Delivery I) I
  unfolding change_machine operator_rename get_current_auth checked
  virtual_machine_rename inc = do
    auth ← get_current_auth inc.auth
    checked (λ e. e) inc.valid inc.body
        λ p. do
          c ← on_vcenter (program.gateway.connect auth)
          λ s.
              change_machine c p.id
                (operator_rename c.hypervisor p.id (c.machine_name s.vcenter p.id) p.new_name) s

  -- VirtualMachineDescript from its checks on: it looks at them before the error of the binding.
  unfoldable pub described :
      Auth → List ReqParamError → Bound DescriptionReq → Handler W D (Delivery I) I
  unfolding change_machine operator_descript response response_errors
  described auth (x ∷ errors) body = answer (response_errors 400 (x ∷ errors) nothing)
  described auth [] (malformed e p) = answer (response 400 e nothing)
  described auth [] (bound p) = do
    c ← on_vcenter (program.gateway.connect auth)
    change_machine c p.id (operator_descript c.hypervisor program.shutdown_first p.id p.description)

  unfoldable pub virtual_machine_descript : Incoming DescriptionReq → Handler W D (Delivery I) I
  unfolding described get_current_auth
  virtual_machine_descript inc = do
    auth ← get_current_auth inc.auth
    described auth (inc.valid (filled inc.body)) inc.body
