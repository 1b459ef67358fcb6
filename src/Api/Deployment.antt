-- ===== src/Api/Deployment.antt =====
-- CreateVirtualMachine of api/v1/virtual_machine_v1.go.
use vsphere_facade.Prelude.{List, Option, String, none, some, ok, err, panic, true, false, ℕ}
use vsphere_facade.Cache.{Text}
use vsphere_facade.Action.{Action, ◌>>=◌, ◌>>◌}
use vsphere_facade.Server.{Server, change, on_vcenter}
use vsphere_facade.Requests.{worker_type_deployment, generate_req_id, receive}
use vsphere_facade.Callback.{
  CallbackReq, Delivery, DeploymentCallBackRes, deployment_res, callback_obj,
}
use vsphere_facade.Deployer.{DeployParameter, TimeoutSetting, TimeoutConfig, DeploymentDefault}
use vsphere_facade.Deployer.Steps.{DeployError}
use vsphere_facade.Deployer.Machine.{deploy}
use vsphere_facade.Codes.{bad_request}
use vsphere_facade.Api.{
  Connection, Handler, Incoming, Program, add_task, answer, checked, get_current_auth, response,
  verify_errors,
}

-- DeployReq
pub record DeployReq : Type 0 where
  pub parameter : DeployParameter
  pub timeout : Option TimeoutSetting
  pub callback : CallbackReq

-- The configuration that a deployment reads, the time at its start, and VCenter.GetVirtualMachine.
pub record DeploySetting (W I : Type 0) : Type 0 where
  pub timeout_config : TimeoutConfig
  pub deployment_default : DeploymentDefault
  pub now : ℕ
  pub get_virtual_machine : Connection W → String → Action W ⊥ (Option I)

-- Verify, whose checks are yet to be written
unfoldable pub verify : DeployParameter → Option (List String)
verify p = none

-- Deploy and NewMachineID: a new machine, the empty text where there is none, or the text of an error.
abbrev pub deployed :
    {W : Type 0}
    → (DeployError → String)
    → Action W DeployError (Option String)
    → Action W ⊥ (String × Option String)
deployed describe m w =
    let (w', r) = m w in
    (
      w',
      elim r [
        | ok none ↦ ok ("", none)
        | ok (some id) ↦ ok (id, none)
        | err e ↦ ok ("", some (describe e))
        | panic ↦ panic
      ],
    )

-- Deploy with the parameter and the timeouts of the request
unfoldable pub deployment :
    {W I : Type 0}
    → DeploySetting W I
    → Connection W
    → DeployReq
    → Action W DeployError (Option String)
unfolding deploy
deployment setting c p =
    deploy c.hypervisor c.deploy_api setting.timeout_config setting.deployment_default setting.now
      p.timeout p.parameter

module _ {W D I : Type 0} (program : Program W D) (setting : DeploySetting W I) where
  -- deploymentCallBack
  unfoldable pub deployment_call_back :
      CallbackReq → Text → DeploymentCallBackRes I → Action (Server W D (Delivery I)) ⊥ (Unit {0})
  unfolding callback_obj
  deployment_call_back c id res =
      callback_obj program.http program.default_callback c id (deployment_res res)

  -- The callback of the task, by the result of the deployment.
  unfoldable pub deployment_reports :
      Connection W
      → Text
      → DeployReq
      → String × Option String
      → Action (Server W D (Delivery I)) ⊥ (Unit {0})
  unfolding deployment_call_back
  deployment_reports c id p (vm, none) = on_vcenter (setting.get_virtual_machine c vm) >>= λ found.
      deployment_call_back p.callback id
        (record { is_success = true; message = none; instance_info = found })
  deployment_reports c id p (vm, some e) =
      deployment_call_back p.callback id
        (record { is_success = false; message = some e; instance_info = none })

  -- The task of CreateVirtualMachine
  unfoldable pub deployment_task :
      Connection W → Text → DeployReq → Action (Server W D (Delivery I)) ⊥ (Unit {0})
  unfolding deployment_reports deployment
  deployment_task c id p =
      on_vcenter (deployed program.deploy_text (deployment setting c p))
      >>= deployment_reports c id p

  -- CreateVirtualMachine: like the handlers for several machines, it receives the request before there
  -- is a connection.
  unfoldable pub create_virtual_machine : Incoming DeployReq → Handler W D (Delivery I) I
  unfolding deployment_task get_current_auth checked receive add_task verify response
  create_virtual_machine inc = do
    auth ← get_current_auth inc.auth
    checked (λ e. e) inc.valid inc.body
        λ p.
          let id = generate_req_id worker_type_deployment inc.uuid in
          do
            change (receive program.badger id (inc.to_json p))
            c ← on_vcenter (program.gateway.connect auth)
            elim (verify p.parameter) [
              | some errs ↦ answer (response 400 bad_request (verify_errors errs))
              | none ↦
                  add_task program.gateway program.badger c.id worker_type_deployment id
                    (deployment_task c id p)
            ]
