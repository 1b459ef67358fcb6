-- ===== src/Api/Tracked/Handlers.antt =====
-- Each handler of api/v1/virtual_machine_v1.go is tracked, and where a request is lost.
use vsphere_facade.Prelude.{
  Bool-cases, Option, Outcome-cases, String, [], ap, arith, false, inl, inr, none, panic, refl,
  some, true, ◌∙◌, ◌≡◌, ◌≢◌,
}
use vsphere_facade.Cache.{Text}
use vsphere_facade.Action.{Action, Keeps, Keeps-bind, eq-ok, ◌>>=◌, ◌>>◌}
use vsphere_facade.Hypervisor.{Hypervisor}
use vsphere_facade.Security.Tokens.{Auth}
use vsphere_facade.Server.{Server, change, on_vcenter}
use vsphere_facade.Requests.{
  WorkerType, worker_type_operation, worker_type_deployment, generate_req_id, receive,
}
use vsphere_facade.Requests.Tracking.{
  BadgerLaws, Ids, with_id, received, received-receive, received-same,
}
use vsphere_facade.Callback.{
  CallbackReq, Delivery, OperationCallBackRes, operation_res, deployment_res, DeploymentCallBackRes,
}
use vsphere_facade.Callback.Delivery.{callback-Keeps}
use vsphere_facade.Operator.{OperatorError}
use vsphere_facade.Api.{
  bound, Connection, Gateway, Handler, Incoming, Program, add_task, get_current_auth, checked,
}
use vsphere_facade.Api.Machines.{
  OperationReq, attempt, handle_operation, no_results, operate_all, operation_call_back,
  operation_task, with_result,
}
use vsphere_facade.Api.Deployment.{
  DeployReq, DeploySetting, create_virtual_machine, deployed, deployment, deployment_call_back,
  deployment_reports, deployment_task,
}
use vsphere_facade.Api.Single.{MachineReq, handle_connected, handle_machine, machine_task}
use vsphere_facade.Api.Tracked.{TrackedResult, Tracked-bind, Tracked-checked, Tracked-add_task}

-- vsphere.Get gives a connection: it does not panic.
abbrev pub Connects : {W : Type 0} → Gateway W → Type 0
Connects {W} gateway = (auth : Auth) (w : W) → (gateway.connect auth w).1 ≢ panic

pub get_current_auth-keeps :
    {W D S : Type 0} (auth : Option Auth) (s : Server W D S) → (get_current_auth auth s).0.db ≡ s.db
unfolding get_current_auth
get_current_auth-keeps none s = refl
get_current_auth-keeps (some auth) s = refl

module _ {W D I : Type 0} (program : Program W D) where
  operation_call_back-Keeps :
      (c : CallbackReq) (id : Text) (res : OperationCallBackRes)
      → Keeps (λ (s : Server W D (Delivery I)). s.db) (operation_call_back program c id res)
  unfolding operation_call_back
  operation_call_back-Keeps c id res =
      callback-Keeps program.http program.default_callback c id (operation_res res) none

  operation_task-Keeps :
      (h : Hypervisor W) (op : String → Action W OperatorError (Unit {0})) (id : Text)
      (p : OperationReq)
      → Keeps (λ (s : Server W D (Delivery I)). s.db) (operation_task program h op id p)
  unfolding operation_task
  operation_task-Keeps h op id p =
      Keeps-bind (λ (s : Server W D (Delivery I)). s.db)
        (on_vcenter (operate_all h program.operator_text op p.ids no_results))
        (operation_call_back program p.callback id) (λ s. refl)
        (operation_call_back-Keeps p.callback id)

  machine_task-Keeps :
      (m : Action W OperatorError (Unit {0})) (request_id : Text) (id : String) (c : CallbackReq)
      → Keeps (λ (s : Server W D (Delivery I)). s.db) (machine_task program m request_id id c)
  unfolding machine_task
  machine_task-Keeps m request_id id c =
      Keeps-bind (λ (s : Server W D (Delivery I)). s.db)
        (on_vcenter (attempt program.operator_text m))
        (λ error. operation_call_back program c request_id (with_result id error no_results))
        (λ s. refl)
        (λ error. operation_call_back-Keeps c request_id (with_result id error no_results))

  module _ (setting : DeploySetting W I) where
    deployment_call_back-Keeps :
        (c : CallbackReq) (id : Text) (res : DeploymentCallBackRes I)
        → Keeps
            (λ (s : Server W D (Delivery I)). s.db)
            (deployment_call_back program setting c id res)
    unfolding deployment_call_back
    deployment_call_back-Keeps c id res =
        callback-Keeps program.http program.default_callback c id (deployment_res res) none

    deployment_reports-Keeps :
        (c : Connection W) (id : Text) (p : DeployReq) (result : String × Option String)
        → Keeps
            (λ (s : Server W D (Delivery I)). s.db)
            (deployment_reports program setting c id p result)
    unfolding deployment_reports
    deployment_reports-Keeps c id p (vm, some e) =
        deployment_call_back-Keeps p.callback id
          (record { is_success = false; message = some e; instance_info = none })
    deployment_reports-Keeps c id p (vm, none) =
        Keeps-bind (λ (s : Server W D (Delivery I)). s.db)
          (on_vcenter (setting.get_virtual_machine c vm))
          (λ found.
            deployment_call_back program setting p.callback id
              (record { is_success = true; message = none; instance_info = found }))
          (λ s. refl)
          (λ found.
            deployment_call_back-Keeps p.callback id
              (record { is_success = true; message = none; instance_info = found }))

    deployment_task-Keeps :
        (c : Connection W) (id : Text) (p : DeployReq)
        → Keeps (λ (s : Server W D (Delivery I)). s.db) (deployment_task program setting c id p)
    unfolding deployment_task
    deployment_task-Keeps c id p =
        Keeps-bind (λ (s : Server W D (Delivery I)). s.db)
          (on_vcenter (deployed program.deploy_text (deployment setting c p)))
          (deployment_reports program setting c id p) (λ s. refl) (deployment_reports-Keeps c id p)

module _ {W D I : Type 0} (program : Program W D) (laws : BadgerLaws program.badger) where
  module _ {P : Type 0} (op : Connection W → String → P → Action W OperatorError (Unit {0}))
      (inc : Incoming (MachineReq P)) where
    handle_connected-Tracked :
        (p : MachineReq P) (c : Connection W) (t : Server W D (Delivery I)) (ids : Ids)
        → received program.badger t ≡ ids
        → ids (generate_req_id worker_type_operation inc.uuid) ≡ false
        → TrackedResult program.badger ids (handle_connected program op inc p c t)
    unfolding handle_connected
    handle_connected-Tracked p c t ids now fresh =
        elim (Bool-cases (c.hypervisor.machine_exists t.vcenter p.id)) [
          | inr gone ↦ rw (gone, handle_connected) (now, omega arith)
          | inl there ↦
              let id = generate_req_id worker_type_operation inc.uuid in
              rw (there, handle_connected)
                (Tracked-add_task program.badger I laws program.gateway c.id worker_type_operation
                  id (machine_task program (op c p.id p.parameter) id p.id p.callback) ids
                  (receive program.badger id (inc.to_json p) t)
                  (machine_task-Keeps program (op c p.id p.parameter) id p.id p.callback) fresh
                  (received-receive program.badger laws id (inc.to_json p) t ∙ ap (with_id id) now))
        ]

    -- A handler for one machine keeps the set of the requests under way, if the id that it would draw is
    -- not in use.
    pub handle_machine-Tracked :
        (s : Server W D (Delivery I))
        → received program.badger s (generate_req_id worker_type_operation inc.uuid) ≡ false
        → TrackedResult program.badger (received program.badger s) (handle_machine program op inc s)
    unfolding handle_machine
    handle_machine-Tracked s fresh =
        let b = program.badger in
        let ids = received b s in
        let connected : MachineReq P → Auth → Handler W D (Delivery I) I = λ p auth.
          on_vcenter (program.gateway.connect auth) >>= λ c. handle_connected program op inc p c in
        Tracked-bind b ids (get_current_auth inc.auth)
          (λ auth. checked _ inc.valid inc.body λ p. connected p auth) s
          (get_current_auth-keeps inc.auth s) refl
          λ auth t now.
            Tracked-checked b ids _ inc.valid inc.body (λ p. connected p auth) t now
              λ p.
                Tracked-bind b ids (on_vcenter (program.gateway.connect auth))
                  (λ c. handle_connected program op inc p c) t refl now
                  λ c u here. handle_connected-Tracked p c u ids here fresh

  module _ (worker_type : WorkerType) (id json : Text)
      (task : Connection W → Action (Server W D (Delivery I)) ⊥ (Unit {0})) where
    -- The end of a handler that receives the request first.
    abbrev received_first : Auth → Handler W D (Delivery I) I
    received_first auth =
        change (receive program.badger id json)
        >> (on_vcenter (program.gateway.connect auth) >>= λ c.
            add_task program.gateway program.badger c.id worker_type id (task c))

    received_first-Tracked :
        (auth : Auth) (t : Server W D (Delivery I)) (ids : Ids)
        → Connects program.gateway
        → ((c : Connection W) → Keeps (λ u. u.db) (task c))
        → received program.badger t ≡ ids
        → ids id ≡ false
        → TrackedResult program.badger ids (received_first auth t)
    received_first-Tracked auth t ids connects keeps now fresh =
        let b = program.badger in
        let t₁ : Server W D (Delivery I) = receive b id json t in
        let noted = received-receive b laws id json t ∙ ap (with_id id) now in
        elim (Outcome-cases (program.gateway.connect auth t₁.vcenter).1) [
          | inl broken ↦ absurd (connects auth t₁.vcenter broken)
          | inr (inl (e, failed)) ↦ elim e [ ]
          | inr (inr (c, there)) ↦
              let w' = (program.gateway.connect auth t₁.vcenter).0 in
              let t₂ : Server W D (Delivery I) = record t₁ { vcenter = w' } in
              rw (eq-ok (program.gateway.connect auth t₁.vcenter) there) (
                Tracked-add_task b I laws program.gateway c.id worker_type id (task c) ids t₂
                  (keeps c) fresh (received-same b t₂ t₁ refl ∙ noted))
        ]

  -- A handler for several machines keeps the set of the requests under way, if the id that it would draw
  -- is not in use and vsphere.Get gives a connection.
  pub handle_operation-Tracked :
      (op : Hypervisor W → String → Action W OperatorError (Unit {0})) (inc : Incoming OperationReq)
      (s : Server W D (Delivery I))
      → Connects program.gateway
      → received program.badger s (generate_req_id worker_type_operation inc.uuid) ≡ false
      → TrackedResult program.badger (received program.badger s) (handle_operation program op inc s)
  unfolding handle_operation
  handle_operation-Tracked op inc s connects fresh =
      let b = program.badger in
      let ids = received b s in
      let id = generate_req_id worker_type_operation inc.uuid in
      let task : OperationReq → Connection W → Action (Server W D (Delivery I)) ⊥ (Unit {0}) =
        λ p c. operation_task program c.hypervisor (op c.hypervisor) id p in
      Tracked-bind b ids (get_current_auth inc.auth)
        (λ auth.
          checked _ inc.valid inc.body
            λ p. received_first worker_type_operation id (inc.to_json p) (task p) auth)
        s (get_current_auth-keeps inc.auth s) refl
        λ auth t now.
          Tracked-checked b ids _ inc.valid inc.body
            (λ p. received_first worker_type_operation id (inc.to_json p) (task p) auth) t now
            λ p.
              received_first-Tracked worker_type_operation id (inc.to_json p) (task p) auth t ids
                connects (λ c. operation_task-Keeps program c.hypervisor (op c.hypervisor) id p) now
                fresh

  -- A handler for several machines that gets no connection panics after it received its request: no
  -- task is left, and the request stays under way.
  pub handle_operation-lost :
      (op : Hypervisor W → String → Action W OperatorError (Unit {0})) (inc : Incoming OperationReq)
      (s : Server W D (Delivery I)) (auth : Auth) (p : OperationReq)
      → inc.auth ≡ some auth
      → inc.body ≡ bound p
      → inc.valid p ≡ []
      → (program.gateway.connect auth s.vcenter).1 ≡ panic
      → ((handle_operation program op inc s).1 ≡ panic)
        × (received program.badger (handle_operation program op inc s).0
            ≡ with_id (generate_req_id worker_type_operation inc.uuid) (received program.badger s))
  unfolding handle_operation
  handle_operation-lost op inc s auth p known read fine broken =
      let b = program.badger in
      let id = generate_req_id worker_type_operation inc.uuid in
      let t : Server W D (Delivery I) = receive b id (inc.to_json p) s in
      let gone : program.gateway.connect auth s.vcenter
          ≡ ((program.gateway.connect auth s.vcenter).0, panic) =
        ap (λ o. ((program.gateway.connect auth s.vcenter).0, o)) broken in
      rw (known, get_current_auth)
        (rw (read, checked)
          (rw (fine, checked)
            (rw gone (
              refl,
              received-same b (record t { vcenter = (program.gateway.connect auth s.vcenter).0 }) t
                    refl
                  ∙ received-receive b laws id (inc.to_json p) s,
            ))))

  -- CreateVirtualMachine keeps the set of the requests under way, under the same conditions.
  pub create_virtual_machine-Tracked :
      (setting : DeploySetting W I) (inc : Incoming DeployReq) (s : Server W D (Delivery I))
      → Connects program.gateway
      → received program.badger s (generate_req_id worker_type_deployment inc.uuid) ≡ false
      → TrackedResult program.badger
          (received program.badger s)
          (create_virtual_machine program setting inc s)
  unfolding create_virtual_machine
  create_virtual_machine-Tracked setting inc s connects fresh =
      let b = program.badger in
      let ids = received b s in
      let id = generate_req_id worker_type_deployment inc.uuid in
      let task : DeployReq → Connection W → Action (Server W D (Delivery I)) ⊥ (Unit {0}) =
        λ p c. deployment_task program setting c id p in
      Tracked-bind b ids (get_current_auth inc.auth)
        (λ auth.
          checked _ inc.valid inc.body
            λ p. received_first worker_type_deployment id (inc.to_json p) (task p) auth)
        s (get_current_auth-keeps inc.auth s) refl
        λ auth t now.
          Tracked-checked b ids _ inc.valid inc.body
            (λ p. received_first worker_type_deployment id (inc.to_json p) (task p) auth) t now
            λ p.
              received_first-Tracked worker_type_deployment id (inc.to_json p) (task p) auth t ids
                connects (λ c. deployment_task-Keeps program setting c id p) now fresh
