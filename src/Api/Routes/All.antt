-- ===== src/Api/Routes/All.antt =====
-- Every handler of a route of /api/v1/virtual_machines that changes machines is tracked.
use vsphere_facade.Prelude.{
  Bool-cases, List, Option, String, [], arith, inl, inr, none, refl, some, ◌∷◌, ◌≡◌,
}
use vsphere_facade.Action.{Action, ◌>>=◌}
use vsphere_facade.Server.{Server, on_vcenter}
use vsphere_facade.Security.Tokens.{Auth}
use vsphere_facade.Requests.Tracking.{BadgerLaws, Ids, received}
use vsphere_facade.Callback.{Delivery}
use vsphere_facade.Operator.{
  OperatorError, operator_power_on, operator_power_off, operator_shutdown, operator_destroy,
  operator_rename, operator_descript, operator_reconfigure,
}
use vsphere_facade.Operator.Cards.{operator_reconfigure_nic}
use vsphere_facade.Operator.Relocation.{operator_reconfigure_disk}
use vsphere_facade.Codes.{success}
use vsphere_facade.Api.{
  Bound, Connection, Handler, Incoming, Program, Reply, ReqParamError, answer, bound, checked,
  get_current_auth, malformed, nothing, response,
}
use vsphere_facade.Api.Machines.{
  attempt, delete_virtual_machine, virtual_machine_power_off, virtual_machine_power_on,
  virtual_machine_shutdown,
}
use vsphere_facade.Api.Single.{
  DescriptionReq, RenameReq, change_machine, described, filled, modify_virtual_machine_configure,
  reconfigure_virtual_machine_disk, reconfigure_virtual_machine_nic, virtual_machine_descript,
  virtual_machine_rename,
}
use vsphere_facade.Api.Deployment.{DeploySetting}
use vsphere_facade.Api.Tracked.{TrackedResult, Tracked-bind, Tracked-checked}
use vsphere_facade.Api.Tracked.Handlers.{
  Connects, get_current_auth-keeps, handle_machine-Tracked, handle_operation-Tracked,
  create_virtual_machine-Tracked,
}
use vsphere_facade.Api.Routes.{
  IsNew, Request, route, create, delete, power_on, power_off, shutdown, rename, reconfigure,
  reconfigure_disk, reconfigure_nic, description,
}

-- The answer of a handler that changes a machine before it answers.
abbrev answer_of : {I : Type 0} → Option String → Reply I
answer_of error = elim error [
  | some e ↦ response 400 e nothing
  | none ↦ response 200 success nothing
]

module _ {W D I : Type 0} (program : Program W D) where
  answered :
      (error : Option String) (ids : Ids) (t : Server W D (Delivery I))
      → received program.badger t ≡ ids
      → TrackedResult program.badger ids (answer (answer_of {I = I} error) t)
  unfolding response
  answered none ids t now = (now, omega arith)
  answered (some e) ids t now = (now, omega arith)

  change_machine-Tracked :
      (c : Connection W) (id : String) (m : Action W OperatorError (Unit {0})) (ids : Ids)
      (t : Server W D (Delivery I))
      → received program.badger t ≡ ids
      → TrackedResult program.badger ids (change_machine {I = I} program c id m t)
  unfolding change_machine
  change_machine-Tracked c id m ids t now =
      elim (Bool-cases (c.hypervisor.machine_exists t.vcenter id)) [
        | inr gone ↦ rw (gone, change_machine) (now, omega arith)
        | inl there ↦
            rw (there, change_machine)
              (Tracked-bind program.badger ids (on_vcenter (attempt program.operator_text m))
                (λ error. answer (answer_of error)) t refl now
                (λ error u here. answered error ids u here))
      ]

  virtual_machine_rename-Tracked :
      (inc : Incoming RenameReq) (s : Server W D (Delivery I))
      → TrackedResult program.badger
          (received program.badger s)
          (virtual_machine_rename {I = I} program inc s)
  unfolding virtual_machine_rename
  virtual_machine_rename-Tracked inc s =
      let b = program.badger in
      let ids = received b s in
      let change_it : RenameReq → Connection W → Handler W D (Delivery I) I = λ p c t.
        change_machine program c p.id
          (operator_rename c.hypervisor p.id (c.machine_name t.vcenter p.id) p.new_name) t in
      Tracked-bind b ids (get_current_auth inc.auth)
        (λ auth.
          checked (λ e. e) inc.valid inc.body
            λ p. on_vcenter (program.gateway.connect auth) >>= change_it p)
        s (get_current_auth-keeps inc.auth s) refl
        λ auth t now.
          Tracked-checked b ids (λ e. e) inc.valid inc.body
            (λ p. on_vcenter (program.gateway.connect auth) >>= change_it p) t now
            λ p.
              Tracked-bind b ids (on_vcenter (program.gateway.connect auth)) (change_it p) t refl
                now
                λ c u here.
                  change_machine-Tracked c p.id
                    (operator_rename c.hypervisor p.id (c.machine_name u.vcenter p.id) p.new_name)
                    ids u here

  abbrev describe : Auth → DescriptionReq → Handler W D (Delivery I) I
  describe auth p = on_vcenter (program.gateway.connect auth) >>= λ c.
      change_machine program c p.id
        (operator_descript c.hypervisor program.shutdown_first p.id p.description)

  describe-Tracked :
      (auth : Auth) (p : DescriptionReq) (ids : Ids) (t : Server W D (Delivery I))
      → received program.badger t ≡ ids
      → TrackedResult program.badger ids (describe auth p t)
  describe-Tracked auth p ids t now =
      Tracked-bind program.badger ids (on_vcenter (program.gateway.connect auth))
        (λ c.
          change_machine program c p.id
            (operator_descript c.hypervisor program.shutdown_first p.id p.description))
        t refl now
        λ c u here.
          change_machine-Tracked c p.id
            (operator_descript c.hypervisor program.shutdown_first p.id p.description) ids u here

  described_body :
      (auth : Auth) (inc : Incoming DescriptionReq) (errors : List ReqParamError)
      (body : Bound DescriptionReq) (ids : Ids) (t : Server W D (Delivery I))
      → received program.badger t ≡ ids
      → TrackedResult program.badger ids (described {I = I} program auth errors body t)
  unfolding described
  described_body auth inc (x ∷ errors) body ids t now = (now, omega arith)
  described_body auth inc [] (malformed e p) ids t now = (now, omega arith)
  described_body auth inc [] (bound p) ids t now = describe-Tracked auth p ids t now

  virtual_machine_descript-Tracked :
      (inc : Incoming DescriptionReq) (s : Server W D (Delivery I))
      → TrackedResult program.badger
          (received program.badger s)
          (virtual_machine_descript {I = I} program inc s)
  unfolding virtual_machine_descript
  virtual_machine_descript-Tracked inc s =
      let b = program.badger in
      let errors = inc.valid (filled inc.body) in
      Tracked-bind b (received b s) (get_current_auth inc.auth)
        (λ auth. described program auth errors inc.body) s (get_current_auth-keeps inc.auth s) refl
        λ auth t now. described_body auth inc errors inc.body (received b s) t now

module _ {W D I : Type 0} (program : Program W D) (setting : DeploySetting W I)
    (laws : BadgerLaws program.badger) where
  -- Every handler of a route that changes machines keeps the set of the requests under way, if
  -- vsphere.Get gives connections and the id that the request would be received under is not in use: a
  -- request is answered with 202 and its id exactly where it left a task; then its id, and no other, is
  -- new in the task store, and the task takes it away when it ends, by an error or a panic too.
  -- Otherwise the task store has what it had.
  pub route-Tracked :
      (r : Request) (s : Server W D (Delivery I))
      → Connects program.gateway
      → IsNew (received program.badger s) r
      → TrackedResult program.badger (received program.badger s) (route program setting r s)
  unfolding route
  route-Tracked (create inc) s connects fresh =
      create_virtual_machine-Tracked program laws setting inc s connects fresh
  route-Tracked (delete inc) s connects fresh =
      unfold delete_virtual_machine in
      handle_operation-Tracked program laws operator_destroy inc s connects fresh
  route-Tracked (power_on inc) s connects fresh =
      unfold virtual_machine_power_on in
      handle_operation-Tracked program laws operator_power_on inc s connects fresh
  route-Tracked (power_off inc) s connects fresh =
      unfold virtual_machine_power_off in
      handle_operation-Tracked program laws (λ h. operator_power_off h program.shutdown_first) inc s
        connects fresh
  route-Tracked (shutdown inc) s connects fresh =
      unfold virtual_machine_shutdown in
      handle_operation-Tracked program laws operator_shutdown inc s connects fresh
  route-Tracked (rename inc) s connects fresh = virtual_machine_rename-Tracked program inc s
  route-Tracked (reconfigure inc) s connects fresh =
      unfold modify_virtual_machine_configure in
      handle_machine-Tracked program laws
        (λ c id p. operator_reconfigure c.hypervisor program.shutdown_first id p) inc s fresh
  route-Tracked (reconfigure_disk inc) s connects fresh =
      unfold reconfigure_virtual_machine_disk in
      handle_machine-Tracked program laws
        (λ c id p. operator_reconfigure_disk c.hypervisor c.relocate_api id p) inc s fresh
  route-Tracked (reconfigure_nic inc) s connects fresh =
      unfold reconfigure_virtual_machine_nic in
      handle_machine-Tracked program laws (λ c id p. operator_reconfigure_nic c.hypervisor id p) inc
        s fresh
  route-Tracked (description inc) s connects fresh = virtual_machine_descript-Tracked program inc s
