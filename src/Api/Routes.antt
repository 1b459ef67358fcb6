-- ===== src/Api/Routes.antt =====
-- The requests that change machines, as api/router/router.go hands them to their handlers.
pub mod All
use vsphere_facade.Prelude.{Bool, String, false, ◌≡◌}
use vsphere_facade.Cache.{Text}
use vsphere_facade.Callback.{Delivery}
use vsphere_facade.Requests.{worker_type_deployment, worker_type_operation, generate_req_id}
use vsphere_facade.Requests.Tracking.{Ids}
use vsphere_facade.Operator.{ReconfigureRequest}
use vsphere_facade.Operator.Cards.{NicRequest}
use vsphere_facade.Operator.Relocation.{DiskRequest}
use vsphere_facade.Api.{Handler, Incoming, Program}
use vsphere_facade.Api.Machines.{
  OperationReq, delete_virtual_machine, virtual_machine_power_off, virtual_machine_power_on,
  virtual_machine_shutdown,
}
use vsphere_facade.Api.Single.{
  DescriptionReq, MachineReq, RenameReq, modify_virtual_machine_configure,
  reconfigure_virtual_machine_disk, reconfigure_virtual_machine_nic, virtual_machine_descript,
  virtual_machine_rename,
}
use vsphere_facade.Api.Deployment.{DeployReq, DeploySetting, create_virtual_machine}

-- The routes of /api/v1/virtual_machines but the query.
pub data Request : Type 0 where
  create : Incoming DeployReq → Request
  delete power_on power_off shutdown : Incoming OperationReq → Request
  rename : Incoming RenameReq → Request
  reconfigure : Incoming (MachineReq ReconfigureRequest) → Request
  reconfigure_disk : Incoming (MachineReq DiskRequest) → Request
  reconfigure_nic : Incoming (MachineReq NicRequest) → Request
  description : Incoming DescriptionReq → Request

module _ {W D I : Type 0} (program : Program W D) (setting : DeploySetting W I) where
  unfoldable pub route : Request → Handler W D (Delivery I) I
  route (create inc) = create_virtual_machine program setting inc
  route (delete inc) = delete_virtual_machine program inc
  route (power_on inc) = virtual_machine_power_on program inc
  route (power_off inc) = virtual_machine_power_off program inc
  route (shutdown inc) = virtual_machine_shutdown program inc
  route (rename inc) = virtual_machine_rename program inc
  route (reconfigure inc) = modify_virtual_machine_configure program inc
  route (reconfigure_disk inc) = reconfigure_virtual_machine_disk program inc
  route (reconfigure_nic inc) = reconfigure_virtual_machine_nic program inc
  route (description inc) = virtual_machine_descript program inc

-- The id that the request would be received under is not in use.
abbrev pub IsNew : Ids → Request → Type 0
IsNew ids (create inc) = ids (generate_req_id worker_type_deployment inc.uuid) ≡ false
IsNew ids (delete inc) = ids (generate_req_id worker_type_operation inc.uuid) ≡ false
IsNew ids (power_on inc) = ids (generate_req_id worker_type_operation inc.uuid) ≡ false
IsNew ids (power_off inc) = ids (generate_req_id worker_type_operation inc.uuid) ≡ false
IsNew ids (shutdown inc) = ids (generate_req_id worker_type_operation inc.uuid) ≡ false
IsNew ids (rename inc) = Unit
IsNew ids (reconfigure inc) = ids (generate_req_id worker_type_operation inc.uuid) ≡ false
IsNew ids (reconfigure_disk inc) = ids (generate_req_id worker_type_operation inc.uuid) ≡ false
IsNew ids (reconfigure_nic inc) = ids (generate_req_id worker_type_operation inc.uuid) ≡ false
IsNew ids (description inc) = Unit
