-- ===== src/Customize/Run.antt =====
-- Customize and waitCustomizeTask of virtual_machine_customize.go.
use vsphere_facade.Prelude.{Bool, Outcome, String, bind, if◌then◌else◌, wrap_err}
use vsphere_facade.Action.{Action, fail, lift, wrap, ◌>>=◌, ◌>>◌}
use vsphere_facade.Customize.{CustomizeParameter}
use vsphere_facade.Customize.Spec.{CustomizationSpec, empty_customization}
use vsphere_facade.Customize.Address.{Address}
use vsphere_facade.Customize.Network.{global_ip_settings, nic_setting}
use vsphere_facade.Customize.System.{GuestApi, os_setting}

pub data CustomizeError : Type 0 where
  machine_not_found : String → CustomizeError
  os_failed nic_failed task_failed : String → CustomizeError

-- What Customize calls: GetObject, GetOSInfo, ParseIP, and the task, which is started and waited for.
pub record CustomizeApi (W : Type 0) : Type 0 where
  pub guest_api : GuestApi W
  pub parse_ip : String → Address
  pub machine_exists : W → String → Bool
  pub start_customize : String → CustomizationSpec → Action W String (Unit {0})
  pub wait : String → Action W String (Unit {0})

module _ {W : Type 0} (api : CustomizeApi W) where
  unfoldable pub customization_spec :
      W → String → CustomizeParameter → Outcome CustomizeError CustomizationSpec
  unfolding os_setting global_ip_settings nic_setting
  customization_spec w id p =
      bind (wrap_err os_failed (os_setting api.guest_api w id p empty_customization))
        λ s. wrap_err nic_failed (nic_setting api.parse_ip p (global_ip_settings p s))

  unfoldable pub wait_customize_task : String → CustomizationSpec → Action W String (Unit {0})
  wait_customize_task id spec = api.start_customize id spec >> api.wait id

  unfoldable pub customize : String → CustomizeParameter → Action W CustomizeError (Unit {0})
  unfolding customization_spec wait_customize_task
  customize id p w =
      (if api.machine_exists w id
          then (lift (customization_spec w id p) >>= λ spec.
              wrap task_failed (wait_customize_task id spec))
          else fail (machine_not_found id))
        w
