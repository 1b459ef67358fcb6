-- ===== src/Operator/Cards.antt =====
-- ReconfigureNic of vsphere/workerpool/virtual_machine_operator.go, and the addresses of the cards that
-- it asks for, beside those that the deployer asks for.
use vsphere_facade.Prelude.{
  List, Option, String, arith, eq_iff, map, none, ok, refl, some, string_eq, ℤ, ◌≡◌,
}
use vsphere_facade.Action.{Action, give, wrap, ◌>>◌}
use vsphere_facade.Version.{ApiVersion}
use vsphere_facade.Hypervisor.{Hypervisor}
use vsphere_facade.Reconfig.Device.{EthernetCard, DeviceLibrary}
use vsphere_facade.Reconfig.Parameter.{AddNicParameter, EditNicParameter}
use vsphere_facade.Reconfig.Nics.{Network, NetworkApi, built_card}
use vsphere_facade.Reconfig.Run.{reconfigure}
use vsphere_facade.Operator.{OperatorError, reconfigure_error}
use vsphere_facade.Deployer.{NetworkInterface}
use vsphere_facade.Deployer.Steps.{new_nic}

-- ReconfigureNicParameter: the settings of addresses that stand beside each card are not read.
pub record NicRequest : Type 0 where
  pub add : List AddNicParameter
  pub edit : List EditNicParameter
  pub remove : List ℤ

-- A MAC address comes with the type for one set by hand, `manual`.
unfoldable pub operator_nic : String → AddNicParameter → AddNicParameter
operator_nic manual a = record {
  id = "";
  network_id = a.network_id;
  adapter_type = a.adapter_type;
  address_type = elim a.mac_address [ none ↦ none | some mac ↦ some manual ];
  mac_address = a.mac_address;
  allocation = a.allocation;
  unit_number = none;
}

-- ReconfigureNic
unfoldable pub operator_reconfigure_nic :
    {W : Type 0} → Hypervisor W → String → NicRequest → Action W OperatorError (Unit {0})
operator_reconfigure_nic h id p =
    wrap reconfigure_error (
      reconfigure h id (record {
        name = none;
        create_date = none;
        annotation = none;
        cpu = none;
        memory = none;
        disk = none;
        nic = some (record {
          add = map (operator_nic h.library.mac_type_manual) p.add;
          edit = p.edit;
          remove = p.remove;
        });
        flag = none;
      }))
    >> give tt

module _ (lib : DeviceLibrary) (networks : NetworkApi) (api : ApiVersion) (network : Network)
    (nu : ℤ) where
  -- The card that the operator asks for has the MAC address of the request, set by hand, if the
  -- request has one.
  pub built_card-operator_nic :
      (a : AddNicParameter) (mac : String) (card : EthernetCard)
      → a.mac_address ≡ some mac
      → built_card lib networks api (operator_nic lib.mac_type_manual a) network nu ≡ ok card
      → (card.mac_address ≡ mac) × (card.address_type ≡ lib.mac_type_manual)
  unfolding built_card operator_nic
  built_card-operator_nic a mac card given built =
      ground (arith, eq_iff lib.mac_type_manual lib.mac_type_manual)

  -- The card that the deployer asks for is the same whatever MAC address the request has.
  pub built_card-new_nic :
      (ni : NetworkInterface) (mac : Option String)
      → built_card lib networks api (new_nic (record ni { mac_address = mac })) network nu
        ≡ built_card lib networks api (new_nic ni) network nu
  unfolding built_card new_nic
  built_card-new_nic ni mac = refl
