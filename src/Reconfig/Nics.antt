-- ===== src/Reconfig/Nics.antt =====
-- removeNic, editNic, addNic and parseReconfigureNic of virtual_machine_reconfig.go. Each returns the
-- changes that it appends; an edit writes to the machine's cards, which the changes point to.
pub mod Networks
use vsphere_facade.Prelude.{
  Bool, List, Option, String, [], deref, err, false, get_elem?, if◌then◌else◌, int_eq, length,
  nat_beq, none, not, ok, or_err, panic, pos, set, some, string_eq, suc, true, wrap_err, ℕ, ℤ, ◌++◌,
  ◌==◌, ◌>>=◌, ◌∷◌,
}
use vsphere_facade.Utils.{slice_contain}
use vsphere_facade.Version.{ApiVersion, newer}
use vsphere_facade.Reconfig.Parameter.{
  AddNicParameter, EditNicParameter, NicParameter, NetworkAllocation,
}
use vsphere_facade.Reconfig.Error.{
  ReconfigError, no_unit_numbers, card_not_found, target_network_not_found, network_not_found,
  backing_failed, adapter_type_not_set, card_not_created, remove_nic_failed, edit_nic_failed,
  add_nic_failed,
}
use vsphere_facade.Reconfig.Device.{
  VirtualDevice, CardType, other_card, CardBacking, network_backing, other_card_backing, SharesInfo,
  CardAllocation, EthernetCard, op_add, op_remove, op_edit, no_file_operation, card_at, new_card,
  DeviceChange, DeviceList, DeviceLibrary,
}
use vsphere_facade.Reconfig.Units.{DeviceType, generate_unit_num}
use vsphere_facade.Reconfig.Disks.{Step, or_keep}

-- A network of the vCenter: its reference and its name.
pub record Network : Type 0 where
  pub ref : String
  pub name : String

-- What helper/network finds under an id, and the backing that govmomi builds for it, or an error.
pub record NetworkApi : Type 0 where
  pub find_network : String → Option Network
  pub ethernet_backing : Network → Option CardBacking

abbrev pub card_removal : ℕ → DeviceChange
card_removal i = record {
  target = card_at i;
  operation = op_remove;
  file_operation = no_file_operation;
  profile = none;
}

remove_cards_from : ℕ → List ℤ → List EthernetCard → List DeviceChange
remove_cards_from i nics [] = []
remove_cards_from i nics (card ∷ cards) =
    let rest = remove_cards_from (suc i) nics cards in
    if slice_contain nics card.device.key then card_removal i ∷ rest else rest

unfoldable pub remove_nic : List ℤ → List EthernetCard → List DeviceChange
unfolding remove_cards_from
remove_nic [] cards = []
remove_nic (key ∷ nics) cards = remove_cards_from 0 (key ∷ nics) cards

-- cardMap: the place of the last card with the key
unfoldable pub card_index : ℤ → List EthernetCard → Option ℕ
card_index key [] = none
card_index key (card ∷ cards) = elim (card_index key cards) [
  | some i ↦ some (suc i)
  | none ↦ if card.device.key == key then some 0 else none
]

-- The type assertion on the backing of the card that moves to another network.
moved_card : Option Network → EthernetCard → Step (EthernetCard × Bool)
moved_card none card = ok (card, false)
moved_card (some network) card = elim card.backing [
  | network_backing _ _ ↦
      ok (record card { backing = network_backing network.ref network.name }, true)
  | other_card_backing ↦ panic
]

-- The MAC address is written only where it differs, and counts as set by hand then.
readdressed_card : String → Option String → EthernetCard × Bool → EthernetCard × Bool
readdressed_card manual none (card, changed) = (card, changed)
readdressed_card manual (some mac) (card, changed) =
    if card.mac_address == mac
    then (card, changed)
    else (record card { address_type = manual; mac_address = mac }, true)

-- The type switch, whose six cases do the same; another type of card is left alone.
edited_card :
    String → CardType → Option Network → Option String → EthernetCard → Step (EthernetCard × Bool)
unfolding moved_card readdressed_card
edited_card manual other_card network mac card = ok (card, false)
edited_card manual card_type network mac card =
    moved_card network card >>= λ r. ok (readdressed_card manual mac r)

destination : NetworkApi → EditNicParameter → Step (Option Network)
destination networks nic = elim nic.network_id [
  | none ↦ ok none
  | some id ↦ elim (networks.find_network id) [
    | none ↦ err (target_network_not_found nic.key id)
    | some network ↦ ok (some network)
  ]
]

module _ (lib : DeviceLibrary) (networks : NetworkApi) where
  edit_cards_from :
      List EthernetCard
      → List EthernetCard
      → List EditNicParameter
      → Step (List EthernetCard × List DeviceChange)
  unfolding edited_card destination card_index
  edit_cards_from keys cards [] = ok (cards, [])
  edit_cards_from keys cards (nic ∷ nics) = do
    i ← or_err (card_not_found nic.key) (card_index nic.key keys)
    network ← destination networks nic
    card ← deref (get_elem? cards i)
    r ← edited_card lib.mac_type_manual card.card_type network nic.mac_address card
    rest ← edit_cards_from keys (set cards i r.0) nics
    ok (rest.0, (if r.1 then lib.config_spec op_edit (card_at i) else []) ++ rest.1)

  unfoldable pub edit_nic :
      List EditNicParameter → List EthernetCard → Step (List EthernetCard × List DeviceChange)
  unfolding edit_cards_from
  edit_nic nics cards = edit_cards_from cards cards nics

  -- nmap, the networks that this call has looked up
  cached : String → List (String × Network) → Option Network
  cached id [] = none
  cached id ((key, network) ∷ nmap) = if key == id then some network else cached id nmap

  -- The lookup of a network through nmap, and nmap as it leaves it.
  look_up : List (String × Network) → String → Step (Network × List (String × Network))
  unfolding cached
  look_up nmap id = elim (cached id nmap) [
    | some network ↦ ok (network, nmap)
    | none ↦ elim (networks.find_network id) [
      | none ↦ err (network_not_found id)
      | some network ↦ ok (network, (id, network) ∷ nmap)
    ]
  ]

  -- The addresses that a new card gets: a MAC address only beside the type for one set by hand.
  addressed_card : AddNicParameter → EthernetCard → EthernetCard
  addressed_card nic card = elim nic.address_type [
    | none ↦ card
    | some t ↦ elim nic.mac_address [
      | none ↦ record card { address_type = t }
      | some mac ↦
          if t == lib.mac_type_manual
          then record card { address_type = t; mac_address = mac }
          else record card { address_type = t }
    ]
  ]

  -- The allocation, from version 6.0.0 on; its shares and level are dereferenced.
  allocated_card : ApiVersion → Option NetworkAllocation → EthernetCard → Step EthernetCard
  allocated_card api none card = ok card
  allocated_card api (some alloc) card =
      if not (newer api (pos 6) (pos 0) (pos 0)) then ok card else do
        shares ← deref alloc.shares
        level ← deref alloc.level
        let info : SharesInfo = record { shares = shares; level = level }
        ok (record card {
          resource_allocation =
              some (record { limit = alloc.limit; reservation = alloc.reservation; share = info });
        })

  -- The card for one parameter, over the network that was looked up.
  unfoldable pub built_card : ApiVersion → AddNicParameter → Network → ℤ → Step EthernetCard
  unfolding addressed_card allocated_card newer
  built_card api nic network nu = do
    backing ← or_err backing_failed (networks.ethernet_backing network)
    adapter ← or_err adapter_type_not_set nic.adapter_type
    card ← or_err card_not_created (lib.create_ethernet_card adapter backing)
    allocated_card api nic.allocation
        (addressed_card nic (record card { device = record card.device { unit_number = some nu } }))

  -- The loop of addNic. It writes the unit number back to each parameter.
  add_cards_from :
      ApiVersion
      → List (String × Network)
      → List ℤ
      → List AddNicParameter
      → Step (List AddNicParameter × List DeviceChange)
  unfolding look_up built_card
  add_cards_from api nmap numbers [] = ok ([], [])
  add_cards_from api nmap [] (nic ∷ nics) = panic
  add_cards_from api nmap (nu ∷ numbers) (nic ∷ nics) = do
    found ← look_up nmap nic.network_id
    card ← built_card api nic found.0 nu
    rest ← add_cards_from api found.1 numbers nics
    ok (
      record nic { unit_number = some nu } ∷ rest.0,
      lib.config_spec op_add (new_card card) ++ rest.1,
    )

  unfoldable pub add_nic :
      ApiVersion
      → DeviceList
      → List AddNicParameter
      → Step (List AddNicParameter × List DeviceChange)
  unfolding add_cards_from generate_unit_num
  add_nic api devices [] = ok ([], [])
  add_nic api devices (n ∷ nics) =
      or_err no_unit_numbers (generate_unit_num devices.all DeviceType.nic (length (n ∷ nics)))
      >>= λ us. add_cards_from api [] us (n ∷ nics)

  -- parseReconfigureNic: a machine that has no card is left as it is, whatever is asked for. Else
  -- removals, edits and additions in this order.
  unfoldable pub parse_reconfigure_nic :
      ApiVersion
      → DeviceList
      → Option NicParameter
      → Step (Option NicParameter × List EthernetCard × List DeviceChange)
  unfolding remove_nic edit_nic add_nic
  parse_reconfigure_nic api devices none = ok (none, devices.cards, [])
  parse_reconfigure_nic api devices (some p) =
      if nat_beq (length devices.cards) 0 then ok (some p, devices.cards, []) else do
        let removed = remove_nic p.remove devices.cards
        edited ← wrap_err edit_nic_failed (edit_nic p.edit devices.cards)
        added ← wrap_err add_nic_failed (add_nic api devices p.add)
        ok (some (record p { add = added.0 }), edited.0, removed ++ (edited.1 ++ added.1))
