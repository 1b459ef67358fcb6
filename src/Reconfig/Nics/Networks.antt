-- ===== src/Reconfig/Nics/Networks.antt =====
-- addNic of virtual_machine_reconfig.go looks each network up once; that changes nothing.
use vsphere_facade.Prelude.{
  List, Option-cases, String, [], ap, arith, eq_iff, err, fun_ext, inl, inr, length, none, ok,
  or_err, panic, refl, some, string_eq, ℤ, ◌++◌, ◌>>=◌, ◌∷◌, ◌≡◌, ◌⊎◌,
}
use vsphere_facade.Version.{ApiVersion}
use vsphere_facade.Reconfig.Parameter.{AddNicParameter, NicParameter}
use vsphere_facade.Reconfig.Device.{new_card, op_add, DeviceChange, DeviceList, DeviceLibrary}
use vsphere_facade.Reconfig.Error.{no_unit_numbers, network_not_found}
use vsphere_facade.Reconfig.Units.{DeviceType, generate_unit_num}
use vsphere_facade.Reconfig.Disks.{Step}
use vsphere_facade.Reconfig.Nics.{
  Network, NetworkApi, cached, look_up, built_card, add_cards_from, add_nic, parse_reconfigure_nic,
}

module _ (lib : DeviceLibrary) (networks : NetworkApi) where
  -- The loop with no map: each parameter asks for its network.
  abbrev pub add_cards_plain :
      ApiVersion → List ℤ → List AddNicParameter → Step (List AddNicParameter × List DeviceChange)
  add_cards_plain api numbers [] = ok ([], [])
  add_cards_plain api [] (n ∷ nics) = panic
  add_cards_plain api (nu ∷ numbers) (n ∷ nics) = do
    network ← or_err (network_not_found n.network_id) (networks.find_network n.network_id)
    card ← built_card lib networks api n network nu
    rest ← add_cards_plain api numbers nics
    ok (
      record n { unit_number = some nu } ∷ rest.0,
      lib.config_spec op_add (new_card card) ++ rest.1,
    )

  -- The map holds what the vCenter answers.
  IsSound : List (String × Network) → Type 0
  IsSound nmap =
      (id : String) (network : Network)
      → cached lib networks id nmap ≡ some network
      → networks.find_network id ≡ some network

  IsSound-extend :
      (nmap : List (String × Network)) (key : String) (network : Network)
      → networks.find_network key ≡ some network
      → IsSound nmap
      → IsSound ((key, network) ∷ nmap)
  unfolding IsSound cached
  IsSound-extend nmap key network found sound id other h =
      ground (arith, eq_iff key id, sound id other)

  -- A lookup gives the answer of the vCenter, and a sound map.
  look_up-find :
      (nmap : List (String × Network)) (id : String)
      → IsSound nmap
      → ((network : Network) × (nmap' : List (String × Network)) × (networks.find_network id
            ≡ some network)
          × (look_up lib networks nmap id ≡ ok (network, nmap'))
          × IsSound nmap')
        ⊎ ((networks.find_network id ≡ none)
            × (look_up lib networks nmap id ≡ err (network_not_found id)))
  unfolding look_up
  look_up-find nmap id sound = elim (Option-cases (cached lib networks id nmap)) [
    | inr (network, hit) ↦
        inl (network, nmap, unfold IsSound in sound id network hit, rw (hit, look_up), sound)
    | inl miss ↦ elim (Option-cases (networks.find_network id)) [
      | inr (network, found) ↦ inl (
        network,
        (id, network) ∷ nmap,
        found,
        ground arith,
        IsSound-extend nmap id network found sound,
      )
      | inl missing ↦ inr (missing, ground arith)
    ]
  ]

  add_cards_from-plain :
      (api : ApiVersion) (nmap : List (String × Network)) (us : List ℤ)
      (nics : List AddNicParameter)
      → IsSound nmap
      → add_cards_from lib networks api nmap us nics ≡ add_cards_plain api us nics
  unfolding add_cards_from
  add_cards_from-plain api nmap [] [] sound = refl
  add_cards_from-plain api nmap (u ∷ us) [] sound = refl
  add_cards_from-plain api nmap [] (n ∷ nics) sound = refl
  add_cards_from-plain api nmap (u ∷ us) (n ∷ nics) sound =
      elim (look_up-find nmap n.network_id sound) [
        | inr (missing, none_found) ↦ rw (missing, none_found)
        | inl (network, nmap', found, looked, sound') ↦
            rw (found, looked, add_cards_from-plain api nmap' us nics sound')
      ]

  -- addNic is the loop that asks the vCenter for the network of each card.
  pub add_nic-plain :
      (api : ApiVersion) (devices : DeviceList) (n : AddNicParameter) (nics : List AddNicParameter)
      → add_nic lib networks api devices (n ∷ nics) ≡ (
          or_err no_unit_numbers (generate_unit_num devices.all DeviceType.nic (length (n ∷ nics)))
          >>= λ us. add_cards_plain api us (n ∷ nics))
  unfolding add_nic
  add_nic-plain api devices n nics =
      ap
        (λ f.
          or_err no_unit_numbers (generate_unit_num devices.all DeviceType.nic (length (n ∷ nics)))
          >>= f)
        (fun_ext
          λ us. add_cards_from-plain api [] us (n ∷ nics) (unfold IsSound cached in λ id o h. cc))

  -- A machine that has no card is left without the cards that a request adds, and without an error.
  pub parse_reconfigure_nic-no_cards :
      (api : ApiVersion) (devices : DeviceList) (p : NicParameter)
      → devices.cards ≡ []
      → parse_reconfigure_nic lib networks api devices (some p) ≡ ok (some p, [], [])
  unfolding parse_reconfigure_nic
  parse_reconfigure_nic-no_cards api devices p h = ground arith
