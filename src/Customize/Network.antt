-- ===== src/Customize/Network.antt =====
-- globalIPSettings, nicSetting, ipv4Setting and ipv6Setting of virtual_machine_customize.go.
use vsphere_facade.Prelude.{
  List, Option, Outcome, String, [], bind, deref, if◌then◌else◌, none, ok, some, ℤ, ◌∷◌,
}
use vsphere_facade.Reconfig.Disks.{or_keep}
use vsphere_facade.Customize.{
  CustomizeParameter, GlobalIpSetting, Ipv6, NicIpv4Setting, NicIpv6Setting, NicSetting,
}
use vsphere_facade.Customize.Spec.{
  CustomizationSpec, IpGenerator, IpSettings, IpV6AddressSpec, IpV6Generator, dhcp_ip_generator,
  dhcp_ip_v6_generator, fixed_ip, fixed_ip_v6,
}
use vsphere_facade.Customize.Address.{Address, is_nil, match_gateway, to4, v4_cidr_mask_to_dotted}

-- None of these functions makes an error, so that an error of theirs is the text that it would be.
abbrev pub Result : Type 0 → Type 0
Result A = Outcome String A

unfoldable pub global_ip_settings : CustomizeParameter → CustomizationSpec → CustomizationSpec
global_ip_settings p spec = elim p.global_ip_setting [
  | none ↦ spec
  | some g ↦ record spec {
    global_ip_settings = record {
      dns_suffix_list = or_keep g.dns_suffix_list [];
      dns_server_list = or_keep g.dns_server_list [];
    };
  }
]

unfoldable pub ipv4_setting : NicIpv4Setting → IpGenerator
ipv4_setting p = elim p.ip_address [
  | none ↦ dhcp_ip_generator
  | some ip ↦ if p.static then fixed_ip ip else dhcp_ip_generator
]

unfoldable pub ipv6_generator : Ipv6 → Result IpV6Generator
ipv6_generator ip =
    if ip.static
    then (bind (deref ip.ip_address) λ a. bind (deref ip.subnet_mask) λ m. ok (fixed_ip_v6 a m))
    else ok dhcp_ip_v6_generator

unfoldable pub ipv6_generators : List Ipv6 → Result (List IpV6Generator)
unfolding ipv6_generator
ipv6_generators [] = ok []
ipv6_generators (ip ∷ ips) =
    bind (ipv6_generator ip) λ g. bind (ipv6_generators ips) λ gs. ok (g ∷ gs)

-- The generators are made, and left out of the specification.
unfoldable pub ipv6_setting : NicIpv6Setting → Result IpV6AddressSpec
unfolding ipv6_generators
ipv6_setting p =
    bind (deref p.ipv6s)
      λ ips. bind (ipv6_generators ips) λ generators. ok (record { ip = []; gateway = p.gateways })

unfoldable pub mask_of : Option ℤ → Result String
unfolding v4_cidr_mask_to_dotted
mask_of none = ok ""
mask_of (some m) = v4_cidr_mask_to_dotted m

unfoldable pub ipv6_of : Option NicIpv6Setting → Result (Option IpV6AddressSpec)
unfolding ipv6_setting
ipv6_of none = ok none
ipv6_of (some v6) = bind (ipv6_setting v6) λ s. ok (some s)

-- The settings of a card, from what is computed for it.
unfoldable pub settings_of : NicSetting → String → Option IpV6AddressSpec → List String → IpSettings
unfolding ipv4_setting
settings_of n mask v6 gateway = record {
  ip = elim n.ipv4 [ none ↦ none | some v4 ↦ some (ipv4_setting v4) ];
  subnet_mask = mask;
  gateway = gateway;
  ip_v6_spec = v6;
  dns_server_list = or_keep n.dns_server_list [];
  dns_domain = or_keep n.dns_domain "";
}

-- A specification without cards keeps its map, as it does for a list that is nil.
abbrev pub with_mappings : CustomizationSpec → List IpSettings → CustomizationSpec
with_mappings spec [] = spec
with_mappings spec (b ∷ bs) = record spec { nic_setting_map = b ∷ bs }

module _ (parse_ip : String → Address) where
  -- The gateway for all cards, for a card without one of its own.
  unfoldable pub default_gateway : Option GlobalIpSetting → NicSetting → Result (List String)
  unfolding to4 match_gateway
  default_gateway global n = elim global [
    | none ↦ ok []
    | some settings ↦ elim settings.gateway [
      | none ↦ ok []
      | some g ↦ elim n.ipv4 [
        | none ↦ ok []
        | some v4 ↦ elim v4.ip_address [
          | none ↦ ok []
          | some ip ↦
              if is_nil (to4 (parse_ip g))
              then ok []
              else bind (deref n.subnet_mask)
                  λ m. ok (if match_gateway parse_ip ip m g then g ∷ [] else [])
        ]
      ]
    ]
  ]

  unfoldable pub gateway_of : Option GlobalIpSetting → NicSetting → Result (List String)
  unfolding default_gateway
  gateway_of global n = elim n.gateway [ some gs ↦ ok gs | none ↦ default_gateway global n ]

  -- One round of the loop of nicSetting. The key of the card is not looked at.
  unfoldable pub adapter_mapping : Option GlobalIpSetting → NicSetting → Result IpSettings
  unfolding gateway_of mask_of ipv6_of settings_of
  adapter_mapping global n = bind (mask_of n.subnet_mask) λ mask.
      bind (ipv6_of n.ipv6)
        λ v6. bind (gateway_of global n) λ gateway. ok (settings_of n mask v6 gateway)

  unfoldable pub adapter_mappings :
      Option GlobalIpSetting → List NicSetting → Result (List IpSettings)
  unfolding adapter_mapping
  adapter_mappings global [] = ok []
  adapter_mappings global (n ∷ ns) =
      bind (adapter_mapping global n)
        λ a. bind (adapter_mappings global ns) λ mappings. ok (a ∷ mappings)

  unfoldable pub nic_setting : CustomizeParameter → CustomizationSpec → Result CustomizationSpec
  unfolding adapter_mappings
  nic_setting p spec =
      bind (adapter_mappings p.global_ip_setting p.nic_setting)
        λ mappings. ok (with_mappings spec mappings)
