-- ===== src/Customize/Complete.antt =====
-- For which cards nicSetting of virtual_machine_customize.go gives a specification, and for which it panics.
use vsphere_facade.Prelude.{
  All, Bool-cases, List, Option, String, [], arith, bind, deref, false, inl, inr, ltb, Option-cases,
  negsuc, none, ok, panic, pos, refl, some, true, ℤ, ◌≡◌, ◌≢◌, ◌≤◌, ◌⊎◌, ◌∷◌, ◌-◌,
}
use vsphere_facade.Customize.{
  CustomizeParameter, GlobalIpSetting, Ipv6, NicIpv4Setting, NicIpv6Setting, NicSetting,
}
use vsphere_facade.Customize.Address.{
  Address, dotted, mask_byte, is_nil, to4, v4_cidr_mask_to_dotted,
}
use vsphere_facade.Customize.Spec.{CustomizationSpec}
use vsphere_facade.Customize.Network.{
  Result, adapter_mapping, adapter_mappings, default_gateway, gateway_of, ipv6_generator,
  ipv6_generators, ipv6_of, ipv6_setting, mask_of, nic_setting, settings_of,
}

-- A result that is a value where a condition holds, and a panic where it does not.
abbrev pub Decides : {A : Type 0} → Type 0 → Result A → Type 0
Decides {A} P o = (P × ((a : A) × (o ≡ ok a))) ⊎ ((¬ P) × (o ≡ panic))

module _ {A : Type 0} where
  Decides-iff : {P Q : Type 0} (o : Result A) → (P → Q) → (Q → P) → Decides P o → Decides Q o
  Decides-iff o f g (inl (p, found)) = inl (f p, found)
  Decides-iff o f g (inr (n, e)) = inr (λ q. n (g q), e)

module _ {A B : Type 0} {P Q : Type 0} where
  Decides-bind :
      (o : Result A) (f : A → Result B)
      → Decides P o
      → ((a : A) → Decides Q (f a))
      → Decides (P × Q) (bind o f)
  Decides-bind o f (inr (n, e)) next = inr (λ both. n both.0, rw e)
  Decides-bind o f (inl (p, (a, e))) next = elim (next a) [
    | inl (q, (b, e')) ↦ inl ((p, q), (b, rw (e, e')))
    | inr (n, e') ↦ inr (λ both. n both.1, rw (e, e'))
  ]

Decides-map :
    {A B P : Type 0} (o : Result A) (f : A → B) → Decides P o → Decides P (bind o (λ a. ok (f a)))
Decides-map o f (inr (n, e)) = inr (n, rw e)
Decides-map o f (inl (p, (a, e))) = inl (p, (f a, rw e))

Decides-deref : {A : Type 0} (o : Option A) → Decides (o ≢ none) (deref o)
Decides-deref none = inr (λ n. n refl, refl)
Decides-deref (some a) = inl (λ e. cc, (a, refl))

abbrev pub Optional : {A : Type 0} → (A → Type 0) → Option A → Type 0
Optional P none = Unit
Optional P (some a) = P a

-- The length of a prefix of an address of version 4
abbrev pub InMask : ℤ → Type 0
InMask (pos n) = n ≤ 32
InMask (negsuc n) = ⊥

-- A static address of version 6 with its prefix
abbrev pub IsFull : Ipv6 → Type 0
IsFull ip = ip.static ≡ true → (ip.ip_address ≢ none) × (ip.subnet_mask ≢ none)

abbrev pub IsFullSetting : NicIpv6Setting → Type 0
IsFullSetting v6 = (v6.ipv6s ≢ none) × Optional (All IsFull) v6.ipv6s

-- The card is compared to the gateway for all cards, which is of version 4.
pub record IsCompared (parse_ip : String → Address) (global : Option GlobalIpSetting)
    (n : NicSetting) : Type 0 where
  pub settings : GlobalIpSetting
  pub common : String
  pub v4 : NicIpv4Setting
  pub address : String
  pub no_gateway : n.gateway ≡ none
  pub global_settings : global ≡ some settings
  pub common_gateway : settings.gateway ≡ some common
  pub common_v4 : is_nil (to4 (parse_ip common)) ≡ false
  pub card_v4 : n.ipv4 ≡ some v4
  pub card_address : v4.ip_address ≡ some address

abbrev pub IsComplete : (String → Address) → Option GlobalIpSetting → NicSetting → Type 0
IsComplete parse_ip global n =
    Optional InMask n.subnet_mask
    × (Optional IsFullSetting n.ipv6 × (IsCompared parse_ip global n → n.subnet_mask ≢ none))

dotted-Decides : (m : ℤ) → Decides (InMask m) (v4_cidr_mask_to_dotted m)
unfolding v4_cidr_mask_to_dotted
dotted-Decides (negsuc n) = inr (λ e. e, refl)
dotted-Decides (pos n) = elim (Bool-cases (ltb 32 n)) [
  | inl e ↦ inr (λ h. ground arith, rw e)
  | inr e ↦ inl (
    ground arith,
    (
      dotted (mask_byte n) (mask_byte (n - 8)) (mask_byte (n - 8 - 8)) (mask_byte (n - 8 - 8 - 8)),
      rw e,
    ),
  )
]

generator-Decides : (ip : Ipv6) → Decides (IsFull ip) (ipv6_generator ip)
unfolding ipv6_generator
generator-Decides ip = ground arith

generators-Decides : (ips : List Ipv6) → Decides (All IsFull ips) (ipv6_generators ips)
unfolding ipv6_generators
generators-Decides [] = inl (tt, ([], refl))
generators-Decides (ip ∷ ips) =
    Decides-bind (ipv6_generator ip) _ (generator-Decides ip)
      (λ g. Decides-map (ipv6_generators ips) _ (generators-Decides ips))

ipv6-Decides : (p : NicIpv6Setting) → Decides (IsFullSetting p) (ipv6_setting p)
unfolding ipv6_setting
ipv6-Decides p = elim (Option-cases p.ipv6s) [
  | inl e ↦ inr (λ both. both.0 e, rw e)
  | inr (ips, e) ↦ rw e (
      Decides-iff
        (bind (ipv6_generators ips) λ generators. ok (record { ip = []; gateway = p.gateways }))
        (λ full. ((λ absent. cc), full)) (λ both. both.1)
        (Decides-map (ipv6_generators ips) _ (generators-Decides ips)))
]

mask-Decides : (o : Option ℤ) → Decides (Optional InMask o) (mask_of o)
unfolding mask_of
mask-Decides none = inl (tt, ("", refl))
mask-Decides (some m) = dotted-Decides m

ipv6_of-Decides : (o : Option NicIpv6Setting) → Decides (Optional IsFullSetting o) (ipv6_of o)
unfolding ipv6_of
ipv6_of-Decides none = inl (tt, (none, refl))
ipv6_of-Decides (some v6) = Decides-map (ipv6_setting v6) some (ipv6-Decides v6)

module _ (parse_ip : String → Address) (global : Option GlobalIpSetting) where
  abbrev HasMask : NicSetting → Type 0
  HasMask n = IsCompared parse_ip global n → n.subnet_mask ≢ none

  compared-Decides :
      (n : NicSetting)
      → IsCompared parse_ip global n
      → Decides (n.subnet_mask ≢ none) (default_gateway parse_ip global n)
  unfolding default_gateway
  compared-Decides n c =
      rw (c.global_settings, c.common_gateway, c.card_v4, c.card_address, c.common_v4)
        (Decides-map (deref n.subnet_mask) _ (Decides-deref n.subnet_mask))

  default-Decides :
      (n : NicSetting) → n.gateway ≡ none → Decides (HasMask n) (default_gateway parse_ip global n)
  unfolding default_gateway
  default-Decides n no_gateway = elim (Option-cases global) [
    | inl e ↦ inl (λ c absent. cc, ([], rw e))
    | inr (settings, e) ↦ elim (Option-cases settings.gateway) [
      | inl e₁ ↦ inl (λ c absent. cc, ([], rw (e, e₁)))
      | inr (g, e₁) ↦ elim (Option-cases n.ipv4) [
        | inl e₂ ↦ inl (λ c absent. cc, ([], rw (e, e₁, e₂)))
        | inr (v4, e₂) ↦ elim (Option-cases v4.ip_address) [
          | inl e₃ ↦ inl (λ c absent. cc, ([], rw (e, e₁, e₂, e₃)))
          | inr (ip, e₃) ↦ elim (Bool-cases (is_nil (to4 (parse_ip g)))) [
            | inl e₄ ↦ inl (λ c absent. cc, ([], rw (e, e₁, e₂, e₃, e₄)))
            | inr e₄ ↦
                let c : IsCompared parse_ip global n = record {
                  settings = settings;
                  common = g;
                  v4 = v4;
                  address = ip;
                  no_gateway = no_gateway;
                  global_settings = e;
                  common_gateway = e₁;
                  common_v4 = e₄;
                  card_v4 = e₂;
                  card_address = e₃;
                } in
                Decides-iff (default_gateway parse_ip global n) (λ h _. h) (λ f. f c)
                  (compared-Decides n c)
          ]
        ]
      ]
    ]
  ]

  gateway-Decides : (n : NicSetting) → Decides (HasMask n) (gateway_of parse_ip global n)
  unfolding gateway_of
  gateway-Decides n = go n.gateway refl
    where
      go :
          (o : Option (List String))
          → n.gateway ≡ o
          → Decides
              (HasMask n)
              (elim o [ some gs ↦ ok gs | none ↦ default_gateway parse_ip global n ])
      go none e = default-Decides n e
      go (some gs) e = inl (λ c absent. cc, (gs, refl))

  mapping-Decides :
      (n : NicSetting) → Decides (IsComplete parse_ip global n) (adapter_mapping parse_ip global n)
  unfolding adapter_mapping
  mapping-Decides n = Decides-bind (mask_of n.subnet_mask) _ (mask-Decides n.subnet_mask) (λ mask.
      Decides-bind (ipv6_of n.ipv6) _ (ipv6_of-Decides n.ipv6) (λ v6.
        Decides-map (gateway_of parse_ip global n) (settings_of n mask v6) (gateway-Decides n)))

  mappings-Decides :
      (ns : List NicSetting)
      → Decides (All (IsComplete parse_ip global) ns) (adapter_mappings parse_ip global ns)
  unfolding adapter_mappings
  mappings-Decides [] = inl (tt, ([], refl))
  mappings-Decides (n ∷ ns) =
      Decides-bind (adapter_mapping parse_ip global n) _ (mapping-Decides n)
        (λ m. Decides-map (adapter_mappings parse_ip global ns) _ (mappings-Decides ns))

module _ (parse_ip : String → Address) (p : CustomizeParameter) (spec : CustomizationSpec) where
  -- nicSetting gives a specification if every card is complete: its mask is a length from 0 to 32, its
  -- setting for version 6, if it has one, has a list of addresses whose static ones have an address and
  -- a prefix, and it has a mask where its address is compared to the gateway for all cards. If a card
  -- is not complete, it panics. It never gives an error.
  pub nic_setting-Decides :
      Decides
        (All (IsComplete parse_ip p.global_ip_setting) p.nic_setting)
        (nic_setting parse_ip p spec)
  unfolding nic_setting
  nic_setting-Decides =
      Decides-map (adapter_mappings parse_ip p.global_ip_setting p.nic_setting) _
        (mappings-Decides parse_ip p.global_ip_setting p.nic_setting)
