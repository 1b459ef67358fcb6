-- ===== src/Customize/Address.antt =====
-- v4CIDRMaskToDotted and matchGateway of virtual_machine_customize.go, with what they use of package net.
use Prim.Native.Nat.{bit_and}
use Prim.Native.String.{◌++◌ as text_append}
use vsphere_facade.Prelude.{
  Bool, List, Outcome, String, [], bind, deref, drop, false, get_elem?, if◌then◌else◌, leb, length,
  list_eq, ltb, nat_eq, none, not, ok, pos, negsuc, some, suc, take, true, zero, ℕ, ℤ, ◌&&◌, ◌-◌,
  ◌/◌, ◌%◌, ◌==◌, ◌^◌, ◌∷◌,
}

-- net.IP and net.IPMask; nil is empty. ParseIP gives 16 bytes or nil.
abbrev pub Address : Type 0
Address = List ℕ

abbrev pub v4_in_v6_prefix : Address
v4_in_v6_prefix = 0 ∷ 0 ∷ 0 ∷ 0 ∷ 0 ∷ 0 ∷ 0 ∷ 0 ∷ 0 ∷ 0 ∷ 255 ∷ 255 ∷ []

-- IP.To4
unfoldable pub to4 : Address → Address
to4 ip =
    if length ip == 4
    then ip
    else (if (length ip == 16) && (take 12 ip == v4_in_v6_prefix) then drop 12 ip else [])

abbrev pub is_nil : Address → Bool
is_nil [] = true
is_nil (b ∷ bs) = false

-- A byte of a mask with `n` ones left to write.
unfoldable pub mask_byte : ℕ → ℕ
mask_byte n = if leb 8 n then 255 else 255 - 255 / 2 ^ n

unfoldable pub mask_bytes : ℕ → ℕ → Address
unfolding mask_byte
mask_bytes zero n = []
mask_bytes (suc l) n = mask_byte n ∷ mask_bytes l (n - 8)

-- net.CIDRMask, for 32 or 128 bits
unfoldable pub cidr_mask : ℤ → ℕ → Address
unfolding mask_bytes
cidr_mask (negsuc n) bits = []
cidr_mask (pos n) bits = if ltb bits n then [] else mask_bytes (bits / 8) n

unfoldable pub mask_with : Address → Address → Address
mask_with (a ∷ ip) (m ∷ mask) = bit_and a m ∷ mask_with ip mask
mask_with _ _ = []

-- IP.Mask, for an address that ParseIP gave
unfoldable pub ip_mask : Address → Address → Address
unfolding mask_with
ip_mask ip mask =
    let ip' =
      if (length mask == 4) && ((length ip == 16) && (take 12 ip == v4_in_v6_prefix))
      then drop 12 ip
      else ip in
    if length ip' == length mask then mask_with ip' mask else []

-- IP.Equal
unfoldable pub ip_equal : Address → Address → Bool
ip_equal ip x =
    if length ip == length x
    then ip == x
    else (if (length ip == 4) && (length x == 16)
        then (take 12 x == v4_in_v6_prefix) && (ip == drop 12 x)
        else (if (length ip == 16) && (length x == 4)
            then (take 12 ip == v4_in_v6_prefix) && (drop 12 ip == x)
            else false))

unfoldable pub match_gateway : (String → Address) → String → ℤ → String → Bool
unfolding to4 cidr_mask ip_mask ip_equal
match_gateway parse_ip a m g =
    let ip = parse_ip a in
    let mask = if not (is_nil (to4 ip)) then cidr_mask m 32 else cidr_mask m 128 in
    ip_equal (ip_mask ip mask) (ip_mask (parse_ip g) mask)

abbrev pub digits : List String
digits = "0" ∷ "1" ∷ "2" ∷ "3" ∷ "4" ∷ "5" ∷ "6" ∷ "7" ∷ "8" ∷ "9" ∷ []

abbrev pub digit : ℕ → String
digit n = elim (get_elem? digits n) [ none ↦ "" | some d ↦ d ]

-- `%d` of a byte
unfoldable pub byte_text : ℕ → String
byte_text n =
    if ltb n 10
    then digit n
    else (if ltb n 100
        then text_append (digit (n / 10)) (digit (n % 10))
        else text_append (digit (n / 100)) (text_append (digit (n / 10 % 10)) (digit (n % 10))))

abbrev pub dotted : ℕ → ℕ → ℕ → ℕ → String
dotted a b c d = text_append (byte_text a) (
    text_append "." (
      text_append (byte_text b)
        (text_append "." (text_append (byte_text c) (text_append "." (byte_text d))))))

-- `m[i]`
abbrev pub byte_at : {E : Type 0} → Address → ℕ → Outcome E ℕ
byte_at m i = deref (get_elem? m i)

unfoldable pub v4_cidr_mask_to_dotted : {E : Type 0} → ℤ → Outcome E String
unfolding cidr_mask byte_text
v4_cidr_mask_to_dotted mask =
    let m = cidr_mask mask 32 in
    bind (byte_at m 0) λ a.
      bind (byte_at m 1) λ b. bind (byte_at m 2) λ c. bind (byte_at m 3) λ d. ok (dotted a b c d)
