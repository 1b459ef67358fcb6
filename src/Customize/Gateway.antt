-- ===== src/Customize/Gateway.antt =====
-- What matchGateway of virtual_machine_customize.go tests: the first bits of two addresses.
use Prim.Native.Nat.{bit_and}
use vsphere_facade.Prelude.{
  All, Bool, Bool-cases, String, [], ap, ap₂, arith, inl, inr, length, list_beq_iff, list_eq, ltb,
  nat_beq, nat_beq_iff, nat_eq, not_lt→ltb, pos, refl, suc, sym, true, zero, ℕ, ◌&&◌, ◌*◌, ◌-◌, ◌/◌,
  ◌<◌, ◌==◌, ◌^◌, ◌∙◌, ◌∷◌, ◌≡◌, ◌≤◌, ◌↔◌, ◌++◌,
}
use vsphere_facade.Customize.Address.{
  Address, cidr_mask, ip_equal, ip_mask, mask_byte, mask_bytes, mask_with, match_gateway,
  v4_in_v6_prefix,
}

-- Two lists of bytes with the same first `n` bits: the quotient of a byte forgets the bits behind them.
abbrev pub SamePrefix : ℕ → Address → Address → Type 0
SamePrefix n (a ∷ ip) (g ∷ gw) = (a / 2 ^ (8 - n) ≡ g / 2 ^ (8 - n)) × SamePrefix (n - 8) ip gw
SamePrefix n _ _ = Unit

abbrev all_below : ℕ → (ℕ → Bool) → Bool
all_below zero p = true
all_below (suc n) p = p n && all_below n p

both_true : (a b : Bool) → a && b ≡ true → (a ≡ true) × (b ≡ true)
both_true a b h = ground arith

all_below-at : (n : ℕ) (p : ℕ → Bool) (i : ℕ) → all_below n p ≡ true → i < n → p i ≡ true
all_below-at zero p i all small = ground arith
all_below-at (suc n) p i all small = elim (Bool-cases (nat_beq i n)) [
  | inl e ↦ rw ((nat_beq_iff i n).0 e) (both_true (p n) (all_below n p) all).0
  | inr e ↦ all_below-at n p i (both_true (p n) (all_below n p) all).1 (ground arith)
]

-- A masked byte is the byte without the bits behind the first `n`.
abbrev byte_masked : ℕ → ℕ → Bool
byte_masked n x =
    nat_beq (bit_and x (mask_byte n)) (x / 2 ^ (8 - n) * 2 ^ (8 - n))
    && nat_beq (bit_and x (mask_byte n) / 2 ^ (8 - n)) (x / 2 ^ (8 - n))

bytes_masked : all_below 9 (λ n. all_below 256 (byte_masked n)) ≡ true
unfolding mask_byte
bytes_masked = refl

-- Below 8 bits, and from 8 bits on, where the whole byte is kept.
byte_masked-up_to_8 : (n x : ℕ) → n ≤ 8 → x < 256 → byte_masked n x ≡ true
byte_masked-up_to_8 n x short small =
    all_below-at 256 (byte_masked n) x
      (all_below-at 9 (λ k. all_below 256 (byte_masked k)) n bytes_masked (omega (arith, short)))
      small

mask_byte-whole : (n : ℕ) → 8 ≤ n → mask_byte n ≡ mask_byte 8
unfolding mask_byte
mask_byte-whole n long = ground arith

byte_masked-all : (n x : ℕ) → x < 256 → byte_masked n x ≡ true
byte_masked-all n x small = elim (Bool-cases (ltb 8 n)) [
  | inl e ↦
      let long : 8 ≤ n = ground arith in
      let none_left : 8 - n ≡ 0 = omega (arith, long) in
      rw (mask_byte-whole n long, none_left) (byte_masked-up_to_8 8 x (ground arith) small)
  | inr e ↦ byte_masked-up_to_8 n x (ground arith) small
]

byte-masked : (n x : ℕ) → x < 256 → bit_and x (mask_byte n) ≡ x / 2 ^ (8 - n) * 2 ^ (8 - n)
byte-masked n x small = (nat_beq_iff _ _).0 (both_true _ _ (byte_masked-all n x small)).0

byte-quotient : (n x : ℕ) → x < 256 → bit_and x (mask_byte n) / 2 ^ (8 - n) ≡ x / 2 ^ (8 - n)
byte-quotient n x small = (nat_beq_iff _ _).0 (both_true _ _ (byte_masked-all n x small)).1

byte_iff :
    (n a g : ℕ)
    → a < 256
    → g < 256
    → (bit_and a (mask_byte n) ≡ bit_and g (mask_byte n)) ↔ (a / 2 ^ (8 - n) ≡ g / 2 ^ (8 - n))
byte_iff n a g small_a small_g = (
  λ e. sym (byte-quotient n a small_a) ∙ ap (λ b. b / 2 ^ (8 - n)) e ∙ byte-quotient n g small_g,
  λ e. byte-masked n a small_a ∙ ap (λ q. q * 2 ^ (8 - n)) e ∙ sym (byte-masked n g small_g),
)

abbrev pub IsBytes : Address → Type 0
IsBytes = All (λ b. b < 256)

cons_inj : {a b : ℕ} {ip gw : Address} → ◌≡◌ {A = Address} (a ∷ ip) (b ∷ gw) → (a ≡ b) × (ip ≡ gw)
cons_inj e = (cc, cc)

mask_with_iff :
    (n : ℕ) (ip gw : Address)
    → length ip ≡ length gw
    → IsBytes ip
    → IsBytes gw
    → (mask_with ip (mask_bytes (length ip) n) ≡ mask_with gw (mask_bytes (length ip) n))
      ↔ SamePrefix n ip gw
unfolding mask_with mask_bytes
mask_with_iff n [] [] same bytes_ip bytes_gw = (λ e. tt, λ e. refl)
mask_with_iff n [] (g ∷ gw) same bytes_ip bytes_gw = cc
mask_with_iff n (a ∷ ip) [] same bytes_ip bytes_gw = cc
mask_with_iff n (a ∷ ip) (g ∷ gw) same bytes_ip bytes_gw =
    let first = byte_iff n a g bytes_ip.0 bytes_gw.0 in
    let rest = mask_with_iff (n - 8) ip gw (omega (arith, same)) bytes_ip.1 bytes_gw.1 in
    (
      λ e. (first.0 (cons_inj e).0, rest.0 (cons_inj e).1),
      λ e. ap₂ (λ b bs. b ∷ bs) (first.1 e.0) (rest.1 e.1),
    )

abbrev pub mapped : ℕ → ℕ → ℕ → ℕ → Address
mapped a b c d = v4_in_v6_prefix ++ (a ∷ b ∷ c ∷ d ∷ [])

abbrev pub four : ℕ → ℕ → ℕ → ℕ → Address
four a b c d = a ∷ b ∷ c ∷ d ∷ []

module _ (parse_ip : String → Address) (a g : String) (m : ℕ) where
  match_gateway-masked :
      (a₀ a₁ a₂ a₃ g₀ g₁ g₂ g₃ : ℕ)
      → parse_ip a ≡ mapped a₀ a₁ a₂ a₃
      → parse_ip g ≡ mapped g₀ g₁ g₂ g₃
      → m ≤ 32
      → match_gateway parse_ip a (pos m) g ≡ (
          mask_with (four a₀ a₁ a₂ a₃) (mask_bytes 4 m)
          == mask_with (four g₀ g₁ g₂ g₃) (mask_bytes 4 m))
  unfolding match_gateway mask_with mask_bytes ip_equal ip_mask cidr_mask
  match_gateway-masked a₀ a₁ a₂ a₃ g₀ g₁ g₂ g₃ is_a is_g short =
      rw (is_a, is_g, not_lt→ltb m 32 short)

  -- Two addresses of version 4 match in a mask of `m` bits if and only if their first `m` bits are the
  -- same, for `m` up to 32.
  pub match_gateway-SamePrefix :
      (a₀ a₁ a₂ a₃ g₀ g₁ g₂ g₃ : ℕ)
      → parse_ip a ≡ mapped a₀ a₁ a₂ a₃
      → parse_ip g ≡ mapped g₀ g₁ g₂ g₃
      → IsBytes (four a₀ a₁ a₂ a₃)
      → IsBytes (four g₀ g₁ g₂ g₃)
      → m ≤ 32
      → (match_gateway parse_ip a (pos m) g ≡ true)
        ↔ SamePrefix m (four a₀ a₁ a₂ a₃) (four g₀ g₁ g₂ g₃)
  match_gateway-SamePrefix a₀ a₁ a₂ a₃ g₀ g₁ g₂ g₃ is_a is_g bytes_a bytes_g short =
      let masked = match_gateway-masked a₀ a₁ a₂ a₃ g₀ g₁ g₂ g₃ is_a is_g short in
      let same = mask_with_iff m (four a₀ a₁ a₂ a₃) (four g₀ g₁ g₂ g₃) refl bytes_a bytes_g in
      (
        λ e. same.0 ((list_beq_iff _ _).0 (sym masked ∙ e)),
        λ e. masked ∙ (list_beq_iff _ _).1 (same.1 e),
      )
