-- ===== src/Reconfig/Units/Lowest.antt =====
-- The unit numbers that generateUnitNum of virtual_machine_reconfig.go finds are the lowest free ones.
use vsphere_facade.Prelude.{
  Bool-cases, List, Option, [], ap, arith, false, if◌then◌else◌, inc_int32, inl, inr, int_eq, leb,
  length, length-append, max_int32, nat_beq, nat_beq_iff, negsuc, pos, refl, some, suc, true, zero,
  ℕ, ℤ, ◌+◌, ◌-◌, ◌<◌, ◌^◌, ◌∷◌, ◌≡◌, ◌≤◌,
}
use vsphere_facade.Utils.{slice_contain}
use vsphere_facade.Reconfig.Device.{VirtualDevice}
use vsphere_facade.Reconfig.Units.{
  DeviceType, disk, nic, used_numbers, start_number, with_reserved, collect, unit_fuel,
  generate_unit_num,
}

-- `us` are the lowest numbers from `n` on that are not in `used`, in order: each is free, and all
-- between it and the one before it are used.
abbrev pub LowestFree : List ℤ → ℕ → List ℤ → Type 0
LowestFree used n [] = Unit
LowestFree used n (negsuc m ∷ us) = ⊥
LowestFree used n (pos m ∷ us) =
    (n ≤ m)
    × (slice_contain used (pos m) ≡ false)
    × ((k : ℕ) → n ≤ k → k < m → slice_contain used (pos k) ≡ true)
    × LowestFree used (m + 1) us

-- How many of the used numbers are `n` or more.
above : List ℤ → ℕ → ℕ
above [] n = 0
above (pos m ∷ used) n = if leb n m then suc (above used n) else above used n
above (negsuc m ∷ used) n = above used n

above-le-length : (used : List ℤ) (n : ℕ) → above used n ≤ length used
unfolding above
above-le-length [] n = omega arith
above-le-length (pos m ∷ used) n = ground (arith, above-le-length used n)
above-le-length (negsuc m ∷ used) n = omega (arith, above-le-length used n)

above_mono : (used : List ℤ) (n : ℕ) → above used (n + 1) ≤ above used n
unfolding above
above_mono [] n = omega arith
above_mono (pos m ∷ used) n = ground (arith, above_mono used n)
above_mono (negsuc m ∷ used) n = omega (arith, above_mono used n)

above-lt_of_contain :
    (used : List ℤ) (n : ℕ) → slice_contain used (pos n) ≡ true → above used (n + 1) < above used n
unfolding above slice_contain
above-lt_of_contain [] n h = cc
above-lt_of_contain (pos m ∷ used) n h =
    ground (arith, above-lt_of_contain used n, above_mono used n)
above-lt_of_contain (negsuc m ∷ used) n h = ground (arith, above-lt_of_contain used n)

-- A result with `missing` numbers, the lowest free ones from `n` on.
abbrev Found : List ℤ → ℕ → ℕ → Option (List ℤ) → Type 0
Found used missing n r =
    (us : List ℤ) × (r ≡ some us) × (length us ≡ missing) × LowestFree used n us

-- A number that is used may be passed.
LowestFree-pass :
    (used : List ℤ) (n : ℕ) (us : List ℤ)
    → slice_contain used (pos n) ≡ true
    → LowestFree used (n + 1) us
    → LowestFree used n us
LowestFree-pass used n [] h l = tt
LowestFree-pass used n (negsuc m ∷ us) h l = l
LowestFree-pass used n (pos m ∷ us) h (le, free, between, rest) = (
  omega arith,
  free,
  λ k from to. elim (Bool-cases (nat_beq n k)) [
    | inl same ↦ rw (← (nat_beq_iff n k).0 same) h
    | inr other ↦ between k (ground arith) to
  ],
  rest,
)

inc_int32-pos : (n : ℕ) → n < max_int32 → inc_int32 (pos n) ≡ pos (n + 1)
inc_int32-pos n h = ground arith

collect-Found :
    (fuel : ℕ) (used : List ℤ) (missing n : ℕ)
    → missing + above used n ≤ fuel
    → n + missing + above used n < max_int32
    → Found used missing n (collect fuel used missing (pos n))
unfolding collect
collect-Found zero used zero n f w = ([], refl, refl, tt)
collect-Found (suc fuel) used zero n f w = ([], refl, refl, tt)
collect-Found zero used (suc missing) n f w = absurd (omega arith)
collect-Found (suc fuel) used (suc missing) n f w = elim (Bool-cases (slice_contain used (pos n))) [
  | inl taken ↦
      let fewer = above-lt_of_contain used n taken in
      let (us, found, size, low) =
        collect-Found fuel used (suc missing) (n + 1) (omega arith) (omega arith) in
      (
        us,
        rw (taken, inc_int32-pos n (omega arith)) found,
        size,
        LowestFree-pass used n us taken low,
      )
  | inr free ↦
      let fewer = above_mono used n in
      let (us, found, size, low) =
        collect-Found fuel used missing (n + 1) (omega arith) (omega arith) in
      (
        pos n ∷ us,
        rw (free, inc_int32-pos n (omega arith), found),
        ap suc size,
        (omega arith, free, λ k from to. absurd (omega arith), low),
      )
]

length-used_numbers :
    (devices : List VirtualDevice) → length (used_numbers devices) ≤ length devices
unfolding used_numbers
length-used_numbers [] = omega arith
length-used_numbers (d ∷ devices) = ground (arith, length-used_numbers devices)

-- The numbers that are taken when the search begins, number 7 with them for a disk.
abbrev pub taken_numbers : List VirtualDevice → DeviceType → List ℤ
taken_numbers devices device_type = with_reserved device_type (used_numbers devices)

length-taken_numbers :
    (devices : List VirtualDevice) (t : DeviceType)
    → length (taken_numbers devices t) ≤ length devices + 1
unfolding with_reserved
length-taken_numbers devices disk =
    omega (arith, length-append (used_numbers devices) (pos 7 ∷ []), length-used_numbers devices)
length-taken_numbers devices nic = omega (arith, length-used_numbers devices)

abbrev pub first_number : DeviceType → ℕ
first_number disk = 1
first_number nic = 7

-- While fewer than 2 ^ 31 - 16 numbers are asked for or in use, the search ends within its fuel with
-- as many numbers as were asked for, and they are the lowest free ones from the first number on.
pub generate_unit_num-LowestFree :
    (devices : List VirtualDevice) (t : DeviceType) (cnt : ℕ)
    → cnt + length devices < 2 ^ 31 - 16
    → (us : List ℤ) × (generate_unit_num devices t cnt ≡ some us)
      × (length us ≡ cnt)
      × LowestFree (taken_numbers devices t) (first_number t) us
unfolding generate_unit_num start_number unit_fuel
generate_unit_num-LowestFree devices disk cnt h =
    let size = length-taken_numbers devices disk in
    let few = above-le-length (taken_numbers devices disk) 1 in
    collect-Found (unit_fuel devices cnt) (taken_numbers devices disk) cnt 1 (omega arith)
      (omega arith)
generate_unit_num-LowestFree devices nic cnt h =
    let size = length-taken_numbers devices nic in
    let few = above-le-length (taken_numbers devices nic) 7 in
    collect-Found (unit_fuel devices cnt) (taken_numbers devices nic) cnt 7 (omega arith)
      (omega arith)
