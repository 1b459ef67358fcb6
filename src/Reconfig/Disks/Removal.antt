-- ===== src/Reconfig/Disks/Removal.antt =====
-- Which disks removeDisk of virtual_machine_reconfig.go takes away.
use mathlib.Core.List.{Memᴰ}
use mathlib.Core.Option.{some-injective}
use vsphere_facade.Prelude.{
  All, Bool-cases, List, [], ap, arith, false, get_elem?, inl, inr, int_beq, int_beq_iff, int_eq,
  ok, pos, refl, some, subst, suc, sym, true, zero, ℕ, ℤ, ◌+◌, ◌>>=◌, ◌∙◌, ◌∷◌, ◌≡◌, ◌≢◌,
}
use vsphere_facade.Utils.{slice_contain}
use vsphere_facade.Reconfig.Device.{VirtualDisk, DeviceChange}
use vsphere_facade.Reconfig.Disks.{Step, disk_removal, remove_disks_from, remove_disk}

abbrev pub HasUnit : VirtualDisk → Type 0
HasUnit d = (un : ℤ) × (d.device.unit_number ≡ some un)

-- A disk that a request to remove `keys` takes away: it is listed, and is not the system disk.
abbrev pub IsRemoved : List ℤ → VirtualDisk → Type 0
IsRemoved keys d = (slice_contain keys d.device.key ≡ true) × (d.device.unit_number ≢ some (pos 0))

-- Each change takes away a removed disk, whose place is counted from `i`.
abbrev pub Sound : List ℤ → ℕ → List VirtualDisk → DeviceChange → Type 0
Sound keys i disks c =
    (j : ℕ) × (d : VirtualDisk) × (c ≡ disk_removal (i + j))
    × (get_elem? disks j ≡ some d)
    × IsRemoved keys d

-- Each removed disk has its change.
abbrev pub Complete : List ℤ → ℕ → List VirtualDisk → List DeviceChange → Type 0
Complete keys i disks changes =
    (j : ℕ) (d : VirtualDisk)
    → get_elem? disks j ≡ some d
    → IsRemoved keys d
    → Memᴰ (disk_removal (i + j)) changes

abbrev Exact : List ℤ → ℕ → List VirtualDisk → Step (List DeviceChange) → Type 0
Exact keys i disks r =
    (changes : List DeviceChange) × (r ≡ ok changes)
    × All (Sound keys i disks) changes
    × Complete keys i disks changes

Sound-shift :
    (keys : List ℤ) (i : ℕ) (d : VirtualDisk) (disks : List VirtualDisk)
    (changes : List DeviceChange)
    → All (Sound keys (suc i) disks) changes
    → All (Sound keys i (d ∷ disks)) changes
Sound-shift keys i d disks [] h = tt
Sound-shift keys i d disks (c ∷ changes) ((j, e, at_change, at_disk, removed), h) =
    let place : suc i + j ≡ i + suc j = omega arith in
    (
      (suc j, e, at_change ∙ ap disk_removal place, at_disk, removed),
      Sound-shift keys i d disks changes h,
    )

Exact-of_eq :
    (keys : List ℤ) (i : ℕ) (disks : List VirtualDisk) {r t : Step (List DeviceChange)}
    → t ≡ r
    → Exact keys i disks r
    → Exact keys i disks t
Exact-of_eq keys i disks p (changes, e, sound, complete) = (changes, p ∙ e, sound, complete)

-- Past a disk that is not removed the changes are those of the rest.
Exact-skip :
    (keys : List ℤ) (i : ℕ) (d : VirtualDisk) (disks : List VirtualDisk)
    {r : Step (List DeviceChange)}
    → ¬ IsRemoved keys d
    → Exact keys (suc i) disks r
    → Exact keys i (d ∷ disks) r
Exact-skip keys i d disks kept (changes, e, sound, complete) =
    (changes, e, Sound-shift keys i d disks changes sound, all_of)
  where
    all_of : Complete keys i (d ∷ disks) changes
    all_of zero d' at_disk removed =
        absurd (kept (subst (IsRemoved keys) (sym (some-injective _ _ at_disk)) removed))
    all_of (suc j) d' at_disk removed =
        let place : i + suc j ≡ suc i + j = omega arith in rw place (complete j d' at_disk removed)

-- A disk that is removed adds its change.
Exact-take :
    (keys : List ℤ) (i : ℕ) (d : VirtualDisk) (disks : List VirtualDisk)
    (r : Step (List DeviceChange))
    → IsRemoved keys d
    → Exact keys (suc i) disks r
    → Exact keys i (d ∷ disks) (r >>= λ change. ok (disk_removal i ∷ change))
Exact-take keys i d disks r removed (changes, e, sound, complete) = (
  disk_removal i ∷ changes,
  rw e,
  ((0, d, ap disk_removal here, refl, removed), Sound-shift keys i d disks changes sound),
  all_of,
)
  where
    here : i ≡ i + 0
    here = omega arith

    all_of : Complete keys i (d ∷ disks) (disk_removal i ∷ changes)
    all_of zero d' at_disk removed' = Memᴰ.head (ap disk_removal (sym here))
    all_of (suc j) d' at_disk removed' =
        let place : i + suc j ≡ suc i + j = omega arith in
        Memᴰ.tail (rw place (complete j d' at_disk removed'))

module _ (keys : List ℤ) (i : ℕ) (d : VirtualDisk) (disks : List VirtualDisk) where
  remove_system :
      d.device.unit_number ≡ some (pos 0)
      → remove_disks_from i keys (d ∷ disks) ≡ remove_disks_from (suc i) keys disks
  unfolding remove_disks_from
  remove_system h = ground arith

  remove_other :
      (un : ℤ)
      → d.device.unit_number ≡ some un
      → slice_contain keys d.device.key ≡ false
      → remove_disks_from i keys (d ∷ disks) ≡ remove_disks_from (suc i) keys disks
  unfolding remove_disks_from
  remove_other un h k = ground arith

  remove_listed :
      (un : ℤ)
      → d.device.unit_number ≡ some un
      → un ≢ pos 0
      → slice_contain keys d.device.key ≡ true
      → remove_disks_from i keys (d ∷ disks)
        ≡ (remove_disks_from (suc i) keys disks >>= λ change. ok (disk_removal i ∷ change))
  unfolding remove_disks_from
  remove_listed un h ne k = ground (arith, int_beq_iff un (pos 0))

remove_disks_from-Exact :
    (keys : List ℤ) (i : ℕ) (disks : List VirtualDisk)
    → All HasUnit disks
    → Exact keys i disks (remove_disks_from i keys disks)
remove_disks_from-Exact keys i [] h =
    ([], unfold remove_disks_from in refl, tt, λ j d at_disk r. cc)
remove_disks_from-Exact keys i (d ∷ disks) ((un, numbered), h) =
    let rest = remove_disks_from-Exact keys (suc i) disks h in
    elim (Bool-cases (int_beq un (pos 0))) [
      | inl system ↦
          let zeroth : d.device.unit_number ≡ some (pos 0) =
            numbered ∙ ap some ((int_beq_iff un (pos 0)).0 system) in
          Exact-of_eq keys i (d ∷ disks) (remove_system keys i d disks zeroth)
            (Exact-skip keys i d disks (λ r. r.1 zeroth) rest)
      | inr data_disk ↦
          let ne : un ≢ pos 0 = λ e. cc ((int_beq_iff un (pos 0)).1 e) in
          elim (Bool-cases (slice_contain keys d.device.key)) [
            | inl listed ↦
                Exact-of_eq keys i (d ∷ disks) (remove_listed keys i d disks un numbered ne listed)
                  (Exact-take keys i d disks (remove_disks_from (suc i) keys disks)
                    (listed, λ e. ne (some-injective _ _ (sym numbered ∙ e))) rest)
            | inr other ↦
                Exact-of_eq keys i (d ∷ disks) (remove_other keys i d disks un numbered other)
                  (Exact-skip keys i d disks (λ r. cc (r.0, other)) rest)
          ]
    ]

-- Where every disk has a unit number, the request succeeds. Its changes are the removals of exactly
-- the disks whose key is listed and which are not the system disk, number 0.
pub remove_disk-exact :
    (keys : List ℤ) (disks : List VirtualDisk)
    → All HasUnit disks
    → keys ≢ []
    → (changes : List DeviceChange) × (remove_disk keys disks ≡ ok changes)
      × All (Sound keys 0 disks) changes
      × Complete keys 0 disks changes
unfolding remove_disk
remove_disk-exact [] disks h ne = absurd (ne refl)
remove_disk-exact (key ∷ keys) disks h ne = remove_disks_from-Exact (key ∷ keys) 0 disks h
