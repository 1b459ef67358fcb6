-- ===== src/Reconfig/Disks/Editing.antt =====
-- What editDisk of virtual_machine_reconfig.go does to the machine's disks.
use vsphere_facade.Prelude.{
  >>=-eq-ok, Bool-cases, List, Option-cases, [], ap, arith, false, get_elem?, get_elem?-set_ne,
  get_elem?-set_self, inl, inr, int_beq_iff, int_eq, length, length-set, map, max_int32, max_int64,
  mul_int64, mul_int64-pos, nat_beq, nat_beq_iff, none, ok, pos, refl, set, some, subst, suc, sym,
  ℕ, ℤ, ◌*◌, ◌>>=◌, ◌^◌, ◌∙◌, ◌∷◌, ◌≡◌, ◌≢◌, ◌≤◌,
}
use vsphere_facade.Utils.{slice_contain}
use vsphere_facade.Utils.Slices.{slice_contain-cons_false}
use mathlib.Core.Option.{some-injective}
use vsphere_facade.Version.{ApiVersion}
use vsphere_facade.Reconfig.Parameter.{EditDiskParameter}
use vsphere_facade.Reconfig.Device.{VirtualDevice, VirtualDisk, DeviceChange}
use vsphere_facade.Reconfig.Disks.{
  disk_edit, disk_index, edited_disk, edit_disks_from, edit_disk, size_in_kb, size_in_bytes,
}

-- The sizes of a size in GB, which an int32 holds: nothing overflows, and the bytes are the KB by
-- 1024.
pub size_exact :
    (n : ℕ)
    → n ≤ max_int32
    → (size_in_kb (pos n) ≡ pos (n * 2 ^ 20))
      × (size_in_bytes (pos n) ≡ pos (n * 2 ^ 30))
      × (n * 2 ^ 30 ≤ max_int64)
unfolding size_in_kb size_in_bytes
size_exact n h =
    let one : mul_int64 (pos n) 1024 ≡ pos (n * 1024) =
      mul_int64-pos n 1024 (omega arith) (omega arith) in
    let two : mul_int64 (pos (n * 1024)) 1024 ≡ pos (n * 2 ^ 20) =
      mul_int64-pos (n * 1024) 1024 (omega arith) (omega arith) ∙ ap pos (omega arith) in
    let three : mul_int64 (pos (n * 2 ^ 20)) 1024 ≡ pos (n * 2 ^ 30) =
      mul_int64-pos (n * 2 ^ 20) 1024 (omega arith) (omega arith) ∙ ap pos (omega arith) in
    (rw (one, two), rw (one, two, three), omega arith)

-- An edit keeps the common part of the disk, its key and its unit number.
device-edited_disk :
    (api : ApiVersion) (ed : EditDiskParameter) (vd vd' : VirtualDisk)
    → edited_disk api ed vd ≡ ok vd'
    → vd'.device ≡ vd.device
unfolding edited_disk
device-edited_disk api ed vd vd' h = ground arith

-- A key that a list of keys does not contain is not its first.
named_first : (a b : ℤ) (keys : List ℤ) → a ≡ b → slice_contain (a ∷ keys) b ≡ false → ⊥
unfolding slice_contain
named_first a b keys e h = ground (arith, int_beq_iff a b)

-- The disks of the result are those given, in number, keys and unit numbers; a disk whose key no
-- edit names is as it was.
abbrev pub KeepsOthers : List EditDiskParameter → List VirtualDisk → List VirtualDisk → Type 0
KeepsOthers edits disks disks' =
    (length disks' ≡ length disks)
    × ((i : ℕ) (d : VirtualDisk)
        → get_elem? disks i ≡ some d
        → (d' : VirtualDisk) × (get_elem? disks' i ≡ some d')
          × (d'.device ≡ d.device)
          × (slice_contain (map (λ (e : EditDiskParameter). e.key) edits) d.device.key ≡ false
              → d' ≡ d))

module _ (key : ℤ) (d : VirtualDisk) (disks : List VirtualDisk) (i : ℕ) where
  disk_index_first :
      disk_index key disks ≡ none
      → disk_index key (d ∷ disks) ≡ some i
      → (i ≡ 0) × (d.device.key ≡ key)
  unfolding disk_index
  disk_index_first missing h = ground (arith, int_beq_iff d.device.key key)

  disk_index_later :
      (j : ℕ) → disk_index key disks ≡ some j → disk_index key (d ∷ disks) ≡ some i → i ≡ suc j
  unfolding disk_index
  disk_index_later j found h = ground arith

-- The place that diskMap gives for a key holds a disk with that key.
abbrev HasKeyAt : ℤ → List VirtualDisk → ℕ → Type 0
HasKeyAt key disks i = (d : VirtualDisk) × (get_elem? disks i ≡ some d) × (d.device.key ≡ key)

disk_index-HasKeyAt :
    (key : ℤ) (disks : List VirtualDisk) (i : ℕ)
    → disk_index key disks ≡ some i
    → HasKeyAt key disks i
disk_index-HasKeyAt key [] i h = unfold disk_index in cc
disk_index-HasKeyAt key (d ∷ disks) i h = elim (Option-cases (disk_index key disks)) [
  | inl missing ↦
      let (first, same) = disk_index_first key d disks i missing h in rw first (d, refl, same)
  | inr (j, found) ↦
      rw (disk_index_later key d disks i j found h) (disk_index-HasKeyAt key disks j found)
]

-- The two lists have the same devices, one by one.
abbrev SameDevices : List VirtualDisk → List VirtualDisk → Type 0
SameDevices keys disks =
    (i : ℕ) (d : VirtualDisk)
    → get_elem? keys i ≡ some d
    → (d' : VirtualDisk) × (get_elem? disks i ≡ some d') × (d'.device ≡ d.device)

SameDevices-set :
    (keys disks : List VirtualDisk) (i : ℕ) (vd vd' : VirtualDisk)
    → SameDevices keys disks
    → get_elem? disks i ≡ some vd
    → vd'.device ≡ vd.device
    → SameDevices keys (set disks i vd')
SameDevices-set keys disks i vd vd' same at_disk kept k d at_key =
    let (d', at_k, dev) = same k d at_key in
    elim (Bool-cases (nat_beq i k)) [
      | inl here ↦
          let e : i ≡ k = (nat_beq_iff i k).0 here in
          let e' : vd ≡ d' = some-injective _ _ (sym at_disk ∙ rw e at_k) in
          (
            vd',
            subst (λ n. get_elem? (set disks i vd') n ≡ some vd') e
                (get_elem?-set_self disks i vd' at_disk),
            kept ∙ ap (λ (v : VirtualDisk). v.device) e' ∙ dev,
          )
      | inr there ↦
          let ne : i ≢ k = λ e. cc ((nat_beq_iff i k).1 e) in
          (d', get_elem?-set_ne disks i k vd' ne ∙ at_k, dev)
    ]

abbrev keys_of : List EditDiskParameter → List ℤ
keys_of edits = map (λ (e : EditDiskParameter). e.key) edits

abbrev KeptAt : List EditDiskParameter → List VirtualDisk → ℕ → VirtualDisk → Type 0
KeptAt edits disks' i d =
    (d' : VirtualDisk) × (get_elem? disks' i ≡ some d')
    × (d'.device ≡ d.device)
    × (slice_contain (keys_of edits) d.device.key ≡ false → d' ≡ d)

-- One edit that found its disk, and then the others.
KeptAt-edited :
    (ed : EditDiskParameter) (edits : List EditDiskParameter) (disks disks' : List VirtualDisk)
    (i : ℕ) (vd vd' : VirtualDisk)
    → get_elem? disks i ≡ some vd
    → vd.device.key ≡ ed.key
    → vd'.device ≡ vd.device
    → KeepsOthers edits (set disks i vd') disks'
    → (k : ℕ) (d : VirtualDisk) → get_elem? disks k ≡ some d
    → KeptAt (ed ∷ edits) disks' k d
KeptAt-edited ed edits disks disks' i vd vd' at_disk keyed kept (size, keeps) k d at_k =
    elim (Bool-cases (nat_beq i k)) [
      | inl here ↦
          let e : i ≡ k = (nat_beq_iff i k).0 here in
          let e' : vd ≡ d = some-injective _ _ (sym at_disk ∙ rw e at_k) in
          let (d', at_d', dev, same) = keeps k vd' (
            subst (λ n. get_elem? (set disks i vd') n ≡ some vd') e
              (get_elem?-set_self disks i vd' at_disk)) in
          (
            d',
            at_d',
            dev ∙ kept ∙ ap (λ (v : VirtualDisk). v.device) e',
            λ unnamed. absurd (
                named_first ed.key d.device.key (keys_of edits)
                  (sym keyed ∙ ap (λ (v : VirtualDisk). v.device.key) e') unnamed),
          )
      | inr there ↦
          let ne : i ≢ k = λ e. cc ((nat_beq_iff i k).1 e) in
          let (d', at_d', dev, same) = keeps k d (get_elem?-set_ne disks i k vd' ne ∙ at_k) in
          (
            d',
            at_d',
            dev,
            λ unnamed.
                same (slice_contain-cons_false ed.key d.device.key (keys_of edits) unnamed).1,
          )
    ]

module _ (api : ApiVersion) (keys disks : List VirtualDisk) (ed : EditDiskParameter)
    (edits : List EditDiskParameter) where
  edit_missing :
      disk_index ed.key keys ≡ none
      → edit_disks_from api keys disks (ed ∷ edits) ≡ edit_disks_from api keys disks edits
  unfolding edit_disks_from
  edit_missing h = rw (h, edit_disks_from)

  edit_found :
      (i : ℕ) (vd : VirtualDisk)
      → disk_index ed.key keys ≡ some i
      → get_elem? disks i ≡ some vd
      → edit_disks_from api keys disks (ed ∷ edits) ≡ (
          edited_disk api ed vd >>= λ vd'.
          edit_disks_from api keys (set disks i vd') edits >>= λ r. ok (r.0, disk_edit i ed ∷ r.1))
  unfolding edit_disks_from
  edit_found i vd h k = rw (h, edit_disks_from) (rw k)

edit_disks_from-KeepsOthers :
    (api : ApiVersion) (keys disks : List VirtualDisk) (edits : List EditDiskParameter)
    (disks' : List VirtualDisk) (changes : List DeviceChange)
    → SameDevices keys disks
    → edit_disks_from api keys disks edits ≡ ok (disks', changes)
    → KeepsOthers edits disks disks'
edit_disks_from-KeepsOthers api keys disks [] disks' changes same h =
    let e : disks ≡ disks' = unfold edit_disks_from in cc in
    rw (← e) (refl, λ i d at_i. (d, at_i, refl, λ _. refl))
edit_disks_from-KeepsOthers api keys disks (ed ∷ edits) disks' changes same h =
    elim (Option-cases (disk_index ed.key keys)) [
      | inl missing ↦
          let (size, keeps) =
            edit_disks_from-KeepsOthers api keys disks edits disks' changes same
              (sym (edit_missing api keys disks ed edits missing) ∙ h) in
          (
            size,
            λ i d at_i.
                let (d', at_i', dev, still) = keeps i d at_i in
                (
                  d',
                  at_i',
                  dev,
                  λ unnamed.
                      still
                        (slice_contain-cons_false ed.key d.device.key (keys_of edits) unnamed).1,
                ),
          )
      | inr (i, found) ↦
          let (d, at_key, keyed) = disk_index-HasKeyAt ed.key keys i found in
          let (vd, at_disk, dev) = same i d at_key in
          let (vd', edited, rest) =
            >>=-eq-ok (edited_disk api ed vd) _
              (sym (edit_found api keys disks ed edits i vd found at_disk) ∙ h) in
          let (r, later, done) =
            >>=-eq-ok (edit_disks_from api keys (set disks i vd') edits) _ rest in
          let kept = device-edited_disk api ed vd vd' edited in
          let e : r.0 ≡ disks' = cc in
          let (size, keeps) =
            edit_disks_from-KeepsOthers api keys (set disks i vd') edits r.0 r.1
              (SameDevices-set keys disks i vd vd' same at_disk kept) later in
          (
            rw (← e) (size ∙ length-set disks i vd'),
            rw (← e) (
                KeptAt-edited ed edits disks r.0 i vd vd' at_disk
                  (ap (λ (v : VirtualDevice). v.key) dev ∙ keyed) kept (size, keeps)),
          )
    ]

-- A request that succeeds leaves as many disks, each with its key and its unit number. A disk whose
-- key no edit names is as it was in all else too.
pub edit_disk-KeepsOthers :
    (api : ApiVersion) (edits : List EditDiskParameter) (disks disks' : List VirtualDisk)
    (changes : List DeviceChange)
    → edit_disk api edits disks ≡ ok (disks', changes)
    → KeepsOthers edits disks disks'
unfolding edit_disk
edit_disk-KeepsOthers api edits disks disks' changes h =
    edit_disks_from-KeepsOthers api disks disks edits disks' changes (λ i d at_i. (d, at_i, refl)) h
