-- ===== src/Clone/LastDisk.antt =====
-- Which settings the disks of a clone get, of virtual_machine_clone.go.
use vsphere_facade.Prelude.{
  List, Option, String, [], arith, fun_ext, int_eq, map, refl, some, ℤ, ◌++◌, ◌∷◌, ◌≡◌,
}
use vsphere_facade.Version.{ApiVersion}
use vsphere_facade.Reconfig.Device.{VirtualDisk}
use vsphere_facade.Deployer.Steps.{CloneDisk, CloneParameter}
use vsphere_facade.Clone.{
  Finders, RelocateSpec, last_of, has_key, parameter_of_key, disk_locator, disk_locators,
  parse_clone_disk, clone_location,
}

-- The keys of the first, with the settings of the last.
abbrev pub with_settings_of : CloneDisk → List CloneDisk → List CloneDisk
with_settings_of last ds = map (λ (d : CloneDisk). record last { key = d.key }) ds

last_of-append : (ds : List CloneDisk) (last : CloneDisk) → last_of (ds ++ last ∷ []) ≡ some last
unfolding last_of
last_of-append [] last = refl
last_of-append (d ∷ []) last = refl
last_of-append (d ∷ e ∷ ds) last = last_of-append (e ∷ ds) last

has_key-same :
    (key : ℤ) (ds : List CloneDisk) (last : CloneDisk)
    → has_key key (ds ++ last ∷ []) ≡ has_key key (with_settings_of last ds ++ last ∷ [])
unfolding has_key
has_key-same key [] last = refl
has_key-same key (d ∷ ds) last = ground (arith, has_key-same key ds last)

parameter_of_key-same :
    (key : ℤ) (ds : List CloneDisk) (last : CloneDisk)
    → parameter_of_key (ds ++ last ∷ []) key
      ≡ parameter_of_key (with_settings_of last ds ++ last ∷ []) key
unfolding parameter_of_key
parameter_of_key-same key ds last = rw (
  has_key-same key ds last,
  last_of-append ds last,
  last_of-append (with_settings_of last ds) last,
)

module _ (f : Finders) (ds : List CloneDisk) (last : CloneDisk) where
  disk_locator-same :
      (place : Option String) (vd : VirtualDisk)
      → disk_locator f place (ds ++ last ∷ []) vd
        ≡ disk_locator f place (with_settings_of last ds ++ last ∷ []) vd
  unfolding disk_locator
  disk_locator-same place vd = rw (parameter_of_key-same vd.device.key ds last)

  disk_locators-same :
      (place : Option String) (disks : List VirtualDisk)
      → disk_locators f place (ds ++ last ∷ []) disks
        ≡ disk_locators f place (with_settings_of last ds ++ last ∷ []) disks
  unfolding disk_locators
  disk_locators-same place [] = refl
  disk_locators-same place (vd ∷ disks) =
      rw (disk_locator-same place vd, disk_locators-same place disks)

  parse_clone_disk-same :
      (disks : List VirtualDisk) (spec : RelocateSpec)
      → parse_clone_disk f (some (ds ++ last ∷ [])) disks spec
        ≡ parse_clone_disk f (some (with_settings_of last ds ++ last ∷ [])) disks spec
  unfolding parse_clone_disk
  parse_clone_disk-same disks spec = rw (disk_locators-same spec.datastore disks)

  -- A clone whose request has settings for several disks gives each of these disks the settings of the
  -- last: with the settings of the others replaced by those, the specification is the same.
  pub clone_location-last :
      (api : ApiVersion) (p : CloneParameter) (disks : List VirtualDisk)
      → clone_location api f (record p { disks = some (ds ++ last ∷ []) }) disks
        ≡ clone_location api f
            (record p { disks = some (with_settings_of last ds ++ last ∷ []) })
            disks
  unfolding clone_location
  clone_location-last api p disks = rw (fun_ext (λ s. parse_clone_disk-same disks s))
