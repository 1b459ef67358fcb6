-- ===== src/DiskFormat/Flags.antt =====
-- Labels and flags of helper/disk/disk_config.go determine one another.
use vsphere_facade.Prelude.{
  Bool, Option, String, arith, eq_iff, false, none, refl, some, string_eq, true, ◌≡◌, ◌≢◌,
}
use vsphere_facade.DiskFormat.{Format, format_mapping, get_format}

-- The flags of a format that the mapping holds are read back as the label of that format.
pub get_format-format_mapping :
    (name : String) (f : Format)
    → format_mapping name ≡ some f
    → get_format f.eagerly_scrub f.thin_provisioned ≡ name
unfolding format_mapping get_format
get_format-format_mapping name f h =
    ground (
      arith,
      eq_iff "thin" name,
      eq_iff "flat" name,
      eq_iff "think" name,
      eq_iff "nativeThink" name,
    )

-- A pair of flags that has a label is the pair that the mapping holds under the label.
pub format_mapping-get_format :
    (scrub thin : Option Bool)
    → get_format scrub thin ≢ ""
    → format_mapping (get_format scrub thin)
      ≡ some
          (record { label = get_format scrub thin; eagerly_scrub = scrub; thin_provisioned = thin })
unfolding format_mapping get_format
format_mapping-get_format none none h = refl
format_mapping-get_format none (some true) h = refl
format_mapping-get_format none (some false) h = refl
format_mapping-get_format (some true) none h = absurd (h refl)
format_mapping-get_format (some false) none h = absurd (h refl)
format_mapping-get_format (some true) (some true) h = absurd (h refl)
format_mapping-get_format (some true) (some false) h = refl
format_mapping-get_format (some false) (some true) h = absurd (h refl)
format_mapping-get_format (some false) (some false) h = absurd (h refl)
