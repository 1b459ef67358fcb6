-- ===== src/DiskFormat.antt =====
-- helper/disk/disk_config.go: the formats of a virtual disk and the pair of flags that each stands for.
pub mod Flags
use vsphere_facade.Prelude.{
  Bool, List, Option, String, [], false, if◌then◌else◌, none, not, some, string_eq, true, ◌&&◌,
  ◌==◌, ◌||◌, ◌∷◌,
}

abbrev pub format_thin : String
format_thin = "thin"

abbrev pub format_flat : String
format_flat = "flat"

abbrev pub format_think : String
format_think = "think"

abbrev pub format_native_think : String
format_native_think = "nativeThink"

pub record Format : Type 0 where
  pub label : String
  pub eagerly_scrub : Option Bool
  pub thin_provisioned : Option Bool

-- Formats, as `init` fills it
unfoldable pub formats : List Format
formats =
    record { label = format_thin; eagerly_scrub = none; thin_provisioned = some true }
    ∷ record { label = format_flat; eagerly_scrub = none; thin_provisioned = some false }
    ∷ record { label = format_think; eagerly_scrub = some true; thin_provisioned = some false }
    ∷ record { label = format_native_think; eagerly_scrub = none; thin_provisioned = none }
    ∷ []

with_label : String → List Format → Option Format
with_label name [] = none
with_label name (f ∷ fs) = if f.label == name then some f else with_label name fs

-- FormatMapping: each format under its label; another key gives nil.
unfoldable pub format_mapping : String → Option Format
unfolding with_label formats
format_mapping name = with_label name formats

abbrev is_true : Option Bool → Bool
is_true (some b) = b
is_true none = false

abbrev is_false : Option Bool → Bool
is_false (some b) = not b
is_false none = false

abbrev is_nil : Option Bool → Bool
is_nil none = true
is_nil (some b) = false

unfoldable pub get_format : Option Bool → Option Bool → String
get_format eagerly_scrub thin_provisioned =
    if is_nil eagerly_scrub && is_true thin_provisioned
    then format_thin
    else if is_nil eagerly_scrub && is_false thin_provisioned
    then format_flat
    else if is_true eagerly_scrub && is_false thin_provisioned
    then format_think
    else if is_nil eagerly_scrub && is_nil thin_provisioned
    then format_native_think
    else ""

unfoldable pub get_formats : String → List String
get_formats datastore_type =
    if datastore_type == "NFS" || datastore_type == "NFS41"
    then format_thin ∷ []
    else if datastore_type == "VVOL"
    then format_thin ∷ format_native_think ∷ []
    else if datastore_type == "VSAN"
    then []
    else if datastore_type == "VMFS"
    then format_thin ∷ format_flat ∷ format_native_think ∷ []
    else []
