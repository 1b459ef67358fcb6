-- ===== src/Examples/Helpers.antt =====
-- Runs of the helpers: helper/api.go, helper/disk/disk_config.go and app/utils/utils.go.
use vsphere_facade.Prelude.{
  All, List, [], arith, false, none, pos, refl, some, true, ℕ, ◌↔◌, ◌∷◌, ◌≡◌, ◌≢◌,
}
use vsphere_facade.Version.{api_version, newer}
use vsphere_facade.Version.Order.{NotAfter, newer-iff_NotAfter}
use vsphere_facade.DiskFormat.{format_mapping, get_format}
use vsphere_facade.DiskFormat.Flags.{get_format-format_mapping}
use vsphere_facade.Utils.{slice_split}
use vsphere_facade.Utils.Split.{concat, Window, slice_split-covers}

newer-iff_NotAfter_example :
    (newer (api_version (pos 6) (pos 5) (pos 3)) (pos 6) (pos 7) (pos 0) ≡ true)
    ↔ NotAfter 6 7 0 6 5 3
newer-iff_NotAfter_example =
    newer-iff_NotAfter 6 7 0 6 5 3 (omega arith) (omega arith) (omega arith) (omega arith)
      (omega arith) (omega arith)

thick_known :
    format_mapping "think"
    ≡ some (record { label = "think"; eagerly_scrub = some true; thin_provisioned = some false })
unfolding format_mapping
thick_known = refl

get_format-format_mapping_example : get_format (some true) (some false) ≡ "think"
get_format-format_mapping_example =
    get_format-format_mapping "think"
      (record { label = "think"; eagerly_scrub = some true; thin_provisioned = some false })
      thick_known

thin_label : get_format none (some true) ≢ ""
unfolding get_format
thin_label e = cc

slice_split-covers_example :
    (ws : List (List ℕ)) × (slice_split 4 (1 ∷ 2 ∷ 3 ∷ []) 2 ≡ some ws)
    × (concat ws ≡ 1 ∷ 2 ∷ 3 ∷ [])
    × All (Window 2) ws
slice_split-covers_example = slice_split-covers (1 ∷ 2 ∷ 3 ∷ []) 2 (omega arith)

-- TestSliceSplit of app/utils/utils_test.go
slice_split_run :
    slice_split {A = ℕ} 4 (1 ∷ 2 ∷ 3 ∷ []) 1 ≡ some ((1 ∷ []) ∷ (2 ∷ []) ∷ (3 ∷ []) ∷ [])
unfolding slice_split
slice_split_run = refl
