-- ===== src/Version/Order.antt =====
-- What `newer` of helper/api.go decides.
use vsphere_facade.Prelude.{
  add_int64-pos, arith, ltb, mul_int64-pos, not, pos, true, ℕ, ◌*◌, ◌+◌, ◌<◌, ◌^◌, ◌↔◌, ◌≡◌, ◌≤◌,
  ◌⊎◌,
}
use vsphere_facade.Version.{version, api_version, newer}

-- The version number of small parts.
pub version-pos :
    (major minor patch : ℕ)
    → major < 2 ^ 50
    → minor < 2 ^ 50
    → patch < 2 ^ 50
    → version (pos major) (pos minor) (pos patch) ≡ pos (major * 1000 + minor * 100 + patch)
unfolding version
version-pos major minor patch h k l = rw (
  mul_int64-pos major 1000 (omega arith) (omega arith),
  mul_int64-pos minor 100 (omega arith) (omega arith),
  add_int64-pos (major * 1000) (minor * 100) (omega arith),
  add_int64-pos (major * 1000 + minor * 100) patch (omega arith),
)

-- `(a, b, c)` is not after `(d, e, f)` in the order of versions.
abbrev pub NotAfter : ℕ → ℕ → ℕ → ℕ → ℕ → ℕ → Type 0
NotAfter a b c d e f = (a < d) ⊎ ((a ≡ d) × (b < e)) ⊎ ((a ≡ d) × (b ≡ e) × (c ≤ f))

newer-pos :
    (a b c d e f : ℕ)
    → a < 2 ^ 50
    → b < 2 ^ 50
    → c < 2 ^ 50
    → d < 2 ^ 50
    → e < 2 ^ 50
    → f < 2 ^ 50
    → newer (api_version (pos d) (pos e) (pos f)) (pos a) (pos b) (pos c)
      ≡ not (ltb (d * 1000 + e * 100 + f) (a * 1000 + b * 100 + c))
unfolding newer api_version
newer-pos a b c d e f ha hb hc hd he hf =
    rw (version-pos a b c ha hb hc, version-pos d e f hd he hf)

-- With major versions below 2 ^ 50, minor versions below 10 and patches below 100, on both sides,
-- `newer` is the order of versions: by the major number, then the minor, then the patch.
pub newer-iff_NotAfter :
    (a b c d e f : ℕ)
    → a < 2 ^ 50
    → d < 2 ^ 50
    → b < 10
    → e < 10
    → c < 100
    → f < 100
    → (newer (api_version (pos d) (pos e) (pos f)) (pos a) (pos b) (pos c) ≡ true)
      ↔ NotAfter a b c d e f
newer-iff_NotAfter a b c d e f ha hd hb he hc hf =
    rw (newer-pos a b c d e f ha (omega arith) (omega arith) hd (omega arith) (omega arith))
      (λ t. ground arith, λ n. ground arith)

-- A minor version of 10 or more counts as the next major version, while the numbers are below 2 ^
-- 49.
pub newer_of_minor_ten :
    (d e f : ℕ)
    → d < 2 ^ 49
    → 10 ≤ e
    → e < 2 ^ 50
    → f < 2 ^ 50
    → newer (api_version (pos d) (pos e) (pos f)) (pos (d + 1)) (pos 0) (pos 0) ≡ true
newer_of_minor_ten d e f h k l m =
    rw (newer-pos (d + 1) 0 0 d e f (omega arith) (omega arith) (omega arith) (omega arith) l m)
      (ground arith)
