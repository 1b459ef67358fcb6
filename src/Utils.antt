-- ===== src/Utils.antt =====
-- app/utils/utils.go: the helpers on slices and on pointers that may be nil.
-- A slice whose elements have one type is a `List`; a pointer is an `Option`.
pub mod Slices
pub mod Split
use vsphere_facade.Prelude.{
  ℕ, zero, suc, ◌+◌, ◌-◌, Bool, true, false, not, Option, none, some, List, [], ◌∷◌, length, take,
  drop, ltb, ◌==◌, Eq, if◌then◌else◌, map, ◌++◌,
}

-- SliceContain: a nil slice is an empty one, and both contain nothing.
unfoldable pub slice_contain {ℓ} : {A : Type ℓ} ⦃e : Eq A⦄ → List A → A → Bool
slice_contain [] elem = false
slice_contain (x ∷ values) elem = if x == elem then true else slice_contain values elem

module _ {ℓ} {A : Type ℓ} where
  -- The end of the window that starts at `s`.
  window_end : List A → ℕ → ℕ → ℕ
  window_end src len s = if ltb (length src) (s + len) then length src else s + len

  -- The loop of SliceSplit at the start index `s`: each round takes the window from `s` to `e`.
  -- `none` means that the fuel ran out before the loop ended.
  split_from : ℕ → List A → ℕ → ℕ → Option (List (List A))
  split_from zero src len s = none
  split_from (suc fuel) src len s =
      let e = window_end src len s in
      let rest = split_from fuel src len e in
      if ltb s (length src)
      then elim rest [ none ↦ none | some ws ↦ some (take (e - s) (drop s src) ∷ ws) ]
      else some []

  -- SliceSplit for a window length that is not negative.
  unfoldable pub slice_split : ℕ → List A → ℕ → Option (List (List A))
  unfolding split_from window_end
  slice_split fuel src len = split_from fuel src len 0

  -- IsNil of a pointer.
  unfoldable pub is_nil : Option A → Bool
  is_nil none = true
  is_nil (some _) = false

  first_not_nil : List (Option A) → Option A
  unfolding is_nil
  first_not_nil [] = none
  first_not_nil (o ∷ others) = if not (is_nil o) then o else first_not_nil others

  -- NilNext: the first of its arguments that is not nil.
  unfoldable pub nil_next : Option A → List (Option A) → Option A
  unfolding is_nil first_not_nil
  nil_next t others = if is_nil t then first_not_nil others else t

  -- IsAllNil
  unfoldable pub is_all_nil : List (Option A) → Bool
  unfolding is_nil
  is_all_nil [] = true
  is_all_nil (i ∷ l) = if not (is_nil i) then false else is_all_nil l

  -- HasNil
  unfoldable pub has_nil : List (Option A) → Bool
  unfolding is_nil
  has_nil [] = false
  has_nil (i ∷ l) = if is_nil i then true else has_nil l

  -- NoNil
  unfoldable pub no_nil : List (Option A) → Bool
  unfolding is_nil
  no_nil [] = true
  no_nil (i ∷ l) = if is_nil i then false else no_nil l

  -- HasNoneNil
  unfoldable pub has_none_nil : List (Option A) → Bool
  unfolding is_nil
  has_none_nil [] = false
  has_none_nil (i ∷ l) = if not (is_nil i) then true else has_none_nil l
